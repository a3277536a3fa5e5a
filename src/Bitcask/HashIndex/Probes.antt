-- ===== src/Bitcask/HashIndex/Probes.antt =====
-- The loops over the slots: what they find, and what a new entry changes.
use in_memory_db.Base.{
  ℕ, zero, suc, ◌<◌, ◌≡◌, refl, ap, ap₂, subst, sym, ◌∙◌, List, [], ◌∷◌, length, length-set, set,
  Bool, true, false, Bool-cases, ◌==◌, ==_iff, Option, none, some, is_some, ◌⊎◌, inl, inr, arith,
}
use in_memory_db.Bitcask.HashIndex.{
  Slot, vacant, tombstone, live, LiveSlot, slot_at, next_slot, matches, found, target, full, reused,
  find_slot, probe_slot,
}
use in_memory_db.Bitcask.HashIndex.KeyArena.{Arena}

pub slot_at-set_same :
    (slots : List Slot) (i : ℕ) (v : Slot) → i < length slots → slot_at (set slots i v) i ≡ v
unfolding slot_at
slot_at-set_same [] i v h = absurd (omega arith)
slot_at-set_same (s ∷ slots) zero v h = refl
slot_at-set_same (s ∷ slots) (suc i) v h = slot_at-set_same slots i v (omega arith)

pub slot_at-set_other :
    (slots : List Slot) (i j : ℕ) (v : Slot)
    → (i == j) ≡ false
    → slot_at (set slots i v) j ≡ slot_at slots j
unfolding slot_at
slot_at-set_other [] i j v h = refl
slot_at-set_other (s ∷ slots) zero zero v h = absurd (ground arith)
slot_at-set_other (s ∷ slots) zero (suc j) v h = refl
slot_at-set_other (s ∷ slots) (suc i) zero v h = refl
slot_at-set_other (s ∷ slots) (suc i) (suc j) v h = slot_at-set_other slots i j v (ground arith)

pub next_slot-set :
    (slots : List Slot) (i j : ℕ) (v : Slot) → next_slot (set slots i v) j ≡ next_slot slots j
unfolding next_slot
next_slot-set slots i j v = rw (length-set slots i v) refl

abbrev at_slot : ℕ → LiveSlot → Option (ℕ × LiveSlot)
at_slot i l = some (i, l)

pub some_pair : (i j : ℕ) (l s : LiveSlot) → at_slot i l ≡ at_slot j s → (i ≡ j) × (l ≡ s)
some_pair i j l s e =
    let fields : (i, l) ≡ (j, s) = ap (or_first (i, l)) e in
    (ap (λ (p : ℕ × LiveSlot). p.0) fields, ap (λ (p : ℕ × LiveSlot). p.1) fields)
  where
    or_first : ℕ × LiveSlot → Option (ℕ × LiveSlot) → ℕ × LiveSlot
    or_first d none = d
    or_first d (some p) = p

abbrev pub Miss : Arena → ℕ → List ℕ → Slot → Type 0
Miss a h key v = (l : LiveSlot) × (v ≡ live l) × (matches a h key l ≡ false)

abbrev pub Hit : Arena → ℕ → List ℕ → Slot → Type 0
Hit a h key v = (l : LiveSlot) × (v ≡ live l) × (matches a h key l ≡ true)

pub Slot-cases :
    (a : Arena) (h : ℕ) (key : List ℕ) (v : Slot)
    → (v ≡ vacant) ⊎ ((v ≡ tombstone) ⊎ (Miss a h key v ⊎ Hit a h key v))
Slot-cases a h key vacant = inl refl
Slot-cases a h key tombstone = inr (inl refl)
Slot-cases a h key (live l) = elim (Bool-cases (matches a h key l)) [
  | inl same ↦ inr (inr (inr (l, refl, same)))
  | inr other ↦ inr (inr (inl (l, refl, other)))
]

-- The rounds of the loops.
module _ (a : Arena) (slots : List Slot) (h : ℕ) (key : List ℕ) (i : ℕ) where
  pub find-zero : find_slot a slots h key zero i ≡ none
  unfolding find_slot
  find-zero = refl

  pub probe-zero : (r : Option ℕ) → probe_slot a slots h key zero i r ≡ full
  unfolding probe_slot
  probe-zero r = refl

module _ (a : Arena) (slots : List Slot) (h : ℕ) (key : List ℕ) (fuel i : ℕ) where
  pub find-vacant : slot_at slots i ≡ vacant → find_slot a slots h key (suc fuel) i ≡ none
  unfolding find_slot
  find-vacant is = rw (find_slot, is) refl

  pub find-tombstone :
      slot_at slots i ≡ tombstone
      → find_slot a slots h key (suc fuel) i ≡ find_slot a slots h key fuel (next_slot slots i)
  unfolding find_slot
  find-tombstone is = rw (find_slot, is) refl

  pub find-Miss :
      Miss a h key (slot_at slots i)
      → find_slot a slots h key (suc fuel) i ≡ find_slot a slots h key fuel (next_slot slots i)
  unfolding find_slot
  find-Miss (l, is, other) = rw (find_slot, is, other) refl

  pub find-Hit :
      (l : LiveSlot)
      → slot_at slots i ≡ live l
      → matches a h key l ≡ true
      → find_slot a slots h key (suc fuel) i ≡ some (i, l)
  unfolding find_slot
  find-Hit l is same = rw (find_slot, is, same) refl

  pub probe-vacant :
      (r : Option ℕ)
      → slot_at slots i ≡ vacant
      → probe_slot a slots h key (suc fuel) i r ≡ target (reused r i) (is_some r)
  unfolding probe_slot
  probe-vacant r is = rw (probe_slot, is) refl

  pub probe-tombstone :
      (r : Option ℕ)
      → slot_at slots i ≡ tombstone
      → probe_slot a slots h key (suc fuel) i r
        ≡ probe_slot a slots h key fuel (next_slot slots i) (some (reused r i))
  unfolding probe_slot
  probe-tombstone r is = rw (probe_slot, is) refl

  pub probe-Miss :
      (r : Option ℕ)
      → Miss a h key (slot_at slots i)
      → probe_slot a slots h key (suc fuel) i r
        ≡ probe_slot a slots h key fuel (next_slot slots i) r
  unfolding probe_slot
  probe-Miss r (l, is, other) = rw (probe_slot, is, other) refl

  pub probe-Hit :
      (r : Option ℕ) (l : LiveSlot)
      → slot_at slots i ≡ live l
      → matches a h key l ≡ true
      → probe_slot a slots h key (suc fuel) i r ≡ found i l
  unfolding probe_slot
  probe-Hit r l is same = rw (probe_slot, is, same) refl

module _ (a : Arena) (slots : List Slot) (h : ℕ) (key : List ℕ) where
  -- A slot that is found is a live slot of the key.
  pub find_slot_sound :
      (fuel i j : ℕ) (s : LiveSlot)
      → find_slot a slots h key fuel i ≡ some (j, s)
      → (slot_at slots j ≡ live s) × (matches a h key s ≡ true)
  find_slot_sound zero i j s e = let w = find-zero a slots h key i in absurd (cc)
  find_slot_sound (suc fuel) i j s e = elim (Slot-cases a h key (slot_at slots i)) [
    | inl is ↦ let w = find-vacant a slots h key fuel i is in absurd (cc)
    | inr (inl is) ↦
        find_slot_sound fuel (next_slot slots i) j s
          (sym (find-tombstone a slots h key fuel i is) ∙ e)
    | inr (inr (inl m)) ↦
        find_slot_sound fuel (next_slot slots i) j s (sym (find-Miss a slots h key fuel i m) ∙ e)
    | inr (inr (inr (l, is, same))) ↦
        let (eq_i, eq_s) = some_pair i j l s (sym (find-Hit a slots h key fuel i l is same) ∙ e) in
        (rw (← eq_i, ← eq_s) is, rw (← eq_s) same)
  ]

  -- A change of a slot that does not match leaves what is found.
  pub find_slot-set_other :
      (t : ℕ) (v : Slot) (fuel i j : ℕ) (s : LiveSlot)
      → ((l : LiveSlot) → slot_at slots t ≡ live l → matches a h key l ≡ false)
      → t < length slots
      → (v ≡ tombstone) ⊎ Miss a h key v
      → find_slot a slots h key fuel i ≡ some (j, s)
      → find_slot a (set slots t v) h key fuel i ≡ some (j, s)
  find_slot-set_other t v zero i j s old inside new e =
      let w = find-zero a slots h key i in absurd (cc)
  find_slot-set_other t v (suc fuel) i j s old inside new e =
      let after = set slots t v in
      let nx = ap (find_slot a after h key fuel) (next_slot-set slots t i v) in
      let ih = find_slot-set_other t v fuel (next_slot slots i) j s old inside new in
      elim (Bool-cases (t == i)) [
        | inl here ↦
            let same : t ≡ i = (==_iff t i).0 here in
            let now : slot_at after i ≡ v =
              subst (λ k. slot_at after k ≡ v) same (slot_at-set_same slots t v inside) in
            let e₁ : find_slot a slots h key fuel (next_slot slots i) ≡ some (j, s) =
              elim (Slot-cases a h key (slot_at slots i)) [
                | inl is ↦ let w = find-vacant a slots h key fuel i is in absurd (cc)
                | inr (inl is) ↦ sym (find-tombstone a slots h key fuel i is) ∙ e
                | inr (inr (inl m)) ↦ sym (find-Miss a slots h key fuel i m) ∙ e
                | inr (inr (inr (l, is, hit))) ↦
                    let no_hit = old l (ap (slot_at slots) same ∙ is) in absurd (cc)
              ] in
            elim new [
              | inl dead ↦ find-tombstone a after h key fuel i (now ∙ dead) ∙ (nx ∙ ih e₁)
              | inr (l, is_l, other) ↦
                  find-Miss a after h key fuel i (l, now ∙ is_l, other) ∙ (nx ∙ ih e₁)
            ]
        | inr apart ↦
            let now = slot_at-set_other slots t i v apart in
            elim (Slot-cases a h key (slot_at slots i)) [
              | inl is ↦ let w = find-vacant a slots h key fuel i is in absurd (cc)
              | inr (inl is) ↦
                  find-tombstone a after h key fuel i (now ∙ is)
                  ∙ (nx ∙ ih (sym (find-tombstone a slots h key fuel i is) ∙ e))
              | inr (inr (inl (l, is, other))) ↦
                  find-Miss a after h key fuel i (l, now ∙ is, other)
                  ∙ (nx ∙ ih (sym (find-Miss a slots h key fuel i (l, is, other)) ∙ e))
              | inr (inr (inr (l, is, hit))) ↦
                  find-Hit a after h key fuel i l (now ∙ is) hit
                  ∙ (sym (find-Hit a slots h key fuel i l is hit) ∙ e)
            ]
      ]

  -- The probes of `put` find what `find_slot` finds.
  pub probe_slot-found :
      (fuel i : ℕ) (r : Option ℕ) (j : ℕ) (s : LiveSlot)
      → probe_slot a slots h key fuel i r ≡ found j s
      → find_slot a slots h key fuel i ≡ some (j, s)
  probe_slot-found zero i r j s e = let w = probe-zero a slots h key i r in absurd (cc)
  probe_slot-found (suc fuel) i r j s e = elim (Slot-cases a h key (slot_at slots i)) [
    | inl is ↦ let w = probe-vacant a slots h key fuel i r is in absurd (cc)
    | inr (inl is) ↦
        find-tombstone a slots h key fuel i is
        ∙ probe_slot-found fuel (next_slot slots i) (some (reused r i)) j s
            (sym (probe-tombstone a slots h key fuel i r is) ∙ e)
    | inr (inr (inl m)) ↦
        find-Miss a slots h key fuel i m
        ∙ probe_slot-found fuel (next_slot slots i) r j s
            (sym (probe-Miss a slots h key fuel i r m) ∙ e)
    | inr (inr (inr (l, is, hit))) ↦
        let eq : found i l ≡ found j s = sym (probe-Hit a slots h key fuel i r l is hit) ∙ e in
        let eq_i : i ≡ j = cc in
        let eq_l : l ≡ s = cc in
        find-Hit a slots h key fuel i l is hit
        ∙ ap₂ (λ (k : ℕ) (x : LiveSlot). some (k, x)) eq_i eq_l
  ]

  pub probe_slot_target :
      (fuel i : ℕ) (r : Option ℕ) (t : ℕ) (b : Bool)
      → probe_slot a slots h key fuel i r ≡ target t b
      → find_slot a slots h key fuel i ≡ none
  probe_slot_target zero i r t b e = let w = probe-zero a slots h key i r in absurd (cc)
  probe_slot_target (suc fuel) i r t b e = elim (Slot-cases a h key (slot_at slots i)) [
    | inl is ↦ find-vacant a slots h key fuel i is
    | inr (inl is) ↦
        find-tombstone a slots h key fuel i is
        ∙ probe_slot_target fuel (next_slot slots i) (some (reused r i)) t b
            (sym (probe-tombstone a slots h key fuel i r is) ∙ e)
    | inr (inr (inl m)) ↦
        find-Miss a slots h key fuel i m
        ∙ probe_slot_target fuel (next_slot slots i) r t b
            (sym (probe-Miss a slots h key fuel i r m) ∙ e)
    | inr (inr (inr (l, is, hit))) ↦
        let w = probe-Hit a slots h key fuel i r l is hit in absurd (cc)
  ]

  -- A new location in the slot that is found.
  pub find_slot-set_hit :
      (s' : LiveSlot) (fuel i t : ℕ) (s : LiveSlot)
      → t < length slots
      → matches a h key s' ≡ true
      → find_slot a slots h key fuel i ≡ some (t, s)
      → find_slot a (set slots t (live s')) h key fuel i ≡ some (t, s')
  find_slot-set_hit s' zero i t s inside mine e = let w = find-zero a slots h key i in absurd (cc)
  find_slot-set_hit s' (suc fuel) i t s inside mine e =
      let after = set slots t (live s') in
      let nx = ap (find_slot a after h key fuel) (next_slot-set slots t i (live s')) in
      let ih = find_slot-set_hit s' fuel (next_slot slots i) t s inside mine in
      elim (Bool-cases (t == i)) [
        | inl here ↦
            let same : t ≡ i = (==_iff t i).0 here in
            subst (λ k. find_slot a after h key (suc fuel) k ≡ some (t, s')) same
              (find-Hit a after h key fuel t s' (slot_at-set_same slots t (live s') inside) mine)
        | inr apart ↦
            let now = slot_at-set_other slots t i (live s') apart in
            elim (Slot-cases a h key (slot_at slots i)) [
              | inl is ↦ let w = find-vacant a slots h key fuel i is in absurd (cc)
              | inr (inl is) ↦
                  find-tombstone a after h key fuel i (now ∙ is)
                  ∙ (nx ∙ ih (sym (find-tombstone a slots h key fuel i is) ∙ e))
              | inr (inr (inl (l, is, other))) ↦
                  find-Miss a after h key fuel i (l, now ∙ is, other)
                  ∙ (nx ∙ ih (sym (find-Miss a slots h key fuel i (l, is, other)) ∙ e))
              | inr (inr (inr (l, is, hit))) ↦
                  let (eq, _) =
                    some_pair i t l s (sym (find-Hit a slots h key fuel i l is hit) ∙ e) in
                  let here = (==_iff t i).1 (sym eq) in absurd (cc)
            ]
      ]
