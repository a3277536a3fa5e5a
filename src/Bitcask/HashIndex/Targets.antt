-- ===== src/Bitcask/HashIndex/Targets.antt =====
-- The slots that a new entry takes, and that one is reached when a slot is vacant.
use in_memory_db.Base.{
  ℕ, zero, suc, ◌<◌, ◌≡◌, ◌≢◌, refl, ap, sym, ◌∙◌, List, length, set, Bool, true, false, Bool-cases,
  ◌==◌, ==_iff, Option, none, some, ◌⊎◌, inl, inr, arith,
}
use in_memory_db.Bitcask.HashIndex.{
  Slot, vacant, tombstone, live, LiveSlot, slot_at, next_slot, matches, target, full, reused,
  find_slot, probe_slot, vacant_slot,
}
use in_memory_db.Bitcask.HashIndex.KeyArena.{Arena}
use in_memory_db.Bitcask.HashIndex.Probes.{
  slot_at-set_same, slot_at-set_other, next_slot-set, Slot-cases, find-tombstone, find-Miss,
  find-Hit, probe-zero, probe-vacant, probe-tombstone, probe-Miss, probe-Hit,
}

-- A slot that `put` takes: a tombstone, or a vacant one.
abbrev pub Free : List Slot → ℕ → Bool → Type 0
Free slots t b =
    ((slot_at slots t ≡ tombstone) × (b ≡ true)) ⊎ ((slot_at slots t ≡ vacant) × (b ≡ false))

-- The slot `m` probes on.
unfoldable pub walk : List Slot → ℕ → ℕ → ℕ
walk slots zero i = i
walk slots (suc m) i = walk slots m (next_slot slots i)

Free-apart :
    (slots : List Slot) (t i : ℕ) (b : Bool) (l : LiveSlot)
    → Free slots t b
    → slot_at slots i ≡ live l
    → (t == i) ≡ false
Free-apart slots t i b l free is = elim (Bool-cases (t == i)) [
  | inr apart ↦ apart
  | inl here ↦
      let same : slot_at slots t ≡ slot_at slots i = ap (slot_at slots) ((==_iff t i).0 here) in
      elim free [ inl (dead, _) ↦ absurd (cc) | inr (gone, _) ↦ absurd (cc) ]
]

module _ (a : Arena) (slots : List Slot) (h : ℕ) (key : List ℕ) where
  probe_slot_reused :
      (fuel i r t : ℕ) (b : Bool)
      → probe_slot a slots h key fuel i (some r) ≡ target t b
      → (r ≡ t) × (b ≡ true)
  probe_slot_reused zero i r t b e = let w = probe-zero a slots h key i (some r) in absurd (cc)
  probe_slot_reused (suc fuel) i r t b e = elim (Slot-cases a h key (slot_at slots i)) [
    | inl is ↦
        let eq : target r true ≡ target t b =
          unfold reused in sym (probe-vacant a slots h key fuel i (some r) is) ∙ e in
        (cc, cc)
    | inr (inl is) ↦
        let eq : probe_slot a slots h key fuel (next_slot slots i) (some r) ≡ target t b =
          unfold reused in sym (probe-tombstone a slots h key fuel i (some r) is) ∙ e in
        probe_slot_reused fuel (next_slot slots i) r t b eq
    | inr (inr (inl m)) ↦
        probe_slot_reused fuel (next_slot slots i) r t b
          (sym (probe-Miss a slots h key fuel i (some r) m) ∙ e)
    | inr (inr (inr (l, is, hit))) ↦
        let w = probe-Hit a slots h key fuel i (some r) l is hit in absurd (cc)
  ]

  module _ (bounded : (i : ℕ) → next_slot slots i < length slots) (s : LiveSlot)
      (mine : matches a h key s ≡ true) where
    hit_at :
        (fuel t : ℕ)
        → t < length slots
        → find_slot a (set slots t (live s)) h key (suc fuel) t ≡ some (t, s)
    hit_at fuel t inside =
        find-Hit a (set slots t (live s)) h key fuel t s (slot_at-set_same slots t (live s) inside)
          mine

    -- The slot of a new entry is free, and the entry is found there.
    pub probe_slot_reaches :
        (fuel i t : ℕ) (b : Bool)
        → i < length slots
        → probe_slot a slots h key fuel i none ≡ target t b
        → Free slots t b
          × (t < length slots)
          × (find_slot a (set slots t (live s)) h key fuel i ≡ some (t, s))
    probe_slot_reaches zero i t b inside e = let w = probe-zero a slots h key i none in absurd (cc)
    probe_slot_reaches (suc fuel) i t b inside e = elim (Slot-cases a h key (slot_at slots i)) [
      | inl is ↦
          let eq : target i false ≡ target t b =
            unfold reused in sym (probe-vacant a slots h key fuel i none is) ∙ e in
          let eq_i : i ≡ t = cc in
          let eq_b : b ≡ false = cc in rw (← eq_i) (inr (is, eq_b), inside, hit_at fuel i inside)
      | inr (inl is) ↦
          let eq : probe_slot a slots h key fuel (next_slot slots i) (some i) ≡ target t b =
            unfold reused in sym (probe-tombstone a slots h key fuel i none is) ∙ e in
          let (eq_i, eq_b) = probe_slot_reused fuel (next_slot slots i) i t b eq in
          rw (← eq_i) (inl (is, eq_b), inside, hit_at fuel i inside)
      | inr (inr (inl (l, is, other))) ↦
          let (free, small, found_) =
            probe_slot_reaches fuel (next_slot slots i) t b (bounded i)
              (sym (probe-Miss a slots h key fuel i none (l, is, other)) ∙ e) in
          let now = slot_at-set_other slots t i (live s) (Free-apart slots t i b l free is) in
          (
            free,
            small,
            find-Miss a (set slots t (live s)) h key fuel i (l, now ∙ is, other)
                ∙ (ap (find_slot a (set slots t (live s)) h key fuel)
                      (next_slot-set slots t i (live s))
                    ∙ found_),
          )
      | inr (inr (inr (l, is, hit))) ↦
          let w = probe-Hit a slots h key fuel i none l is hit in absurd (cc)
    ]

    -- The same of the slot that `reinsert` takes, in slots without the key.
    pub vacant_slot_reaches :
        (fuel i t : ℕ)
        → ((j : ℕ) (l : LiveSlot) → slot_at slots j ≡ live l → matches a h key l ≡ false)
        → i < length slots
        → vacant_slot slots fuel i ≡ some t
        → (slot_at slots t ≡ vacant)
          × (t < length slots)
          × (find_slot a (set slots t (live s)) h key fuel i ≡ some (t, s))
    unfolding vacant_slot
    vacant_slot_reaches zero i t fresh inside e = absurd (cc)
    vacant_slot_reaches (suc fuel) i t fresh inside e =
        let after = set slots t (live s) in
        let nx = ap (find_slot a after h key fuel) (next_slot-set slots t i (live s)) in
        elim (Slot-cases a h key (slot_at slots i)) [
          | inl is ↦
              let eq : some i ≡ some t = rw (vacant_slot, is) at e in
              let eq_i : i ≡ t = cc in rw (← eq_i) (is, inside, hit_at fuel i inside)
          | inr (inl is) ↦
              let (free, small, found_) =
                vacant_slot_reaches fuel (next_slot slots i) t fresh (bounded i)
                  (rw (vacant_slot, is) at e) in
              let apart : (t == i) ≡ false = elim (Bool-cases (t == i)) [
                | inr apart ↦ apart
                | inl here ↦
                    let same : slot_at slots t ≡ slot_at slots i =
                      ap (slot_at slots) ((==_iff t i).0 here) in
                    absurd (cc)
              ] in
              let now = slot_at-set_other slots t i (live s) apart in
              (free, small, find-tombstone a after h key fuel i (now ∙ is) ∙ (nx ∙ found_))
          | inr (inr (inl (l, is, other))) ↦
              let (free, small, found_) =
                vacant_slot_reaches fuel (next_slot slots i) t fresh (bounded i)
                  (rw (vacant_slot, is) at e) in
              let apart = Free-apart slots t i false l (inr (free, refl)) is in
              let now = slot_at-set_other slots t i (live s) apart in
              (free, small, find-Miss a after h key fuel i (l, now ∙ is, other) ∙ (nx ∙ found_))
          | inr (inr (inr (l, is, hit))) ↦ let no_hit = fresh i l is in absurd (cc)
        ]

  -- Probes that end nowhere have passed no vacant slot.
  pub probe_slot_full :
      (fuel i : ℕ) (r : Option ℕ)
      → probe_slot a slots h key fuel i r ≡ full
      → (m : ℕ) → m < fuel
      → slot_at slots (walk slots m i) ≢ vacant
  unfolding walk
  probe_slot_full zero i r e m small is = absurd (omega arith)
  probe_slot_full (suc fuel) i r e zero small is =
      let w = probe-vacant a slots h key fuel i r is in absurd (cc)
  probe_slot_full (suc fuel) i r e (suc m) small is = elim (Slot-cases a h key (slot_at slots i)) [
    | inl empty_ ↦ let w = probe-vacant a slots h key fuel i r empty_ in absurd (cc)
    | inr (inl dead) ↦
        probe_slot_full fuel (next_slot slots i) (some (reused r i))
          (sym (probe-tombstone a slots h key fuel i r dead) ∙ e) m (omega arith) is
    | inr (inr (inl miss)) ↦
        probe_slot_full fuel (next_slot slots i) r
          (sym (probe-Miss a slots h key fuel i r miss) ∙ e) m (omega arith) is
    | inr (inr (inr (l, there, hit))) ↦
        let w = probe-Hit a slots h key fuel i r l there hit in absurd (cc)
  ]

Slot-any : (s : Slot) → (s ≡ vacant) ⊎ ((s ≡ tombstone) ⊎ ((l : LiveSlot) × (s ≡ live l)))
Slot-any vacant = inl refl
Slot-any tombstone = inr (inl refl)
Slot-any (live l) = inr (inr (l, refl))

pub vacant_slot_full :
    (slots : List Slot) (fuel i : ℕ)
    → vacant_slot slots fuel i ≡ none
    → (m : ℕ) → m < fuel
    → slot_at slots (walk slots m i) ≢ vacant
unfolding walk vacant_slot
vacant_slot_full slots zero i e m small is = absurd (omega arith)
vacant_slot_full slots (suc fuel) i e zero small is =
    let e' = rw (vacant_slot, is) at e in absurd (cc)
vacant_slot_full slots (suc fuel) i e (suc m) small is = elim (Slot-any (slot_at slots i)) [
  | inl empty_ ↦ let e' = rw (vacant_slot, empty_) at e in absurd (cc)
  | inr (inl dead) ↦
      vacant_slot_full slots fuel (next_slot slots i) (rw (vacant_slot, dead) at e) m (omega arith)
        is
  | inr (inr (l, there)) ↦
      vacant_slot_full slots fuel (next_slot slots i) (rw (vacant_slot, there) at e) m (omega arith)
        is
]
