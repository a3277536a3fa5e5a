-- ===== src/Bitcask/HashIndex/Placed.antt =====
-- Every key is found in the slot where it stands, and what a change of one slot does to that.
use in_memory_db.Base.{
  ℕ, ◌<◌, ◌≡◌, refl, subst, sym, ◌∙◌, List, length, length-set, set, Bool, true, false, Bool-cases,
  ◌==◌, ==_iff, ◌&&◌, bytes_equal, bytes_equal_sound, bytes_equal_refl, Option-cases, some, ◌⊎◌,
  inl, inr,
}
use in_memory_db.Bitcask.HashIndex.{
  Slot, tombstone, live, LiveSlot, slot_at, first_slot, matches, key_at, find_slot, locate,
}
use in_memory_db.Bitcask.HashIndex.KeyArena.{Arena}
use in_memory_db.Bitcask.HashIndex.Probes.{
  Miss, some_pair, slot_at-set_same, slot_at-set_other, find_slot_sound, find_slot-set_other,
}

and_true : (x y : Bool) → (x && y) ≡ true → y ≡ true
and_true true y e = e
and_true false y e = absurd (cc)

and_both : (x y : Bool) → x ≡ true → y ≡ true → (x && y) ≡ true
and_both true y e f = f
and_both false y e f = absurd (cc)

and_none : (x y : Bool) → y ≡ false → (x && y) ≡ false
and_none true y e = e
and_none false y e = refl

module _ (a : Arena) (h : ℕ) (key : List ℕ) (s : LiveSlot) where
  pub matches_key : matches a h key s ≡ true → key_at a s ≡ key
  unfolding matches
  matches_key e =
      bytes_equal_sound (key_at a s) key (and_true (s.hash == h) (bytes_equal (key_at a s) key) e)

  pub matches_same : s.hash ≡ h → key_at a s ≡ key → matches a h key s ≡ true
  unfolding matches
  matches_same e f =
      and_both (s.hash == h) (bytes_equal (key_at a s) key) ((==_iff s.hash h).1 e)
        (subst (λ k. bytes_equal (key_at a s) k ≡ true) f (bytes_equal_refl (key_at a s)))

  pub matches_other : bytes_equal (key_at a s) key ≡ false → matches a h key s ≡ false
  unfolding matches
  matches_other e = and_none (s.hash == h) (bytes_equal (key_at a s) key) e

module _ (hash : List ℕ → ℕ) (a : Arena) (slots : List Slot) where
  pub record Placed : Type 0 where
    pub hashed : (j : ℕ) (s : LiveSlot) → slot_at slots j ≡ live s → s.hash ≡ hash (key_at a s)
    pub reach :
        (j : ℕ) (s : LiveSlot)
        → slot_at slots j ≡ live s
        → locate hash a slots (key_at a s) ≡ some (j, s)

  pub locate_sound :
      (q : List ℕ) (j : ℕ) (s : LiveSlot)
      → locate hash a slots q ≡ some (j, s)
      → (slot_at slots j ≡ live s) × (matches a (hash q) q s ≡ true)
  unfolding locate
  locate_sound q j s e =
      find_slot_sound a slots (hash q) q (length slots) (first_slot slots (hash q)) j s e

  -- The change of a slot does not concern a key.
  pub record Spares (t : ℕ) (v : Slot) (q : List ℕ) : Type 0 where
    pub old_slot : (l : LiveSlot) → slot_at slots t ≡ live l → matches a (hash q) q l ≡ false
    pub new_slot : (v ≡ tombstone) ⊎ Miss a (hash q) q v

  module _ (t : ℕ) (v : Slot) where
    pub locate-set :
        (q : List ℕ)
        → locate hash a (set slots t v) q
          ≡ find_slot a (set slots t v) (hash q) q (length slots) (first_slot slots (hash q))
    unfolding locate first_slot
    locate-set q = rw (length-set slots t v) refl

    kept :
        (q : List ℕ) (j : ℕ) (s : LiveSlot)
        → t < length slots
        → Spares t v q
        → locate hash a slots q ≡ some (j, s)
        → locate hash a (set slots t v) q ≡ some (j, s)
    unfolding locate
    kept q j s inside spares e =
        locate-set q
        ∙ find_slot-set_other a slots (hash q) q t v (length slots) (first_slot slots (hash q)) j s
            spares.old_slot inside spares.new_slot e

    pub locate-set_other :
        (q : List ℕ)
        → t < length slots
        → Placed
        → Spares t v q
        → locate hash a (set slots t v) q ≡ locate hash a slots q
    locate-set_other q inside p spares = elim (Option-cases (locate hash a slots q)) [
      | inr ((j, s), e) ↦ kept q j s inside spares e ∙ sym e
      | inl gone ↦ elim (Option-cases (locate hash a (set slots t v) q)) [
        | inl still ↦ still ∙ sym gone
        | inr ((j, s), e) ↦
            let (is, same) =
              find_slot_sound a (set slots t v) (hash q) q (length slots)
                (first_slot slots (hash q)) j s (sym (locate-set q) ∙ e) in
            elim (Bool-cases (t == j)) [
              | inl here ↦
                  let at_j : slot_at (set slots t v) j ≡ v =
                    subst (λ k. slot_at (set slots t v) k ≡ v) ((==_iff t j).0 here)
                      (slot_at-set_same slots t v inside) in
                  elim spares.new_slot [
                    | inl dead ↦ absurd (cc)
                    | inr (l, is_l, other) ↦
                        let eq : live l ≡ live s = sym is_l ∙ (sym at_j ∙ is) in
                        let eq_l : l ≡ s = cc in absurd (cc)
                  ]
              | inr apart ↦
                  let before = sym (slot_at-set_other slots t j v apart) ∙ is in
                  let there = p.reach j s before in
                  let k = matches_key a (hash q) q s same in
                  let there' = subst (λ x. locate hash a slots x ≡ some (j, s)) k there in
                  absurd (cc)
            ]
      ]
    ]

    -- The keys stay found, if the slot's new entry is, and the others are not concerned.
    pub set-Placed :
        t < length slots
        → Placed
        → ((l : LiveSlot)
            → v ≡ live l
            → (l.hash ≡ hash (key_at a l))
              × (locate hash a (set slots t v) (key_at a l) ≡ some (t, l)))
        → ((j : ℕ) (l : LiveSlot)
            → (t == j) ≡ false
            → slot_at slots j ≡ live l
            → Spares t v (key_at a l))
        → ((j : ℕ) (s : LiveSlot)
            → slot_at (set slots t v) j ≡ live s
            → (s.hash ≡ hash (key_at a s))
              × (locate hash a (set slots t v) (key_at a s) ≡ some (j, s)))
    set-Placed inside p mine apart j s is = elim (Bool-cases (t == j)) [
      | inl here ↦
          let same : t ≡ j = (==_iff t j).0 here in
          let at_j : slot_at (set slots t v) j ≡ v =
            subst (λ k. slot_at (set slots t v) k ≡ v) same (slot_at-set_same slots t v inside) in
          subst
            (λ k.
              (s.hash ≡ hash (key_at a s))
              × (locate hash a (set slots t v) (key_at a s) ≡ some (k, s)))
            same (mine s (sym at_j ∙ is))
      | inr off ↦
          let before = sym (slot_at-set_other slots t j v off) ∙ is in
          (
            p.hashed j s before,
            kept (key_at a s) j s inside (apart j s off before) (p.reach j s before),
          )
    ]

  -- Two slots do not have the same key.
  pub one_slot :
      Placed
      → (i j : ℕ) (s l : LiveSlot) → slot_at slots i ≡ live s
      → slot_at slots j ≡ live l
      → key_at a s ≡ key_at a l
      → i ≡ j
  one_slot p i j s l is_s is_l same =
      let at_i = p.reach i s is_s in
      let at_j = p.reach j l is_l in
      let at_i' = subst (λ x. locate hash a slots x ≡ some (i, s)) same at_i in
      (some_pair i j s l (sym at_i' ∙ at_j)).0
