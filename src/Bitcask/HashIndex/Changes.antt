-- ===== src/Bitcask/HashIndex/Changes.antt =====
-- What a write to the slot of a key, or to a free slot, does to the keys that are found.
use in_memory_db.Base.{
  ℕ, ◌<◌, ◌≡◌, refl, ap, subst, sym, ◌∙◌, List, [], ◌∷◌, length, set, true, false, Bool-cases, ◌==◌,
  ==_iff, bytes_equal, bytes_equal_sound, bytes_equal_refl, Option-cases, none, some, ◌⊎◌, inl, inr,
  arith, zero, suc,
}
use in_memory_db.Bitcask.HashIndex.{Slot, tombstone, live, LiveSlot, slot_at, key_at, locate}
use in_memory_db.Bitcask.HashIndex.KeyArena.{Arena}
use in_memory_db.Bitcask.HashIndex.Probes.{slot_at-set_same, slot_at-set_other}
use in_memory_db.Bitcask.HashIndex.Placed.{
  Placed, Spares, matches_key, matches_other, locate_sound, locate-set_other, set-Placed, one_slot,
}

pub slot_lt :
    (slots : List Slot) (j : ℕ) (s : LiveSlot) → slot_at slots j ≡ live s → j < length slots
unfolding slot_at
slot_lt [] j s e = absurd (cc)
slot_lt (v ∷ slots) zero s e = omega arith
slot_lt (v ∷ slots) (suc j) s e = omega (arith, slot_lt slots j s e)

bytes_equal_refl' : (x y : List ℕ) → y ≡ x → bytes_equal x y ≡ true
bytes_equal_refl' x y e = subst (λ z. bytes_equal x z ≡ true) (sym e) (bytes_equal_refl x)

module _ (hash : List ℕ → ℕ) (a : Arena) (slots : List Slot) (p : Placed hash a slots)
    (key : List ℕ) (t : ℕ) (inside : t < length slots)
    (own : (l : LiveSlot) → slot_at slots t ≡ live l → key_at a l ≡ key)
    (others : (j : ℕ) (l : LiveSlot)
      → (t == j) ≡ false
      → slot_at slots j ≡ live l
      → bytes_equal key (key_at a l) ≡ false) where
  -- A tombstone, or an entry of the key.
  abbrev pub Suits : Slot → Type 0
  Suits v = (v ≡ tombstone) ⊎ ((l : LiveSlot) × (v ≡ live l) × (key_at a l ≡ key))

  spares : (v : Slot) (q : List ℕ) → Suits v → bytes_equal key q ≡ false → Spares hash a slots t v q
  spares v q suits differ = record {
    old_slot = λ l is.
        matches_other a (hash q) q l (subst (λ k. bytes_equal k q ≡ false) (sym (own l is)) differ);
    new_slot = elim suits [
      | inl dead ↦ inl dead
      | inr (l, is, k) ↦ inr (
        l,
        is,
        matches_other a (hash q) q l (subst (λ x. bytes_equal x q ≡ false) (sym k) differ),
      )
    ];
  }

  pub write-other :
      (v : Slot) (q : List ℕ)
      → Suits v
      → bytes_equal key q ≡ false
      → locate hash a (set slots t v) q ≡ locate hash a slots q
  write-other v q suits differ =
      locate-set_other hash a slots t v q inside p (spares v q suits differ)

  pub live-Placed :
      (s : LiveSlot)
      → key_at a s ≡ key
      → s.hash ≡ hash key
      → locate hash a (set slots t (live s)) key ≡ some (t, s)
      → Placed hash a (set slots t (live s))
  live-Placed s k h there =
      let both =
        set-Placed hash a slots t (live s) inside p
          (λ l e.
            let eq : s ≡ l = cc in
            let k' : key ≡ key_at a l = sym k ∙ ap (key_at a) eq in
            (
              subst (λ (x : LiveSlot). x.hash ≡ hash (key_at a x)) eq (h ∙ ap hash (sym k)),
              subst (λ x. locate hash a (set slots t (live s)) x ≡ some (t, l)) k'
                  (there ∙ ap (λ (x : LiveSlot). some (t, x)) eq),
            ))
          (λ j l off is. spares (live s) (key_at a l) (inr (s, refl, k)) (others j l off is)) in
      record { hashed = λ j l is. (both j l is).0; reach = λ j l is. (both j l is).1 }

  pub tombstone-Placed : Placed hash a (set slots t tombstone)
  tombstone-Placed =
      let both =
        set-Placed hash a slots t tombstone inside p (λ l e. absurd (cc))
          (λ j l off is. spares tombstone (key_at a l) (inl refl) (others j l off is)) in
      record { hashed = λ j l is. (both j l is).0; reach = λ j l is. (both j l is).1 }

  pub tombstone-gone : locate hash a (set slots t tombstone) key ≡ none
  tombstone-gone = elim (Option-cases (locate hash a (set slots t tombstone) key)) [
    | inl gone ↦ gone
    | inr ((j, l), e) ↦
        let (is, same) = locate_sound hash a (set slots t tombstone) key j l e in
        let k = matches_key a (hash key) key l same in
        elim (Bool-cases (t == j)) [
          | inl here ↦
              let dead : slot_at (set slots t tombstone) j ≡ tombstone =
                subst (λ i. slot_at (set slots t tombstone) i ≡ tombstone) ((==_iff t j).0 here)
                  (slot_at-set_same slots t tombstone inside) in
              absurd (cc)
          | inr off ↦
              let before = sym (slot_at-set_other slots t j tombstone off) ∙ is in
              let differ = others j l off before in
              let self = bytes_equal_refl' key (key_at a l) k in absurd (cc)
        ]
  ]

-- The other slots have other keys: if the slot is the key's, and if the key has none.
module _ (hash : List ℕ → ℕ) (a : Arena) (slots : List Slot) (p : Placed hash a slots)
    (key : List ℕ) (t : ℕ) where
  pub others_of_found :
      (s : LiveSlot)
      → slot_at slots t ≡ live s
      → key_at a s ≡ key
      → (j : ℕ) (l : LiveSlot) → (t == j) ≡ false
      → slot_at slots j ≡ live l
      → bytes_equal key (key_at a l) ≡ false
  others_of_found s is k j l off is_l = elim (Bool-cases (bytes_equal key (key_at a l))) [
    | inr differ ↦ differ
    | inl same ↦
        let eq =
          one_slot hash a slots p t j s l is is_l (k ∙ bytes_equal_sound key (key_at a l) same) in
        let on = (==_iff t j).1 eq in absurd (cc)
  ]

  pub others_of_none :
      locate hash a slots key ≡ none
      → (j : ℕ) (l : LiveSlot) → slot_at slots j ≡ live l
      → bytes_equal key (key_at a l) ≡ false
  others_of_none gone j l is_l = elim (Bool-cases (bytes_equal key (key_at a l))) [
    | inr differ ↦ differ
    | inl same ↦
        let there =
          subst (λ x. locate hash a slots x ≡ some (j, l))
            (sym (bytes_equal_sound key (key_at a l) same)) (p.reach j l is_l) in
        absurd (cc)
  ]
