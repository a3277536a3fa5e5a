-- ===== src/Bitcask/HashIndex/Deletes.antt =====
-- What `delete` does to the table.
use in_memory_db.Base.{
  ℕ, ◌+◌, ◌-◌, ◌≡◌, refl, ap, sym, ◌∙◌, List, length-set, set, bytes_equal, bytes_equal_sound,
  if◌then◌else◌, Bool-cases, Option-cases, none, some, inl, inr, arith, subst,
}
use in_memory_db.Bitcask.HashIndex.{
  tombstone, live, LiveSlot, HashIndex, slot_at, key_at, locate, get, delete,
}
use in_memory_db.Bitcask.HashIndex.Probes.{slot_at-set_same, slot_at-set_other}
use in_memory_db.Bitcask.HashIndex.Counts.{live_one, tomb_one, live_count-set, tomb_count-set}
use in_memory_db.Bitcask.HashIndex.Placed.{matches_key, locate_sound}
use in_memory_db.Bitcask.HashIndex.Changes.{
  slot_lt, write-other, tombstone-Placed, tombstone-gone, others_of_found,
}
use in_memory_db.Bitcask.HashIndex.Tables.{Valid, loc_of, get_lem}
use in_memory_db.Base.{◌==◌, ==_iff}

module _ (hash : List ℕ → ℕ) where
  -- The entry of a slot is what its key is found by.
  pub own_key :
      (s l : LiveSlot) (t : HashIndex) (i : ℕ) (key : List ℕ)
      → slot_at t.slots i ≡ live s
      → key_at t.arena s ≡ key
      → slot_at t.slots i ≡ live l
      → key_at t.arena l ≡ key
  own_key s l t i key is k is' =
      let eq : live s ≡ live l = sym is ∙ is' in
      let eq_s : s ≡ l = cc in subst (λ x. key_at t.arena x ≡ key) eq_s k

  delete_prev_lem : (t : HashIndex) (key : List ℕ) → (delete hash t key).1 ≡ get hash t key
  unfolding delete
  delete_prev_lem t key = elim (Option-cases (locate hash t.arena t.slots key)) [
    | inl gone ↦ rw (delete, gone) (sym (get_lem hash t key ∙ ap (loc_of hash) gone))
    | inr ((i, s), e) ↦ rw (delete, e) (sym (get_lem hash t key ∙ ap (loc_of hash) e))
  ]

  delete_hit :
      (t : HashIndex) (key : List ℕ) (i : ℕ) (s : LiveSlot)
      → Valid hash t
      → locate hash t.arena t.slots key ≡ some (i, s)
      → let t' : HashIndex = record t {
        slots = set t.slots i tombstone;
        count = t.count - 1;
        tomb = t.tomb + 1;
      } in
        Valid hash t'
        × ((q : List ℕ) → get hash t' q ≡ (if bytes_equal key q then none else get hash t q))
  delete_hit t key i s v e =
      let (is, hit) = locate_sound hash t.arena t.slots key i s e in
      let k = matches_key t.arena (hash key) key s hit in
      let inside = slot_lt t.slots i s is in
      let (n, wide) = v.wide in
      let others = others_of_found hash t.arena t.slots v.placed key i s is k in
      let own : (l : LiveSlot) → slot_at t.slots i ≡ live l → key_at t.arena l ≡ key =
        λ l is'. own_key s l t i key is k is' in
      let counted = v.counted in
      let tombs = v.tombs in
      let fewer = live_count-set t.slots i tombstone inside in
      let more = tomb_count-set t.slots i tombstone inside in
      let was_live : live_one (slot_at t.slots i) ≡ 1 = ap live_one is in
      let was_dead : tomb_one (slot_at t.slots i) ≡ 0 = ap tomb_one is in
      let t' : HashIndex = record t {
        slots = set t.slots i tombstone;
        count = t.count - 1;
        tomb = t.tomb + 1;
      } in
      (
        record {
          wide = (n, length-set t.slots i tombstone ∙ wide);
          placed = tombstone-Placed hash t.arena t.slots v.placed key i inside own others;
          counted = omega arith;
          tombs = omega arith;
          sound = v.sound;
          kept = λ j l at_j. elim (Bool-cases (i == j)) [
            | inl here ↦
                let dead : slot_at (set t.slots i tombstone) j ≡ tombstone =
                  subst (λ x. slot_at (set t.slots i tombstone) x ≡ tombstone) ((==_iff i j).0 here)
                    (slot_at-set_same t.slots i tombstone inside) in
                absurd (cc)
            | inr off ↦ v.kept j l (sym (slot_at-set_other t.slots i j tombstone off) ∙ at_j)
          ];
        },
        λ q. elim (Bool-cases (bytes_equal key q)) [
          | inl same ↦
              let gone = tombstone-gone hash t.arena t.slots v.placed key i inside own others in
              let eq = bytes_equal_sound key q same in
              rw same (
                get_lem hash t' q
                ∙ ap (loc_of hash)
                    (subst (λ x. locate hash t.arena (set t.slots i tombstone) x ≡ none) eq gone))
          | inr differ ↦ rw differ (
              get_lem hash t' q
              ∙ (ap (loc_of hash) (
                    write-other hash t.arena t.slots v.placed key i inside own others tombstone q
                      (inl refl) differ)
                  ∙ sym (get_lem hash t q)))
        ],
      )

  delete_miss :
      (t : HashIndex) (key q : List ℕ)
      → locate hash t.arena t.slots key ≡ none
      → get hash t q ≡ (if bytes_equal key q then none else get hash t q)
  delete_miss t key q gone = elim (Bool-cases (bytes_equal key q)) [
    | inr differ ↦ rw differ refl
    | inl same ↦
        let eq = bytes_equal_sound key q same in
        rw same (
          get_lem hash t q
          ∙ ap (loc_of hash) (subst (λ x. locate hash t.arena t.slots x ≡ none) eq gone))
  ]

  delete_step :
      (t : HashIndex) (key : List ℕ) (i : ℕ) (s : LiveSlot)
      → locate hash t.arena t.slots key ≡ some (i, s)
      → (delete hash t key).0
        ≡ record t { slots = set t.slots i tombstone; count = t.count - 1; tomb = t.tomb + 1 }
  unfolding delete
  delete_step t key i s e = rw (delete, e) refl

  delete_none :
      (t : HashIndex) (key : List ℕ)
      → locate hash t.arena t.slots key ≡ none
      → (delete hash t key).0 ≡ t
  unfolding delete
  delete_none t key e = rw (delete, e) refl

  -- A deletion in a well-formed table keeps it so, gives the location that the key had, and
  -- then the key is not found and every other key as before.
  pub index_get-delete :
      (t : HashIndex) (key : List ℕ)
      → Valid hash t
      → Valid hash (delete hash t key).0
        × ((delete hash t key).1 ≡ get hash t key)
        × ((q : List ℕ)
            → get hash (delete hash t key).0 q ≡ (if bytes_equal key q then none else get hash t q))
  index_get-delete t key v = elim (Option-cases (locate hash t.arena t.slots key)) [
    | inl gone ↦ (
      subst (Valid hash) (sym (delete_none t key gone)) v,
      delete_prev_lem t key,
      λ q. ap (λ x. get hash x q) (delete_none t key gone) ∙ delete_miss t key q gone,
    )
    | inr ((i, s), e) ↦
        let (v', answers) = delete_hit t key i s v e in
        (
          subst (Valid hash) (sym (delete_step t key i s e)) v',
          delete_prev_lem t key,
          λ q. ap (λ x. get hash x q) (delete_step t key i s e) ∙ answers q,
        )
  ]
