-- ===== src/Bitcask/HashIndex/Tables.antt =====
-- Well-formed tables, and that a rehash keeps one so, with the same answers.
use in_memory_db.Base.{
  ℕ, zero, suc, ◌+◌, ◌*◌, ◌^◌, ◌<◌, ◌≡◌, refl, ap, subst, sym, ◌∙◌, List, length, leb, ltb,
  Bool-cases, Option, Option-cases, none, some, inl, inr, ◌↔◌, arith,
}
use in_memory_db.Bitcask.IndexSpec.{Location}
use in_memory_db.Bitcask.HashIndex.{
  Slot, live, LiveSlot, HashIndex, slot_at, key_at, matches, find_slot, probe_slot, locate, get,
  rehash, grow_target_capacity, maybe_rehash, next_slot,
}
use in_memory_db.Bitcask.HashIndex.KeyArena.{Arena}
use in_memory_db.Bitcask.HashIndex.Probes.{
  Slot-cases, find-zero, find-vacant, find-tombstone, find-Miss, find-Hit, probe-zero, probe-vacant,
  probe-tombstone, probe-Miss, probe-Hit,
}
use in_memory_db.Bitcask.HashIndex.Counts.{live_count, tomb_count, live_count_le}
use in_memory_db.Bitcask.HashIndex.Placed.{Placed, matches_key, locate_sound}
use in_memory_db.Bitcask.HashIndex.Rehash.{Has, rehash-Filling}
use in_memory_db.Bitcask.HashIndex.Cycle.{pow_pos, pow-suc}
use in_memory_db.Bitcask.HashIndex.Storage.{Sound, Stored}

module _ (hash : List ℕ → ℕ) where
  pub record Valid (t : HashIndex) : Type 0 where
    pub wide : (n : ℕ) × (length t.slots ≡ 2 ^ n)
    pub placed : Placed hash t.arena t.slots
    pub counted : t.count ≡ live_count t.slots
    pub tombs : t.tomb ≡ tomb_count t.slots
    pub sound : Sound t.arena
    pub kept :
        (j : ℕ) (s : LiveSlot)
        → slot_at t.slots j ≡ live s
        → Stored t.arena s.chunk_idx s.key_offset s.key_len

  -- The location of what is found.
  abbrev pub loc_of : Option (ℕ × LiveSlot) → Option Location
  loc_of none = none
  loc_of (some (i, s)) = some s.loc

  pub get_lem : (t : HashIndex) (q : List ℕ) → get hash t q ≡ loc_of (locate hash t.arena t.slots q)
  unfolding get
  get_lem t q = elim (Option-cases (locate hash t.arena t.slots q)) [
    | inl gone ↦ rw (get, gone) refl
    | inr ((i, s), e) ↦ rw (get, e) refl
  ]

  -- Tables with the same entries give the same answers.
  same_answers :
      (a : Arena) (old slots : List Slot) (q : List ℕ)
      → Placed hash a old
      → Placed hash a slots
      → ((l : LiveSlot) → Has slots l ↔ Has old l)
      → loc_of (locate hash a slots q) ≡ loc_of (locate hash a old q)
  same_answers a old slots q p p' same = elim (Option-cases (locate hash a old q)) [
    | inr ((j, s), e) ↦
        let (is, hit) = locate_sound hash a old q j s e in
        let (j', is') = (same s).1 (j, is) in
        let there =
          subst (λ x. locate hash a slots x ≡ some (j', s)) (matches_key a (hash q) q s hit)
            (p'.reach j' s is') in
        ap loc_of there ∙ sym (ap loc_of e)
    | inl gone ↦ elim (Option-cases (locate hash a slots q)) [
      | inl gone' ↦ ap loc_of gone' ∙ sym (ap loc_of gone)
      | inr ((j, s), e) ↦
          let (is, hit) = locate_sound hash a slots q j s e in
          let (j', is') = (same s).0 (j, is) in
          let there =
            subst (λ x. locate hash a old x ≡ some (j', s)) (matches_key a (hash q) q s hit)
              (p.reach j' s is') in
          absurd (cc)
    ]
  ]

  -- A table with room, the same answers and the same arena.
  pub record Roomy (t t' : HashIndex) : Type 0 where
    pub valid : Valid t'
    pub room : t'.count + t'.tomb < length t'.slots
    pub answers : (q : List ℕ) → get hash t' q ≡ get hash t q
    pub same_arena : t'.arena ≡ t.arena

  rehash-Roomy : (t : HashIndex) (n : ℕ) → Valid t → t.count < 2 ^ n → Roomy t (rehash (2 ^ n) t)
  unfolding rehash
  rehash-Roomy t n v room =
      let counted = v.counted in
      let (slots', run, f, same) = rehash-Filling hash t.arena n t.slots v.placed (omega arith) in
      let clean = f.clean in
      let wide = f.wide in
      let t' : HashIndex = record t { slots = slots'; count = live_count t.slots; tomb = 0 } in
      let done : rehash (2 ^ n) t ≡ t' =
        ap (λ (r : List Slot × ℕ). record t { slots = r.0; count = r.1; tomb = 0 }) run in
      subst (Roomy t) (sym done) (record {
        valid = record {
          wide = (n, wide);
          placed = f.placed;
          counted = f.counted;
          tombs = sym clean;
          sound = v.sound;
          kept = λ j s is. let (j', is') = (same s).0 (j, is) in v.kept j' s is';
        };
        room = omega arith;
        answers = λ q.
            get_lem t' q
            ∙ (same_answers t.arena t.slots slots' q v.placed f.placed same ∙ sym (get_lem t q));
        same_arena = refl;
      })

  fits_twice : (t : HashIndex) → Valid t → (n : ℕ) → length t.slots ≡ 2 ^ n → t.count < 2 ^ suc n
  fits_twice t v n wide =
      let counted = v.counted in omega (arith, live_count_le t.slots, pow_pos n, pow-suc n)

  pub maybe_rehash-Roomy : (t : HashIndex) → Valid t → Roomy t (maybe_rehash t)
  unfolding maybe_rehash grow_target_capacity
  maybe_rehash-Roomy t v =
      let (n, wide) = v.wide in
      let pos = pow_pos n in
      elim (Bool-cases
        (ltb ((t.count + t.tomb) * 9007199254740992) (5854679515581645 * length t.slots))) [
          | inl low ↦
              rw (maybe_rehash, low)
                (record { valid = v; room = ground arith; answers = λ q. refl; same_arena = refl })
          | inr high ↦ elim (Bool-cases (leb (length t.slots) (t.count * 2))) [
            | inl many ↦
                let size : length t.slots * 2 ≡ 2 ^ suc n = omega (arith, pow-suc n) in
                let fits : t.count < 2 ^ suc n = fits_twice t v n wide in
                rw (maybe_rehash, high, many, size) (rehash-Roomy t (suc n) v fits)
            | inr few ↦
                let fits : t.count < 2 ^ n = ground arith in
                rw (maybe_rehash, high, few, wide) (rehash-Roomy t n v fits)
          ]
        ]

-- The loops over slots whose keys read the same in another arena.
module _ (a b : Arena) (slots : List Slot) (h : ℕ) (key : List ℕ)
    (same : (j : ℕ) (s : LiveSlot) → slot_at slots j ≡ live s → key_at b s ≡ key_at a s) where
  matches-same :
      (j : ℕ) (s : LiveSlot) → slot_at slots j ≡ live s → matches b h key s ≡ matches a h key s
  unfolding matches
  matches-same j s is = rw (matches, same j s is) refl

  pub find_slot-arena :
      (fuel i : ℕ) → find_slot b slots h key fuel i ≡ find_slot a slots h key fuel i
  find_slot-arena zero i = find-zero b slots h key i ∙ sym (find-zero a slots h key i)
  find_slot-arena (suc fuel) i =
      let ih = find_slot-arena fuel (next_slot slots i) in
      elim (Slot-cases a h key (slot_at slots i)) [
        | inl is ↦ find-vacant b slots h key fuel i is ∙ sym (find-vacant a slots h key fuel i is)
        | inr (inl is) ↦
            find-tombstone b slots h key fuel i is
            ∙ (ih ∙ sym (find-tombstone a slots h key fuel i is))
        | inr (inr (inl (l, is, other))) ↦
            find-Miss b slots h key fuel i (l, is, matches-same i l is ∙ other)
            ∙ (ih ∙ sym (find-Miss a slots h key fuel i (l, is, other)))
        | inr (inr (inr (l, is, hit))) ↦
            find-Hit b slots h key fuel i l is (matches-same i l is ∙ hit)
            ∙ sym (find-Hit a slots h key fuel i l is hit)
      ]

  pub probe_slot-arena :
      (fuel i : ℕ) (r : Option ℕ)
      → probe_slot b slots h key fuel i r ≡ probe_slot a slots h key fuel i r
  probe_slot-arena zero i r = probe-zero b slots h key i r ∙ sym (probe-zero a slots h key i r)
  probe_slot-arena (suc fuel) i r = elim (Slot-cases a h key (slot_at slots i)) [
    | inl is ↦ probe-vacant b slots h key fuel i r is ∙ sym (probe-vacant a slots h key fuel i r is)
    | inr (inl is) ↦
        probe-tombstone b slots h key fuel i r is
        ∙ (probe_slot-arena fuel (next_slot slots i) _
            ∙ sym (probe-tombstone a slots h key fuel i r is))
    | inr (inr (inl (l, is, other))) ↦
        probe-Miss b slots h key fuel i r (l, is, matches-same i l is ∙ other)
        ∙ (probe_slot-arena fuel (next_slot slots i) r
            ∙ sym (probe-Miss a slots h key fuel i r (l, is, other)))
    | inr (inr (inr (l, is, hit))) ↦
        probe-Hit b slots h key fuel i r l is (matches-same i l is ∙ hit)
        ∙ sym (probe-Hit a slots h key fuel i r l is hit)
  ]
