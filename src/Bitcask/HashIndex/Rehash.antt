-- ===== src/Bitcask/HashIndex/Rehash.antt =====
-- A rehash keeps every entry where it is found.
use in_memory_db.Base.{
  ℕ, zero, suc, ◌+◌, ◌^◌, ◌<◌, ◌≡◌, refl, ap, subst, sym, ◌∙◌, List, [], ◌∷◌, length, length-set,
  length-replicate, replicate, set, bytes_equal, bytes_equal_sound, bytes_equal_refl, true, false,
  Option-cases, some, inl, inr, arith, Bool-cases, ==_iff, ◌==◌, ◌⊎◌, ◌↔◌,
}
use in_memory_db.Bitcask.HashIndex.{
  Slot, vacant, tombstone, live, LiveSlot, slot_at, first_slot, key_at, find_slot, locate,
  vacant_slot, reinsert, reinsert_all,
}
use in_memory_db.Bitcask.HashIndex.KeyArena.{Arena}
use in_memory_db.Bitcask.HashIndex.Probes.{slot_at-set_same, slot_at-set_other}
use in_memory_db.Bitcask.HashIndex.Targets.{vacant_slot_reaches, vacant_slot_full}
use in_memory_db.Bitcask.HashIndex.Cycle.{masked, next_slot_lt, walk_meets}
use in_memory_db.Bitcask.HashIndex.Counts.{
  live_one, live_count, tomb_one, tomb_count, live_count-set, tomb_count-set, some_vacant,
  slot_at-replicate, live_count-replicate, tomb_count-replicate,
}
use in_memory_db.Bitcask.HashIndex.Placed.{
  Placed, one_slot, matches_same, matches_other, locate-set,
}
use in_memory_db.Bitcask.HashIndex.Changes.{live-Placed}

-- Whether a list of slots has an entry.
abbrev pub Has : List Slot → LiveSlot → Type 0
Has slots s = (j : ℕ) × (slot_at slots j ≡ live s)

bytes_differ : (x y : List ℕ) → bytes_equal x y ≡ false → bytes_equal y x ≡ false
bytes_differ x y e = elim (Bool-cases (bytes_equal y x)) [
  | inr differ ↦ differ
  | inl same ↦
      let eq = bytes_equal_sound y x same in
      let self = subst (λ z. bytes_equal z y ≡ true) eq (bytes_equal_refl y) in absurd (cc)
]

pred_eq : {i j : ℕ} → suc i ≡ suc j → i ≡ j
pred_eq e = omega arith

not_next : (j : ℕ) → zero ≡ suc j → ⊥
not_next j e = absurd (omega arith)

past :
    (v : Slot) (old : List Slot) (l : LiveSlot) {A : Type 0} → A ⊎ Has old l → A ⊎ Has (v ∷ old) l
unfolding slot_at
past v old l (inl m) = inl m
past v old l (inr (j, is)) = inr (suc j, is)

module _ (hash : List ℕ → ℕ) (a : Arena) (n : ℕ) where
  -- The new table while it is filled.
  pub record Filling (slots : List Slot) (count : ℕ) : Type 0 where
    pub wide : length slots ≡ 2 ^ n
    pub placed : Placed hash a slots
    pub counted : count ≡ live_count slots
    pub clean : tomb_count slots ≡ 0

  reinsert-Filling :
      (s : LiveSlot) (slots : List Slot) (count : ℕ)
      → Filling slots count
      → count < 2 ^ n
      → s.hash ≡ hash (key_at a s)
      → ((j : ℕ) (l : LiveSlot)
          → slot_at slots j ≡ live l
          → bytes_equal (key_at a s) (key_at a l) ≡ false)
      → (slots' : List Slot) × (reinsert s (slots, count) ≡ (slots', count + 1))
        × Filling slots' (count + 1)
        × ((l : LiveSlot) → Has slots' l → (l ≡ s) ⊎ Has slots l)
        × Has slots' s
        × ((l : LiveSlot) → Has slots l → Has slots' l)
  unfolding reinsert first_slot
  reinsert-Filling s slots count f room h fresh =
      let key = key_at a s in
      let start = first_slot slots s.hash in
      let small = masked slots n f.wide s.hash in
      let bounded = next_slot_lt slots n f.wide in
      let size = f.wide in
      let clean = f.clean in
      let counted = f.counted in
      elim (Option-cases (vacant_slot slots (length slots) start)) [
        | inl full_ ↦
            let (j, lt, is) = some_vacant slots (omega arith) in
            let (m, lt_m, meets) = walk_meets slots n f.wide start j small lt in
            absurd (
              vacant_slot_full slots (length slots) start full_ m lt_m
                (ap (slot_at slots) meets ∙ is))
        | inr (t, e) ↦
            let mine = matches_same a (hash key) key s h refl in
            let sym_fresh = λ (j : ℕ) (l : LiveSlot) (is : slot_at slots j ≡ live l).
              matches_other a (hash key) key l (bytes_differ key (key_at a l) (fresh j l is)) in
            let (free, inside, there) =
              vacant_slot_reaches a slots (hash key) key bounded s mine (length slots) start t
                sym_fresh small e in
            let there' : locate hash a (set slots t (live s)) key ≡ some (t, s) =
              locate-set hash a slots t (live s) key
              ∙ subst
                  (λ x.
                    find_slot a (set slots t (live s)) (hash key) key (length slots)
                      (first_slot slots x)
                    ≡ some (t, s))
                  h there in
            let placed =
              live-Placed hash a slots f.placed key t inside (λ l is. absurd (cc))
                (λ j l off is. fresh j l is) s refl h there' in
            let more = live_count-set slots t (live s) inside in
            let none_dead = tomb_count-set slots t (live s) inside in
            let was_live : live_one (slot_at slots t) ≡ 0 = ap live_one free in
            let was_dead : tomb_one (slot_at slots t) ≡ 0 = ap tomb_one free in
            (
              set slots t (live s),
              rw (reinsert, e) refl,
              record {
                wide = length-set slots t (live s) ∙ size;
                placed = placed;
                counted = omega arith;
                clean = omega arith;
              },
              λ l (j, is). elim (Bool-cases (t == j)) [
                | inl here ↦
                    let at_j : slot_at (set slots t (live s)) j ≡ live s =
                      subst (λ i. slot_at (set slots t (live s)) i ≡ live s) ((==_iff t j).0 here)
                        (slot_at-set_same slots t (live s) inside) in
                    let eq : live l ≡ live s = sym is ∙ at_j in inl cc
                | inr off ↦ inr (j, sym (slot_at-set_other slots t j (live s) off) ∙ is)
              ],
              (t, slot_at-set_same slots t (live s) inside),
              λ l (j, is). elim (Bool-cases (t == j)) [
                | inl here ↦
                    let same : slot_at slots t ≡ slot_at slots j =
                      ap (slot_at slots) ((==_iff t j).0 here) in
                    absurd (cc)
                | inr off ↦ (j, slot_at-set_other slots t j (live s) off ∙ is)
              ],
            )
      ]

  reinsert_all-Filling :
      (old slots : List Slot) (count : ℕ)
      → Filling slots count
      → count + live_count old < 2 ^ n
      → ((j : ℕ) (l : LiveSlot) → slot_at old j ≡ live l → l.hash ≡ hash (key_at a l))
      → ((i j : ℕ) (s l : LiveSlot)
          → slot_at old i ≡ live s
          → slot_at old j ≡ live l
          → key_at a s ≡ key_at a l
          → i ≡ j)
      → ((l s : LiveSlot) → Has slots l → Has old s → bytes_equal (key_at a s) (key_at a l) ≡ false)
      → (slots' : List Slot) × (count' : ℕ) × (reinsert_all old (slots, count) ≡ (slots', count'))
        × Filling slots' count'
        × (count' ≡ count + live_count old)
        × ((l : LiveSlot) → Has slots' l → Has slots l ⊎ Has old l)
        × ((l : LiveSlot) → Has slots l ⊎ Has old l → Has slots' l)
  unfolding reinsert_all slot_at
  reinsert_all-Filling [] slots count f room h once apart = (
    slots,
    count,
    refl,
    f,
    omega arith,
    λ l m. inl m,
    λ l m. elim m [ inl m' ↦ m' | inr (j, is) ↦ absurd (cc) ],
  )
  reinsert_all-Filling (vacant ∷ old) slots count f room h once apart =
      let (slots', count', run, f', total, from, to) =
        reinsert_all-Filling old slots count f (omega arith) (λ j. h (suc j))
          (λ i j s l x y e. pred_eq (once (suc i) (suc j) s l x y e))
          (λ l s m (j, is). apart l s m (suc j, is)) in
      (
        slots',
        count',
        run,
        f',
        omega arith,
        λ l m. past vacant old l (from l m),
        λ l m. to l (elim m [
          | inl m' ↦ inl m'
          | inr (zero, is) ↦ absurd (cc)
          | inr (suc j, is) ↦ inr (j, is)
        ]),
      )
  reinsert_all-Filling (tombstone ∷ old) slots count f room h once apart =
      let (slots', count', run, f', total, from, to) =
        reinsert_all-Filling old slots count f (omega arith) (λ j. h (suc j))
          (λ i j s l x y e. pred_eq (once (suc i) (suc j) s l x y e))
          (λ l s m (j, is). apart l s m (suc j, is)) in
      (
        slots',
        count',
        run,
        f',
        omega arith,
        λ l m. past tombstone old l (from l m),
        λ l m. to l (elim m [
          | inl m' ↦ inl m'
          | inr (zero, is) ↦ absurd (cc)
          | inr (suc j, is) ↦ inr (j, is)
        ]),
      )
  reinsert_all-Filling (live s ∷ old) slots count f room h once apart =
      let (slots₁, run₁, f₁, from₁, here, to₁) =
        reinsert-Filling s slots count f (omega arith) (h 0 s refl)
          (λ j l is. apart l s (j, is) (0, refl)) in
      let (slots', count', run, f', total, from, to) =
        reinsert_all-Filling old slots₁ (count + 1) f₁ (omega arith) (λ j. h (suc j))
          (λ i j x l is_x is_l e. pred_eq (once (suc i) (suc j) x l is_x is_l e))
          (λ l x m (j, is). elim (from₁ l m) [
            | inr m' ↦ apart l x m' (suc j, is)
            | inl is_s ↦ elim (Bool-cases (bytes_equal (key_at a x) (key_at a l))) [
              | inr differ ↦ differ
              | inl same ↦
                  let keys = bytes_equal_sound (key_at a x) (key_at a l) same in
                  let eq = once 0 (suc j) s x refl is (sym (keys ∙ ap (key_at a) is_s)) in
                  absurd (not_next j eq)
            ]
          ]) in
      (
        slots',
        count',
        ap (reinsert_all old) run₁ ∙ run,
        f',
        omega arith,
        λ l m. elim (from l m) [
          | inl m₁ ↦ elim (from₁ l m₁) [ inl is_s ↦ inr (0, ap live (sym is_s)) | inr m' ↦ inl m' ]
          | inr (j, is) ↦ inr (suc j, is)
        ],
        λ l m. to l (elim m [
          | inl m' ↦ inl (to₁ l m')
          | inr (zero, is) ↦ let eq : s ≡ l = cc in inl (subst (λ x. Has slots₁ x) eq here)
          | inr (suc j, is) ↦ inr (j, is)
        ]),
      )

  -- The table of a new size that has the entries of a table.
  pub rehash-Filling :
      (old : List Slot)
      → Placed hash a old
      → live_count old < 2 ^ n
      → (slots' : List Slot) × (reinsert_all old (replicate (2 ^ n) vacant, 0)
          ≡ (slots', live_count old))
        × Filling slots' (live_count old)
        × ((l : LiveSlot) → Has slots' l ↔ Has old l)
  rehash-Filling old p room =
      let fresh = replicate (2 ^ n) vacant in
      let nothing : (l : LiveSlot) → Has fresh l → ⊥ =
        λ l (j, is). let gone = slot_at-replicate (2 ^ n) j in absurd (cc) in
      let start : Filling fresh 0 = record {
        wide = length-replicate (2 ^ n) vacant;
        placed = record {
          hashed = λ j l is. absurd (nothing l (j, is));
          reach = λ j l is. absurd (nothing l (j, is));
        };
        counted = sym (live_count-replicate (2 ^ n));
        clean = tomb_count-replicate (2 ^ n);
      } in
      let (slots', count', run, f, total, from, to) =
        reinsert_all-Filling old fresh 0 start (omega arith) p.hashed
          (λ i j s l. one_slot hash a old p i j s l) (λ l s m. absurd (nothing l m)) in
      let eq : count' ≡ live_count old = omega arith in
      (
        slots',
        run ∙ ap (λ c. (slots', c)) eq,
        subst (Filling slots') eq f,
        λ l. (
          λ m. elim (from l m) [ inl m' ↦ absurd (nothing l m') | inr m' ↦ m' ],
          λ m. to l (inr m),
        ),
      )
