-- ===== src/SortedIndex/Bloom/Negatives.antt =====
-- The filter never denies a key that was added.
use in_memory_db.Base.{
  ℕ, zero, suc, ◌+◌, ◌/◌, ◌%◌, ◌^◌, ◌<◌, ◌≡◌, refl, ap, ◌∙◌, List, [], ◌∷◌, ◌++◌, foldl,
  foldl-append, length, bit_and, bit_or, ◌==◌, ==_iff, ltb, if◌then◌else◌, Bool, Bool-cases, true,
  not, ◌&&◌, ◌||◌, arith, inl, inr,
}
use in_memory_db.SortedIndex.Format.BloomFile.{BloomFilter}
use in_memory_db.SortedIndex.Bloom.{
  byte_of, set_byte, set_bit, has_bit, probe, add_probes, has_probes, bloom_hashes, add,
  may_contain,
}

-- Over a small range, every value is tried.
every : ℕ → (ℕ → Bool) → Bool
every zero p = true
every (suc n) p = p n && every n p

every_sound : (n : ℕ) (p : ℕ → Bool) (x : ℕ) → every n p ≡ true → x < n → p x ≡ true
unfolding every
every_sound zero p x h lt = absurd (omega arith)
every_sound (suc n) p x h lt = ground (arith, every_sound n p x)

abbrev test : ℕ → ℕ → Bool
test b j = not (bit_and b (2 ^ j) == 0)

-- What setting bit `i` of the byte `b` does to bit `j`.
abbrev or_law : ℕ → ℕ → ℕ → Bool
or_law j i b =
    ltb (bit_or b (2 ^ i)) 256
    && (test (bit_or b (2 ^ i)) i && (not (test b j) || test (bit_or b (2 ^ i)) j))

or_table : every 8 (λ j. every 8 (λ i. every 256 (or_law j i))) ≡ true
unfolding every
or_table = refl

or_lem : (b i j : ℕ) → b < 256 → i < 8 → j < 8 → or_law j i b ≡ true
or_lem b i j hb hi hj =
    every_sound 256 (or_law j i) b
      (every_sound 8 (λ i. every 256 (or_law j i)) i
        (every_sound 8 (λ j. every 8 (λ i. every 256 (or_law j i))) j or_table hj) hi)
      hb

byte_of-set_byte :
    (bits : List ℕ) (n v k : ℕ)
    → n < length bits
    → byte_of (set_byte bits n v) k ≡ (if n == k then v else byte_of bits k)
unfolding byte_of set_byte
byte_of-set_byte [] n v k h = absurd (omega arith)
byte_of-set_byte (b ∷ bits) zero v zero h = refl
byte_of-set_byte (b ∷ bits) zero v (suc k) h = ground arith
byte_of-set_byte (b ∷ bits) (suc n) v zero h = ground arith
byte_of-set_byte (b ∷ bits) (suc n) v (suc k) h = ground (arith, byte_of-set_byte bits n v k)

length-set_byte : (bits : List ℕ) (n v : ℕ) → length (set_byte bits n v) ≡ length bits
unfolding set_byte
length-set_byte [] n v = refl
length-set_byte (b ∷ bits) zero v = refl
length-set_byte (b ∷ bits) (suc n) v = ap (λ (k : ℕ). suc k) (length-set_byte bits n v)

-- The bits are bytes, enough for `m` bits.
pub record Holds (m : ℕ) (bits : List ℕ) : Type 0 where
  pub bytes : (n : ℕ) → byte_of bits n < 256
  pub sized : length bits ≡ (m + 7) / 8

-- Every bit that was set is still set.
abbrev Grows : List ℕ → List ℕ → Type 0
Grows bits bits' = (c : ℕ) → has_bit bits c ≡ true → has_bit bits' c ≡ true

module _ (m : ℕ) (bits : List ℕ) (v : Holds m bits) (bit : ℕ) (inside : bit < m) where
  at :
      (c : ℕ)
      → byte_of (set_bit bits bit) c ≡ (
          if (bit / 8) == c
          then bit_or (byte_of bits (bit / 8)) (2 ^ (bit % 8))
          else byte_of bits c)
  unfolding set_bit
  at c = byte_of-set_byte bits (bit / 8) _ c (omega (arith, v.sized))

  set_bit-Holds : Holds m (set_bit bits bit)
  set_bit-Holds = record {
    bytes = λ n. ground (
      arith,
      at n,
      v.bytes n,
      or_lem (byte_of bits (bit / 8)) (bit % 8) 0 (v.bytes (bit / 8)) (omega arith) (omega arith),
    );
    sized = unfold set_bit in length-set_byte bits (bit / 8) _ ∙ v.sized;
  }

  set_bit_self : has_bit (set_bit bits bit) bit ≡ true
  unfolding has_bit
  set_bit_self = ground (
    arith,
    at (bit / 8),
    or_lem (byte_of bits (bit / 8)) (bit % 8) 0 (v.bytes (bit / 8)) (omega arith) (omega arith),
  )

  set_bit-Grows : Grows bits (set_bit bits bit)
  unfolding has_bit
  set_bit-Grows c h = elim (Bool-cases (bit / 8 == c / 8)) [
    | inl same ↦
        let e : bit / 8 ≡ c / 8 = (==_iff (bit / 8) (c / 8)).0 same in
        let now = rw same at (at (c / 8)) in
        let law =
          or_lem (byte_of bits (bit / 8)) (bit % 8) (c % 8) (v.bytes (bit / 8)) (omega arith)
            (omega arith) in
        let h' : test (byte_of bits (bit / 8)) (c % 8) ≡ true = rw e h in
        rw now (ground (arith, law, h'))
    | inr other ↦ let now = rw other at (at (c / 8)) in rw now h
  ]

module _ (h : ℕ × ℕ) (m : ℕ) (pos : 0 < m) where
  probe_inside : (i : ℕ) → probe h m i < m
  probe_inside i = omega arith

  -- The loop of `add` keeps the shape and every bit.
  add_probes_lem :
      (n i : ℕ) (bits : List ℕ)
      → Holds m bits
      → Holds m (add_probes h m n i bits) × Grows bits (add_probes h m n i bits)
  unfolding add_probes
  add_probes_lem zero i bits v = (v, λ c e. e)
  add_probes_lem (suc n) i bits v =
      let inside = probe_inside i in
      let (v', more) =
        add_probes_lem n (i + 1) (set_bit bits (probe h m i))
          (set_bit-Holds m bits v (probe h m i) inside) in
      (v', λ c e. more c (set_bit-Grows m bits v (probe h m i) inside c e))

  -- After it, every probe finds its bit.
  has_probes-add_probes :
      (n i : ℕ) (bits : List ℕ) → Holds m bits → has_probes h m n i (add_probes h m n i bits) ≡ true
  unfolding has_probes add_probes
  has_probes-add_probes zero i bits v = refl
  has_probes-add_probes (suc n) i bits v =
      let inside = probe_inside i in
      let v' = set_bit-Holds m bits v (probe h m i) inside in
      let (_, more) = add_probes_lem n (i + 1) (set_bit bits (probe h m i)) v' in
      rw (more (probe h m i) (set_bit_self m bits v (probe h m i) inside))
        (has_probes-add_probes n (i + 1) (set_bit bits (probe h m i)) v')

has_probes-Grows :
    (h : ℕ × ℕ) (m n i : ℕ) (bits bits' : List ℕ)
    → Grows bits bits'
    → has_probes h m n i bits ≡ true
    → has_probes h m n i bits' ≡ true
unfolding has_probes
has_probes-Grows h m zero i bits bits' more e = refl
has_probes-Grows h m (suc n) i bits bits' more e = elim (Bool-cases (has_bit bits (probe h m i))) [
  | inl set ↦
      let e' = rw set at e in
      rw (more (probe h m i) set) (has_probes-Grows h m n (i + 1) bits bits' more e')
  | inr clear ↦ let e' = rw clear at e in absurd cc
]

module _ (fnv64a crc64 : List ℕ → ℕ) where
  pub add_all_lem :
      (keys : List (List ℕ)) (b : BloomFilter)
      → 0 < b.m
      → Holds b.m b.bits
      → let b' = foldl (add fnv64a crc64) b keys in
        (b'.m ≡ b.m) × (b'.k ≡ b.k) × Holds b.m b'.bits × Grows b.bits b'.bits
  unfolding add
  add_all_lem [] b pos v = (refl, refl, v, λ c e. e)
  add_all_lem (key ∷ keys) b pos v =
      let (v', more) = add_probes_lem (bloom_hashes fnv64a crc64 key) b.m pos b.k 0 b.bits v in
      let (same_m, same_k, v'', more') = add_all_lem keys (add fnv64a crc64 b key) pos v' in
      (same_m, same_k, v'', λ c e. more' c (more c e))

  added :
      (b : BloomFilter) (key : List ℕ) (after : List (List ℕ))
      → 0 < b.m
      → Holds b.m b.bits
      → may_contain fnv64a crc64 (foldl (add fnv64a crc64) (add fnv64a crc64 b key) after) key
        ≡ true
  unfolding may_contain add
  added b key after pos v =
      let h = bloom_hashes fnv64a crc64 key in
      let bits' = add_probes h b.m b.k 0 b.bits in
      let final = foldl (add fnv64a crc64) (add fnv64a crc64 b key) after in
      let (v', _) = add_probes_lem h b.m pos b.k 0 b.bits v in
      let (same_m, same_k, _, more) = add_all_lem after (add fnv64a crc64 b key) pos v' in
      rw (same_m, same_k)
        (has_probes-Grows h b.m b.k 0 bits' final.bits more
          (has_probes-add_probes h b.m pos b.k 0 b.bits v))

  -- A filter of at least one bit, with bytes enough for its bits: after any keys were added one
  -- after another, whatever the two hash functions are, every key among them may be contained.
  pub may_contain-add :
      (b : BloomFilter) (before : List (List ℕ)) (key : List ℕ) (after : List (List ℕ))
      → 0 < b.m
      → Holds b.m b.bits
      → may_contain fnv64a crc64 (foldl (add fnv64a crc64) b (before ++ key ∷ after)) key ≡ true
  may_contain-add b before key after pos v =
      let b₁ = foldl (add fnv64a crc64) b before in
      let (m₁, _, v₁, _) = add_all_lem before b pos v in
      rw (foldl-append (add fnv64a crc64) b before (key ∷ after))
        (added b₁ key after (omega (arith, m₁)) (rw m₁ v₁))
