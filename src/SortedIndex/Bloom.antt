-- ===== src/SortedIndex/Bloom.antt =====
-- internal/sortedindex/bloom.go: the filter's `add` and `mayContain`. The two hash functions are the
-- library's (FNV-1a and CRC-64), so they are parameters. `mergeRuns` adds the keys one after another.
pub mod Negatives
use in_memory_db.Base.{
  ℕ, zero, suc, ◌+◌, ◌*◌, ◌/◌, ◌%◌, ◌^◌, List, [], ◌∷◌, foldl, max, replicate, get_elem?, set,
  bit_and, bit_or, ◌==◌, if◌then◌else◌, Bool, true, false, not, Option, none, some,
}
use in_memory_db.SortedIndex.Format.BloomFile.{BloomFilter}

-- `newBloomFilter`. The sizes come from floating-point formulas of the number of keys and the rate,
-- which are the arguments `bits_for` and `probes_for`.
unfoldable pub new_bloom_filter : (ℕ → ℕ) → (ℕ → ℕ → ℕ) → ℕ → BloomFilter
new_bloom_filter bits_for probes_for keys =
    let n = max keys 1 in
    let m = max (bits_for n) 8 in
    record { bits = replicate ((m + 7) % 2 ^ 64 / 8) 0; m = m; k = max (probes_for m n) 1 }

-- `b.bits[n]`, for an index in range
unfoldable pub byte_of : List ℕ → ℕ → ℕ
byte_of [] n = 0
byte_of (b ∷ bits) zero = b
byte_of (b ∷ bits) (suc n) = byte_of bits n

unfoldable pub set_byte : List ℕ → ℕ → ℕ → List ℕ
set_byte [] n v = []
set_byte (b ∷ bits) zero v = v ∷ bits
set_byte (b ∷ bits) (suc n) v = b ∷ set_byte bits n v

unfoldable pub set_bit : List ℕ → ℕ → List ℕ
unfolding byte_of set_byte
set_bit bits bit = set_byte bits (bit / 8) (bit_or (byte_of bits (bit / 8)) (2 ^ (bit % 8)))

unfoldable pub has_bit : List ℕ → ℕ → Bool
unfolding byte_of
has_bit bits bit = not (bit_and (byte_of bits (bit / 8)) (2 ^ (bit % 8)) == 0)

-- The bit of probe `i`; the products and sums are `uint64`.
abbrev pub probe : ℕ × ℕ → ℕ → ℕ → ℕ
probe (h1, h2) m i = (h1 + i * h2) % 2 ^ 64 % m

-- The loops over the probes from `i` on, `n` of them.
unfoldable pub add_probes : ℕ × ℕ → ℕ → ℕ → ℕ → List ℕ → List ℕ
unfolding set_bit
add_probes h m zero i bits = bits
add_probes h m (suc n) i bits = add_probes h m n (i + 1) (set_bit bits (probe h m i))

unfoldable pub has_probes : ℕ × ℕ → ℕ → ℕ → ℕ → List ℕ → Bool
unfolding has_bit
has_probes h m zero i bits = true
has_probes h m (suc n) i bits =
    let rest = has_probes h m n (i + 1) bits in if has_bit bits (probe h m i) then rest else false

module _ (fnv64a crc64 : List ℕ → ℕ) where
  unfoldable pub bloom_hashes : List ℕ → ℕ × ℕ
  bloom_hashes key = let h2 = crc64 key in (fnv64a key, if h2 == 0 then 1 else h2)

  unfoldable pub add : BloomFilter → List ℕ → BloomFilter
  unfolding bloom_hashes add_probes
  add b key = record b { bits = add_probes (bloom_hashes key) b.m b.k 0 b.bits }

  unfoldable pub may_contain : BloomFilter → List ℕ → Bool
  unfolding bloom_hashes has_probes
  may_contain b key = has_probes (bloom_hashes key) b.m b.k 0 b.bits
