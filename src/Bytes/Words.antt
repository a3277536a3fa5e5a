-- ===== src/Bytes/Words.antt =====
-- Big-endian words of two, four and eight bytes (`binary.BigEndian`).
use in_memory_db.Base.{
  ℕ, ◌+◌, ◌*◌, ◌/◌, ◌%◌, ◌^◌, ◌<◌, ◌≡◌, refl, List, [], ◌∷◌, ◌++◌, arith, length, take, drop,
}

unfoldable pub put_uint16 : ℕ → List ℕ
put_uint16 v = v / 2 ^ 8 % 256 ∷ v % 256 ∷ []

unfoldable pub put_uint32 : ℕ → List ℕ
put_uint32 v = v / 2 ^ 24 % 256 ∷ v / 2 ^ 16 % 256 ∷ v / 2 ^ 8 % 256 ∷ v % 256 ∷ []

unfoldable pub put_uint64 : ℕ → List ℕ
put_uint64 v = put_uint32 (v / 2 ^ 32) ++ put_uint32 v

-- A read past the end is a panic in Go; every caller checks the length first.
unfoldable pub uint16 : List ℕ → ℕ
uint16 (a ∷ b ∷ _) = a * 2 ^ 8 + b
uint16 _ = 0

unfoldable pub uint32 : List ℕ → ℕ
uint32 (a ∷ b ∷ c ∷ d ∷ _) = a * 2 ^ 24 + b * 2 ^ 16 + c * 2 ^ 8 + d
uint32 _ = 0

unfoldable pub uint64 : List ℕ → ℕ
unfolding uint32
uint64 bs = uint32 (take 4 bs) * 2 ^ 32 + uint32 (drop 4 bs)

pub uint16-put_uint16 : (v : ℕ) → v < 2 ^ 16 → uint16 (put_uint16 v) ≡ v
unfolding put_uint16 uint16
uint16-put_uint16 v h = omega arith

pub uint32-put_uint32_mod : (v : ℕ) → uint32 (put_uint32 v) ≡ v % 2 ^ 32
unfolding put_uint32 uint32
uint32-put_uint32_mod v = omega arith

pub uint32-put_uint32 : (v : ℕ) → v < 2 ^ 32 → uint32 (put_uint32 v) ≡ v
uint32-put_uint32 v h = omega (arith, uint32-put_uint32_mod v)

pub length-put_uint16 : (v : ℕ) → length (put_uint16 v) ≡ 2
unfolding put_uint16
length-put_uint16 v = refl

pub length-put_uint32 : (v : ℕ) → length (put_uint32 v) ≡ 4
unfolding put_uint32
length-put_uint32 v = refl

pub length-put_uint64 : (v : ℕ) → length (put_uint64 v) ≡ 8
unfolding put_uint64 put_uint32
length-put_uint64 v = refl

uint64-halves :
    (a b : ℕ)
    → uint64 (put_uint32 a ++ put_uint32 b) ≡ uint32 (put_uint32 a) * 2 ^ 32 + uint32 (put_uint32 b)
unfolding uint64 put_uint32
uint64-halves a b = refl

pub uint64-put_uint64 : (v : ℕ) → v < 2 ^ 64 → uint64 (put_uint64 v) ≡ v
unfolding put_uint64
uint64-put_uint64 v h = omega (
  arith,
  uint64-halves (v / 2 ^ 32) v,
  uint32-put_uint32_mod (v / 2 ^ 32),
  uint32-put_uint32_mod v,
)
