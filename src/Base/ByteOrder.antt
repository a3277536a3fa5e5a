-- ===== src/Base/ByteOrder.antt =====
-- `bytes.Compare`: the lexicographic order of byte strings. `bytes_lt a b` is `Compare(a, b) < 0`.
use mathlib.Core.Bool.{Bool, true, false, ◌&&◌, ◌||◌}
use mathlib.Core.List.{List, [], ◌∷◌}
use mathlib.Core.Path.{◌≡◌, refl}
use Prim.Native.Nat.{ℕ}
use native.Mathlib.Omega.{arith}
use in_memory_db.Base.Tests.{ltb, ◌==◌}

unfoldable pub bytes_lt : List ℕ → List ℕ → Bool
bytes_lt [] [] = false
bytes_lt [] (y ∷ ys) = true
bytes_lt (x ∷ xs) [] = false
bytes_lt (x ∷ xs) (y ∷ ys) = ltb x y || (x == y && bytes_lt xs ys)

-- `bytes.HasPrefix`
unfoldable pub has_prefix : List ℕ → List ℕ → Bool
has_prefix bs [] = true
has_prefix [] (p ∷ ps) = false
has_prefix (b ∷ bs) (p ∷ ps) = b == p && has_prefix bs ps

pub bytes_lt_irrefl : (a : List ℕ) → bytes_lt a a ≡ false
unfolding bytes_lt
bytes_lt_irrefl [] = refl
bytes_lt_irrefl (x ∷ xs) = ground (arith, bytes_lt_irrefl xs)

pub bytes_lt_trans :
    (a b c : List ℕ) → bytes_lt a b ≡ true → bytes_lt b c ≡ true → bytes_lt a c ≡ true
unfolding bytes_lt
bytes_lt_trans [] [] c h k = ground arith
bytes_lt_trans [] (y ∷ b) [] h k = ground arith
bytes_lt_trans [] (y ∷ b) (z ∷ c) h k = refl
bytes_lt_trans (x ∷ a) [] c h k = ground arith
bytes_lt_trans (x ∷ a) (y ∷ b) [] h k = ground arith
bytes_lt_trans (x ∷ a) (y ∷ b) (z ∷ c) h k = ground (arith, bytes_lt_trans a b c)

pub bytes_lt_asymm : (a b : List ℕ) → bytes_lt a b ≡ true → bytes_lt b a ≡ false
unfolding bytes_lt
bytes_lt_asymm [] [] h = refl
bytes_lt_asymm [] (y ∷ b) h = refl
bytes_lt_asymm (x ∷ a) [] h = ground arith
bytes_lt_asymm (x ∷ a) (y ∷ b) h = ground (arith, bytes_lt_asymm a b)

-- Neither is below the other only if they are equal.
pub bytes_lt_total : (a b : List ℕ) → bytes_lt a b ≡ false → bytes_lt b a ≡ false → a ≡ b
unfolding bytes_lt
bytes_lt_total [] [] h k = refl
bytes_lt_total [] (y ∷ b) h k = ground arith
bytes_lt_total (x ∷ a) [] h k = ground arith
bytes_lt_total (x ∷ a) (y ∷ b) h k = ground (arith, bytes_lt_total a b)

-- With `≤` read as "not above".
pub bytes_le_trans :
    (a b c : List ℕ) → bytes_lt b a ≡ false → bytes_lt c b ≡ false → bytes_lt c a ≡ false
unfolding bytes_lt
bytes_le_trans [] [] c h k = ground arith
bytes_le_trans [] (y ∷ b) [] h k = refl
bytes_le_trans [] (y ∷ b) (z ∷ c) h k = refl
bytes_le_trans (x ∷ a) [] c h k = ground arith
bytes_le_trans (x ∷ a) (y ∷ b) [] h k = ground arith
bytes_le_trans (x ∷ a) (y ∷ b) (z ∷ c) h k = ground (arith, bytes_le_trans a b c)

pub bytes_lt_of_lt_le :
    (a b c : List ℕ) → bytes_lt a b ≡ true → bytes_lt c b ≡ false → bytes_lt a c ≡ true
unfolding bytes_lt
bytes_lt_of_lt_le [] [] c h k = ground arith
bytes_lt_of_lt_le [] (y ∷ b) [] h k = ground arith
bytes_lt_of_lt_le [] (y ∷ b) (z ∷ c) h k = refl
bytes_lt_of_lt_le (x ∷ a) [] c h k = ground arith
bytes_lt_of_lt_le (x ∷ a) (y ∷ b) [] h k = ground arith
bytes_lt_of_lt_le (x ∷ a) (y ∷ b) (z ∷ c) h k = ground (arith, bytes_lt_of_lt_le a b c)

pub bytes_lt_of_le_lt :
    (a b c : List ℕ) → bytes_lt b a ≡ false → bytes_lt b c ≡ true → bytes_lt a c ≡ true
unfolding bytes_lt
bytes_lt_of_le_lt [] [] [] h k = ground arith
bytes_lt_of_le_lt [] [] (z ∷ c) h k = refl
bytes_lt_of_le_lt [] (y ∷ b) [] h k = ground arith
bytes_lt_of_le_lt [] (y ∷ b) (z ∷ c) h k = refl
bytes_lt_of_le_lt (x ∷ a) [] c h k = ground arith
bytes_lt_of_le_lt (x ∷ a) (y ∷ b) [] h k = ground arith
bytes_lt_of_le_lt (x ∷ a) (y ∷ b) (z ∷ c) h k = ground (arith, bytes_lt_of_le_lt a b c)

-- A string with a prefix is not below it, and behind the strings with a prefix there are no more.
pub has_prefix_below : (a p : List ℕ) → bytes_lt a p ≡ true → has_prefix a p ≡ false
unfolding bytes_lt has_prefix
has_prefix_below [] [] h = ground arith
has_prefix_below [] (y ∷ p) h = refl
has_prefix_below (x ∷ a) [] h = ground arith
has_prefix_below (x ∷ a) (y ∷ p) h = ground (arith, has_prefix_below a p)

pub has_prefix_behind :
    (p a b : List ℕ)
    → bytes_lt a p ≡ false
    → has_prefix a p ≡ false
    → bytes_lt a b ≡ true
    → has_prefix b p ≡ false
unfolding bytes_lt has_prefix
has_prefix_behind [] [] b h k l = ground arith
has_prefix_behind [] (x ∷ a) b h k l = ground arith
has_prefix_behind (y ∷ p) [] b h k l = ground arith
has_prefix_behind (y ∷ p) (x ∷ a) [] h k l = refl
has_prefix_behind (y ∷ p) (x ∷ a) (z ∷ b) h k l = ground (arith, has_prefix_behind p a b)
