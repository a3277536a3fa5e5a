-- ===== src/Base/ByteMap.antt =====
-- Go maps with byte-string keys, as association lists. The program relies on no order of a map's
-- entries.
use mathlib.Core.List.{List, [], ◌∷◌}
use mathlib.Core.Option.{Option, none, some}
use mathlib.Core.Path.{◌≡◌}
use Prim.Native.Nat.{ℕ}
use native.Mathlib.Omega.{arith}
use in_memory_db.Base.Tests.{bytes_equal, bytes_equal_iff, bytes_equal_refl, if◌then◌else◌}

abbrev pub ByteMap {ℓ} : Type ℓ → Type ℓ
ByteMap V = List (List ℕ × V)

module _ {ℓ} {V : Type ℓ} where
  unfoldable pub lookup : List ℕ → ByteMap V → Option V
  lookup k [] = none
  lookup k ((j, v) ∷ m) = if bytes_equal j k then some v else lookup k m

  unfoldable pub remove : List ℕ → ByteMap V → ByteMap V
  remove k [] = []
  remove k ((j, v) ∷ m) = let rest = remove k m in if bytes_equal j k then rest else (j, v) ∷ rest

  unfoldable pub insert : List ℕ → V → ByteMap V → ByteMap V
  unfolding remove
  insert k v m = (k, v) ∷ remove k m

  pub lookup-remove :
      (k j : List ℕ) (m : ByteMap V)
      → lookup j (remove k m) ≡ (if bytes_equal k j then none else lookup j m)
  unfolding lookup remove
  lookup-remove k j [] = ground arith
  lookup-remove k j ((i, v) ∷ m) =
      ground
        (arith, lookup-remove k j m, bytes_equal_iff i k, bytes_equal_iff i j, bytes_equal_iff k j)

  pub lookup-insert :
      (k j : List ℕ) (v : V) (m : ByteMap V)
      → lookup j (insert k v m) ≡ (if bytes_equal k j then some v else lookup j m)
  unfolding lookup insert
  lookup-insert k j v m = ground (arith, lookup-remove k j m)

  pub lookup-insert_self : (k : List ℕ) (v : V) (m : ByteMap V) → lookup k (insert k v m) ≡ some v
  lookup-insert_self k v m = ground (arith, lookup-insert k k v m, bytes_equal_refl k)
