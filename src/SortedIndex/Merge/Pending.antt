-- ===== src/SortedIndex/Merge/Pending.antt =====
-- The entries that a merge has still to see: those in the heap, and those left in the readers.
use in_memory_db.Base.{
  ℕ, zero, suc, ◌+◌, ◌≡◌, ◌≢◌, refl, List, [], ◌∷◌, length, get_elem?, set, Bool, true, false, some,
  ok, err, eof, ◌⊎◌, inl, inr, arith, subst,
}
use in_memory_db.Base.ByteOrder.{bytes_lt, bytes_le_trans, bytes_lt_irrefl}
use in_memory_db.SortedIndex.Format.Entries.{SortEntry}
use in_memory_db.SortedIndex.Merge.{EntryReader, next}

-- Membership, with the place kept.
abbrev pub In : {A : Type 0} → A → List A → Type 0
In a [] = ⊥
In a (x ∷ xs) = (a ≡ x) ⊎ In a xs

-- One key is not above another.
abbrev pub KeyLe : SortEntry → SortEntry → Type 0
KeyLe a b = bytes_lt b.key a.key ≡ false

pub KeyLe-refl : (a : SortEntry) → KeyLe a a
KeyLe-refl a = bytes_lt_irrefl a.key

pub KeyLe-trans : (a b c : SortEntry) → KeyLe a b → KeyLe b c → KeyLe a c
KeyLe-trans a b c = bytes_le_trans a.key b.key c.key

abbrev pub Below : SortEntry → List SortEntry → Type 0
Below a es = (z : SortEntry) → In z es → KeyLe a z

-- The comparisons that the library's sort and heap ask for.
pub record StrictWeak {A : Type 0} (less : A → A → Bool) : Type 0 where
  pub irrefl : (a : A) → less a a ≡ false
  pub asymm : (a b : A) → less a b ≡ true → less b a ≡ false
  pub trans : (a b c : A) → less b a ≡ false → less c b ≡ false → less c a ≡ false

-- No item is less than one in front of it.
abbrev pub Ordered : {A : Type 0} → (A → A → Bool) → List A → Type 0
Ordered less [] = Unit
Ordered {A} less (x ∷ xs) = ((z : A) → In z xs → less z x ≡ false) × Ordered less xs

-- Ascending by key; equal keys may stand in any order.
abbrev pub Ascending : List SortEntry → Type 0
Ascending = Ordered (λ (a : SortEntry) (b : SortEntry). bytes_lt a.key b.key)

-- A reader gives these entries, and then the end of its input.
abbrev pub Streams : EntryReader → List SortEntry → Type 0
Streams r [] = next r ≡ err eof
Streams r (e ∷ es) = (r' : EntryReader) × (next r ≡ ok (e, r')) × Streams r' es

abbrev pub Yields : List EntryReader → List (List SortEntry) → Type 0
Yields [] [] = Unit
Yields [] (es ∷ ess) = ⊥
Yields (r ∷ rs) [] = ⊥
Yields (r ∷ rs) (es ∷ ess) = Streams r es × Yields rs ess

pub Yields-at :
    (rs : List EntryReader) (ess : List (List SortEntry)) (i : ℕ) (es : List SortEntry)
    → Yields rs ess
    → get_elem? ess i ≡ some es
    → (r : EntryReader) × (get_elem? rs i ≡ some r) × Streams r es
Yields-at [] [] i es y h = absurd (cc)
Yields-at [] (fs ∷ ess) i es y h = absurd y
Yields-at (r ∷ rs) [] i es y h = absurd y
Yields-at (r ∷ rs) (fs ∷ ess) zero es y h =
    (r, refl, let e : fs ≡ es = cc in subst (Streams r) e y.0)
Yields-at (r ∷ rs) (fs ∷ ess) (suc i) es y h = Yields-at rs ess i es y.1 h

pub Yields-set :
    (rs : List EntryReader) (ess : List (List SortEntry)) (i : ℕ) (r : EntryReader)
    (es : List SortEntry)
    → Yields rs ess
    → Streams r es
    → Yields (set rs i r) (set ess i es)
Yields-set [] [] i r es y s = tt
Yields-set [] (fs ∷ ess) i r es y s = absurd y
Yields-set (q ∷ rs) [] i r es y s = absurd y
Yields-set (q ∷ rs) (fs ∷ ess) zero r es y s = (s, y.1)
Yields-set (q ∷ rs) (fs ∷ ess) (suc i) r es y s = (y.0, Yields-set rs ess i r es y.1 s)

-- What stands in a list after a write.
pub get_elem?-set_cases {ℓ} :
    {A : Type ℓ} (xs : List A) (i j : ℕ) (v w : A)
    → get_elem? (set xs i v) j ≡ some w
    → ((i ≡ j) × (v ≡ w)) ⊎ ((i ≢ j) × (get_elem? xs j ≡ some w))
get_elem?-set_cases [] i j v w h = absurd (cc)
get_elem?-set_cases (x ∷ xs) zero zero v w h = inl (refl, cc)
get_elem?-set_cases (x ∷ xs) zero (suc j) v w h = inr (omega arith, h)
get_elem?-set_cases (x ∷ xs) (suc i) zero v w h = inr (omega arith, h)
get_elem?-set_cases (x ∷ xs) (suc i) (suc j) v w h = elim (get_elem?-set_cases xs i j v w h) [
  | inl (e, f) ↦ inl (omega arith, f)
  | inr (d, f) ↦ inr (omega arith, f)
]

pub get_elem?-set_at {ℓ} :
    {A : Type ℓ} (xs : List A) (i : ℕ) (v w : A)
    → get_elem? xs i ≡ some w
    → get_elem? (set xs i v) i ≡ some v
get_elem?-set_at [] i v w h = absurd (cc)
get_elem?-set_at (x ∷ xs) zero v w h = refl
get_elem?-set_at (x ∷ xs) (suc i) v w h = get_elem?-set_at xs i v w h

pub get_elem?-set_other {ℓ} :
    {A : Type ℓ} (xs : List A) (i j : ℕ) (v : A) → i ≢ j → get_elem? (set xs i v) j ≡ get_elem? xs j
get_elem?-set_other [] i j v d = refl
get_elem?-set_other (x ∷ xs) zero zero v d = absurd (d refl)
get_elem?-set_other (x ∷ xs) zero (suc j) v d = refl
get_elem?-set_other (x ∷ xs) (suc i) zero v d = refl
get_elem?-set_other (x ∷ xs) (suc i) (suc j) v d =
    get_elem?-set_other xs i j v (λ e. d (omega (arith, e)))

abbrev pub total : List (List SortEntry) → ℕ
total [] = 0
total (es ∷ ess) = length es + total ess

pub total-set :
    (ess : List (List SortEntry)) (i : ℕ) (e : SortEntry) (es : List SortEntry)
    → get_elem? ess i ≡ some (e ∷ es)
    → total (set ess i es) + 1 ≡ total ess
total-set [] i e es h = absurd (cc)
total-set (fs ∷ ess) zero e es h = let eq : fs ≡ e ∷ es = cc in rw eq (omega arith)
total-set (fs ∷ ess) (suc i) e es h = omega (arith, total-set ess i e es h)
