-- ===== src/SortedIndex/Merge/Start.antt =====
-- The heap that the merge starts with: the first entry of every reader.
use in_memory_db.Base.{
  ℕ, zero, suc, ◌+◌, ◌≡◌, refl, ap, sym, List, [], ◌∷◌, get_elem?, some, ok, ◌⊎◌, inl, inr, arith,
  subst,
}
use in_memory_db.SortedIndex.Format.Entries.{SortEntry}
use in_memory_db.SortedIndex.Merge.{EntryReader, HeapItem, fill}
use in_memory_db.SortedIndex.Merge.Pending.{In, Ascending, Yields, total}
use in_memory_db.SortedIndex.Merge.Step.{Inv, Pending, size}

pub heads : ℕ → List (List SortEntry) → List HeapItem
heads i [] = []
heads i ([] ∷ ess) = heads (i + 1) ess
heads i ((e ∷ es) ∷ ess) = (e, i) ∷ heads (i + 1) ess

pub tails : List (List SortEntry) → List (List SortEntry)
tails [] = []
tails ([] ∷ ess) = [] ∷ tails ess
tails ((e ∷ es) ∷ ess) = es ∷ tails ess

pub fill_lem :
    (i : ℕ) (rs : List EntryReader) (ess : List (List SortEntry))
    → Yields rs ess
    → (rs' : List EntryReader) × (fill i rs ≡ ok (heads i ess, rs')) × Yields rs' (tails ess)
unfolding fill heads tails
fill_lem i [] [] y = ([], refl, tt)
fill_lem i [] (es ∷ ess) y = absurd y
fill_lem i (r ∷ rs) [] y = absurd y
fill_lem i (r ∷ rs) ([] ∷ ess) (s, y) =
    let (rs', run, y') = fill_lem (i + 1) rs ess y in (r ∷ rs', rw (s, fill, run) refl, (s, y'))
fill_lem i (r ∷ rs) ((e ∷ es) ∷ ess) ((r', reads, s), y) =
    let (rs', run, y') = fill_lem (i + 1) rs ess y in
    (r' ∷ rs', rw (reads, fill, run) refl, (s, y'))

-- The items of the heap are the heads of the lists.
head_of :
    (ess : List (List SortEntry)) (i j : ℕ) (z : SortEntry)
    → In (z, j) (heads i ess)
    → (k : ℕ) × (es : List SortEntry) × (j ≡ i + k) × (get_elem? ess k ≡ some (z ∷ es))
unfolding heads
head_of [] i j z m = absurd m
head_of ([] ∷ ess) i j z m =
    let (k, es, at_, e) = head_of ess (i + 1) j z m in (suc k, es, omega arith, e)
head_of ((f ∷ fs) ∷ ess) i j z (inl eq) = (
  zero,
  fs,
  omega (arith, ap (λ (x : HeapItem). x.1) eq),
  ap (λ (x : SortEntry). some (x ∷ fs)) (sym (ap (λ (x : HeapItem). x.0) eq)),
)
head_of ((f ∷ fs) ∷ ess) i j z (inr m) =
    let (k, es, at_, e) = head_of ess (i + 1) j z m in (suc k, es, omega arith, e)

head-In :
    (ess : List (List SortEntry)) (i j k : ℕ) (z : SortEntry) (es : List SortEntry)
    → j ≡ i + k
    → get_elem? ess k ≡ some (z ∷ es)
    → In (z, j) (heads i ess)
unfolding heads
head-In [] i j k z es at_ e = absurd (cc)
head-In ([] ∷ ess) i j zero z es at_ e = absurd (cc)
head-In ([] ∷ ess) i j (suc k) z es at_ e = head-In ess (i + 1) j k z es (omega arith) e
head-In ((f ∷ fs) ∷ ess) i j zero z es at_ e =
    let same : f ≡ z = cc in let place : j ≡ i = omega arith in inl (rw (same, place) refl)
head-In ((f ∷ fs) ∷ ess) i j (suc k) z es at_ e = inr (head-In ess (i + 1) j k z es (omega arith) e)

tail_of :
    (ess : List (List SortEntry)) (k : ℕ) (t : List SortEntry)
    → get_elem? (tails ess) k ≡ some t
    → ((t ≡ []) × (get_elem? ess k ≡ some []))
      ⊎ ((e : SortEntry) × (get_elem? ess k ≡ some (e ∷ t)))
unfolding tails
tail_of [] k t h = absurd (cc)
tail_of ([] ∷ ess) zero t h = inl (cc, refl)
tail_of ([] ∷ ess) (suc k) t h = tail_of ess k t h
tail_of ((e ∷ es) ∷ ess) zero t h = let same : es ≡ t = cc in inr (e, rw same refl)
tail_of ((e ∷ es) ∷ ess) (suc k) t h = tail_of ess k t h

tail_at :
    (ess : List (List SortEntry)) (k : ℕ) (e : SortEntry) (t : List SortEntry)
    → get_elem? ess k ≡ some (e ∷ t)
    → get_elem? (tails ess) k ≡ some t
unfolding tails
tail_at [] k e t h = absurd (cc)
tail_at ([] ∷ ess) zero e t h = absurd (cc)
tail_at ([] ∷ ess) (suc k) e t h = tail_at ess k e t h
tail_at ((f ∷ fs) ∷ ess) zero e t h = let same : fs ≡ t = cc in rw same refl
tail_at ((f ∷ fs) ∷ ess) (suc k) e t h = tail_at ess k e t h

-- An entry of one of the lists.
abbrev pub Among : SortEntry → List (List SortEntry) → Type 0
Among z ess = (k : ℕ) × (es : List SortEntry) × (get_elem? ess k ≡ some es) × In z es

abbrev pub AllAscending : List (List SortEntry) → Type 0
AllAscending ess = (k : ℕ) (es : List SortEntry) → get_elem? ess k ≡ some es → Ascending es

pub start-Inv : (ess : List (List SortEntry)) → AllAscending ess → Inv (heads 0 ess) (tails ess)
start-Inv ess sorted = record {
  in_range = λ x m.
      let (k, es, place, at_) = head_of ess 0 x.1 x.0 m in
      let here : x.1 ≡ k = omega arith in (es, rw here (tail_at ess k x.0 es at_));
  headed = λ k t h. elim (tail_of ess k t h) [
    | inl (ended, _) ↦ inl ended
    | inr (e, at_) ↦ inr (e, head-In ess 0 k k e t (omega arith) at_, (sorted k (e ∷ t) at_).0)
  ];
  sorted = λ k t h. elim (tail_of ess k t h) [
    | inl (ended, _) ↦ subst Ascending (sym ended) tt
    | inr (e, at_) ↦ (sorted k (e ∷ t) at_).1
  ];
}

pub size-start : (i : ℕ) (ess : List (List SortEntry)) → size (heads i ess) (tails ess) ≡ total ess
unfolding heads tails
size-start i [] = refl
size-start i ([] ∷ ess) = omega (arith, size-start (i + 1) ess)
size-start i ((e ∷ es) ∷ ess) = omega (arith, size-start (i + 1) ess)

-- What is pending at the start is what stands in the lists.
pub Pending→Among :
    (ess : List (List SortEntry)) (z : SortEntry)
    → Pending z (heads 0 ess) (tails ess)
    → Among z ess
Pending→Among ess z (inl (j, m)) =
    let (k, es, place, at_) = head_of ess 0 j z m in (k, z ∷ es, at_, inl refl)
Pending→Among ess z (inr (k, t, h, m)) = elim (tail_of ess k t h) [
  | inl (ended, at_) ↦ absurd (subst (In z) ended m)
  | inr (e, at_) ↦ (k, e ∷ t, at_, inr m)
]

pub Among→Pending :
    (ess : List (List SortEntry)) (z : SortEntry)
    → Among z ess
    → Pending z (heads 0 ess) (tails ess)
Among→Pending ess z (k, [], at_, m) = absurd m
Among→Pending ess z (k, e ∷ es, at_, inl is_e) =
    inl (
      k,
      subst (λ x. In (x, k) (heads 0 ess)) (sym is_e) (head-In ess 0 k k e es (omega arith) at_),
    )
Among→Pending ess z (k, e ∷ es, at_, inr m) = inr (k, es, tail_at ess k e es at_, m)
