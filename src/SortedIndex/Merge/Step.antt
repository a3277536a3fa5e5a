-- ===== src/SortedIndex/Merge/Step.antt =====
-- One round of the heap: the least item is taken, and its reader gives the next one.
use in_memory_db.Base.{
  ℕ, suc, ◌+◌, ◌<◌, ◌≡◌, ◌≢◌, refl, ap, sym, ◌∙◌, List, [], ◌∷◌, length, get_elem?, set, Bool,
  false, Option, none, some, ok, err, eof, ◌⊎◌, inl, inr, arith, subst, Bool-cases, ◌==◌, ==_iff,
}
use in_memory_db.Base.ByteOrder.{bytes_lt_asymm}
use in_memory_db.SortedIndex.Format.Entries.{SortEntry}
use in_memory_db.SortedIndex.Merge.{EntryReader, next, HeapItem, heap_less, MergeState, advance}
use in_memory_db.SortedIndex.Merge.Pending.{
  In, StrictWeak, KeyLe, KeyLe-refl, KeyLe-trans, Below, Ascending, Streams, Yields, Yields-at,
  Yields-set, get_elem?-set_cases, get_elem?-set_at, get_elem?-set_other, total, total-set,
}

-- What Pop does: an item that no other is less than leaves the heap, and the others stay.
pub record Taken (less : HeapItem → HeapItem → Bool) (h : List HeapItem) (x : HeapItem)
    (rest : List HeapItem) : Type 0 where
  pub shorter : length h ≡ suc (length rest)
  pub here : In x h
  pub others : (z : HeapItem) → In z h → (z ≡ x) ⊎ In z rest
  pub stays : (z : HeapItem) → In z rest → In z h
  pub least : (z : HeapItem) → In z h → less z x ≡ false

pub record HeapPops
    (pop : (HeapItem → HeapItem → Bool) → List HeapItem → Option (HeapItem × List HeapItem))
    : Type 0 where
  pub empty : (less : HeapItem → HeapItem → Bool) → pop less [] ≡ none
  pub takes :
      (less : HeapItem → HeapItem → Bool)
      → StrictWeak less
      → (h : List HeapItem) → 0 < length h
      → (x : HeapItem) × (rest : List HeapItem) × (pop less h ≡ some (x, rest))
        × Taken less h x rest

-- The merge compares keys, which is such an order.
pub heap_less-StrictWeak : StrictWeak heap_less
heap_less-StrictWeak = record {
  irrefl = λ a. KeyLe-refl a.0;
  asymm = λ a b. bytes_lt_asymm a.0.key b.0.key;
  trans = λ a b c. KeyLe-trans a.0 b.0 c.0;
}

-- Every reader that is not at its end has an item in the heap that is below what it will give.
pub record Inv (h : List HeapItem) (ess : List (List SortEntry)) : Type 0 where
  pub in_range : (x : HeapItem) → In x h → (es : List SortEntry) × (get_elem? ess x.1 ≡ some es)
  pub headed :
      (i : ℕ) (es : List SortEntry)
      → get_elem? ess i ≡ some es
      → (es ≡ []) ⊎ ((e : SortEntry) × In (e, i) h × Below e es)
  pub sorted : (i : ℕ) (es : List SortEntry) → get_elem? ess i ≡ some es → Ascending es

abbrev pub Pending : SortEntry → List HeapItem → List (List SortEntry) → Type 0
Pending z h ess =
    ((i : ℕ) × In (z, i) h)
    ⊎ ((i : ℕ) × (es : List SortEntry) × (get_elem? ess i ≡ some es) × In z es)

abbrev pub size : List HeapItem → List (List SortEntry) → ℕ
size h ess = length h + total ess

pub record Round (h : List HeapItem) (ess : List (List SortEntry)) (e : SortEntry)
    (h' : List HeapItem) (ess' : List (List SortEntry)) : Type 0 where
  pub inv : Inv h' ess'
  pub falls : size h' ess' + 1 ≡ size h ess
  pub least : (z : SortEntry) → Pending z h ess → KeyLe e z
  pub here : Pending e h ess
  pub others : (z : SortEntry) → Pending z h ess → (z ≡ e) ⊎ Pending z h' ess'
  pub stays : (z : SortEntry) → Pending z h' ess' → Pending z h ess

apart_of : (i j : ℕ) → (i == j) ≡ false → i ≢ j
apart_of i j h = ground arith

module _ (h : List HeapItem) (ess : List (List SortEntry)) (v : Inv h ess) (e : SortEntry) (i : ℕ)
    (rest : List HeapItem) (t : Taken heap_less h (e, i) rest) where
  -- The item taken is below all that is pending: a reader's head is in the heap.
  least : (z : SortEntry) → Pending z h ess → KeyLe e z
  least z (inl (j, m)) = t.least (z, j) m
  least z (inr (j, es, at_, m)) = elim (v.headed j es at_) [
    | inl none_left ↦ absurd (subst (In z) none_left m)
    | inr (f, head, below) ↦ KeyLe-trans e f z (t.least (f, j) head) (below z m)
  ]

  -- Any other reader still has its head.
  other_headed :
      (j : ℕ) (es : List SortEntry)
      → i ≢ j
      → get_elem? ess j ≡ some es
      → (es ≡ []) ⊎ ((f : SortEntry) × In (f, j) rest × Below f es)
  other_headed j es apart at_ = elim (v.headed j es at_) [
    | inl none_left ↦ inl none_left
    | inr (f, head, below) ↦ elim (t.others (f, j) head) [
      | inl same ↦ absurd (apart (sym (ap (λ (x : HeapItem). x.1) same)))
      | inr there ↦ inr (f, there, below)
    ]
  ]

  module _ (ended : get_elem? ess i ≡ some []) where
    ended-Round : Round h ess e rest ess
    ended-Round = record {
      inv = record {
        in_range = λ x m. v.in_range x (t.stays x m);
        headed = λ j es at_. elim (Bool-cases (i == j)) [
          | inl same ↦
              let e' : i ≡ j = (==_iff i j).0 same in
              let at_i : get_elem? ess i ≡ some es = rw e' at_ in inl (let eq : es ≡ [] = cc in eq)
          | inr apart ↦ other_headed j es (apart_of i j apart) at_
        ];
        sorted = v.sorted;
      };
      falls = omega (arith, t.shorter);
      least = least;
      here = inl (i, t.here);
      others = λ z p. elim p [
        | inl (j, m) ↦ elim (t.others (z, j) m) [
          | inl same ↦ inl (ap (λ (x : HeapItem). x.0) same)
          | inr there ↦ inr (inl (j, there))
        ]
        | inr q ↦ inr (inr q)
      ];
      stays = λ z p. elim p [ inl (j, m) ↦ inl (j, t.stays (z, j) m) | inr q ↦ inr q ];
    }

  module _ (f : SortEntry) (fs : List SortEntry) (more : get_elem? ess i ≡ some (f ∷ fs)) where
    abbrev ess' : List (List SortEntry)
    ess' = set ess i fs

    more-Round : Round h ess e ((f, i) ∷ rest) ess'
    more-Round = record {
      inv = record {
        in_range = λ x m. elim m [
          | inl eq ↦
              let at_i : i ≡ x.1 = sym (ap (λ (y : HeapItem). y.1) eq) in
              (fs, rw (← at_i) (get_elem?-set_at ess i fs (f ∷ fs) more))
          | inr there ↦ elim (Bool-cases (i == x.1)) [
            | inl same ↦
                let at_i : i ≡ x.1 = (==_iff i x.1).0 same in
                (fs, rw (← at_i) (get_elem?-set_at ess i fs (f ∷ fs) more))
            | inr apart ↦
                let (es, at_) = v.in_range x (t.stays x there) in
                (es, get_elem?-set_other ess i x.1 fs (apart_of i x.1 apart) ∙ at_)
          ]
        ];
        headed = λ j es at_. elim (get_elem?-set_cases ess i j fs es at_) [
          | inl (same, eq) ↦ inr (
            f,
            inl (ap (λ (k : ℕ). (f, k)) (sym same)),
            subst (Below f) eq (v.sorted i (f ∷ fs) more).0,
          )
          | inr (apart, at') ↦ elim (other_headed j es apart at') [
            | inl none_left ↦ inl none_left
            | inr (g, there, below) ↦ inr (g, inr there, below)
          ]
        ];
        sorted = λ j es at_. elim (get_elem?-set_cases ess i j fs es at_) [
          | inl (same, eq) ↦ subst Ascending eq (v.sorted i (f ∷ fs) more).1
          | inr (apart, at') ↦ v.sorted j es at'
        ];
      };
      falls = omega (arith, t.shorter, total-set ess i f fs more);
      least = least;
      here = inl (i, t.here);
      others = λ z p. elim p [
        | inl (j, m) ↦ elim (t.others (z, j) m) [
          | inl same ↦ inl (ap (λ (x : HeapItem). x.0) same)
          | inr there ↦ inr (inl (j, inr there))
        ]
        | inr (j, es, at_, m) ↦ elim (Bool-cases (i == j)) [
          | inl same ↦
              let e' : i ≡ j = (==_iff i j).0 same in
              let at_i : get_elem? ess i ≡ some es = rw e' at_ in
              let eq : es ≡ f ∷ fs = cc in
              elim (subst (In z) eq m) [
                | inl is_f ↦ inr (inl (i, inl (ap (λ (x : SortEntry). (x, i)) is_f)))
                | inr m' ↦ inr (inr (i, fs, get_elem?-set_at ess i fs (f ∷ fs) more, m'))
              ]
          | inr apart ↦
              inr (inr (j, es, get_elem?-set_other ess i j fs (apart_of i j apart) ∙ at_, m))
        ]
      ];
      stays = λ z p. elim p [
        | inl (j, inl eq) ↦ inr (i, f ∷ fs, more, inl (ap (λ (x : HeapItem). x.0) eq))
        | inl (j, inr m) ↦ inl (j, t.stays (z, j) m)
        | inr (j, es, at_, m) ↦ elim (get_elem?-set_cases ess i j fs es at_) [
          | inl (same, eq) ↦ inr (i, f ∷ fs, more, inr (subst (In z) (sym eq) m))
          | inr (apart, at') ↦ inr (j, es, at', m)
        ]
      ];
    }

module _ (i : ℕ) (rs : List EntryReader) (rest : List HeapItem) (r : EntryReader) where
  advance_end :
      get_elem? rs i ≡ some r
      → next r ≡ err eof
      → advance i (record { heap = rest; readers = rs }) ≡ ok (record { heap = rest; readers = rs })
  unfolding advance
  advance_end at_r ends = rw (at_r, advance, ends, advance) refl

  advance_more :
      (f : SortEntry) (r' : EntryReader)
      → get_elem? rs i ≡ some r
      → next r ≡ ok (f, r')
      → advance i (record { heap = rest; readers = rs })
        ≡ ok (record { heap = (f, i) ∷ rest; readers = set rs i r' })
  unfolding advance
  advance_more f r' at_r reads = rw (at_r, advance, reads, advance) refl

-- The same with the readers: `advance` succeeds, and the readers go on to yield what is pending.
pub round_lem :
    (rs : List EntryReader) (h : List HeapItem) (ess : List (List SortEntry)) (e : SortEntry)
    (i : ℕ) (rest : List HeapItem)
    → Yields rs ess
    → Inv h ess
    → Taken heap_less h (e, i) rest
    → (st' : MergeState) × (ess' : List (List SortEntry)) × (advance i
          (record { heap = rest; readers = rs })
        ≡ ok st')
      × Yields st'.readers ess'
      × Round h ess e st'.heap ess'
round_lem rs h ess e i rest y v t =
    let (es, at_es) = v.in_range (e, i) t.here in
    let (r, at_r, s) = Yields-at rs ess i es y at_es in with_stream es at_es r at_r s
  where
    with_stream :
        (es : List SortEntry)
        → get_elem? ess i ≡ some es
        → (r : EntryReader) → get_elem? rs i ≡ some r
        → Streams r es
        → (st' : MergeState) × (ess' : List (List SortEntry)) × (advance i
              (record { heap = rest; readers = rs })
            ≡ ok st')
          × Yields st'.readers ess'
          × Round h ess e st'.heap ess'
    with_stream [] at_es r at_r s = (
      record { heap = rest; readers = rs },
      ess,
      advance_end i rs rest r at_r s,
      y,
      ended-Round h ess v e i rest t at_es,
    )
    with_stream (f ∷ fs) at_es r at_r (r', reads, s) = (
      record { heap = (f, i) ∷ rest; readers = set rs i r' },
      set ess i fs,
      advance_more i rs rest r f r' at_r reads,
      Yields-set rs ess i r' fs y s,
      more-Round h ess v e i rest t f fs at_es,
    )
