-- ===== src/Tests/Heap.antt =====
-- A heap and a sort that do what the library documents, for the tests of merges and builds.
use in_memory_db.Base.{
  ◌<◌, ◌≡◌, refl, List, [], ◌∷◌, length, Bool, Bool-cases, if◌then◌else◌, Option, none, some, inl,
  inr, ◌↔◌, arith,
}
use in_memory_db.SortedIndex.Format.Entries.{SortEntry}
use in_memory_db.SortedIndex.Merge.{HeapItem}
use in_memory_db.SortedIndex.Merge.Pending.{In, StrictWeak, Ordered}
use in_memory_db.SortedIndex.Merge.Step.{Taken, HeapPops}
use in_memory_db.SortedIndex.Build.Spill.{Sorts}

module _ (less : HeapItem → HeapItem → Bool) where
  -- An item that no other is less than, by selection.
  pop_from : HeapItem → List HeapItem → HeapItem × List HeapItem
  pop_from x [] = (x, [])
  pop_from x (w ∷ h) =
      let (y, rest) = pop_from w h in if less y x then (y, x ∷ rest) else (x, w ∷ h)

  unfoldable pub pop_least : List HeapItem → Option (HeapItem × List HeapItem)
  unfolding pop_from
  pop_least [] = none
  pop_least (x ∷ h) = some (pop_from x h)

  module _ (order : StrictWeak less) where
    pop_from-Taken :
        (x : HeapItem) (h : List HeapItem) → Taken less (x ∷ h) (pop_from x h).0 (pop_from x h).1
    unfolding pop_from
    pop_from-Taken x [] = record {
      shorter = refl;
      here = inl refl;
      others = λ z m. m;
      stays = λ z m. inr m;
      least = λ z m. elim m [ inl eq ↦ rw eq (order.irrefl x) | inr gone ↦ absurd gone ];
    }
    pop_from-Taken x (w ∷ h) =
        let t = pop_from-Taken w h in
        let y = (pop_from w h).0 in
        elim (Bool-cases (less y x)) [
          | inl lt ↦ rw lt (record {
            shorter = omega (arith, t.shorter);
            here = inr t.here;
            others = λ z m. elim m [
              | inl eq ↦ inr (inl eq)
              | inr m' ↦ elim (t.others z m') [ inl eq ↦ inl eq | inr k ↦ inr (inr k) ]
            ];
            stays = λ z m. elim m [ inl eq ↦ inl eq | inr m' ↦ inr (t.stays z m') ];
            least = λ z m. elim m [ inl eq ↦ rw eq (order.asymm y x lt) | inr m' ↦ t.least z m' ];
          })
          | inr le ↦ rw le (record {
            shorter = refl;
            here = inl refl;
            others = λ z m. m;
            stays = λ z m. inr m;
            least = λ z m. elim m [
              | inl eq ↦ rw eq (order.irrefl x)
              | inr m' ↦ order.trans x y z le (t.least z m')
            ];
          })
        ]

    pop_least_takes :
        (h : List HeapItem)
        → 0 < length h
        → (x : HeapItem) × (rest : List HeapItem) × (pop_least h ≡ some (x, rest))
          × Taken less h x rest
    unfolding pop_least
    pop_least_takes [] some_item = absurd (omega arith)
    pop_least_takes (x ∷ h) some_item =
        ((pop_from x h).0, (pop_from x h).1, refl, pop_from-Taken x h)

pub pop_least-HeapPops : HeapPops pop_least
unfolding pop_least
pop_least-HeapPops = record {
  empty = λ less. refl;
  takes = λ less order. pop_least_takes less order;
}

module _ (less : SortEntry → SortEntry → Bool) where
  unfoldable pub insert_sorted : SortEntry → List SortEntry → List SortEntry
  insert_sorted e [] = e ∷ []
  insert_sorted e (x ∷ es) =
      let rest = insert_sorted e es in if less x e then x ∷ rest else e ∷ x ∷ es

  unfoldable pub insertion_sort : List SortEntry → List SortEntry
  unfolding insert_sorted
  insertion_sort [] = []
  insertion_sort (e ∷ es) = insert_sorted e (insertion_sort es)

  insert_sorted-In :
      (e : SortEntry) (es : List SortEntry) (z : SortEntry)
      → In z (insert_sorted e es) ↔ In z (e ∷ es)
  unfolding insert_sorted
  insert_sorted-In e [] z = (λ m. m, λ m. m)
  insert_sorted-In e (x ∷ es) z = elim (Bool-cases (less x e)) [
    | inr le ↦ rw le (λ m. m, λ m. m)
    | inl lt ↦
        let (f, g) = insert_sorted-In e es z in
        rw lt (
          λ m. elim m [
            | inl is_x ↦ inr (inl is_x)
            | inr m' ↦ elim (f m') [ inl is_e ↦ inl is_e | inr k ↦ inr (inr k) ]
          ],
          λ m. elim m [
            | inl is_e ↦ inr (g (inl is_e))
            | inr (inl is_x) ↦ inl is_x
            | inr (inr k) ↦ inr (g (inr k))
          ],
        )
  ]

  insertion_sort-In : (es : List SortEntry) (z : SortEntry) → In z (insertion_sort es) ↔ In z es
  unfolding insertion_sort
  insertion_sort-In [] z = (λ m. m, λ m. m)
  insertion_sort-In (e ∷ es) z =
      let (f, g) = insertion_sort-In es z in
      let (f', g') = insert_sorted-In e (insertion_sort es) z in
      (
        λ m. elim (f' m) [ inl is_e ↦ inl is_e | inr k ↦ inr (f k) ],
        λ m. g' (elim m [ inl is_e ↦ inl is_e | inr k ↦ inr (g k) ]),
      )

  module _ (order : StrictWeak less) where
    insert_sorted-Ordered :
        (e : SortEntry) (es : List SortEntry) → Ordered less es → Ordered less (insert_sorted e es)
    unfolding insert_sorted
    insert_sorted-Ordered e [] asc = (λ z m. absurd m, tt)
    insert_sorted-Ordered e (x ∷ es) (below, asc) = elim (Bool-cases (less x e)) [
      | inr le ↦ rw le (
        λ z m. elim m [ inl is_x ↦ rw is_x le | inr m' ↦ order.trans e x z le (below z m') ],
        (below, asc),
      )
      | inl lt ↦ rw lt (
        λ z m. elim ((insert_sorted-In e es z).0 m) [
          | inl is_e ↦ rw is_e (order.asymm x e lt)
          | inr m' ↦ below z m'
        ],
        insert_sorted-Ordered e es asc,
      )
    ]

    insertion_sort-Ordered : (es : List SortEntry) → Ordered less (insertion_sort es)
    unfolding insertion_sort
    insertion_sort-Ordered [] = tt
    insertion_sort-Ordered (e ∷ es) =
        insert_sorted-Ordered e (insertion_sort es) (insertion_sort-Ordered es)

pub insertion_sort-Sorts : Sorts insertion_sort
insertion_sort-Sorts = record {
  ordered = λ less order. insertion_sort-Ordered less order;
  same = λ less. insertion_sort-In less;
}
