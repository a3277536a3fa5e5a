-- ===== src/SortedIndex/Lookup/Floor.antt =====
-- Where a lookup starts to scan: an entry boundary with only smaller keys in front of it.
use in_memory_db.Base.{
  ℕ, zero, suc, ◌+◌, ◌%◌, ◌≡◌, refl, ap, sym, ◌∙◌, List, [], ◌∷◌, ◌++◌, append_assoc, append-nil,
  length, length-append, get_elem?, true, Bool-cases, ◌==◌, if◌then◌else◌, none, some, ◌⊎◌, inl,
  inr, arith,
}
use in_memory_db.Base.ByteOrder.{bytes_lt, bytes_lt_of_lt_le}
use in_memory_db.Bytes.Reader.{write_many}
use in_memory_db.SortedIndex.Format.Entries.{SortEntry, write_sidx_entry}
use in_memory_db.SortedIndex.Format.Sparse.{SparseEntry}
use in_memory_db.SortedIndex.Format.Sidx.{header_len}
use in_memory_db.SortedIndex.Merge.Pending.{In}
use in_memory_db.SortedIndex.Merge.Winners.{StrictlyAscending}
use in_memory_db.SortedIndex.Merge.Files.{sample}
use in_memory_db.SortedIndex.Lookup.{SortedIndex, search_above, floor_offset}

pub In-append : {A : Type 0} (z : A) (xs ys : List A) → In z (xs ++ ys) → In z xs ⊎ In z ys
In-append z [] ys m = inr m
In-append z (x ∷ xs) ys (inl e) = inl (inl e)
In-append z (x ∷ xs) ys (inr m) = elim (In-append z xs ys m) [ inl l ↦ inl (inr l) | inr r ↦ inr r ]

pub write_many-append :
    (xs ys : List SortEntry)
    → write_many write_sidx_entry (xs ++ ys)
      ≡ write_many write_sidx_entry xs ++ write_many write_sidx_entry ys
unfolding write_many
write_many-append [] ys = refl
write_many-append (x ∷ xs) ys =
    ap (λ t. write_sidx_entry x ++ t) (write_many-append xs ys)
    ∙ sym (
        append_assoc (write_sidx_entry x) (write_many write_sidx_entry xs)
          (write_many write_sidx_entry ys))

-- The entries in front of an offset, and those from it on.
pub record Split (whole : List SortEntry) (target : List ℕ) (offset : ℕ) : Type 0 where
  pub front : List SortEntry
  pub back : List SortEntry
  pub joined : front ++ back ≡ whole
  pub at_ : offset ≡ header_len + length (write_many write_sidx_entry front)
  pub below : (z : SortEntry) → In z front → bytes_lt z.key target ≡ true

-- The last sample that is not above the target, by the list.
abbrev pick : List SparseEntry → List ℕ → ℕ → ℕ
pick [] target d = d
pick (e ∷ es) target d = if bytes_lt target e.key then d else pick es target e.offset

-- What an index of `search_above` stands for.
abbrev at_index : List SparseEntry → ℕ → ℕ → ℕ → ℕ
at_index es zero d d' = d
at_index es (suc i) d d' = elim (get_elem? es i) [ none ↦ d' | some e ↦ e.offset ]

at_index_cons :
    (e : SparseEntry) (es : List SparseEntry) (i d d' : ℕ)
    → at_index (e ∷ es) (suc i) d d' ≡ at_index es i e.offset d'
at_index_cons e es zero d d' = refl
at_index_cons e es (suc i) d d' = refl

search-pick :
    (es : List SparseEntry) (target : List ℕ) (d d' : ℕ)
    → at_index es (search_above es target) d d' ≡ pick es target d
unfolding search_above
search-pick [] target d d' = refl
search-pick (e ∷ es) target d d' = elim (Bool-cases (bytes_lt target e.key)) [
  | inl above ↦ rw above refl
  | inr not_above ↦
      rw not_above
        (at_index_cons e es (search_above es target) d d' ∙ search-pick es target e.offset d')
]

at_index_elim :
    (es : List SparseEntry) (i d : ℕ)
    → (elim i [ zero ↦ d | suc j ↦ elim (get_elem? es j) [ none ↦ d | some e ↦ e.offset ] ])
      ≡ at_index es i d d
at_index_elim es zero d = refl
at_index_elim es (suc i) d = refl

floor_offset-pick :
    (si : SortedIndex) (target : List ℕ)
    → floor_offset si target ≡ pick si.sparse target si.entries_start
unfolding floor_offset
floor_offset-pick si target =
    at_index_elim si.sparse (search_above si.sparse target) si.entries_start
    ∙ search-pick si.sparse target si.entries_start si.entries_start

module _ (target : List ℕ) (interval : ℕ) where
  -- `seen` has been passed, and the last sample taken splits the whole list.
  pick-Split :
      (ws seen whole : List SortEntry) (n d : ℕ)
      → seen ++ ws ≡ whole
      → ((s w : SortEntry) → In s seen → In w ws → bytes_lt s.key w.key ≡ true)
      → StrictlyAscending ws
      → Split whole target d
      → Split whole target
          (pick (sample interval n (length (write_many write_sidx_entry seen)) ws) target d)
  unfolding sample
  pick-Split [] seen whole n d joined before asc split = split
  pick-Split (w ∷ ws) seen whole n d joined before asc split =
      let seen' = seen ++ w ∷ [] in
      let joined' : seen' ++ ws ≡ whole = append_assoc seen (w ∷ []) ws ∙ joined in
      let before' : (s v : SortEntry) → In s seen' → In v ws → bytes_lt s.key v.key ≡ true =
        λ s v m k. elim (In-append s seen (w ∷ []) m) [
          | inl l ↦ before s v l (inr k)
          | inr (inl eq) ↦ rw eq (asc.0 v k)
          | inr (inr none_left) ↦ absurd none_left
        ] in
      let bytes : length (write_many write_sidx_entry seen')
          ≡ length (write_many write_sidx_entry seen) + length (write_sidx_entry w) =
        unfold write_many in
        rw (write_many-append seen (w ∷ []), append-nil (write_sidx_entry w))
          (length-append (write_many write_sidx_entry seen) (write_sidx_entry w)) in
      let go : (d' : ℕ)
          → Split whole target d'
          → Split whole target (
              pick
                (sample interval (n + 1)
                  (length (write_many write_sidx_entry seen) + length (write_sidx_entry w)) ws)
                target d') =
        λ d' split'.
          rw bytes at (pick-Split ws seen' whole (n + 1) d' joined' before' asc.1 split') in
      elim (Bool-cases (n % interval == 0)) [
        | inr skip ↦ rw skip (go d split)
        | inl taken ↦ elim (Bool-cases (bytes_lt target w.key)) [
          | inl above ↦ rw (taken, above) split
          | inr at_most ↦
              rw (taken, at_most)
                (go (header_len + length (write_many write_sidx_entry seen)) (record {
                  front = seen;
                  back = w ∷ ws;
                  joined = joined;
                  at_ = refl;
                  below =
                      λ z m. bytes_lt_of_lt_le z.key w.key target (before z w m (inl refl)) at_most;
                }))
        ]
      ]

-- The offset that a lookup starts at splits the entries of the index.
pub floor_offset-Split :
    (si : SortedIndex) (ws : List SortEntry) (interval : ℕ) (target : List ℕ)
    → StrictlyAscending ws
    → si.entries_start ≡ header_len
    → si.sparse ≡ sample interval 0 0 ws
    → Split ws target (floor_offset si target)
unfolding write_many
floor_offset-Split si ws interval target asc start samples =
    rw (floor_offset-pick si target, samples, start)
      (pick-Split target interval ws [] ws 0 header_len refl (λ s w m k. absurd m) asc
        (record {
          front = [];
          back = ws;
          joined = refl;
          at_ = omega arith;
          below = λ z m. absurd m;
        }))
