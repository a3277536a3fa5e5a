-- ===== src/SortedIndex/Build/Room.antt =====
-- The entries that a merge chooses take no more bytes than those it chose from.
use in_memory_db.Base.{
  ℕ, ◌+◌, ◌≤◌, ◌≡◌, refl, ap, ◌∙◌, List, [], ◌∷◌, ◌++◌, length, length-append, true, inl, inr,
  arith, subst,
}
use in_memory_db.Base.ByteOrder.{bytes_lt, bytes_lt_irrefl}
use in_memory_db.Bytes.Reader.{write_many}
use in_memory_db.SortedIndex.Format.Entries.{SortEntry, write_sidx_entry}
use in_memory_db.SortedIndex.Merge.Pending.{In}
use in_memory_db.SortedIndex.Merge.Winners.{StrictlyAscending}
use in_memory_db.SortedIndex.Lookup.Floor.{In-append, write_many-append}
use in_memory_db.SortedIndex.Build.Runs.{In-left, In-right}

-- Where a member stands.
In-around :
    (e : SortEntry) (es : List SortEntry)
    → In e es
    → (before : List SortEntry) × (after : List SortEntry) × (es ≡ before ++ e ∷ after)
In-around e [] m = absurd m
In-around e (x ∷ es) (inl is_x) = ([], es, rw is_x refl)
In-around e (x ∷ es) (inr m) =
    let (before, after, eq) = In-around e es m in (x ∷ before, after, ap (λ t. x ∷ t) eq)

abbrev bytes : List SortEntry → ℕ
bytes es = length (write_many write_sidx_entry es)

bytes-append : (xs ys : List SortEntry) → bytes (xs ++ ys) ≡ bytes xs + bytes ys
bytes-append xs ys =
    ap (λ t. length t) (write_many-append xs ys)
    ∙ length-append (write_many write_sidx_entry xs) (write_many write_sidx_entry ys)

bytes_cons :
    (x : SortEntry) (xs : List SortEntry) → bytes (x ∷ xs) ≡ length (write_sidx_entry x) + bytes xs
unfolding write_many
bytes_cons x xs = length-append (write_sidx_entry x) (write_many write_sidx_entry xs)

-- A member that is not `e` stands beside it.
beside :
    (e z : SortEntry) (before after : List SortEntry)
    → bytes_lt e.key z.key ≡ true
    → In z (before ++ e ∷ after)
    → In z (before ++ after)
beside e z before after lt m = elim (In-append z before (e ∷ after) m) [
  | inl left ↦ In-left z before after left
  | inr (inr right) ↦ In-right z before after right
  | inr (inl is_e) ↦
      let lt' : bytes_lt e.key e.key ≡ true = rw is_e at lt in
      let irrefl = bytes_lt_irrefl e.key in absurd (cc)
]

pub choice_room :
    (ws es : List SortEntry)
    → StrictlyAscending ws
    → ((w : SortEntry) → In w ws → In w es)
    → bytes ws ≤ bytes es
choice_room [] es asc sound = unfold write_many in omega arith
choice_room (w ∷ ws) es (above, asc) sound =
    let (before, after, eq) = In-around w es (sound w (inl refl)) in
    let rest =
      choice_room ws (before ++ after) asc
        (λ z m. beside w z before after (above z m) (subst (In z) eq (sound z (inr m)))) in
    let whole : bytes es ≡ bytes before + bytes (w ∷ after) =
      ap (λ t. bytes t) eq ∙ bytes-append before (w ∷ after) in
    omega (arith, whole, bytes-append before after, bytes_cons w ws, bytes_cons w after, rest)
