-- ===== src/SortedIndex/Lookup/Scan.antt =====
-- What Get, Has and Prefix return over an index whose files a merge wrote.
use in_memory_db.Base.{
  empty_key, ℕ, zero, suc, ◌+◌, ◌-◌, ◌<◌, ◌≡◌, ◌≢◌, refl, ap, sym, ◌∙◌, List, [], ◌∷◌, ◌++◌, length,
  true, false, Bool-cases, ◌==◌, if◌then◌else◌, Option, Option-cases, is_some, none, some, Result,
  ok, err, not_found, bytes_equal, bytes_equal_iff, inl, inr, arith,
}
use in_memory_db.Base.ByteOrder.{bytes_lt, bytes_lt_irrefl, bytes_lt_trans}
use in_memory_db.Bytes.Reader.{write_many, All}
use in_memory_db.SortedIndex.Format.BloomFile.{BloomFilter}
use in_memory_db.SortedIndex.Format.Entries.{
  SortEntry, Fits, write_sidx_entry, read_sidx_entry-write, read_sidx_entry-nil,
}
use in_memory_db.SortedIndex.Format.Sidx.{header_len, assemble_sidx, section-assemble}
use in_memory_db.SortedIndex.Merge.Pending.{In}
use in_memory_db.SortedIndex.Merge.Winners.{StrictlyAscending}
use in_memory_db.SortedIndex.Merge.Files.{sample, length-sidx_le}
use in_memory_db.SortedIndex.Lookup.{
  SortedIndex, floor_offset, section_from, source_line, get_scan, ruled_out, get, has,
}
use in_memory_db.SortedIndex.Lookup.Floor.{Split, floor_offset-Split, write_many-append}

-- The entry of a key.
unfoldable pub find_key : List SortEntry → List ℕ → Option SortEntry
find_key [] key = none
find_key (e ∷ es) key = if bytes_equal e.key key then some e else find_key es key

-- What a lookup of the key returns.
abbrev pub found_line : SortedIndex → Option SortEntry → Result (List ℕ)
found_line si none = err not_found
found_line si (some e) = source_line si e

-- An open index over entries in order, each key once.
pub record Serves (interval : ℕ) (ws : List SortEntry) (si : SortedIndex) : Type 0 where
  pub ascending : StrictlyAscending ws
  pub fits : All Fits ws
  pub content : si.sidx_content ≡ assemble_sidx (length ws) (write_many write_sidx_entry ws)
  pub start : si.entries_start ≡ header_len
  pub end_ : si.entries_end ≡ length si.sidx_content - 4
  pub samples : si.sparse ≡ sample interval 0 0 ws

-- A filter lets every key of the entries pass.
abbrev pub Passes : (List ℕ → ℕ) → (List ℕ → ℕ) → Option BloomFilter → List SortEntry → Type 0
Passes fnv64a crc64 bloom ws =
    (e : SortEntry) → In e ws → ruled_out fnv64a crc64 bloom e.key ≡ false

lt_apart : (a b : List ℕ) → bytes_lt a b ≡ true → bytes_equal a b ≡ false
lt_apart a b lt = elim (Bool-cases (bytes_equal a b)) [
  | inl eq ↦
      let same = (bytes_equal_iff a b).0 eq in
      let lt' : bytes_lt b b ≡ true = rw same at lt in let irrefl = bytes_lt_irrefl b in absurd (cc)
  | inr ne ↦ ne
]

gt_apart : (a b : List ℕ) → bytes_lt b a ≡ true → bytes_equal a b ≡ false
gt_apart a b lt = elim (Bool-cases (bytes_equal a b)) [
  | inl eq ↦
      let same = (bytes_equal_iff a b).0 eq in
      let lt' : bytes_lt b b ≡ true = rw same at lt in let irrefl = bytes_lt_irrefl b in absurd (cc)
  | inr ne ↦ ne
]

find_key_below :
    (front back : List SortEntry) (key : List ℕ)
    → ((z : SortEntry) → In z front → bytes_lt z.key key ≡ true)
    → find_key (front ++ back) key ≡ find_key back key
unfolding find_key
find_key_below [] back key below = refl
find_key_below (e ∷ front) back key below =
    rw (lt_apart e.key key (below e (inl refl)))
      (find_key_below front back key (λ z m. below z (inr m)))

find_key_above :
    (es : List SortEntry) (key : List ℕ)
    → ((z : SortEntry) → In z es → bytes_lt key z.key ≡ true)
    → find_key es key ≡ none
unfolding find_key
find_key_above [] key above = refl
find_key_above (e ∷ es) key above =
    rw (gt_apart e.key key (above e (inl refl))) (find_key_above es key (λ z m. above z (inr m)))

pub find_key-In :
    (es : List SortEntry) (key : List ℕ) (e : SortEntry)
    → find_key es key ≡ some e
    → In e es × (e.key ≡ key)
unfolding find_key
find_key-In [] key e h = absurd (cc)
find_key-In (x ∷ es) key e h = elim (Bool-cases (bytes_equal x.key key)) [
  | inl same ↦
      let h' = rw same at h in
      let eq : x ≡ e = cc in (inl (sym eq), rw (sym eq) ((bytes_equal_iff x.key key).0 same))
  | inr other ↦ let h' = rw other at h in let (m, eq) = find_key-In es key e h' in (inr m, eq)
]

pub get_scan-find_key :
    (es : List SortEntry) (fuel : ℕ) (si : SortedIndex) (key : List ℕ)
    → length es < fuel
    → StrictlyAscending es
    → All Fits es
    → get_scan fuel si key (write_many write_sidx_entry es) ≡ found_line si (find_key es key)
unfolding get_scan find_key write_many
get_scan-find_key es zero si key enough asc fits = absurd (omega arith)
get_scan-find_key [] (suc fuel) si key enough asc fits = rw (read_sidx_entry-nil, get_scan) refl
get_scan-find_key (e ∷ es) (suc fuel) si key enough asc fits =
    let read = read_sidx_entry-write e (write_many write_sidx_entry es) fits.0 in
    elim (Bool-cases (bytes_equal e.key key)) [
      | inl same ↦ rw (read, get_scan, same) refl
      | inr other ↦ elim (Bool-cases (bytes_lt key e.key)) [
        | inl above ↦
            let gone =
              find_key_above es key (λ z m. bytes_lt_trans key e.key z.key above (asc.0 z m)) in
            rw (read, get_scan, other, above, gone) refl
        | inr not_above ↦
            rw (read, get_scan, other, not_above)
              (get_scan-find_key es fuel si key (omega arith) asc.1 fits.1)
      ]
    ]

pub StrictlyAscending-back :
    (xs ys : List SortEntry) → StrictlyAscending (xs ++ ys) → StrictlyAscending ys
StrictlyAscending-back [] ys asc = asc
StrictlyAscending-back (x ∷ xs) ys asc = StrictlyAscending-back xs ys asc.1

pub All-back : (xs ys : List SortEntry) → All Fits (xs ++ ys) → All Fits ys
All-back [] ys fits = fits
All-back (x ∷ xs) ys fits = All-back xs ys fits.1

-- What a scan starts with.
pub section_from-Split :
    (interval : ℕ) (ws : List SortEntry) (si : SortedIndex) (target : List ℕ) (offset : ℕ)
    → Serves interval ws si
    → (s : Split ws target offset) → section_from si offset ≡ write_many write_sidx_entry s.back
unfolding section_from
section_from-Split interval ws si target offset v s =
    let xs = write_many write_sidx_entry s.front in
    let ys = write_many write_sidx_entry s.back in
    let body : write_many write_sidx_entry ws ≡ xs ++ ys =
      ap (write_many write_sidx_entry) (sym s.joined) ∙ write_many-append s.front s.back in
    rw (v.end_, v.content, s.at_, body) (section-assemble (length ws) xs ys)

module _ (fnv64a crc64 : List ℕ → ℕ) where
  pub get_empty :
      (si : SortedIndex) (key : List ℕ)
      → (length key == 0) ≡ true
      → get fnv64a crc64 si key ≡ err empty_key
  unfolding get
  get_empty si key blank = rw blank refl

  -- Get of a non-empty key on an open index over entries that strictly ascend by key and fit
  -- their widths, with a sparse directory of every so many of them and a filter, if any, that
  -- lets their keys pass: it returns the source line of the entry with that key, or the not-
  -- found error if no entry has it.
  pub get-find_key :
      (interval : ℕ) (ws : List SortEntry) (si : SortedIndex) (key : List ℕ)
      → Serves interval ws si
      → Passes fnv64a crc64 si.bloom ws
      → si.is_closed ≡ false
      → length key ≢ 0
      → get fnv64a crc64 si key ≡ found_line si (find_key ws key)
  unfolding get
  get-find_key interval ws si key v passes opened named =
      let s = floor_offset-Split si ws interval key v.ascending v.start v.samples in
      let asc = StrictlyAscending-back s.front s.back (rw s.joined v.ascending) in
      let fits = All-back s.front s.back (rw s.joined v.fits) in
      let bytes = section_from-Split interval ws si key (floor_offset si key) v s in
      let back_only : find_key ws key ≡ find_key s.back key =
        ap (λ t. find_key t key) (sym s.joined) ∙ find_key_below s.front s.back key s.below in
      let nonempty : (length key == 0) ≡ false = ground arith in
      let scan =
        get_scan-find_key s.back (length (write_many write_sidx_entry s.back) + 1) si key
          (omega (arith, length-sidx_le s.back)) asc fits in
      elim (Bool-cases (ruled_out fnv64a crc64 si.bloom key)) [
        | inr may ↦ simp (nonempty, opened) (rw (may, bytes, scan, back_only) refl)
        | inl out ↦ elim (Option-cases (find_key ws key)) [
          | inl gone ↦ simp (nonempty, opened) (rw (out, gone) refl)
          | inr (e, hit) ↦
              let (m, same) = find_key-In ws key e hit in
              let pass = rw same at (passes e m) in absurd (cc)
        ]
      ]

  -- Has of a non-empty key on an open index over entries that strictly ascend by key and fit
  -- their widths, with a sparse directory of every so many of them, a filter, if any, that lets
  -- their keys pass, and lines that can all be read: it says whether an entry has the key.
  pub has-find_key :
      (interval : ℕ) (ws : List SortEntry) (si : SortedIndex) (key : List ℕ)
      → Serves interval ws si
      → Passes fnv64a crc64 si.bloom ws
      → si.is_closed ≡ false
      → length key ≢ 0
      → ((e : SortEntry) → In e ws → (line : List ℕ) × (source_line si e ≡ ok line))
      → has fnv64a crc64 si key ≡ ok (is_some (find_key ws key))
  unfolding has
  has-find_key interval ws si key v passes opened named readable =
      let got = get-find_key interval ws si key v passes opened named in
      elim (Option-cases (find_key ws key)) [
        | inl gone ↦ rw (got, has, gone) refl
        | inr (e, hit) ↦
            let (m, same) = find_key-In ws key e hit in
            let (line, read) = readable e m in rw (got, has, hit, read) refl
      ]
