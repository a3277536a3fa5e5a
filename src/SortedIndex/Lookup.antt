-- ===== src/SortedIndex/Lookup.antt =====
-- The reads of internal/sortedindex/sortedindex.go: OpenSortedIndex, Close, Len, Get, Has, Prefix, All
-- and FilterAll. A file that is kept open is its content. An iterator is the list of the pairs that
-- it yields to a consumer that never stops it.
pub mod Floor
pub mod Scan
pub mod Prefixes
pub mod Open
use in_memory_db.Base.{
  ℕ, zero, suc, ◌+◌, ◌-◌, List, [], ◌∷◌, length, take, drop, get_elem?, ltb, leb, ◌^◌, ◌==◌,
  if◌then◌else◌, Bool, true, false, not, Option, none, some, Result, ok, err, ◌>>=◌, ◌>>◌, guard,
  message, eof, closed, empty_key, not_found, bytes_equal,
}
use in_memory_db.Base.ByteOrder.{bytes_lt, has_prefix}
use in_memory_db.SortedIndex.Bloom.{may_contain}
use in_memory_db.SortedIndex.Format.BloomFile.{BloomFilter, read_bloom_file}
use in_memory_db.SortedIndex.Format.Entries.{SortEntry, read_sidx_entry}
use in_memory_db.SortedIndex.Format.Sidx.{header_len, verify_sidx_header, verify_sidx_checksum}
use in_memory_db.SortedIndex.Format.Sources.{SourceStat, read_sources_file}
use in_memory_db.SortedIndex.Format.Sparse.{SparseEntry, read_sparse_file}

pub record SortedIndex : Type 0 where
  pub source_paths : List (List ℕ)
  pub srcs : List (List ℕ)
  pub sidx_content : List ℕ
  pub entries_start : ℕ
  pub entries_end : ℕ
  pub count : ℕ
  pub sparse : List SparseEntry
  pub bloom : Option BloomFilter
  pub is_closed : Bool

-- The files at `sidxPath` and its sidecars; `none` is a file that does not exist.
pub record Files : Type 0 where
  pub sidx_file : Option (List ℕ)
  pub sparse_file : Option (List ℕ)
  pub bloom_file : Option (List ℕ)
  pub sources_file : Option (List ℕ)

-- `os.Open` of every source in turn.
unfoldable pub open_sources : (List ℕ → Option (List ℕ)) → List SourceStat → Result (List (List ℕ))
open_sources read_path [] = ok []
open_sources read_path (s ∷ stats) = elim (read_path s.path) [
  | none ↦ err (message "kv: open source")
  | some content ↦ do rest ← open_sources read_path stats; ok (content ∷ rest)
]

unfoldable pub paths_of : List SourceStat → List (List ℕ)
paths_of [] = []
paths_of (s ∷ stats) = s.path ∷ paths_of stats

unfoldable pub open_sorted_index : (List ℕ → Option (List ℕ)) → Files → Result SortedIndex
unfolding open_sources paths_of
open_sorted_index read_path files = do
  stats ← read_sources_file files.sources_file
  srcs ← open_sources read_path stats
  elim files.sidx_file [
    | none ↦ err (message "kv: open sidx")
    | some sidx ↦ do
      count ← verify_sidx_header sidx
      verify_sidx_checksum sidx
      sparse ← read_sparse_file files.sparse_file
      bloom ← read_bloom_file files.bloom_file
      ok (record {
        source_paths = paths_of stats;
        srcs = srcs;
        sidx_content = sidx;
        entries_start = header_len;
        entries_end = length sidx - 4;
        count = count;
        sparse = sparse;
        bloom = bloom;
        is_closed = false;
      })
  ]

unfoldable pub close : SortedIndex → SortedIndex × Result (Unit {0})
close si = if si.is_closed then (si, err closed) else (record si { is_closed = true }, ok tt)

-- `sort.Search`: the first index whose key is above the target, or the number of samples.
unfoldable pub search_above : List SparseEntry → List ℕ → ℕ
search_above [] target = 0
search_above (e ∷ es) target = if bytes_lt target e.key then 0 else suc (search_above es target)

unfoldable pub floor_offset : SortedIndex → List ℕ → ℕ
unfolding search_above
floor_offset si target = elim (search_above si.sparse target) [
  | zero ↦ si.entries_start
  | suc i ↦ elim (get_elem? si.sparse i) [ none ↦ si.entries_start | some e ↦ e.offset ]
]

-- `io.NewSectionReader(si.sidx, start, si.entriesEnd-start)`
unfoldable pub section_from : SortedIndex → ℕ → List ℕ
section_from si start = take (si.entries_end - start) (drop start si.sidx_content)

-- The line of an entry: `ReadAt` of its source, where a read past the end of the file is an error. The
-- length is an `int32`; `make` panics for a negative one.
unfoldable pub source_line : SortedIndex → SortEntry → Result (List ℕ)
source_line si e = elim (get_elem? si.srcs e.file_idx) [
  | none ↦ err (message "index out of range")
  | some content ↦
      if leb (2 ^ 31) e.len
      then err (message "makeslice: len out of range")
      else if e.len == 0
      then ok []
      else if ltb (length content) (e.src_off + e.len)
      then err (message "kv: read source line")
      else ok (take e.len (drop e.src_off content))
]

-- The loop of Get over the section's bytes. An entry takes at least one of them, so their number is
-- fuel enough.
unfoldable pub get_scan : ℕ → SortedIndex → List ℕ → List ℕ → Result (List ℕ)
unfolding source_line
get_scan zero si key bs = err (message "out of fuel")
get_scan (suc fuel) si key bs = elim (read_sidx_entry bs) [
  | err eof ↦ err not_found
  | err e ↦ err e
  | ok (e, rest) ↦
      let more = get_scan fuel si key rest in
      if bytes_equal e.key key
      then source_line si e
      else if bytes_lt key e.key
      then err not_found
      else more
]

-- The hash functions of the filter are the library's.
module _ (fnv64a crc64 : List ℕ → ℕ) where
  -- `si.bloom != nil && !si.bloom.mayContain(key)`
  unfoldable pub ruled_out : Option BloomFilter → List ℕ → Bool
  ruled_out none key = false
  ruled_out (some b) key = not (may_contain fnv64a crc64 b key)

  unfoldable pub get : SortedIndex → List ℕ → Result (List ℕ)
  unfolding ruled_out floor_offset section_from get_scan
  get si key = do
    guard (not (length key == 0)) empty_key
    guard (not si.is_closed) closed
    guard (not (ruled_out si.bloom key)) not_found
    let bs = section_from si (floor_offset si key)
    get_scan (length bs + 1) si key bs

  unfoldable pub has : SortedIndex → List ℕ → Result Bool
  unfolding get
  has si key = elim (get si key) [ err not_found ↦ ok false | err e ↦ err e | ok line ↦ ok true ]

-- A match is yielded with its line; one that cannot be read ends the iteration.
unfoldable pub match_pair : SortedIndex → SortEntry → List ℕ → Option ((List ℕ × List ℕ) × List ℕ)
unfolding source_line
match_pair si e rest = elim (source_line si e) [
  | err _ ↦ none
  | ok line ↦ some ((e.key, line), rest)
]

-- The loop of `nextPrefixMatch`: a match with what is behind it, or the end of the iteration.
unfoldable pub next_prefix_match :
    ℕ → SortedIndex → List ℕ → List ℕ → Option ((List ℕ × List ℕ) × List ℕ)
unfolding match_pair
next_prefix_match zero si prefix bs = none
next_prefix_match (suc fuel) si prefix bs = elim (read_sidx_entry bs) [
  | err e ↦ none
  | ok (e, rest) ↦
      let more = next_prefix_match fuel si prefix rest in
      if bytes_lt e.key prefix
      then more
      else if has_prefix e.key prefix
      then match_pair si e rest
      else none
]

unfoldable pub prefix_loop : ℕ → SortedIndex → List ℕ → List ℕ → List (List ℕ × List ℕ)
unfolding next_prefix_match
prefix_loop zero si prefix bs = []
prefix_loop (suc fuel) si prefix bs =
    elim (if si.is_closed then none else next_prefix_match (length bs + 1) si prefix bs) [
      | none ↦ []
      | some (pair, rest) ↦ pair ∷ prefix_loop fuel si prefix rest
    ]

unfoldable pub prefix_all : SortedIndex → List ℕ → List (List ℕ × List ℕ)
unfolding floor_offset section_from prefix_loop
prefix_all si prefix =
    let bs = section_from si (floor_offset si prefix) in prefix_loop (length bs + 1) si prefix bs

-- `All`
unfoldable pub all : SortedIndex → List (List ℕ × List ℕ)
unfolding prefix_all
all si = prefix_all si []

unfoldable pub filter_all : List (List ℕ × List ℕ) → (List ℕ → Bool) → List (List ℕ × List ℕ)
filter_all [] keep = []
filter_all ((key, line) ∷ seq) keep =
    let rest = filter_all seq keep in if keep line then (key, line) ∷ rest else rest
