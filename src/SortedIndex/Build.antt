-- ===== src/SortedIndex/Build.antt =====
-- sortedindex_build.go, sortedindex_refresh.go and EnsureFresh: the scan of the sources into sorted
-- runs, the build and the refresh of an index, and the choice between them. The locks that order
-- builds of one index are not part of the model, and every write of a file succeeds.
pub mod Spill
pub mod Latest
pub mod Runs
pub mod Lines
pub mod LineAnswers
pub mod Room
pub mod State
pub mod Answers
pub mod Refresh
pub mod Unchanged
pub mod Fresh
use in_memory_db.Base.{
  ℕ, zero, suc, ◌+◌, ◌-◌, ◌%◌, ◌^◌, List, [], ◌∷◌, ◌++◌, map, length, leb, ◌==◌, if◌then◌else◌,
  Bool, true, false, not, ◌&&◌, Option, none, some, Result, ok, err, ◌>>=◌, ◌>>◌, guard, message,
}
use in_memory_db.Base.ByteOrder.{bytes_lt}
use in_memory_db.Bytes.Reader.{write_many}
use in_memory_db.FileIndex.{KeyFunc, read_line, line_key}
use in_memory_db.SortedIndex.Bloom.{new_bloom_filter}
use in_memory_db.SortedIndex.Format.BloomFile.{BloomFilter}
use in_memory_db.SortedIndex.Format.Entries.{SortEntry, write_run_entry}
use in_memory_db.SortedIndex.Format.Sidx.{verify_sidx_header, verify_sidx_checksum, entries_region}
use in_memory_db.SortedIndex.Format.Sources.{
  SourceStat, write_sources_file, read_sources_file, sources_match, incremental_eligible,
}
use in_memory_db.SortedIndex.Merge.{EntryReader, run, sidx, MergeEnv, IndexFiles, merge_runs}
use in_memory_db.SortedIndex.Lookup.{SortedIndex, Files, open_sorted_index}

-- A source file: its content and its modification time.
pub record SourceFile : Type 0 where
  pub content : List ℕ
  pub mod_time : ℕ

-- `SortedIndexOptions`; a number that is not positive is 0, and `no_bloom` is a negative rate.
pub record SortedIndexOptions : Type 0 where
  pub chunk_entries : ℕ
  pub sparse_interval : ℕ
  pub no_bloom : Bool

unfoldable pub with_defaults : SortedIndexOptions → SortedIndexOptions
with_defaults o = record o {
  chunk_entries = if o.chunk_entries == 0 then 2000000 else o.chunk_entries;
  sparse_interval = if o.sparse_interval == 0 then 4096 else o.sparse_interval;
}

-- What a build is given: the sources on disk, the key function, `sort.Slice` by a comparison, the merge's
-- arguments, the formulas of the filter's sizes, and whether the context is cancelled at the start,
-- and when so many lines of a source have been scanned.
pub record BuildEnv : Type 0 where
  pub source_file : List ℕ → Option SourceFile
  pub key_func : KeyFunc
  pub sort_slice : (SortEntry → SortEntry → Bool) → List SortEntry → List SortEntry
  pub merge : MergeEnv
  pub bits_for : ℕ → ℕ
  pub probes_for : ℕ → ℕ → ℕ
  pub cancelled : Bool
  pub scan_cancelled : ℕ → ℕ → Bool

-- The comparison that a chunk is sorted by.
abbrev pub run_less : SortEntry → SortEntry → Bool
run_less a b = bytes_lt a.key b.key

-- The run files so far, the chunk in memory and the number of entries.
pub record Spilled : Type 0 where
  pub runs : List (List ℕ)
  pub chunk : List SortEntry
  pub scanned : ℕ

module _ (env : BuildEnv) where
  unfoldable pub flush : Spilled → Spilled
  flush st = if length st.chunk == 0 then st else record st {
    runs = st.runs ++ write_many write_run_entry (env.sort_slice run_less st.chunk) ∷ [];
    chunk = [];
  }

  -- The callback of the scan.
  unfoldable pub add_entry : ℕ → SortEntry → Spilled → Spilled
  unfolding flush
  add_entry chunk_entries e st =
      let st' = record st { chunk = st.chunk ++ e ∷ []; scanned = st.scanned + 1 } in
      if leb chunk_entries (length st.chunk + 1) then flush st' else st'

  unfoldable pub scan_line : ℕ → ℕ → List ℕ → ℕ → Spilled → Spilled
  unfolding add_entry
  scan_line chunk_entries file_idx line off st =
      if length line == 0 then st else elim (line_key env.key_func line) [
        | none ↦ st
        | some key ↦
            add_entry chunk_entries
              (record { key = key; file_idx = file_idx; src_off = off; len = length line % 2 ^ 32 })
              st
      ]

  -- The loop of scanOneSource. Each round takes a newline, or is the last one.
  unfoldable pub scan_lines : ℕ → ℕ → ℕ → List ℕ → ℕ → ℕ → Spilled → Result Spilled
  unfolding scan_line
  scan_lines zero chunk_entries file_idx bs off lines st = err (message "out of fuel")
  scan_lines (suc fuel) chunk_entries file_idx bs off lines st =
      let (line, terminated, rest) = read_line bs in
      let st' = scan_line chunk_entries file_idx line off st in
      do
        guard (not (((lines + 1) % 100000 == 0) && env.scan_cancelled file_idx (lines + 1)))
            (message "kv: build sorted index: cancelled")
        elim terminated [
          | true ↦
              scan_lines fuel chunk_entries file_idx rest (off + length line + 1) (lines + 1) st'
          | false ↦ ok st'
        ]

  -- The loop over the sources; `uint16(fileIdx)`.
  unfoldable pub scan_sources : ℕ → ℕ → List (List ℕ) → Spilled → Result Spilled
  unfolding scan_lines
  scan_sources chunk_entries file_idx [] st = ok st
  scan_sources chunk_entries file_idx (path ∷ paths) st = elim (env.source_file path) [
    | none ↦ err (message "kv: open source")
    | some f ↦ do
      st' ← scan_lines (length f.content + 1) chunk_entries (file_idx % 2 ^ 16) f.content 0 0 st
      scan_sources chunk_entries (file_idx + 1) paths st'
  ]

  unfoldable pub spill_sorted_runs : ℕ → ℕ → List (List ℕ) → Result (List (List ℕ) × ℕ)
  unfolding scan_sources flush
  spill_sorted_runs chunk_entries base_file_idx paths = do
    st ←
        scan_sources chunk_entries base_file_idx paths
          (record { runs = []; chunk = []; scanned = 0 })
    let done = flush st
    ok (done.runs, done.scanned)

  unfoldable pub stat_sources : List (List ℕ) → Result (List SourceStat)
  stat_sources [] = ok []
  stat_sources (path ∷ paths) = elim (env.source_file path) [
    | none ↦ err (message "kv: stat source")
    | some f ↦ do
      stats ← stat_sources paths
      ok (record { path = path; size = length f.content; mod_time = f.mod_time } ∷ stats)
  ]

  -- `if bloomFPR >= 0 { bloom = newBloomFilter(...) }`
  unfoldable pub new_filter : SortedIndexOptions → ℕ → Option BloomFilter
  unfolding new_bloom_filter
  new_filter opts keys =
      if opts.no_bloom then none else some (new_bloom_filter env.bits_for env.probes_for keys)

  -- What a merge and the new source list leave on disk: without a filter, the old filter's file stays.
  unfoldable pub replace_files : Files → IndexFiles → List SourceStat → Files
  replace_files files m stats = record {
    sidx_file = some m.sidx_file;
    sparse_file = some m.sparse_file;
    bloom_file = elim m.bloom_file [ none ↦ files.bloom_file | some b ↦ some b ];
    sources_file = some (write_sources_file stats);
  }

  unfoldable pub build_sorted_index : List (List ℕ) → Files → SortedIndexOptions → Result Files
  unfolding with_defaults stat_sources spill_sorted_runs new_filter replace_files
  build_sorted_index paths files o = do
    guard (not env.cancelled) (message "kv: build sorted index: cancelled")
    guard (not (length paths == 0))
        (message "kv: BuildSortedIndex requires at least one source path")
    guard (leb (length paths) 65535)
        (message "kv: BuildSortedIndex supports at most 65535 source files")
    let opts = with_defaults o
    stats ← stat_sources paths
    (runs, scanned) ← spill_sorted_runs opts.chunk_entries 0 paths
    m ← merge_runs env.merge (map run runs) opts.sparse_interval (new_filter opts scanned)
    ok (replace_files files m stats)

  -- `sidxHeaderCount`
  unfoldable pub sidx_header_count : Option (List ℕ) → Result ℕ
  sidx_header_count none = err (message "kv: open sidx")
  sidx_header_count (some bs) = verify_sidx_header bs

  unfoldable pub open_sidx_run_reader : Option (List ℕ) → Result EntryReader
  open_sidx_run_reader none = err (message "kv: open sidx")
  open_sidx_run_reader (some bs) = do
    _ ← verify_sidx_header bs
    verify_sidx_checksum bs
    ok (sidx (entries_region bs))

  unfoldable pub refresh_sorted_index :
      List SourceStat → List SourceStat → Files → SortedIndexOptions → Result Files
  unfolding with_defaults spill_sorted_runs new_filter replace_files sidx_header_count
      open_sidx_run_reader
  refresh_sorted_index recorded new_srcs files o = do
    guard (not env.cancelled) (message "kv: refresh sorted index: cancelled")
    guard (leb (length recorded + length new_srcs) 65535)
        (message "kv: refresh sorted index: total source count would exceed 65535")
    let opts = with_defaults o
    let paths = map (λ (s : SourceStat). s.path) new_srcs
    (runs, scanned_new) ← spill_sorted_runs opts.chunk_entries (length recorded) paths
    existing_count ← sidx_header_count files.sidx_file
    existing ← open_sidx_run_reader files.sidx_file
    m ←
        merge_runs env.merge (map run runs ++ existing ∷ []) opts.sparse_interval
          (new_filter opts (existing_count + scanned_new))
    ok (replace_files files m (recorded ++ new_srcs))

  -- The files after the work that EnsureFresh does before it opens the index.
  unfoldable pub freshen : List (List ℕ) → Files → SortedIndexOptions → Result Files
  unfolding stat_sources build_sorted_index refresh_sorted_index
  freshen paths files o = do
    current ← stat_sources paths
    elim (read_sources_file files.sources_file) [
      | err _ ↦ build_sorted_index paths files o
      | ok recorded ↦
          if sources_match current recorded
          then ok files
          else elim (incremental_eligible recorded current) [
            | none ↦ build_sorted_index paths files o
            | some new_srcs ↦ refresh_sorted_index recorded new_srcs files o
          ]
    ]

  -- The content of a source, for `os.Open`.
  unfoldable pub content_of : List ℕ → Option (List ℕ)
  content_of path = elim (env.source_file path) [ none ↦ none | some f ↦ some f.content ]

  unfoldable pub ensure_fresh :
      List (List ℕ) → Files → SortedIndexOptions → Result (Files × SortedIndex)
  unfolding freshen
  ensure_fresh paths files o = do
    files' ← freshen paths files o
    si ← open_sorted_index content_of files'
    ok (files', si)
