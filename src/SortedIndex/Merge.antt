-- ===== src/SortedIndex/Merge.antt =====
-- mergeRuns of internal/sortedindex/sortedindex_build.go: the k-way merge of sorted runs into the
-- files of an index. A heap of container/heap is the collection of its items: Push adds one, and which
-- item Pop takes by the merge's `heap_less` is the library's business, the argument `pop`; `(*h)[0]` is the item that Pop takes next.
pub mod Pending
pub mod Step
pub mod Duplicates
pub mod Winners
pub mod Start
pub mod Files
use in_memory_db.Base.{
  ℕ, zero, suc, ◌+◌, ◌%◌, List, [], ◌∷◌, ◌++◌, length, get_elem?, set, ltb, ◌==◌, if◌then◌else◌,
  Bool, true, false, not, ◌&&◌, Option, none, some, Result, ok, err, ◌>>=◌, ◌>>◌, guard, message,
  eof, bytes_equal,
}
use in_memory_db.Base.ByteOrder.{bytes_lt}
use in_memory_db.SortedIndex.Bloom.{add}
use in_memory_db.SortedIndex.Format.BloomFile.{BloomFilter, write_bloom_file}
use in_memory_db.SortedIndex.Format.Entries.{
  SortEntry, write_sidx_entry, read_sidx_entry, next_run_entry,
}
use in_memory_db.SortedIndex.Format.Sidx.{header_len, assemble_sidx}
use in_memory_db.SortedIndex.Format.Sparse.{SparseEntry, write_sparse_file}

-- `entryReader`: the bytes that are left of a run, or of the entries of an index.
pub data EntryReader : Type 0 where
  run sidx : List ℕ → EntryReader

unfoldable pub next : EntryReader → Result (SortEntry × EntryReader)
next (run bs) = do (e, rest) ← next_run_entry bs; ok (e, run rest)
next (sidx bs) = do (e, rest) ← read_sidx_entry bs; ok (e, sidx rest)

-- `heapItem`: an entry and its reader's position.
abbrev pub HeapItem : Type 0
HeapItem = SortEntry × ℕ

-- `mergeHeap.Less`
abbrev pub heap_less : HeapItem → HeapItem → Bool
heap_less a b = bytes_lt a.0.key b.0.key

-- What a merge is given: the heap's Pop by a comparison, the Bloom filter's hash functions, and whether the
-- context is cancelled when a number of entries have been written.
pub record MergeEnv : Type 0 where
  pub pop : (HeapItem → HeapItem → Bool) → List HeapItem → Option (HeapItem × List HeapItem)
  pub fnv64a : List ℕ → ℕ
  pub crc64 : List ℕ → ℕ
  pub cancelled : ℕ → Bool

pub record MergeState : Type 0 where
  pub heap : List HeapItem
  pub readers : List EntryReader

-- What the loop has written: the sparse directory, the Bloom filter, the body and its counters.
pub record Output : Type 0 where
  pub sparse : List SparseEntry
  pub bloom : Option BloomFilter
  pub body : List ℕ
  pub count : ℕ
  pub entry_off : ℕ

-- The three files of an index without its source list.
pub record IndexFiles : Type 0 where
  pub sidx_file : List ℕ
  pub sparse_file : List ℕ
  pub bloom_file : Option (List ℕ)

-- `betterDup`; offsets in a file are not negative.
unfoldable pub better_dup : SortEntry → SortEntry → Bool
better_dup candidate current =
    if candidate.file_idx == current.file_idx
    then ltb current.src_off candidate.src_off
    else ltb current.file_idx candidate.file_idx

unfoldable pub advance : ℕ → MergeState → Result MergeState
unfolding next
advance run_idx st = elim (get_elem? st.readers run_idx) [
  | none ↦ err (message "index out of range")
  | some r ↦ elim (next r) [
    | err eof ↦ ok st
    | err _ ↦ err (message "kv: read run")
    | ok (e, r') ↦
        ok (record { heap = (e, run_idx) ∷ st.heap; readers = set st.readers run_idx r' })
  ]
]

-- The first entry of every reader, from reader `i` on.
unfoldable pub fill : ℕ → List EntryReader → Result (List HeapItem × List EntryReader)
unfolding next
fill i [] = ok ([], [])
fill i (r ∷ rs) = elim (next r) [
  | err eof ↦ do (h, rs') ← fill (i + 1) rs; ok (h, r ∷ rs')
  | err _ ↦ err (message "kv: read run")
  | ok (e, r') ↦ do (h, rs') ← fill (i + 1) rs; ok ((e, i) ∷ h, r' ∷ rs')
]

unfoldable pub emit_sparse : ℕ → SortEntry → Output → List SparseEntry
emit_sparse sparse_interval winner out =
    if out.count % sparse_interval == 0
    then out.sparse ++ record { key = winner.key; offset = header_len + out.entry_off } ∷ []
    else out.sparse

-- The readers' bytes bound the number of entries.
unfoldable pub reader_bytes : List EntryReader → ℕ
reader_bytes [] = 0
reader_bytes (run bs ∷ rs) = length bs + reader_bytes rs
reader_bytes (sidx bs ∷ rs) = length bs + reader_bytes rs

module _ (env : MergeEnv) where
  -- The inner loop: the entries that share the winner's key.
  unfoldable pub merge_dups : ℕ → SortEntry → MergeState → Result (SortEntry × MergeState)
  unfolding advance better_dup
  merge_dups zero winner st = err (message "out of fuel")
  merge_dups (suc fuel) winner st = elim (env.pop heap_less st.heap) [
    | none ↦ ok (winner, st)
    | some ((dup, run_idx), h) ↦
        let more = do
          st' ← advance run_idx (record st { heap = h })
          merge_dups fuel (if better_dup dup winner then dup else winner) st'
        in if bytes_equal dup.key winner.key then more else ok (winner, st)
  ]

  unfoldable pub emit : ℕ → Output → SortEntry → Output
  unfolding emit_sparse
  emit sparse_interval out winner =
      let bytes = write_sidx_entry winner in
      record {
        sparse = emit_sparse sparse_interval winner out;
        bloom = elim out.bloom [
          | none ↦ none
          | some b ↦ some (add env.fnv64a env.crc64 b winner.key)
        ];
        body = out.body ++ bytes;
        count = out.count + 1;
        entry_off = out.entry_off + length bytes;
      }

  -- The outer loop. Each round takes an item from the heap; `Merge.Winners` shows how much fuel is
  -- enough, and out of fuel is a result of its own.
  unfoldable pub merge_loop : ℕ → ℕ → MergeState → Output → Result Output
  unfolding advance merge_dups emit
  merge_loop zero sparse_interval st out = err (message "out of fuel")
  merge_loop (suc fuel) sparse_interval st out = elim (env.pop heap_less st.heap) [
    | none ↦ ok out
    | some ((top, run_idx), h) ↦ do
      guard (not ((out.count % 100000 == 0) && env.cancelled out.count))
          (message "kv: build sorted index: cancelled")
      st₁ ← advance run_idx (record st { heap = h })
      (winner, st₂) ← merge_dups fuel top st₁
      merge_loop fuel sparse_interval st₂ (emit sparse_interval out winner)
  ]

  -- `bloom` is the empty filter that `newBloomFilter` makes, or none if the rate is negative.
  unfoldable pub merge_runs : List EntryReader → ℕ → Option BloomFilter → Result IndexFiles
  unfolding fill merge_loop reader_bytes
  merge_runs readers sparse_interval bloom = do
    (h, readers') ← fill 0 readers
    out ←
        merge_loop (reader_bytes readers + 1) sparse_interval
          (record { heap = h; readers = readers' })
          (record { sparse = []; bloom = bloom; body = []; count = 0; entry_off = 0 })
    ok (record {
      sidx_file = assemble_sidx out.count out.body;
      sparse_file = write_sparse_file out.sparse;
      bloom_file = elim out.bloom [ none ↦ none | some b ↦ some (write_bloom_file b) ];
    })
