-- ===== src/SortedIndex/Merge/Files.antt =====
-- The files that a merge of sorted inputs writes.
use in_memory_db.Base.{
  ℕ, ◌+◌, ◌%◌, ◌≤◌, ◌<◌, ◌≡◌, refl, sym, ◌∙◌, List, [], ◌∷◌, ◌++◌, append_assoc, append-nil, foldl,
  map, length, length-append, false, Bool-cases, ◌==◌, if◌then◌else◌, Option, Option-cases, none,
  some, ok, inl, inr, arith,
}
use in_memory_db.Bytes.Words.{put_uint16, put_uint32, put_uint64}
use in_memory_db.Bytes.Reader.{write_many, All}
use in_memory_db.SortedIndex.Bloom.{add}
use in_memory_db.SortedIndex.Format.BloomFile.{BloomFilter, write_bloom_file}
use in_memory_db.SortedIndex.Format.Sparse.{SparseEntry, write_sparse_file}
use in_memory_db.SortedIndex.Format.Entries.{
  SortEntry, Fits, write_sidx_entry, write_run_entry, read_sidx_entry-write, read_sidx_entry-nil,
  next_run_entry-write, next_run_entry-nil, length-write_run_entry,
}
use in_memory_db.SortedIndex.Format.Sidx.{header_len, assemble_sidx}
use in_memory_db.SortedIndex.Merge.{
  EntryReader, run, sidx, next, MergeEnv, Output, IndexFiles, emit, emit_sparse, merge_runs,
  reader_bytes,
}
use in_memory_db.SortedIndex.Merge.Pending.{Streams, Yields, total}
use in_memory_db.SortedIndex.Merge.Step.{HeapPops, size}
use in_memory_db.SortedIndex.Merge.Winners.{Chosen, merge_loop_lem}
use in_memory_db.SortedIndex.Merge.Start.{
  fill_lem, heads, tails, start-Inv, size-start, Pending→Among, Among→Pending, Among, AllAscending,
}

-- Every interval-th entry, with the place where it starts in the file.
unfoldable pub sample : ℕ → ℕ → ℕ → List SortEntry → List SparseEntry
sample interval n off [] = []
sample interval n off (w ∷ ws) =
    let rest = sample interval (n + 1) (off + length (write_sidx_entry w)) ws in
    if n % interval == 0 then record { key = w.key; offset = header_len + off } ∷ rest else rest

-- The bytes of sorted inputs: runs, and the entries of an index.
pub data Input : Type 0 where
  run_of sidx_of : List SortEntry → Input

abbrev pub entries_of : Input → List SortEntry
entries_of (run_of es) = es
entries_of (sidx_of es) = es

unfoldable pub reader_of : Input → EntryReader
reader_of (run_of es) = run (write_many write_run_entry es)
reader_of (sidx_of es) = sidx (write_many write_sidx_entry es)

Streams-run : (es : List SortEntry) → All Fits es → Streams (run (write_many write_run_entry es)) es
unfolding next write_many
Streams-run [] fits = rw next_run_entry-nil refl
Streams-run (e ∷ es) (f, fits) = (
  run (write_many write_run_entry es),
  rw (next_run_entry-write e (write_many write_run_entry es) f) refl,
  Streams-run es fits,
)

Streams-sidx :
    (es : List SortEntry) → All Fits es → Streams (sidx (write_many write_sidx_entry es)) es
unfolding next write_many
Streams-sidx [] fits = rw read_sidx_entry-nil refl
Streams-sidx (e ∷ es) (f, fits) = (
  sidx (write_many write_sidx_entry es),
  rw (read_sidx_entry-write e (write_many write_sidx_entry es) f) refl,
  Streams-sidx es fits,
)

Streams-input : (i : Input) → All Fits (entries_of i) → Streams (reader_of i) (entries_of i)
unfolding reader_of
Streams-input (run_of es) fits = Streams-run es fits
Streams-input (sidx_of es) fits = Streams-sidx es fits

pub Yields-inputs :
    (is : List Input)
    → All (λ i. All Fits (entries_of i)) is
    → Yields (map reader_of is) (map entries_of is)
Yields-inputs [] fits = tt
Yields-inputs (i ∷ is) (f, fits) = (Streams-input i f, Yields-inputs is fits)

pub length-write_sidx_entry : (e : SortEntry) → length (write_sidx_entry e) ≡ 16 + length e.key
unfolding write_sidx_entry put_uint16 put_uint32 put_uint64
length-write_sidx_entry e = omega (
  arith,
  length-append e.key (put_uint16 e.file_idx ++ (put_uint64 e.src_off ++ put_uint32 e.len)),
)

pub length-sidx_le : (es : List SortEntry) → length es ≤ length (write_many write_sidx_entry es)
unfolding write_many
length-sidx_le [] = omega arith
length-sidx_le (e ∷ es) = omega (
  arith,
  length-append (write_sidx_entry e) (write_many write_sidx_entry es),
  length-write_sidx_entry e,
  length-sidx_le es,
)

length-run_le : (es : List SortEntry) → length es ≤ length (write_many write_run_entry es)
unfolding write_many
length-run_le [] = omega arith
length-run_le (e ∷ es) = omega (
  arith,
  length-append (write_run_entry e) (write_many write_run_entry es),
  length-write_run_entry e,
  length-run_le es,
)

total_le : (is : List Input) → total (map entries_of is) ≤ reader_bytes (map reader_of is)
unfolding reader_bytes reader_of
total_le [] = omega arith
total_le (run_of es ∷ is) = omega (arith, length-run_le es, total_le is)
total_le (sidx_of es ∷ is) = omega (arith, length-sidx_le es, total_le is)

-- What the loop's writes add up to.
module _ (env : MergeEnv) (interval : ℕ) where
  abbrev final : Output → List SortEntry → Output
  final out ws = foldl (emit env interval) out ws

  final-body :
      (ws : List SortEntry) (out : Output)
      → (final out ws).body ≡ out.body ++ write_many write_sidx_entry ws
  unfolding emit write_many
  final-body [] out = sym (append-nil out.body)
  final-body (w ∷ ws) out =
      final-body ws (emit env interval out w)
      ∙ append_assoc out.body (write_sidx_entry w) (write_many write_sidx_entry ws)

  final-count : (ws : List SortEntry) (out : Output) → (final out ws).count ≡ out.count + length ws
  unfolding emit
  final-count [] out = omega arith
  final-count (w ∷ ws) out = omega (arith, final-count ws (emit env interval out w))

  final-bloom_none :
      (ws : List SortEntry) (out : Output) → out.bloom ≡ none → (final out ws).bloom ≡ none
  unfolding emit
  final-bloom_none [] out e = e
  final-bloom_none (w ∷ ws) out e = final-bloom_none ws (emit env interval out w) (rw e refl)

  final-bloom_some :
      (ws : List SortEntry) (out : Output) (b : BloomFilter)
      → out.bloom ≡ some b
      → (final out ws).bloom
        ≡ some (foldl (add env.fnv64a env.crc64) b (map (λ (e : SortEntry). e.key) ws))
  unfolding emit
  final-bloom_some [] out b e = e
  final-bloom_some (w ∷ ws) out b e =
      final-bloom_some ws (emit env interval out w) (add env.fnv64a env.crc64 b w.key) (rw e refl)

  final-sparse :
      (ws : List SortEntry) (out : Output)
      → (final out ws).sparse ≡ out.sparse ++ sample interval out.count out.entry_off ws
  unfolding emit emit_sparse sample
  final-sparse [] out = sym (append-nil out.sparse)
  final-sparse (w ∷ ws) out = elim (Bool-cases (out.count % interval == 0)) [
    | inl hit ↦
        final-sparse ws (emit env interval out w)
        ∙ rw hit (
            append_assoc out.sparse
              (record { key = w.key; offset = header_len + out.entry_off } ∷ [])
              (sample interval (out.count + 1) (out.entry_off + length (write_sidx_entry w)) ws))
    | inr miss ↦ final-sparse ws (emit env interval out w) ∙ rw miss refl
  ]

-- The filter with the keys added.
unfoldable pub filter_of : MergeEnv → Option BloomFilter → List SortEntry → Option BloomFilter
filter_of env none ws = none
filter_of env (some b) ws =
    some (foldl (add env.fnv64a env.crc64) b (map (λ (e : SortEntry). e.key) ws))

unfoldable pub files_of : MergeEnv → ℕ → Option BloomFilter → List SortEntry → IndexFiles
unfolding filter_of
files_of env interval bloom ws = record {
  sidx_file = assemble_sidx (length ws) (write_many write_sidx_entry ws);
  sparse_file = write_sparse_file (sample interval 0 0 ws);
  bloom_file = elim (filter_of env bloom ws) [ none ↦ none | some b ↦ some (write_bloom_file b) ];
}

final-bloom :
    (env : MergeEnv) (interval : ℕ) (ws : List SortEntry) (out : Output)
    → (final env interval out ws).bloom ≡ filter_of env out.bloom ws
unfolding filter_of
final-bloom env interval ws out = elim (Option-cases out.bloom) [
  | inl e ↦ final-bloom_none env interval ws out e ∙ rw e refl
  | inr (b, e) ↦ final-bloom_some env interval ws out b e ∙ rw e refl
]

module _ (env : MergeEnv) (pops : HeapPops env.pop)
    (runs_on : (n : ℕ) → env.cancelled n ≡ false) where
  -- The merge of any number of run files and index entries, each ascending by key and with
  -- entries that fit their widths, with a heap that always pops an item of least key and no
  -- cancellation: it succeeds, and writes the index, the sparse directory and the filter of a
  -- list of entries that strictly ascends by key, is taken from the inputs, has an entry for
  -- every key among them, and for each key the one that no other entry of the key beats.
  pub merge_runs-Chosen :
      (is : List Input) (interval : ℕ) (bloom : Option BloomFilter)
      → All (λ i. All Fits (entries_of i)) is
      → AllAscending (map entries_of is)
      → (ws : List SortEntry) × (merge_runs env (map reader_of is) interval bloom
          ≡ ok (files_of env interval bloom ws))
        × Chosen ws (λ z. Among z (map entries_of is))
  unfolding merge_runs files_of
  merge_runs-Chosen is interval bloom fits sorted =
      let ess = map entries_of is in
      let (rs', filled, y) = fill_lem 0 (map reader_of is) ess (Yields-inputs is fits) in
      let out : Output = record {
        sparse = [];
        bloom = bloom;
        body = [];
        count = 0;
        entry_off = 0;
      } in
      let enough : size (heads 0 ess) (tails ess) < reader_bytes (map reader_of is) + 1 =
        omega (arith, total_le is, size-start 0 ess) in
      let (ws, run_, c) =
        merge_loop_lem env pops runs_on interval (reader_bytes (map reader_of is) + 1) rs'
          (heads 0 ess) (tails ess) out enough y (start-Inv ess sorted) in
      let written : 0 + length ws ≡ length ws = omega arith in
      (
        ws,
        rw (filled, run_)
            (rw
              (
                final-body env interval ws out,
                final-count env interval ws out,
                final-sparse env interval ws out,
                final-bloom env interval ws out,
                written,
              )
              refl),
        record {
          ascending = c.ascending;
          sound = λ w m. Pending→Among ess w (c.sound w m);
          best = λ w z m p eq. c.best w z m (Among→Pending ess z p) eq;
          complete = λ z p. c.complete z (Among→Pending ess z p);
        },
      )
