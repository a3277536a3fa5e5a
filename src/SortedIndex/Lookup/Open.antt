-- ===== src/SortedIndex/Lookup/Open.antt =====
-- Opening the files that a merge wrote, and what the filter among them lets pass.
use in_memory_db.Base.{
  ℕ, zero, suc, ◌+◌, ◌-◌, ◌/◌, ◌%◌, ◌^◌, ◌≤◌, ◌<◌, ◌≡◌, refl, ap, sym, ◌∙◌, List, [], ◌∷◌, ◌++◌,
  foldl, map, length, max, replicate, length-replicate, length-append, false, Bool-cases, ◌==◌,
  Option, some, ok, inl, inr, arith,
}
use in_memory_db.Bytes.Reader.{write_many, All}
use in_memory_db.SortedIndex.Bloom.{new_bloom_filter, add, byte_of}
use in_memory_db.SortedIndex.Bloom.Negatives.{Holds, add_all_lem, may_contain-add}
use in_memory_db.SortedIndex.Format.BloomFile.{
  BloomFilter, write_bloom_file, read_bloom_file, read_bloom_file-write,
}
use in_memory_db.SortedIndex.Format.Entries.{SortEntry, Fits, write_sidx_entry}
use in_memory_db.SortedIndex.Format.Sidx.{
  header_len, assemble_sidx, verify_sidx_header-assemble, verify_sidx_checksum-assemble,
}
use in_memory_db.SortedIndex.Format.Sources.{
  SourceStat, StatFits, write_sources_file, read_sources_file-write,
}
use in_memory_db.SortedIndex.Format.Sparse.{SparseFits, write_sparse_file, read_sparse_file-write}
use in_memory_db.SortedIndex.Merge.{MergeEnv}
use in_memory_db.SortedIndex.Merge.Pending.{In}
use in_memory_db.SortedIndex.Merge.Winners.{StrictlyAscending}
use in_memory_db.SortedIndex.Merge.Files.{sample, length-sidx_le}
use in_memory_db.SortedIndex.Lookup.{
  SortedIndex, Files, open_sources, paths_of, open_sorted_index, ruled_out,
}
use in_memory_db.SortedIndex.Lookup.Scan.{Serves, Passes}

length-sample :
    (interval n off : ℕ) (ws : List SortEntry) → length (sample interval n off ws) ≤ length ws
unfolding sample
length-sample interval n off [] = omega arith
length-sample interval n off (w ∷ ws) =
    let ih = length-sample interval (n + 1) (off + length (write_sidx_entry w)) ws in
    elim (Bool-cases (n % interval == 0)) [
      | inl hit ↦ rw hit (omega arith)
      | inr miss ↦ rw miss (omega arith)
    ]

sample-SparseFits :
    (interval n off : ℕ) (ws : List SortEntry)
    → All Fits ws
    → header_len + off + length (write_many write_sidx_entry ws) < 2 ^ 64
    → All SparseFits (sample interval n off ws)
unfolding sample write_many
sample-SparseFits interval n off [] fits room = tt
sample-SparseFits interval n off (w ∷ ws) fits room =
    let size = length-append (write_sidx_entry w) (write_many write_sidx_entry ws) in
    let ih =
      sample-SparseFits interval (n + 1) (off + length (write_sidx_entry w)) ws fits.1
        (omega arith) in
    elim (Bool-cases (n % interval == 0)) [
      | inl hit ↦ rw hit ((fits.0.key, omega arith), ih)
      | inr miss ↦ rw miss ih
    ]

-- The index that is opened over the files of a merge serves the entries of the merge.
pub open-Serves :
    (read_path : List ℕ → Option (List ℕ)) (files : Files) (stats : List SourceStat)
    (srcs : List (List ℕ)) (interval : ℕ) (ws : List SortEntry) (b : Option BloomFilter)
    → open_sources read_path stats ≡ ok srcs
    → length stats < 2 ^ 64
    → All StatFits stats
    → files.sources_file ≡ some (write_sources_file stats)
    → files.sidx_file ≡ some (assemble_sidx (length ws) (write_many write_sidx_entry ws))
    → files.sparse_file ≡ some (write_sparse_file (sample interval 0 0 ws))
    → read_bloom_file files.bloom_file ≡ ok b
    → StrictlyAscending ws
    → All Fits ws
    → header_len + length (write_many write_sidx_entry ws) < 2 ^ 64
    → (si : SortedIndex) × (open_sorted_index read_path files ≡ ok si)
      × Serves interval ws si
      × (si.bloom ≡ b)
      × (si.srcs ≡ srcs)
      × (si.is_closed ≡ false)
unfolding open_sorted_index
open-Serves read_path files stats srcs interval ws b opened few fits sources sidx sparse bloom asc
      entries room =
    let body = write_many write_sidx_entry ws in
    let short : length ws < 2 ^ 64 = omega (arith, length-sidx_le ws) in
    let samples =
      read_sparse_file-write (sample interval 0 0 ws) (omega (arith, length-sample interval 0 0 ws))
        (sample-SparseFits interval 0 0 ws entries (omega arith)) in
    let content = assemble_sidx (length ws) body in
    let si : SortedIndex = record {
      source_paths = paths_of stats;
      srcs = srcs;
      sidx_content = content;
      entries_start = header_len;
      entries_end = length content - 4;
      count = length ws;
      sparse = sample interval 0 0 ws;
      bloom = b;
      is_closed = false;
    } in
    (
      si,
      rw
          (
            sources,
            read_sources_file-write stats few fits,
            opened,
            sidx,
            verify_sidx_header-assemble (length ws) body short,
            verify_sidx_checksum-assemble (length ws) body,
            sparse,
            samples,
            bloom,
          )
          refl,
      record {
        ascending = asc;
        fits = entries;
        content = refl;
        start = refl;
        end_ = refl;
        samples = refl;
      },
      refl,
      refl,
      refl,
    )

zeroes : (n i : ℕ) → byte_of (replicate n 0) i < 256
unfolding byte_of
zeroes zero i = omega arith
zeroes (suc n) zero = omega arith
zeroes (suc n) (suc i) = zeroes n i

-- A new filter has at least one bit and bytes enough.
pub new_bloom_filter-Holds :
    (bits_for : ℕ → ℕ) (probes_for : ℕ → ℕ → ℕ) (keys : ℕ)
    → bits_for (max keys 1) < 2 ^ 63
    → let b = new_bloom_filter bits_for probes_for keys in
      (0 < b.m) × (b.m < 2 ^ 64) × Holds b.m b.bits
unfolding new_bloom_filter
new_bloom_filter-Holds bits_for probes_for keys small =
    let m = max (bits_for (max keys 1)) 8 in
    let wide : (m + 7) % 2 ^ 64 ≡ m + 7 = omega arith in
    (
      omega arith,
      omega arith,
      record {
        bytes = λ n. zeroes ((m + 7) % 2 ^ 64 / 8) n;
        sized = length-replicate ((m + 7) % 2 ^ 64 / 8) 0 ∙ ap (λ (t : ℕ). t / 8) wide;
      },
    )

-- The keys in front of an entry's key, and those behind it.
keys_around :
    (ws : List SortEntry) (e : SortEntry)
    → In e ws
    → (before : List (List ℕ)) × (after : List (List ℕ)) × (map (λ (w : SortEntry). w.key) ws
        ≡ before ++ e.key ∷ after)
keys_around [] e m = absurd m
keys_around (w ∷ ws) e (inl is_w) = ([], map (λ (v : SortEntry). v.key) ws, rw is_w refl)
keys_around (w ∷ ws) e (inr m) =
    let (before, after, eq) = keys_around ws e m in (w.key ∷ before, after, ap (λ t. w.key ∷ t) eq)

-- The filter of a merge is read back from its file, and lets the keys of the merge pass.
pub filter_of-Passes :
    (env : MergeEnv) (bits_for : ℕ → ℕ) (probes_for : ℕ → ℕ → ℕ) (keys : ℕ) (ws : List SortEntry)
    → bits_for (max keys 1) < 2 ^ 63
    → probes_for (max (bits_for (max keys 1)) 8) (max keys 1) < 2 ^ 64
    → let b =
        foldl
          (add env.fnv64a env.crc64)
          (new_bloom_filter bits_for probes_for keys)
          (map (λ (w : SortEntry). w.key) ws) in
      (read_bloom_file (some (write_bloom_file b)) ≡ ok (some b))
      × Passes env.fnv64a env.crc64 (some b) ws
unfolding ruled_out new_bloom_filter
filter_of-Passes env bits_for probes_for keys ws small few =
    let b₀ = new_bloom_filter bits_for probes_for keys in
    let b = foldl (add env.fnv64a env.crc64) b₀ (map (λ (w : SortEntry). w.key) ws) in
    let (pos, wide, v) = new_bloom_filter-Holds bits_for probes_for keys small in
    let (same_m, same_k, v', _) =
      add_all_lem env.fnv64a env.crc64 (map (λ (w : SortEntry). w.key) ws) b₀ pos v in
    let whole : (b.m + 7) / 8 ≡ (b.m + 7) % 2 ^ 64 / 8 =
      ap (λ (t : ℕ). t / 8) (omega (arith, same_m)) in
    let probes : b₀.k < 2 ^ 64 = unfold new_bloom_filter in omega arith in
    (
      read_bloom_file-write _ (omega (arith, same_m)) (omega (arith, same_k))
          (v'.sized ∙ (ap (λ (t : ℕ). (t + 7) / 8) (sym same_m) ∙ whole)),
      λ e m.
          let (before, after, eq) = keys_around ws e m in
          rw (eq, may_contain-add env.fnv64a env.crc64 b₀ before e.key after pos v) refl,
    )
