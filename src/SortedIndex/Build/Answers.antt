-- ===== src/SortedIndex/Build/Answers.antt =====
-- A full build: the files it leaves, and what a lookup in them returns.
use in_memory_db.Base.{
  ℕ, ◌^◌, ◌≤◌, ◌<◌, ◌≡◌, refl, List, [], append-nil, map, length, true, false, leb, le→leb, ◌==◌,
  none, ok, ◌⊎◌, inl, inr, ◌↔◌, arith,
}
use in_memory_db.Bytes.Reader.{All}
use in_memory_db.SortedIndex.Format.Entries.{SortEntry, Fits}
use in_memory_db.SortedIndex.Format.Sources.{SourceStat, StatFits}
use in_memory_db.SortedIndex.Merge.{run}
use in_memory_db.SortedIndex.Merge.Pending.{In}
use in_memory_db.SortedIndex.Merge.Start.{Among}
use in_memory_db.SortedIndex.Merge.Files.{files_of}
use in_memory_db.SortedIndex.Lookup.{SortedIndex, Files, open_sorted_index}
use in_memory_db.SortedIndex.Build.{
  BuildEnv, SortedIndexOptions, with_defaults, stat_sources, new_filter, replace_files,
  build_sorted_index, content_of,
}
use in_memory_db.SortedIndex.Build.Spill.{Stands, all_entries}
use in_memory_db.SortedIndex.Build.Lines.{all_lines}
use in_memory_db.SortedIndex.Build.Runs.{Works, All-In, Chosen_iff, merge_runs-spilled}
use in_memory_db.SortedIndex.Build.State.{
  SourceFits, stat_sources-Stands, length-Stands, Sized, Fitting, Fitting-room, filter_lem, Current,
  Current-open, Answers,
}

-- No input but the scanned entries.
only_scanned : (P : Type 0) (z : SortEntry) → (P ⊎ Among z []) ↔ P
only_scanned P z = (λ m. elim m [ inl p ↦ p | inr (k, es, at_, _) ↦ absurd (cc) ], λ p. inl p)

module _ (env : BuildEnv) (works : Works env) where
  pub build_sorted_index-Current :
      (paths contents : List (List ℕ)) (files : Files) (o : SortedIndexOptions)
      (stats : List SourceStat)
      → Stands env paths contents
      → 0 < length paths
      → length paths ≤ 65535
      → stat_sources env paths ≡ ok stats
      → All StatFits stats
      → length stats ≡ length paths
      → Fitting env contents
      → Sized env (length (all_entries env.key_func 0 contents))
      → (o.no_bloom ≡ false) ⊎ (files.bloom_file ≡ none)
      → (files' : Files) × (build_sorted_index env paths files o ≡ ok files')
        × Current env files' stats contents
  unfolding build_sorted_index with_defaults replace_files files_of
  build_sorted_index-Current paths contents files o stats stands some_source few stat stats_fit many
        fitting sized clean =
      let opts = with_defaults o in
      let all = all_entries env.key_func 0 contents in
      let n = length all in
      let pos : 0 < opts.chunk_entries = ground arith in
      let (runs, ws, spilled, merged, chosen) =
        merge_runs-spilled env paths contents 0 opts.chunk_entries opts.sparse_interval
          (new_filter env o n) [] works stands pos fitting.entries tt (λ k es at_. absurd (cc)) in
      let merged' = rw (append-nil (map run runs)) at merged in
      let c =
        Chosen_iff ws (λ z. In z all ⊎ Among z []) (λ z. In z all) (λ z. only_scanned (In z all) z)
          chosen in
      let (b, filter, pass) = filter_lem env ws n opts.sparse_interval stats files o sized clean in
      let some_path : (length paths == 0) ≡ false = ground arith in
      let few_paths : leb (length paths) 65535 ≡ true = le→leb _ _ few in
      (
        replace_files env files (files_of env.merge opts.sparse_interval (new_filter env o n) ws)
            stats,
        rw (works.starts, some_path, few_paths, stat, spilled, merged') refl,
        record {
          interval = opts.sparse_interval;
          ws = ws;
          filter = b;
          sources = refl;
          stats_fit = stats_fit;
          few = omega arith;
          sidx = refl;
          sparse = refl;
          bloom = filter;
          passes = pass;
          chosen = c;
          fits = All-In Fits ws (λ z m. fitting.entries z (c.sound z m));
          room = Fitting-room env contents ws fitting c;
        },
      )

  -- A build over one to 65535 existing sources, where the heap and the sort of the library
  -- behave as documented and nothing is cancelled, the paths, sizes, times and entries fit
  -- their widths, lines are shorter than 2^31 bytes, a file of all the entries is shorter than
  -- 2^64 bytes, the filter's formulas give sizes that fit, and no filter of an earlier build is
  -- left behind by a build without one: it succeeds, its files open, Get of the empty key is an
  -- error, and Get of every other key returns the last line with that key, in the order of the
  -- sources and of their lines, or the not-found error if there is none.
  pub build_sorted_index-Answers :
      (paths contents : List (List ℕ)) (files : Files) (o : SortedIndexOptions)
      → Stands env paths contents
      → 0 < length paths
      → length paths ≤ 65535
      → All (SourceFits env) paths
      → Fitting env contents
      → Sized env (length (all_entries env.key_func 0 contents))
      → (o.no_bloom ≡ false) ⊎ (files.bloom_file ≡ none)
      → ((line : List ℕ) → In line (all_lines contents) → length line < 2 ^ 31)
      → (files' : Files) × (si : SortedIndex) × (build_sorted_index env paths files o ≡ ok files')
        × (open_sorted_index (content_of env) files' ≡ ok si)
        × Answers env si contents
  build_sorted_index-Answers paths contents files o stands some_source few sources fitting sized
        clean short =
      let (stats, stat, stats_fit, many, opened, _) =
        stat_sources-Stands env paths contents stands sources in
      let (files', built, c) =
        build_sorted_index-Current paths contents files o stats stands some_source few stat
          stats_fit many fitting sized clean in
      let (si, run_, answers) =
        Current-open env files' stats contents c opened
          (omega (arith, length-Stands env paths contents stands)) short in
      (files', si, built, run_, answers)
