-- ===== src/SortedIndex/Build/Fresh.antt =====
-- EnsureFresh: whichever of its three ways it takes, the index it opens answers for the sources as they
-- are now.
use in_memory_db.Base.{
  ℕ, ◌+◌, ◌^◌, ◌≤◌, ◌<◌, ◌≡◌, refl, ap, sym, ◌∙◌, List, ◌++◌, length, length-append, drop, false,
  ==_iff, message, Bool-cases, Option-cases, none, some, ok, err, Error, ◌⊎◌, inl, inr, arith,
  subst,
}
use in_memory_db.Bytes.Reader.{All}
use in_memory_db.SortedIndex.Format.Sources.{
  SourceStat, StatFits, write_sources_file, sources_match, incremental_eligible, read_sources_file,
  read_sources_file-write,
}
use in_memory_db.SortedIndex.Merge.Pending.{In}
use in_memory_db.SortedIndex.Lookup.{SortedIndex, Files, open_sorted_index}
use in_memory_db.SortedIndex.Build.{
  BuildEnv, SortedIndexOptions, stat_sources, freshen, ensure_fresh,
}
use in_memory_db.SortedIndex.Build.Spill.{Stands, all_entries}
use in_memory_db.SortedIndex.Build.Lines.{all_lines}
use in_memory_db.SortedIndex.Build.Runs.{Works}
use in_memory_db.SortedIndex.Build.State.{
  SourceFits, Described, stat_sources-Stands, length-Stands, Sized, Fitting, Current, Current-open,
  Answers,
}
use in_memory_db.SortedIndex.Build.Answers.{build_sorted_index-Current}
use in_memory_db.SortedIndex.Build.Refresh.{refresh_sorted_index-Current}
use in_memory_db.SortedIndex.Build.Unchanged.{
  same_stats_refl, sources_match_sound, incremental_eligible_sound, Trusted, Described-drop,
  Described-Stands, Trusted-contents, Trusted-same,
}

module _ (env : BuildEnv) where
  move :
      (files : Files) (a b : List SourceStat) (old contents : List (List ℕ))
      → a ≡ b
      → old ≡ contents
      → Current env files a old
      → Current env files b contents
  move files a b old contents p q c =
      subst (λ s. Current env files s contents) p (subst (Current env files a) q c)

  -- What the files on disk may be: no source list that can be read, or files that were up to date with
  -- recorded sources that are to be trusted.
  pub record Known (files : Files) (contents : List (List ℕ)) : Type 0 where
    pub recorded : List SourceStat
    pub old : List (List ℕ)
    pub current : Current env files recorded old
    pub trusted : Trusted env recorded old
    pub sized : Sized env (
        length current.ws
        + length (all_entries env.key_func (length recorded) (drop (length recorded) contents)))

  abbrev pub Disk : Files → List (List ℕ) → Type 0
  Disk files contents =
      ((e : Error) × (read_sources_file files.sources_file ≡ err e)) ⊎ Known files contents

  -- The work in front of the open leaves the files up to date with the sources.
  freshen-Current :
      (works : Works env) (paths contents : List (List ℕ)) (files : Files) (o : SortedIndexOptions)
      (stats : List SourceStat)
      → Stands env paths contents
      → 0 < length paths
      → length paths ≤ 65535
      → stat_sources env paths ≡ ok stats
      → All StatFits stats
      → length stats ≡ length paths
      → Described env stats contents
      → Fitting env contents
      → Sized env (length (all_entries env.key_func 0 contents))
      → (o.no_bloom ≡ false) ⊎ (files.bloom_file ≡ none)
      → Disk files contents
      → (files' : Files) × (freshen env paths files o ≡ ok files')
        × Current env files' stats contents
  unfolding freshen
  freshen-Current works paths contents files o stats stands some_source few stat stats_fit many
        described fitting sized clean disk =
      let (built, build, current) =
        build_sorted_index-Current env works paths contents files o stats stands some_source few
          stat stats_fit many fitting sized clean in
      elim disk [
        | inl (e, unread) ↦ (built, rw (stat, freshen, unread) build, current)
        | inr k ↦
            let recorded = k.recorded in
            let limit = k.current.few in
            let read : read_sources_file files.sources_file ≡ ok recorded =
              rw k.current.sources
                (read_sources_file-write recorded (omega arith) k.current.stats_fit) in
            elim (Bool-cases (sources_match stats recorded)) [
              | inl fresh ↦
                  let same = sources_match_sound stats recorded fresh in
                  (
                    files,
                    rw (stat, freshen, read, fresh) refl,
                    move files recorded stats k.old contents (sym same)
                        (Trusted-same env recorded k.old contents
                          (subst (λ s. Described env s contents) same described) k.trusted)
                        k.current,
                  )
              | inr stale ↦ elim (Option-cases (incremental_eligible recorded stats)) [
                | inl changed ↦ (built, rw (stat, freshen, read, stale, changed) build, current)
                | inr (new_srcs, grown) ↦
                    let (is_new, joined) =
                      incremental_eligible_sound recorded stats new_srcs grown in
                    let whole : recorded ++ new_srcs ≡ stats =
                      ap (λ t. recorded ++ t) is_new ∙ joined in
                    let described' = subst (λ s. Described env s contents) (sym whole) described in
                    let (kept, same_length) =
                      Trusted-contents env recorded new_srcs k.old contents described' k.trusted in
                    let size : length recorded + length new_srcs ≡ length stats =
                      sym (length-append recorded new_srcs) ∙ ap (λ t. length t) whole in
                    let new = drop (length recorded) contents in
                    let (files', refresh, current') =
                      refresh_sorted_index-Current env works recorded new_srcs k.old new files o
                        k.current same_length
                        (Described-Stands env new_srcs new (
                          subst (λ s. Described env s new) (sym is_new)
                            (Described-drop env (length recorded) stats contents described)))
                        (omega arith) (subst (All StatFits) (sym whole) stats_fit)
                        (subst (Fitting env) (sym kept) fitting) k.sized clean in
                    (
                      files',
                      rw (stat, freshen, read, stale, grown) refresh,
                      move files' (recorded ++ new_srcs) stats (k.old ++ new) contents whole kept
                          current',
                    )
              ]
            ]
      ]

  -- EnsureFresh on one to 65535 existing sources, where the heap and the sort of the library
  -- behave as documented and nothing is cancelled, the paths, sizes, times and entries fit
  -- their widths, lines are shorter than 2^31 bytes, a file of all the entries is shorter than
  -- 2^64 bytes, the filter's formulas give sizes that fit, and no filter of an earlier build is
  -- left behind by a build without one; the files on disk have no readable source list, or are
  -- up to date with recorded sources of which a source with its recorded size and time has its
  -- content unchanged: it succeeds, and on the index that it opens Get of the empty key is an
  -- error, and Get of every other key returns the last line with that key, in the order of the
  -- sources and of their lines, or the not-found error if there is none.
  pub ensure_fresh-Answers :
      (works : Works env) (paths contents : List (List ℕ)) (files : Files) (o : SortedIndexOptions)
      → Stands env paths contents
      → 0 < length paths
      → length paths ≤ 65535
      → All (SourceFits env) paths
      → Fitting env contents
      → Sized env (length (all_entries env.key_func 0 contents))
      → (o.no_bloom ≡ false) ⊎ (files.bloom_file ≡ none)
      → ((line : List ℕ) → In line (all_lines contents) → length line < 2 ^ 31)
      → Disk files contents
      → (files' : Files) × (si : SortedIndex) × (ensure_fresh env paths files o ≡ ok (files', si))
        × Answers env si contents
  unfolding ensure_fresh
  ensure_fresh-Answers works paths contents files o stands some_source few sources fitting sized
        clean short disk =
      let (stats, stat, stats_fit, many, opened, described) =
        stat_sources-Stands env paths contents stands sources in
      let (files', work, c) =
        freshen-Current works paths contents files o stats stands some_source few stat stats_fit
          many described fitting sized clean disk in
      let (si, run, answers) =
        Current-open env files' stats contents c opened
          (omega (arith, length-Stands env paths contents stands)) short in
      (files', si, rw (work, run) refl, answers)

  -- EnsureFresh on existing sources, fewer than 2^64 and with paths, sizes and times that fit
  -- their widths, where the recorded source list is that of the sources as they are and the
  -- index file is missing: it returns an error and does not build the index.
  pub ensure_fresh_missing :
      (paths contents : List (List ℕ)) (files : Files) (o : SortedIndexOptions)
      (stats : List SourceStat)
      → Stands env paths contents
      → All (SourceFits env) paths
      → length paths < 2 ^ 64
      → stat_sources env paths ≡ ok stats
      → files.sources_file ≡ some (write_sources_file stats)
      → files.sidx_file ≡ none
      → ensure_fresh env paths files o ≡ err (message "kv: open sidx")
  unfolding ensure_fresh freshen sources_match open_sorted_index
  ensure_fresh_missing paths contents files o stats stands sources few stat recorded gone =
      let (stats', stat', stats_fit, many, opened, _) =
        stat_sources-Stands env paths contents stands sources in
      let stat'' : ok stats' ≡ ok stats = sym stat' ∙ stat in
      let same : stats' ≡ stats = cc in
      let fit = subst (All StatFits) same stats_fit in
      let opened' = rw same at opened in
      let read = read_sources_file-write stats (omega (arith, ap (λ t. length t) same)) fit in
      let size = (==_iff (length stats) (length stats)).1 refl in
      rw (stat, recorded, read, size, same_stats_refl stats)
        (rw (open_sorted_index, recorded, read, opened', gone) refl)
