-- ===== src/SortedIndex/Build/Refresh.antt =====
-- The incremental refresh: new sources behind the recorded ones.
use in_memory_db.Base.{
  ℕ, zero, suc, ◌+◌, ◌%◌, ◌^◌, ◌≤◌, ◌<◌, ◌≡◌, refl, sym, List, [], ◌∷◌, ◌++◌, append_assoc, map,
  length, length-append, get_elem?, true, false, leb, le→leb, none, some, ok, ◌⊎◌, inl, inr, ◌↔◌,
  arith, subst,
}
use in_memory_db.Base.ByteOrder.{bytes_lt_asymm}
use in_memory_db.Bytes.Reader.{write_many, All}
use in_memory_db.SortedIndex.Format.Entries.{SortEntry, Fits, write_sidx_entry}
use in_memory_db.SortedIndex.Format.Sidx.{
  verify_sidx_header-assemble, verify_sidx_checksum-assemble, entries_region-assemble,
}
use in_memory_db.SortedIndex.Format.Sources.{SourceStat, StatFits}
use in_memory_db.SortedIndex.Merge.Pending.{In, Ascending}
use in_memory_db.SortedIndex.Merge.Start.{Among, AllAscending}
use in_memory_db.SortedIndex.Merge.Winners.{Chosen, StrictlyAscending}
use in_memory_db.SortedIndex.Merge.Files.{sidx_of, files_of, reader_of, length-sidx_le}
use in_memory_db.SortedIndex.Lookup.{Files}
use in_memory_db.SortedIndex.Lookup.Floor.{In-append}
use in_memory_db.SortedIndex.Build.{
  BuildEnv, SortedIndexOptions, with_defaults, new_filter, replace_files, sidx_header_count,
  open_sidx_run_reader, refresh_sorted_index,
}
use in_memory_db.SortedIndex.Build.Spill.{Stands, entries_in, all_entries}
use in_memory_db.SortedIndex.Build.Runs.{
  Works, All-In, In-left, In-right, Chosen_iff, Chosen_again, merge_runs-spilled,
}
use in_memory_db.SortedIndex.Build.State.{Sized, Fitting, Fitting-room, filter_lem, Current}

StrictlyAscending→Ascending : (es : List SortEntry) → StrictlyAscending es → Ascending es
StrictlyAscending→Ascending [] asc = tt
StrictlyAscending→Ascending (e ∷ es) (below, asc) =
    (λ z m. bytes_lt_asymm e.key z.key (below z m), StrictlyAscending→Ascending es asc)

all_entries-append :
    (env : BuildEnv) (base : ℕ) (old new : List (List ℕ))
    → all_entries env.key_func base (old ++ new)
      ≡ all_entries env.key_func base old ++ all_entries env.key_func (base + length old) new
unfolding all_entries
all_entries-append env base [] new = let e : base + 0 ≡ base = omega arith in rw e refl
all_entries-append env base (c ∷ old) new =
    let e : base + 1 + length old ≡ base + suc (length old) = omega arith in
    rw (all_entries-append env (base + 1) old new, e)
      (sym (
        append_assoc (entries_in env.key_func (length c + 1) (base % 2 ^ 16) c 0)
          (all_entries env.key_func (base + 1) old)
          (all_entries env.key_func (base + suc (length old)) new)))

-- Among one list.
Among-one : (es : List SortEntry) (z : SortEntry) → Among z (es ∷ []) ↔ In z es
Among-one es z = (λ (k, fs, at_, m). one k fs at_ m, λ m. (zero, es, refl, m))
  where
    one : (k : ℕ) (fs : List SortEntry) → get_elem? (es ∷ []) k ≡ some fs → In z fs → In z es
    one zero fs at_ m = let eq : es ≡ fs = cc in subst (In z) (sym eq) m
    one (suc k) fs at_ m = absurd (cc)

one-AllAscending : (es : List SortEntry) → Ascending es → AllAscending (es ∷ [])
one-AllAscending es asc zero fs at_ = let eq : es ≡ fs = cc in subst Ascending eq asc
one-AllAscending es asc (suc k) fs at_ = absurd (cc)

In-append_iff : (xs ys : List SortEntry) (z : SortEntry) → (In z xs ⊎ In z ys) ↔ In z (xs ++ ys)
In-append_iff xs ys z =
    (λ m. elim m [ inl l ↦ In-left z xs ys l | inr r ↦ In-right z xs ys r ], In-append z xs ys)

right_iff : (A B C : Type 0) → B ↔ C → (A ⊎ B) ↔ (A ⊎ C)
right_iff A B C (f, g) = (
  λ m. elim m [ inl a ↦ inl a | inr b ↦ inr (f b) ],
  λ m. elim m [ inl a ↦ inl a | inr c ↦ inr (g c) ],
)

module _ (env : BuildEnv) (works : Works env) where
  -- A refresh of files that are up to date with their recorded sources, with new sources behind
  -- them, at most 65535 in all, where the heap and the sort of the library behave as documented
  -- and nothing is cancelled, all entries and source records fit their widths, a file of all
  -- the entries is shorter than 2^64 bytes, the filter's formulas give sizes that fit, and no
  -- filter of an earlier build is left behind by a build without one: it succeeds and leaves
  -- the files up to date with the recorded and the new sources together.
  pub refresh_sorted_index-Current :
      (recorded new_srcs : List SourceStat) (old new : List (List ℕ)) (files : Files)
      (o : SortedIndexOptions)
      → (c : Current env files recorded old) → length recorded ≡ length old
      → Stands env (map (λ (s : SourceStat). s.path) new_srcs) new
      → length recorded + length new_srcs ≤ 65535
      → All StatFits (recorded ++ new_srcs)
      → Fitting env (old ++ new)
      → Sized env (length c.ws + length (all_entries env.key_func (length recorded) new))
      → (o.no_bloom ≡ false) ⊎ (files.bloom_file ≡ none)
      → (files' : Files) × (refresh_sorted_index env recorded new_srcs files o ≡ ok files')
        × Current env files' (recorded ++ new_srcs) (old ++ new)
  unfolding refresh_sorted_index with_defaults replace_files files_of sidx_header_count
      open_sidx_run_reader reader_of
  refresh_sorted_index-Current recorded new_srcs old new files o c same_length stands few stats_fit
        fitting sized clean =
      let opts = with_defaults o in
      let body = write_many write_sidx_entry c.ws in
      let before = all_entries env.key_func 0 old in
      let added = all_entries env.key_func (length recorded) new in
      let n = length c.ws + length added in
      let pos : 0 < opts.chunk_entries = ground arith in
      let whole : all_entries env.key_func 0 (old ++ new) ≡ before ++ added =
        let start : 0 + length old ≡ length recorded = omega arith in
        rw start at (all_entries-append env 0 old new) in
      let room = c.room in
      let short : length c.ws < 2 ^ 64 = omega (arith, length-sidx_le c.ws) in
      let added_fit : (z : SortEntry) → In z added → Fits z =
        λ z m. fitting.entries z (rw whole (In-right z before added m)) in
      let (runs, ws, spilled, merged, chosen) =
        merge_runs-spilled env (map (λ (s : SourceStat). s.path) new_srcs) new (length recorded)
          opts.chunk_entries opts.sparse_interval (new_filter env o n) (sidx_of c.ws ∷ []) works
          stands pos added_fit (c.fits, tt)
          (one-AllAscending c.ws (StrictlyAscending→Ascending c.ws c.chosen.ascending)) in
      let ch : Chosen ws (λ z. In z (all_entries env.key_func 0 (old ++ new))) = rw whole (
        Chosen_iff ws (λ z. In z before ⊎ In z added) (λ z. In z (before ++ added))
          (In-append_iff before added)
          (Chosen_again c.ws ws (λ z. In z before) (λ z. In z added) c.chosen
            (Chosen_iff ws (λ z. In z added ⊎ Among z (c.ws ∷ [])) (λ z. In z added ⊎ In z c.ws)
              (λ z. right_iff (In z added) (Among z (c.ws ∷ [])) (In z c.ws) (Among-one c.ws z))
              chosen))) in
      let (b, filter, pass) =
        filter_lem env ws n opts.sparse_interval (recorded ++ new_srcs) files o sized clean in
      let few_all : leb (length recorded + length new_srcs) 65535 ≡ true = le→leb _ _ few in
      (
        replace_files env files (files_of env.merge opts.sparse_interval (new_filter env o n) ws)
            (recorded ++ new_srcs),
        simp (works.starts, few_all)
            (rw
              (
                spilled,
                c.sidx,
                verify_sidx_header-assemble (length c.ws) body short,
                verify_sidx_checksum-assemble (length c.ws) body,
                entries_region-assemble (length c.ws) body,
                merged,
              )
              refl),
        record {
          interval = opts.sparse_interval;
          ws = ws;
          filter = b;
          sources = refl;
          stats_fit = stats_fit;
          few = omega (arith, length-append recorded new_srcs);
          sidx = refl;
          sparse = refl;
          bloom = filter;
          passes = pass;
          chosen = ch;
          fits = All-In Fits ws (λ z m. fitting.entries z (ch.sound z m));
          room = Fitting-room env (old ++ new) ws fitting ch;
        },
      )
