-- ===== src/Tests/Sorted.antt =====
-- Merges, builds and lookups of a sorted index at concrete inputs.
use in_memory_db.Base.{
  ℕ, ◌+◌, ◌<◌, ◌^◌, ◌≡◌, refl, List, [], ◌∷◌, length, map, bytes_equal, ◌==◌, if◌then◌else◌, false,
  Option, none, some, ok, err, message, inl, inr, arith, subst,
}
use in_memory_db.Bytes.Reader.{write_many, All}
use in_memory_db.FileIndex.{KeyFunc, read_line, line_key}
use in_memory_db.Bytes.Words.{put_uint16, put_uint32, put_uint64}
use in_memory_db.SortedIndex.Format.Entries.{SortEntry, Fits, write_sidx_entry}
use in_memory_db.SortedIndex.Format.Sources.{
  SourceStat, StatFits, write_sources_file, read_sources_file,
}
use in_memory_db.SortedIndex.Merge.Pending.{In}
use in_memory_db.SortedIndex.Lookup.{SortedIndex, Files, open_sorted_index}
use in_memory_db.SortedIndex.Build.{
  SourceFile, BuildEnv, SortedIndexOptions, build_sorted_index, refresh_sorted_index, ensure_fresh,
  spill_sorted_runs, stat_sources, content_of,
}
use in_memory_db.SortedIndex.Build.Spill.{
  Stands, all_entries, concat, run_file, Bounded, SortedRun, spill_sorted_runs_lem,
}
use in_memory_db.SortedIndex.Build.Lines.{all_lines, last_line}
use in_memory_db.SortedIndex.Build.Runs.{Works}
use in_memory_db.SortedIndex.Build.State.{SourceFits, Sized, Fitting, Current, Answers}
use in_memory_db.SortedIndex.Build.Answers.{build_sorted_index-Current, build_sorted_index-Answers}
use in_memory_db.SortedIndex.Build.Refresh.{refresh_sorted_index-Current}
use in_memory_db.SortedIndex.Build.Fresh.{ensure_fresh-Answers, ensure_fresh_missing}
use in_memory_db.Tests.Heap.{pop_least, pop_least-HeapPops, insertion_sort, insertion_sort-Sorts}

-- Two sources, with the lines "a1" and "a2"; the first byte of a line is its key.
abbrev base : List ℕ
base = 97 ∷ 49 ∷ 10 ∷ []

abbrev change : List ℕ
change = 97 ∷ 50 ∷ 10 ∷ []

abbrev base_file : SourceFile
base_file = record { content = base; mod_time = 5 }

abbrev change_file : SourceFile
change_file = record { content = change; mod_time = 6 }

abbrev first_byte : KeyFunc
first_byte [] = none
first_byte (b ∷ line) = some (b ∷ [])

abbrev on_disk : List ℕ → Option SourceFile
on_disk [] = none
on_disk (p ∷ path) = if p == 1 then some base_file else if p == 2 then some change_file else none

abbrev env : BuildEnv
env = record {
  source_file = on_disk;
  key_func = first_byte;
  sort_slice = insertion_sort;
  merge = record {
    pop = pop_least;
    fnv64a = λ bs. length bs;
    crc64 = λ bs. length bs + 3;
    cancelled = λ n. false;
  };
  bits_for = λ n. 8;
  probes_for = λ m n. 2;
  cancelled = false;
  scan_cancelled = λ i n. false;
}

env-Works : Works env
env-Works = record {
  pops = pop_least-HeapPops;
  sorts = insertion_sort-Sorts;
  starts = refl;
  scans = λ i n. refl;
  merges = λ n. refl;
}

abbrev paths : List (List ℕ)
paths = (1 ∷ []) ∷ (2 ∷ []) ∷ []

abbrev contents : List (List ℕ)
contents = base ∷ change ∷ []

abbrev nothing : Files
nothing = record { sidx_file = none; sparse_file = none; bloom_file = none; sources_file = none }

abbrev options : SortedIndexOptions
options = record { chunk_entries = 1; sparse_interval = 1; no_bloom = false }

abbrev older : SortEntry
older = record { key = 97 ∷ []; file_idx = 0; src_off = 0; len = 2 }

abbrev newer : SortEntry
newer = record { key = 97 ∷ []; file_idx = 1; src_off = 0; len = 2 }

scanned : all_entries first_byte 0 contents ≡ older ∷ newer ∷ []
unfolding all_entries read_line line_key
scanned = refl

env-Stands : Stands env paths contents
env-Stands = ((base_file, refl, refl), ((change_file, refl, refl), tt))

fits_of :
    (f g : SourceFile)
    → length f.content < 2 ^ 64
    → f.mod_time < 2 ^ 64
    → some f ≡ some g
    → (length g.content < 2 ^ 64) × (g.mod_time < 2 ^ 64)
fits_of f g n t e =
    let same : f ≡ g = cc in
    subst (λ (x : SourceFile). (length x.content < 2 ^ 64) × (x.mod_time < 2 ^ 64)) same (n, t)

env-SourceFits : All (SourceFits env) paths
env-SourceFits = (
  (omega arith, λ g e. fits_of base_file g (omega arith) (omega arith) e),
  ((omega arith, λ g e. fits_of change_file g (omega arith) (omega arith) e), tt),
)

entry-Fits :
    (i : ℕ) → i < 2 ^ 16 → Fits (record { key = 97 ∷ []; file_idx = i; src_off = 0; len = 2 })
entry-Fits i small = record {
  key = omega arith;
  file_idx = small;
  src_off = omega arith;
  len = omega arith;
}

env-Fitting : Fitting env contents
unfolding all_entries read_line line_key write_many write_sidx_entry put_uint16 put_uint32
    put_uint64
env-Fitting = record {
  entries = λ z m. elim m [
    | inl eq ↦ rw eq (entry-Fits 0 (omega arith))
    | inr (inl eq) ↦ rw eq (entry-Fits 1 (omega arith))
    | inr (inr gone) ↦ absurd gone
  ];
  room = omega arith;
}

env-Sized : (n : ℕ) → Sized env n
env-Sized n = (omega arith, omega arith)

line_short : (l line : List ℕ) → length l < 2 ^ 31 → line ≡ l → length line < 2 ^ 31
line_short l line short eq = rw eq short

contents-short : (line : List ℕ) → In line (all_lines contents) → length line < 2 ^ 31
unfolding all_lines read_line
contents-short line (inl eq) = line_short (97 ∷ 49 ∷ []) line (omega arith) eq
contents-short line (inr (inl eq)) = line_short [] line (omega arith) eq
contents-short line (inr (inr (inl eq))) = line_short (97 ∷ 50 ∷ []) line (omega arith) eq
contents-short line (inr (inr (inr (inl eq)))) = line_short [] line (omega arith) eq
contents-short line (inr (inr (inr (inr gone)))) = absurd gone

build_sorted_index-Answers_example :
    (files' : Files) × (si : SortedIndex) × (build_sorted_index env paths nothing options
      ≡ ok files')
    × (open_sorted_index (content_of env) files' ≡ ok si)
    × Answers env si contents
build_sorted_index-Answers_example =
    build_sorted_index-Answers env env-Works paths contents nothing options env-Stands (omega arith)
      (omega arith) env-SourceFits env-Fitting
      (env-Sized (length (all_entries first_byte 0 contents))) (inl refl) contents-short

-- The later file has the say.
answer : last_line first_byte (all_lines contents) (97 ∷ []) ≡ some (97 ∷ 50 ∷ [])
unfolding last_line all_lines read_line line_key bytes_equal
answer = refl

no_sources : read_sources_file none ≡ err (message "kv: open sources sidecar")
unfolding read_sources_file
no_sources = refl

ensure_fresh-Answers_example :
    (files' : Files) × (si : SortedIndex) × (ensure_fresh env paths nothing options
      ≡ ok (files', si))
    × Answers env si contents
ensure_fresh-Answers_example =
    ensure_fresh-Answers env env-Works paths contents nothing options env-Stands (omega arith)
      (omega arith) env-SourceFits env-Fitting
      (env-Sized (length (all_entries first_byte 0 contents))) (inl refl) contents-short
      (inl (message "kv: open sources sidecar", no_sources))

spill_sorted_runs_lem_example :
    (chunks : List (List SortEntry)) × (spill_sorted_runs env 1 0 paths
      ≡ ok (map (run_file env 1) chunks, length (all_entries first_byte 0 contents)))
    × (concat chunks ≡ all_entries first_byte 0 contents)
    × All (Bounded env 1) chunks
    × All (SortedRun env 1) chunks
spill_sorted_runs_lem_example =
    spill_sorted_runs_lem env 1 env-Works.scans env-Works.sorts paths contents 0 env-Stands
      (omega arith)

-- An index whose source list is there and whose own file is not.
abbrev stats : List SourceStat
stats =
    record { path = 1 ∷ []; size = 3; mod_time = 5 }
    ∷ record { path = 2 ∷ []; size = 3; mod_time = 6 }
    ∷ []

stats_on_disk : stat_sources env paths ≡ ok stats
unfolding stat_sources
stats_on_disk = refl

abbrev only_list : Files
only_list = record nothing { sources_file = some (write_sources_file stats) }

ensure_fresh_missing_example :
    ensure_fresh env paths only_list options ≡ err (message "kv: open sidx")
ensure_fresh_missing_example =
    ensure_fresh_missing env paths contents only_list options stats env-Stands env-SourceFits
      (omega arith) stats_on_disk refl refl

-- A build of the first source alone, and then the second one behind it.
abbrev recorded : List SourceStat
recorded = record { path = 1 ∷ []; size = 3; mod_time = 5 } ∷ []

abbrev added : List SourceStat
added = record { path = 2 ∷ []; size = 3; mod_time = 6 } ∷ []

recorded_on_disk : stat_sources env ((1 ∷ []) ∷ []) ≡ ok recorded
unfolding stat_sources
recorded_on_disk = refl

base-Fitting : Fitting env (base ∷ [])
unfolding all_entries read_line line_key write_many write_sidx_entry put_uint16 put_uint32
    put_uint64
base-Fitting = record {
  entries = λ z m. elim m [ inl eq ↦ rw eq (entry-Fits 0 (omega arith)) | inr gone ↦ absurd gone ];
  room = omega arith;
}

stats-Fit : All StatFits stats
stats-Fit = ((omega arith, omega arith, omega arith), ((omega arith, omega arith, omega arith), tt))

first_build :
    (files : Files) × (build_sorted_index env ((1 ∷ []) ∷ []) nothing options ≡ ok files)
    × Current env files recorded (base ∷ [])
first_build =
    build_sorted_index-Current env env-Works ((1 ∷ []) ∷ []) (base ∷ []) nothing options recorded
      ((base_file, refl, refl), tt) (omega arith) (omega arith) recorded_on_disk (stats-Fit.0, tt)
      refl base-Fitting (env-Sized (length (all_entries first_byte 0 (base ∷ [])))) (inl refl)

refresh_sorted_index-Current_example :
    (files' : Files) × (refresh_sorted_index env recorded added first_build.0 options ≡ ok files')
    × Current env files' stats contents
refresh_sorted_index-Current_example =
    refresh_sorted_index-Current env env-Works recorded added (base ∷ []) (change ∷ [])
      first_build.0 options first_build.2 refl ((change_file, refl, refl), tt) (omega arith)
      stats-Fit env-Fitting
      (env-Sized (length first_build.2.ws + length (all_entries first_byte 1 (change ∷ []))))
      (inl refl)
