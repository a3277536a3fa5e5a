-- ===== src/Tests/Lookups.antt =====
-- A merge of two inputs, and lookups in an open index, at concrete inputs.
use in_memory_db.Base.{
  ℕ, zero, suc, ◌+◌, ◌-◌, ◌≡◌, refl, sym, List, [], ◌∷◌, length, map, take, drop, get_elem?,
  is_some, bytes_equal, true, false, none, some, ok, inl, inr, arith, subst,
}
use in_memory_db.Base.ByteOrder.{bytes_lt}
use in_memory_db.Bytes.Words.{put_uint16, put_uint32, put_uint64, uint16}
use in_memory_db.Bytes.Reader.{read_full, read_uint16, read_uint32, read_uint64, write_many, All}
use in_memory_db.SortedIndex.Format.Entries.{
  SortEntry, Fits, write_sidx_entry, write_run_entry, next_run_entry, read_sidx_entry,
}
use in_memory_db.SortedIndex.Format.Sidx.{assemble_sidx}
use in_memory_db.SortedIndex.Merge.{MergeEnv, merge_runs}
use in_memory_db.SortedIndex.Merge.Pending.{In, Ascending}
use in_memory_db.SortedIndex.Merge.Start.{Among, AllAscending}
use in_memory_db.SortedIndex.Merge.Winners.{Chosen}
use in_memory_db.SortedIndex.Merge.Files.{
  Input, run_of, sidx_of, reader_of, entries_of, sample, files_of, merge_runs-Chosen,
}
use in_memory_db.SortedIndex.Lookup.{SortedIndex, get, has, prefix_all, source_line, ruled_out}
use in_memory_db.SortedIndex.Lookup.Scan.{
  Serves, Passes, find_key, found_line, get-find_key, has-find_key,
}
use in_memory_db.SortedIndex.Lookup.Prefixes.{matching, prefix_all-matching}
use in_memory_db.Tests.Heap.{pop_least, pop_least-HeapPops}

abbrev older : SortEntry
older = record { key = 97 ∷ []; file_idx = 0; src_off = 0; len = 2 }

abbrev newer : SortEntry
newer = record { key = 97 ∷ []; file_idx = 1; src_off = 0; len = 2 }

abbrev other : SortEntry
other = record { key = 98 ∷ []; file_idx = 1; src_off = 3; len = 2 }

abbrev env : MergeEnv
env = record {
  pop = pop_least;
  fnv64a = λ bs. length bs;
  crc64 = λ bs. length bs + 3;
  cancelled = λ n. false;
}

older-Fits : Fits older
older-Fits = record {
  key = omega arith;
  file_idx = omega arith;
  src_off = omega arith;
  len = omega arith;
}

newer-Fits : Fits newer
newer-Fits = record {
  key = omega arith;
  file_idx = omega arith;
  src_off = omega arith;
  len = omega arith;
}

other-Fits : Fits other
other-Fits = record {
  key = omega arith;
  file_idx = omega arith;
  src_off = omega arith;
  len = omega arith;
}

abbrev inputs : List Input
inputs = run_of (newer ∷ other ∷ []) ∷ sidx_of (older ∷ []) ∷ []

inputs-Fits : All (λ i. All Fits (entries_of i)) inputs
inputs-Fits = ((newer-Fits, (other-Fits, tt)), ((older-Fits, tt), tt))

newer_below : (z : SortEntry) → In z (other ∷ []) → bytes_lt z.key newer.key ≡ false
unfolding bytes_lt
newer_below z (inl eq) = rw eq refl
newer_below z (inr gone) = absurd gone

inputs-AllAscending : AllAscending (map entries_of inputs)
inputs-AllAscending zero es at_ =
    let eq : newer ∷ other ∷ [] ≡ es = cc in subst Ascending eq (newer_below, (λ z m. absurd m, tt))
inputs-AllAscending (suc zero) es at_ =
    let eq : older ∷ [] ≡ es = cc in subst Ascending eq (λ z m. absurd m, tt)
inputs-AllAscending (suc (suc k)) es at_ = absurd (cc)

merge_runs-Chosen_example :
    (ws : List SortEntry) × (merge_runs env (map reader_of inputs) 2 none
      ≡ ok (files_of env 2 none ws))
    × Chosen ws (λ z. Among z (map entries_of inputs))
merge_runs-Chosen_example =
    merge_runs-Chosen env pop_least-HeapPops (λ n. refl) inputs 2 none inputs-Fits
      inputs-AllAscending

-- The entry of the later file is kept.
merged :
    merge_runs env (map reader_of inputs) 2 none ≡ ok (files_of env 2 none (newer ∷ other ∷ []))
unfolding merge_runs reader_of files_of pop_least next_run_entry read_full write_many
    write_run_entry put_uint16 put_uint64 put_uint32 uint16 read_sidx_entry read_uint16
    write_sidx_entry read_uint64 read_uint32 bytes_lt bytes_equal sample
merged = refl

abbrev ws : List SortEntry
ws = newer ∷ other ∷ []

abbrev index : SortedIndex
index =
    let content = assemble_sidx 2 (write_many write_sidx_entry ws) in
    record {
      source_paths = (1 ∷ []) ∷ (2 ∷ []) ∷ [];
      srcs = (97 ∷ 49 ∷ 10 ∷ []) ∷ (97 ∷ 50 ∷ 10 ∷ 98 ∷ 51 ∷ 10 ∷ []) ∷ [];
      sidx_content = content;
      entries_start = 16;
      entries_end = length content - 4;
      count = 2;
      sparse = sample 1 0 0 ws;
      bloom = none;
      is_closed = false;
    }

newer_before : (z : SortEntry) → In z (other ∷ []) → bytes_lt newer.key z.key ≡ true
unfolding bytes_lt
newer_before z (inl eq) = rw eq refl
newer_before z (inr gone) = absurd gone

index-Serves : Serves 1 ws index
index-Serves = record {
  ascending = (newer_before, (λ z m. absurd m, tt));
  fits = (newer-Fits, (other-Fits, tt));
  content = refl;
  start = refl;
  end_ = refl;
  samples = refl;
}

index-Passes : Passes env.fnv64a env.crc64 none ws
unfolding ruled_out
index-Passes e m = refl

get-find_key_example :
    get env.fnv64a env.crc64 index (97 ∷ []) ≡ found_line index (find_key ws (97 ∷ []))
get-find_key_example =
    get-find_key env.fnv64a env.crc64 1 ws index (97 ∷ []) index-Serves index-Passes refl
      (omega arith)

abbrev line_of : SortEntry → List ℕ
line_of e = elim (get_elem? index.srcs e.file_idx) [
  | none ↦ []
  | some content ↦ take e.len (drop e.src_off content)
]

readable : (e : SortEntry) → In e ws → source_line index e ≡ ok (line_of e)
unfolding source_line
readable e (inl eq) = subst (λ x. source_line index x ≡ ok (line_of x)) (sym eq) refl
readable e (inr (inl eq)) = subst (λ x. source_line index x ≡ ok (line_of x)) (sym eq) refl
readable e (inr (inr gone)) = absurd gone

has-find_key_example :
    has env.fnv64a env.crc64 index (98 ∷ []) ≡ ok (is_some (find_key ws (98 ∷ [])))
has-find_key_example =
    has-find_key env.fnv64a env.crc64 1 ws index (98 ∷ []) index-Serves index-Passes refl
      (omega arith) (λ e m. (line_of e, readable e m))

prefix_all-matching_example :
    prefix_all index (98 ∷ []) ≡ map (λ (e : SortEntry). (e.key, line_of e)) (matching ws (98 ∷ []))
prefix_all-matching_example =
    prefix_all-matching index (98 ∷ []) line_of 1 ws index-Serves refl readable
