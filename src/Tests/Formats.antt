-- ===== src/Tests/Formats.antt =====
-- The files of the sorted index at concrete inputs.
use in_memory_db.Base.{
  ◌+◌, ℕ, zero, suc, length, ◌<◌, ◌*◌, foldl, true, ◌≡◌, refl, List, [], ◌∷◌, ◌++◌, some, ok, arith,
}
use in_memory_db.Bytes.Reader.{write_many}
use in_memory_db.SortedIndex.Format.Entries.{
  SortEntry, Fits, write_sidx_entry, read_sidx_entry, write_run_entry, next_run_entry,
  next_run_entry-write, read_to_eof,
}
use in_memory_db.SortedIndex.Format.Sidx.{
  assemble_sidx, verify_sidx_header, verify_sidx_checksum, entries_region, sidx_file_round_trip,
}
use in_memory_db.SortedIndex.Format.Sparse.{
  SparseEntry, write_sparse_file, read_sparse_file, read_sparse_file-write,
}
use in_memory_db.SortedIndex.Format.Sources.{
  SourceStat, write_sources_file, read_sources_file, read_sources_file-write,
}
use in_memory_db.SortedIndex.Format.BloomFile.{
  BloomFilter, write_bloom_file, read_bloom_file, read_bloom_file-write,
}
use in_memory_db.SortedIndex.Bloom.{byte_of, add, may_contain}
use in_memory_db.SortedIndex.Bloom.Negatives.{may_contain-add}

abbrev entry : SortEntry
entry = record { key = 97 ∷ 98 ∷ []; file_idx = 1; src_off = 300; len = 12 }

entry-Fits : Fits entry
entry-Fits = record {
  key = omega arith;
  file_idx = omega arith;
  src_off = omega arith;
  len = omega arith;
}

next_run_entry-write_example :
    next_run_entry (write_run_entry entry ++ (7 ∷ [])) ≡ ok (entry, 7 ∷ [])
next_run_entry-write_example = next_run_entry-write entry (7 ∷ []) entry-Fits

sidx_file_round_trip_example :
    let file = assemble_sidx 2 (write_many write_sidx_entry (entry ∷ entry ∷ [])) in
    (verify_sidx_header file ≡ ok 2)
    × (verify_sidx_checksum file ≡ ok tt)
    × (read_to_eof read_sidx_entry 3 (entries_region file) ≡ ok (entry ∷ entry ∷ []))
sidx_file_round_trip_example =
    sidx_file_round_trip (entry ∷ entry ∷ []) 3 (omega arith) (omega arith)
      (entry-Fits, (entry-Fits, tt))

abbrev sparse : List SparseEntry
sparse = record { key = 97 ∷ []; offset = 24 } ∷ []

read_sparse_file-write_example : read_sparse_file (some (write_sparse_file sparse)) ≡ ok sparse
read_sparse_file-write_example =
    read_sparse_file-write sparse (omega arith) ((omega arith, omega arith), tt)

abbrev sources : List SourceStat
sources = record { path = 47 ∷ 97 ∷ []; size = 10; mod_time = 1000 } ∷ []

read_sources_file-write_example : read_sources_file (some (write_sources_file sources)) ≡ ok sources
read_sources_file-write_example =
    read_sources_file-write sources (omega arith) ((omega arith, omega arith, omega arith), tt)

abbrev filter : BloomFilter
filter = record { bits = 5 ∷ 0 ∷ []; m = 16; k = 2 }

read_bloom_file-write_example : read_bloom_file (some (write_bloom_file filter)) ≡ ok (some filter)
read_bloom_file-write_example = read_bloom_file-write filter (omega arith) (omega arith) refl

-- Stand-ins for the two hash functions.
abbrev hash_a : List ℕ → ℕ
hash_a key = length key + 7

abbrev hash_b : List ℕ → ℕ
hash_b key = length key * 3

abbrev clear_filter : BloomFilter
clear_filter = record { bits = 0 ∷ 0 ∷ []; m = 16; k = 3 }

clear_bytes : (n : ℕ) → byte_of (0 ∷ 0 ∷ []) n < 256
unfolding byte_of
clear_bytes zero = omega arith
clear_bytes (suc zero) = omega arith
clear_bytes (suc (suc n)) = omega arith

may_contain-add_example :
    may_contain hash_a hash_b
      (foldl (add hash_a hash_b) clear_filter ((1 ∷ []) ∷ (2 ∷ 3 ∷ []) ∷ (4 ∷ []) ∷ []))
      (2 ∷ 3 ∷ [])
    ≡ true
may_contain-add_example =
    may_contain-add hash_a hash_b clear_filter ((1 ∷ []) ∷ []) (2 ∷ 3 ∷ []) ((4 ∷ []) ∷ [])
      (omega arith) (record { bytes = clear_bytes; sized = refl })
