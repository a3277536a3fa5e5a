-- ===== src/SortedIndex/Format/Sources.antt =====
-- The `.sources` sidecar (sortedindex_sources.go): the source list with the size and the modification
-- time of each file, and the tests that compare two such lists. A path is its bytes, an `int64` its
-- bit pattern. A write is the content of the finished file; a read takes the content, or `none`
-- where the file cannot be opened.
use in_memory_db.Base.{
  ℕ, ◌<◌, ◌^◌, ◌≡◌, refl, List, [], ◌∷◌, ◌++◌, append_assoc, arith, length, Result, ok, err, ◌>>=◌,
  ◌>>◌, message, Option, none, some, Bool, true, false, ◌&&◌, ◌==◌, if◌then◌else◌, bytes_equal, leb,
  drop,
}
use in_memory_db.SortedIndex.Format.Entries.{sidx_version}
use in_memory_db.Bytes.Words.{put_uint16, put_uint32, put_uint64}
use in_memory_db.Bytes.Reader.{
  Reader, read_full, read_uint16, read_uint32, read_uint64, read_full-append, read_uint16-put,
  read_uint32-put, read_uint64-put, read_many, write_many, read_many-write_many, All,
}
use in_memory_db.Bytes.Frame.{
  expect_magic, expect_magic-append, sealed, verify_trailer, verify_trailer-sealed,
}

-- "KVSS"
abbrev sources_magic : List ℕ
sources_magic = 0x4B ∷ 0x56 ∷ 0x53 ∷ 0x53 ∷ []

pub record SourceStat : Type 0 where
  pub path : List ℕ
  pub size : ℕ
  pub mod_time : ℕ

-- The comparison of two records of a file.
unfoldable pub same_stat : SourceStat → SourceStat → Bool
same_stat a b = bytes_equal a.path b.path && ((a.size == b.size) && (a.mod_time == b.mod_time))

-- The loops over the first list; the second one is not shorter.
unfoldable pub same_stats : List SourceStat → List SourceStat → Bool
unfolding same_stat
same_stats [] current = true
same_stats (r ∷ recorded) [] = false
same_stats (r ∷ recorded) (c ∷ current) = same_stat c r && same_stats recorded current

unfoldable pub sources_match : List SourceStat → List SourceStat → Bool
unfolding same_stats
sources_match a b = (length a == length b) && same_stats a b

unfoldable pub incremental_eligible : List SourceStat → List SourceStat → Option (List SourceStat)
unfolding same_stats
incremental_eligible recorded current =
    if leb (length current) (length recorded)
    then none
    else if same_stats recorded current
    then some (drop (length recorded) current)
    else none

abbrev pub StatFits : SourceStat → Type 0
StatFits s = (length s.path < 2 ^ 16) × (s.size < 2 ^ 64) × (s.mod_time < 2 ^ 64)

unfoldable pub write_source : SourceStat → List ℕ
write_source s =
    put_uint16 (length s.path) ++ (s.path ++ (put_uint64 s.size ++ put_uint64 s.mod_time))

unfoldable pub read_source : Reader SourceStat
read_source bs = do
  (path_len, bs₁) ← read_uint16 bs
  (path, bs₂) ← read_full path_len bs₁
  (size, bs₃) ← read_uint64 bs₂
  (mod_time, rest) ← read_uint64 bs₃
  ok (record { path = path; size = size; mod_time = mod_time }, rest)

read_source-write :
    (s : SourceStat) (rest : List ℕ)
    → StatFits s
    → read_source (write_source s ++ rest) ≡ ok (s, rest)
unfolding read_source write_source
read_source-write s rest h = simp append_assoc (
    rw (
      read_uint16-put (length s.path) _ h.0,
      read_full-append (length s.path) s.path _ refl,
      read_uint64-put s.size _ h.1,
      read_uint64-put s.mod_time rest h.2,
    ))

unfoldable pub write_sources_file : List SourceStat → List ℕ
write_sources_file stats = sealed (
    sources_magic
    ++ (put_uint32 sidx_version ++ (put_uint64 (length stats) ++ write_many write_source stats)))

unfoldable pub read_sources_file : Option (List ℕ) → Result (List SourceStat)
read_sources_file none = err (message "kv: open sources sidecar")
read_sources_file (some bs) = do
  verify_trailer (message "kv: sources: truncated") (message "kv: sources: checksum mismatch") bs
  (_, bs₁) ← expect_magic sources_magic (message "kv: sources: bad magic") bs
  (_, bs₂) ← read_uint32 bs₁
  (count, bs₃) ← read_uint64 bs₂
  (out, _) ← read_many read_source count bs₃
  ok out

-- The source list read back from its sidecar is the one that was recorded, if there are fewer
-- than 2^64 sources and their fields fit their widths.
pub read_sources_file-write :
    (stats : List SourceStat)
    → length stats < 2 ^ 64
    → All StatFits stats
    → read_sources_file (some (write_sources_file stats)) ≡ ok stats
unfolding read_sources_file write_sources_file
read_sources_file-write stats short h = rw (verify_trailer-sealed _ _ _) (
    unfold sealed in
    simp append_assoc (
      rw (
        expect_magic-append sources_magic _ _,
        read_uint32-put sidx_version _ (omega arith),
        read_uint64-put (length stats) _ short,
        read_many-write_many StatFits write_source read_source read_source-write stats _ h,
      )))
