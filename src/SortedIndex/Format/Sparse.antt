-- ===== src/SortedIndex/Format/Sparse.antt =====
-- The `.sparse` sidecar: writeSparseFile in sortedindex_build.go, readSparseFile in sortedindex.go. A
-- write is the content of the finished file; a read takes the content, or `none` where the file
-- cannot be opened.
use in_memory_db.Base.{
  ℕ, ◌<◌, ◌^◌, ◌≡◌, refl, List, [], ◌∷◌, ◌++◌, append_assoc, arith, length, Result, ok, err, ◌>>=◌,
  ◌>>◌, message, Option, none, some,
}
use in_memory_db.SortedIndex.Format.Entries.{sidx_version}
use in_memory_db.Bytes.Words.{put_uint16, put_uint32, put_uint64}
use in_memory_db.Bytes.Reader.{
  Reader, read_full, read_uint16, read_uint32, read_uint64, read_full-append, read_uint16-put,
  read_uint32-put, read_uint64-put, read_many, write_many, read_many-write_many, All,
}
use in_memory_db.Bytes.Frame.{
  expect_magic, expect_magic-append, sealed, verify_trailer, verify_trailer-sealed,
}

-- "KVSP"
abbrev sparse_magic : List ℕ
sparse_magic = 0x4B ∷ 0x56 ∷ 0x53 ∷ 0x50 ∷ []

pub record SparseEntry : Type 0 where
  pub key : List ℕ
  pub offset : ℕ

abbrev pub SparseFits : SparseEntry → Type 0
SparseFits e = (length e.key < 2 ^ 16) × (e.offset < 2 ^ 64)

unfoldable pub write_sparse_entry : SparseEntry → List ℕ
write_sparse_entry e = put_uint16 (length e.key) ++ (e.key ++ put_uint64 e.offset)

unfoldable pub read_sparse_entry : Reader SparseEntry
read_sparse_entry bs = do
  (key_len, bs₁) ← read_uint16 bs
  (key, bs₂) ← read_full key_len bs₁
  (off, rest) ← read_uint64 bs₂
  ok (record { key = key; offset = off }, rest)

read_sparse_entry-write :
    (e : SparseEntry) (rest : List ℕ)
    → SparseFits e
    → read_sparse_entry (write_sparse_entry e ++ rest) ≡ ok (e, rest)
unfolding read_sparse_entry write_sparse_entry
read_sparse_entry-write e rest h = simp append_assoc (
    rw (
      read_uint16-put (length e.key) _ h.0,
      read_full-append (length e.key) e.key _ refl,
      read_uint64-put e.offset rest h.1,
    ))

unfoldable pub write_sparse_file : List SparseEntry → List ℕ
write_sparse_file sparse = sealed (
    sparse_magic
    ++ (put_uint32 sidx_version
        ++ (put_uint64 (length sparse) ++ write_many write_sparse_entry sparse)))

unfoldable pub read_sparse_file : Option (List ℕ) → Result (List SparseEntry)
read_sparse_file none = err (message "kv: open sparse")
read_sparse_file (some bs) = do
  verify_trailer (message "kv: sparse: truncated") (message "kv: sparse: checksum mismatch") bs
  (_, bs₁) ← expect_magic sparse_magic (message "kv: sparse: bad magic") bs
  (_, bs₂) ← read_uint32 bs₁
  (count, bs₃) ← read_uint64 bs₂
  (out, _) ← read_many read_sparse_entry count bs₃
  ok out

-- The sparse directory read back from its file is the one that was written, if it has fewer than
-- 2^64 entries and their fields fit their widths.
pub read_sparse_file-write :
    (sparse : List SparseEntry)
    → length sparse < 2 ^ 64
    → All SparseFits sparse
    → read_sparse_file (some (write_sparse_file sparse)) ≡ ok sparse
unfolding read_sparse_file write_sparse_file
read_sparse_file-write sparse short h = rw (verify_trailer-sealed _ _ _) (
    unfold sealed in
    simp append_assoc (
      rw (
        expect_magic-append sparse_magic _ _,
        read_uint32-put sidx_version _ (omega arith),
        read_uint64-put (length sparse) _ short,
        read_many-write_many SparseFits write_sparse_entry read_sparse_entry read_sparse_entry-write
            sparse _ h,
      )))
