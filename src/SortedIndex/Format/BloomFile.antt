-- ===== src/SortedIndex/Format/BloomFile.antt =====
-- The `.bloom` sidecar (bloom.go). A write is the content of the finished file; a read takes the
-- content, or `none` where the file does not exist, which is no error.
use in_memory_db.Base.{
  ℕ, ◌+◌, ◌/◌, ◌%◌, ◌<◌, ◌^◌, ◌≡◌, List, [], ◌∷◌, ◌++◌, append_assoc, arith, length, Result, ok,
  ◌>>=◌, ◌>>◌, message, Option, none, some,
}
use in_memory_db.SortedIndex.Format.Entries.{sidx_version}
use in_memory_db.Bytes.Words.{put_uint32, put_uint64}
use in_memory_db.Bytes.Reader.{
  read_full, read_uint32, read_uint64, read_full-append, read_uint32-put, read_uint64-put,
}
use in_memory_db.Bytes.Frame.{
  expect_magic, expect_magic-append, sealed, verify_trailer, verify_trailer-sealed,
}

-- "KVBF"
abbrev bloom_magic : List ℕ
bloom_magic = 0x4B ∷ 0x56 ∷ 0x42 ∷ 0x46 ∷ []

-- `m` bits, packed in bytes, and `k` probes for each key.
pub record BloomFilter : Type 0 where
  pub bits : List ℕ
  pub m : ℕ
  pub k : ℕ

unfoldable pub write_bloom_file : BloomFilter → List ℕ
write_bloom_file b =
    sealed
      (bloom_magic ++ (put_uint32 sidx_version ++ (put_uint64 b.m ++ (put_uint64 b.k ++ b.bits))))

unfoldable pub read_bloom_file : Option (List ℕ) → Result (Option BloomFilter)
read_bloom_file none = ok none
read_bloom_file (some bs) = do
  verify_trailer (message "kv: bloom: truncated") (message "kv: bloom: checksum mismatch") bs
  (_, bs₁) ← expect_magic bloom_magic (message "kv: bloom: bad magic") bs
  (_, bs₂) ← read_uint32 bs₁
  (m, bs₃) ← read_uint64 bs₂
  (k, bs₄) ← read_uint64 bs₃
  (bits, _) ← read_full ((m + 7) % 2 ^ 64 / 8) bs₄
  ok (some (record { bits = bits; m = m; k = k }))

-- The filter read back from its file is the one that was written, if its numbers fit 64 bits and
-- it has as many bytes as its bits need.
pub read_bloom_file-write :
    (b : BloomFilter)
    → b.m < 2 ^ 64
    → b.k < 2 ^ 64
    → length b.bits ≡ (b.m + 7) % 2 ^ 64 / 8
    → read_bloom_file (some (write_bloom_file b)) ≡ ok (some b)
unfolding read_bloom_file write_bloom_file
read_bloom_file-write b hm hk sized = rw (verify_trailer-sealed _ _ _) (
    unfold sealed in
    simp append_assoc (
      rw (
        expect_magic-append bloom_magic _ _,
        read_uint32-put sidx_version _ (omega arith),
        read_uint64-put b.m _ hm,
        read_uint64-put b.k _ hk,
        read_full-append ((b.m + 7) % 2 ^ 64 / 8) b.bits _ sized,
      )))
