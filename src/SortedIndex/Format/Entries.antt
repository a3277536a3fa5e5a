-- ===== src/SortedIndex/Format/Entries.antt =====
-- Entries of run files and of the sidx file: the writers of sortedindex_build.go and the readers of
-- sortedindex_build.go and sortedindex.go. An integer of Go is its bit pattern.
use in_memory_db.Base.{
  ℕ, zero, suc, ◌+◌, ◌<◌, ◌^◌, ◌≡◌, refl, List, [], ◌∷◌, ◌++◌, append_assoc, arith, length, take,
  drop, length-append, Result, ok, err, ◌>>=◌, eof, unexpected_eof,
}
use in_memory_db.Bytes.Words.{
  put_uint16, put_uint32, put_uint64, uint16, uint32, uint64, uint16-put_uint16, uint32-put_uint32,
  uint64-put_uint64,
}
use in_memory_db.Bytes.Reader.{
  Reader, read_full, read_uint16, read_uint32, read_uint64, read_full-append, read_uint16-put,
  read_uint32-put, read_uint64-put, write_many, All,
}

-- `sidxVersion`
abbrev pub sidx_version : ℕ
sidx_version = 1

-- `sortEntry`, and `sidxEntry`, which has the same fields.
pub record SortEntry : Type 0 where
  pub key : List ℕ
  pub file_idx : ℕ
  pub src_off : ℕ
  pub len : ℕ

-- The values that the fixed widths hold.
pub record Fits (e : SortEntry) : Type 0 where
  pub key : length e.key < 2 ^ 16
  pub file_idx : e.file_idx < 2 ^ 16
  pub src_off : e.src_off < 2 ^ 64
  pub len : e.len < 2 ^ 32

unfoldable pub write_sidx_entry : SortEntry → List ℕ
write_sidx_entry e =
    put_uint16 (length e.key)
    ++ (e.key ++ (put_uint16 e.file_idx ++ (put_uint64 e.src_off ++ put_uint32 e.len)))

unfoldable pub read_sidx_entry : Reader SortEntry
read_sidx_entry bs = do
  (key_len, bs₁) ← read_uint16 bs
  (key, bs₂) ← read_full key_len bs₁
  (file_idx, bs₃) ← read_uint16 bs₂
  (src_off, bs₄) ← read_uint64 bs₃
  (length', rest) ← read_uint32 bs₄
  ok (record { key = key; file_idx = file_idx; src_off = src_off; len = length' }, rest)

pub read_sidx_entry-write :
    (e : SortEntry) (rest : List ℕ)
    → Fits e
    → read_sidx_entry (write_sidx_entry e ++ rest) ≡ ok (e, rest)
unfolding read_sidx_entry write_sidx_entry
read_sidx_entry-write e rest h = simp append_assoc (
    rw (
      read_uint16-put (length e.key) _ h.key,
      read_full-append (length e.key) e.key _ refl,
      read_uint16-put e.file_idx _ h.file_idx,
      read_uint64-put e.src_off _ h.src_off,
      read_uint32-put e.len rest h.len,
    ))

-- A run entry: a fixed header of sixteen bytes, then the key.
unfoldable pub write_run_entry : SortEntry → List ℕ
write_run_entry e =
    (put_uint16 (length e.key)
      ++ (put_uint16 e.file_idx ++ (put_uint64 e.src_off ++ put_uint32 e.len)))
    ++ e.key

-- `runReader.next`
unfoldable pub next_run_entry : Reader SortEntry
next_run_entry bs = do
  (hdr, more) ← read_full 16 bs
  let key_len = uint16 (take 2 hdr)
  (key, rest) ← read_full key_len more
  ok (
    record {
      key = key;
      file_idx = uint16 (take 2 (drop 2 hdr));
      src_off = uint64 (take 8 (drop 4 hdr));
      len = uint32 (take 4 (drop 12 hdr));
    },
    rest,
  )

header_slices :
    (a b c d : ℕ)
    → let hdr = put_uint16 a ++ (put_uint16 b ++ (put_uint64 c ++ put_uint32 d)) in
      (length hdr ≡ 16)
      × (take 2 hdr ≡ put_uint16 a)
      × (take 2 (drop 2 hdr) ≡ put_uint16 b)
      × (take 8 (drop 4 hdr) ≡ put_uint64 c)
      × (take 4 (drop 12 hdr) ≡ put_uint32 d)
unfolding put_uint16 put_uint64 put_uint32
header_slices a b c d = (refl, refl, refl, refl, refl)

-- An entry whose fields fit their widths is read back from a run as it was written, and the bytes
-- behind it are left.
pub next_run_entry-write :
    (e : SortEntry) (rest : List ℕ)
    → Fits e
    → next_run_entry (write_run_entry e ++ rest) ≡ ok (e, rest)
unfolding next_run_entry write_run_entry
next_run_entry-write e rest h =
    let (size, at_key, at_file, at_off, at_len) =
      header_slices (length e.key) e.file_idx e.src_off e.len in
    rw (
      append_assoc
          (put_uint16 (length e.key)
            ++ (put_uint16 e.file_idx ++ (put_uint64 e.src_off ++ put_uint32 e.len)))
          e.key rest,
      read_full-append 16 _ (e.key ++ rest) size,
      at_key,
      at_file,
      at_off,
      at_len,
      uint16-put_uint16 (length e.key) h.key,
      read_full-append (length e.key) e.key rest refl,
      uint16-put_uint16 e.file_idx h.file_idx,
      uint64-put_uint64 e.src_off h.src_off,
      uint32-put_uint32 e.len h.len,
    )

-- An entry stream read to its end: `io.EOF` between entries ends it, any other error is passed on.
-- Each entry takes at least one byte, so the number of bytes is fuel enough.
unfoldable pub read_to_eof : Reader SortEntry → ℕ → List ℕ → Result (List SortEntry)
read_to_eof read zero bs = err unexpected_eof
read_to_eof read (suc fuel) bs = elim (read bs) [
  | err eof ↦ ok []
  | err e ↦ err e
  | ok (e, rest) ↦ do es ← read_to_eof read fuel rest; ok (e ∷ es)
]

pub read_to_eof-write :
    (write : SortEntry → List ℕ) (read : Reader SortEntry)
    → read [] ≡ err eof
    → ((e : SortEntry) (rest : List ℕ) → Fits e → read (write e ++ rest) ≡ ok (e, rest))
    → (es : List SortEntry) (fuel : ℕ) → length es < fuel
    → All Fits es
    → read_to_eof read fuel (write_many write es) ≡ ok es
unfolding read_to_eof write_many
read_to_eof-write write read done inverse es zero short h = absurd (omega arith)
read_to_eof-write write read done inverse [] (suc fuel) short h = rw (done, read_to_eof)
read_to_eof-write write read done inverse (e ∷ es) (suc fuel) short h = rw (
  inverse e (write_many write es) h.0,
  read_to_eof,
  read_to_eof-write write read done inverse es fuel (omega arith) h.1,
)

pub next_run_entry-nil : next_run_entry [] ≡ err eof
unfolding next_run_entry read_full
next_run_entry-nil = refl

pub read_sidx_entry-nil : read_sidx_entry [] ≡ err eof
unfolding read_sidx_entry read_uint16
read_sidx_entry-nil = refl

pub length-write_run_entry : (e : SortEntry) → length (write_run_entry e) ≡ 16 + length e.key
unfolding write_run_entry
length-write_run_entry e = omega (
  arith,
  length-append
      (put_uint16 (length e.key)
        ++ (put_uint16 e.file_idx ++ (put_uint64 e.src_off ++ put_uint32 e.len)))
      e.key,
  (header_slices (length e.key) e.file_idx e.src_off e.len).0,
)
