-- ===== src/Bytes/Frame.antt =====
-- What the file formats share: a four-byte magic in front, and a CRC-32 of all that stands before it
-- at the end.
use in_memory_db.Base.{
  ℕ, ◌+◌, ◌-◌, ◌≡◌, refl, List, ◌++◌, arith, length, take, drop, take-append, drop-append,
  length-append, ltb, ◌==◌, ==_iff, bytes_equal, bytes_equal_refl, if◌then◌else◌, Result, ok, err,
  Error, le→ltb, false,
}
use in_memory_db.Bytes.Checksum.{checksum_ieee, checksum_ieee-lt}
use in_memory_db.Bytes.Words.{put_uint32, uint32, uint32-put_uint32, length-put_uint32}
use in_memory_db.Bytes.Reader.{Reader, read_full, read_full-append}

-- The magic, or one error for a short read and for other bytes.
unfoldable pub expect_magic : List ℕ → Error → Reader (Unit {0})
expect_magic magic e bs = elim (read_full (length magic) bs) [
  | err _ ↦ err e
  | ok (b, rest) ↦ if bytes_equal b magic then ok (tt, rest) else err e
]

pub expect_magic-append :
    (magic : List ℕ) (e : Error) (rest : List ℕ)
    → expect_magic magic e (magic ++ rest) ≡ ok (tt, rest)
unfolding expect_magic
expect_magic-append magic e rest =
    rw (read_full-append (length magic) magic rest refl, expect_magic, bytes_equal_refl magic)

-- The body with its checksum behind it.
unfoldable pub sealed : List ℕ → List ℕ
sealed body = body ++ put_uint32 (checksum_ieee body)

-- The first pass over a file: its size, then the checksum of all but the last four bytes.
unfoldable pub verify_trailer : Error → Error → List ℕ → Result (Unit {0})
verify_trailer truncated mismatch bs =
    let n = length bs - 4 in
    if ltb (length bs) 4
    then err truncated
    else if uint32 (drop n bs) == checksum_ieee (take n bs)
    then ok tt
    else err mismatch

-- A body with its checksum behind it passes the check of the trailer.
pub verify_trailer-sealed :
    (truncated mismatch : Error) (body : List ℕ)
    → verify_trailer truncated mismatch (sealed body) ≡ ok tt
unfolding verify_trailer sealed
verify_trailer-sealed truncated mismatch body =
    let crc = put_uint32 (checksum_ieee body) in
    let size : length (body ++ crc) ≡ length body + 4 =
      omega (arith, length-append body crc, length-put_uint32 (checksum_ieee body)) in
    let long : ltb (length (body ++ crc)) 4 ≡ false = le→ltb _ 4 (omega arith) in
    let cut : length (body ++ crc) - 4 ≡ length body = omega arith in
    rw (
      long,
      cut,
      drop-append (length body) body crc refl,
      take-append (length body) body crc refl,
      uint32-put_uint32 (checksum_ieee body) (checksum_ieee-lt body),
      (==_iff (checksum_ieee body) (checksum_ieee body)).1 refl,
    )
