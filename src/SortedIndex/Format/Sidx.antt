-- ===== src/SortedIndex/Format/Sidx.antt =====
-- The sidx file: its header and body as assembleSidx in sortedindex_build.go writes them, and the two
-- checks that OpenSortedIndex and openSidxRunReader make before they trust an entry.
use in_memory_db.Base.{
  ℕ, ◌+◌, ◌-◌, ◌<◌, ◌^◌, ◌≡◌, refl, List, [], ◌∷◌, ◌++◌, append_assoc, arith, length, Result, ok,
  err, ◌>>=◌, message, take, drop, take-append, drop-append, length-append, ltb, le→ltb, ◌==◌,
  ==_iff, if◌then◌else◌, false,
}
use in_memory_db.SortedIndex.Format.Entries.{
  sidx_version, SortEntry, Fits, write_sidx_entry, read_sidx_entry, read_sidx_entry-write,
  read_sidx_entry-nil, read_to_eof, read_to_eof-write,
}
use in_memory_db.Bytes.Checksum.{checksum_ieee, checksum_ieee-lt}
use in_memory_db.Bytes.Words.{
  put_uint32, put_uint64, uint32, uint32-put_uint32, length-put_uint32, length-put_uint64,
}
use in_memory_db.Bytes.Reader.{
  read_uint32, read_uint64, read_uint32-put, read_uint64-put, write_many, All,
}
use in_memory_db.Bytes.Frame.{expect_magic, expect_magic-append}

-- "KVSI"
abbrev sidx_magic : List ℕ
sidx_magic = 0x4B ∷ 0x56 ∷ 0x53 ∷ 0x49 ∷ []

abbrev pub header_len : ℕ
header_len = 16

sidx_header : ℕ → List ℕ
sidx_header count = sidx_magic ++ (put_uint32 sidx_version ++ put_uint64 count)

-- The checksum is of the entries, and does not cover the header.
unfoldable pub assemble_sidx : ℕ → List ℕ → List ℕ
unfolding sidx_header
assemble_sidx count body = sidx_header count ++ (body ++ put_uint32 (checksum_ieee body))

unfoldable pub verify_sidx_header : List ℕ → Result ℕ
verify_sidx_header bs = do
  (_, bs₁) ← expect_magic sidx_magic (message "kv: sidx: bad magic") bs
  elim (read_uint32 bs₁) [
    | err _ ↦ err (message "kv: sidx: unsupported version")
    | ok (version, bs₂) ↦
        if version == sidx_version
        then (do (count, _) ← read_uint64 bs₂; ok count)
        else err (message "kv: sidx: unsupported version")
  ]

-- What `io.NewSectionReader` bounds: all between the header and the last four bytes.
unfoldable pub entries_region : List ℕ → List ℕ
entries_region bs = take (length bs - 4 - header_len) (drop header_len bs)

unfoldable pub verify_sidx_checksum : List ℕ → Result (Unit {0})
unfolding entries_region
verify_sidx_checksum bs =
    if ltb (length bs) (header_len + 4)
    then err (message "kv: sidx: truncated")
    else if uint32 (drop (length bs - 4) bs) == checksum_ieee (entries_region bs)
    then ok tt
    else err (message "kv: sidx: checksum mismatch")

length-sidx_header : (count : ℕ) → length (sidx_header count) ≡ header_len
unfolding sidx_header
length-sidx_header count = omega (
  arith,
  length-append sidx_magic (put_uint32 sidx_version ++ put_uint64 count),
  length-append (put_uint32 sidx_version) (put_uint64 count),
  length-put_uint32 sidx_version,
  length-put_uint64 count,
)

pub verify_sidx_header-assemble :
    (count : ℕ) (body : List ℕ)
    → count < 2 ^ 64
    → verify_sidx_header (assemble_sidx count body) ≡ ok count
unfolding verify_sidx_header assemble_sidx
verify_sidx_header-assemble count body h = simp append_assoc (
    rw (
      expect_magic-append sidx_magic _ _,
      ◌>>=◌,
      read_uint32-put sidx_version _ (omega arith),
      read_uint64-put count _ h,
    ))

module _ (count : ℕ) (body : List ℕ) where
  length-assemble_sidx : length (assemble_sidx count body) ≡ header_len + length body + 4
  unfolding assemble_sidx
  length-assemble_sidx =
      let crc = put_uint32 (checksum_ieee body) in
      omega (
        arith,
        length-append (sidx_header count) (body ++ crc),
        length-append body crc,
        length-sidx_header count,
        length-put_uint32 (checksum_ieee body),
      )

  tail-assemble_sidx :
      drop (length (assemble_sidx count body) - 4) (assemble_sidx count body)
      ≡ put_uint32 (checksum_ieee body)
  unfolding assemble_sidx
  tail-assemble_sidx =
      let crc = put_uint32 (checksum_ieee body) in
      let front = sidx_header count ++ body in
      let cut : length front ≡ length (assemble_sidx count body) - 4 = omega (
        arith,
        length-assemble_sidx,
        length-append (sidx_header count) body,
        length-sidx_header count,
      ) in
      rw (← append_assoc (sidx_header count) body crc) (drop-append _ front crc cut)

  pub entries_region-assemble : entries_region (assemble_sidx count body) ≡ body
  unfolding entries_region assemble_sidx
  entries_region-assemble =
      let crc = put_uint32 (checksum_ieee body) in
      let cut : length (assemble_sidx count body) - 4 - header_len ≡ length body =
        omega (arith, length-assemble_sidx) in
      rw (cut, drop-append header_len (sidx_header count) (body ++ crc) (length-sidx_header count))
        (take-append (length body) body crc refl)

  pub verify_sidx_checksum-assemble : verify_sidx_checksum (assemble_sidx count body) ≡ ok tt
  unfolding verify_sidx_checksum
  verify_sidx_checksum-assemble =
      let crc = put_uint32 (checksum_ieee body) in
      let long : ltb (length (assemble_sidx count body)) (header_len + 4) ≡ false =
        le→ltb _ _ (omega (arith, length-assemble_sidx)) in
      rw (
        long,
        entries_region-assemble,
        tail-assemble_sidx,
        uint32-put_uint32 (checksum_ieee body) (checksum_ieee-lt body),
        (==_iff (checksum_ieee body) (checksum_ieee body)).1 refl,
      )

-- From an entry boundary on, up to the checksum.
pub section-assemble :
    (count : ℕ) (xs ys : List ℕ)
    → let file = assemble_sidx count (xs ++ ys) in
      let start = header_len + length xs in take (length file - 4 - start) (drop start file) ≡ ys
unfolding assemble_sidx
section-assemble count xs ys =
    let crc = put_uint32 (checksum_ieee (xs ++ ys)) in
    let file = assemble_sidx count (xs ++ ys) in
    let front = sidx_header count ++ xs in
    let size = length-append (sidx_header count) xs in
    let start : length front ≡ header_len + length xs =
      omega (arith, size, length-sidx_header count) in
    let cut : length ys ≡ length file - 4 - (header_len + length xs) =
      omega (arith, length-assemble_sidx count (xs ++ ys), length-append xs ys) in
    let split : file ≡ front ++ (ys ++ crc) = simp append_assoc refl in
    let rest : drop (header_len + length xs) file ≡ ys ++ crc =
      rw split (drop-append (header_len + length xs) front (ys ++ crc) start) in
    rw rest (take-append _ ys crc cut)

-- The file that a build assembles from entries whose fields fit their widths, fewer than 2^64 of
-- them: its header gives their number, its checksum holds, and reading its entries region up to
-- the end, with more fuel than there are entries, gives the entries in order.
pub sidx_file_round_trip :
    (es : List SortEntry) (fuel : ℕ)
    → length es < fuel
    → length es < 2 ^ 64
    → All Fits es
    → let file = assemble_sidx (length es) (write_many write_sidx_entry es) in
      (verify_sidx_header file ≡ ok (length es))
      × (verify_sidx_checksum file ≡ ok tt)
      × (read_to_eof read_sidx_entry fuel (entries_region file) ≡ ok es)
sidx_file_round_trip es fuel enough short h =
    let body = write_many write_sidx_entry es in
    (
      verify_sidx_header-assemble (length es) body short,
      verify_sidx_checksum-assemble (length es) body,
      rw (entries_region-assemble (length es) body) (
          read_to_eof-write write_sidx_entry read_sidx_entry read_sidx_entry-nil
            read_sidx_entry-write es fuel enough h),
    )
