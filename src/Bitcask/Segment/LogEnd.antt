-- ===== src/Bitcask/Segment/LogEnd.antt =====
-- Where a walk over a segment stops: at the end of the file, in zeroed space and at a torn record.
use in_memory_db.Base.{
  ℕ, zero, suc, ◌+◌, ◌-◌, ◌<◌, ◌≡◌, refl, ap, sym, ◌∙◌, List, [], ◌∷◌, ◌++◌, append-nil, length,
  take, drop, length-append, length-take, length-replicate, take-append, drop-append, replicate,
  ltb, ltb→le, ltb→lt, take-take, false, Bool-cases, none, arith, inl, inr,
}
use in_memory_db.Bytes.Reader.{All}
use in_memory_db.Bytes.Checksum.{checksum_ieee}
use in_memory_db.Bytes.Words.{uint32, uint64}
use in_memory_db.Bitcask.Record.{
  RecordHeader, header_size, record_size, decode_header, verify_checksum,
}
use in_memory_db.Bitcask.Record.RoundTrip.{length-encode_record, decode_header-encode}
use in_memory_db.Bitcask.Segment.{next_record, Visit, scan, for_each, Segment}
use in_memory_db.Bitcask.Segment.Scan.{
  LogRecord, LogFits, header_of, encode, size_of, written, Quiet, replay, scan-written,
  length-written_le,
}

next_record_short :
    (bs : List ℕ) (off : ℕ) → length bs < off + header_size → next_record bs off ≡ none
unfolding next_record
next_record_short bs off h = ground arith

module _ (bs : List ℕ) (off : ℕ) (h : RecordHeader)
    (reads : decode_header (take header_size (drop off bs)) ≡ h) where
  -- The declared length overruns the file.
  next_record_overrun :
      length bs < off + record_size h.key_len h.val_len → next_record bs off ≡ none
  unfolding next_record
  next_record_overrun over = rw reads (ground arith)

  -- The checksum does not hold.
  next_record_unverified :
      verify_checksum (take (record_size h.key_len h.val_len) (drop off bs)) ≡ false
      → next_record bs off ≡ none
  unfolding next_record
  next_record_unverified bad = rw (reads, bad) (ground arith)

abbrev zeros : ℕ → List ℕ
zeros n = replicate n 0

zeros_add : (m n : ℕ) → zeros (m + n) ≡ zeros m ++ zeros n
zeros_add zero n = let e : zero + n ≡ n = omega arith in rw e
zeros_add (suc m) n =
    let e : suc m + n ≡ suc (m + n) = omega arith in
    rw e (ap (λ (bs : List ℕ). 0 ∷ bs) (zeros_add m n))

-- A zeroed header declares an empty record, and its checksum is not zero.
zeros_header :
    decode_header (replicate 21 0)
    ≡ record { crc = 0; timestamp = 0; key_len = 0; val_len = 0; flags = 0 }
unfolding decode_header uint32 uint64
zeros_header = refl

zeros_unverified : verify_checksum (replicate 21 0) ≡ false
unfolding verify_checksum checksum_ieee uint32
zeros_unverified = refl

pub next_record_zeros :
    (pre : List ℕ) (n : ℕ) → next_record (pre ++ replicate n 0) (length pre) ≡ none
unfolding record_size
next_record_zeros pre n =
    let bs = pre ++ replicate n 0 in
    elim (Bool-cases (ltb n header_size)) [
      | inl small ↦ next_record_short bs (length pre) (
          omega (
            arith,
            ltb→lt n header_size small,
            length-append pre (replicate n 0),
            length-replicate {A = ℕ} n 0,
          ))
      | inr large ↦
          let split : drop (length pre) bs ≡ replicate 21 0 ++ replicate (n - 21) 0 =
            let e : 21 + (n - 21) ≡ n = omega (arith, ltb→le n header_size large) in
            drop-append (length pre) pre (replicate n 0) refl
            ∙ ap (λ k. zeros k) (sym e)
            ∙ zeros_add 21 (n - 21) in
          let front = take-append 21 (zeros 21) (zeros (n - 21)) refl in
          next_record_unverified bs (length pre)
            (record { crc = 0; timestamp = 0; key_len = 0; val_len = 0; flags = 0 })
            (rw (split, front) zeros_header) (rw (split, front) zeros_unverified)
    ]

decode_header_whole :
    (r : LogRecord) → LogFits r → decode_header (take header_size (encode r)) ≡ header_of r
decode_header_whole r h =
    rw append-nil at (decode_header-encode r.key r.value r.tombstone r.timestamp [] h)

-- A record cut short at the end of the file.
pub next_record_torn :
    (pre : List ℕ) (r : LogRecord) (n : ℕ)
    → LogFits r
    → n < size_of r
    → next_record (pre ++ take n (encode r)) (length pre) ≡ none
next_record_torn pre r n h short =
    let bs = pre ++ take n (encode r) in
    let size : length bs ≡ length pre + n = omega (
      arith,
      length-append pre (take n (encode r)),
      length-take n (encode r),
      length-encode_record r.key r.value r.tombstone r.timestamp,
    ) in
    elim (Bool-cases (ltb n header_size)) [
      | inl small ↦ next_record_short bs (length pre) (omega (arith, ltb→lt n header_size small))
      | inr large ↦
          next_record_overrun bs (length pre) (header_of r)
            (rw
              (
                drop-append (length pre) pre (take n (encode r)) refl,
                take-take header_size n (encode r) (ltb→le n header_size large),
              )
              (decode_header_whole r h))
            (omega arith)
    ]

pub scan_from_start :
    {S : Type 0} (visit : Visit S)
    → Quiet visit
    → (rs : List LogRecord) (tail : List ℕ) (s : S) → All LogFits rs
    → next_record (written rs ++ tail) (length (written rs)) ≡ none
    → scan visit (written rs ++ tail) (length (written rs ++ tail) + 1) 0 s
      ≡ (length (written rs), none, replay visit 0 rs s)
scan_from_start visit quiet rs tail s fits stop =
    let z : 0 + length (written rs) ≡ length (written rs) = omega arith in
    let enough : length rs < length (written rs ++ tail) + 1 =
      omega (arith, length-written_le rs, length-append (written rs) tail) in
    rw z at (scan-written visit quiet rs [] tail _ s fits enough (rw z stop))

-- A walk with a callback that never fails, from the start of a segment that holds whole records
-- that fit their header and then zeroed space: it visits each record once and in order, returns
-- no error, and ends at the offset behind the last record.
pub for_each-written :
    {S : Type 0} (visit : Visit S)
    → Quiet visit
    → (seg : Segment) (rs : List LogRecord) (n : ℕ) (s : S) → All LogFits rs
    → seg.bytes ≡ written rs ++ zeros n
    → for_each seg 0 visit s ≡ (length (written rs), none, replay visit 0 rs s)
unfolding for_each
for_each-written visit quiet seg rs n s fits e =
    rw (e) (scan_from_start visit quiet rs (zeros n) s fits (next_record_zeros (written rs) n))

-- A walk with a callback that never fails, from the start of a segment that holds whole records
-- that fit their header and then a proper part of one more: it visits the whole records once each
-- and in order, returns no error, and ends at the offset behind the last of them.
pub for_each-torn :
    {S : Type 0} (visit : Visit S)
    → Quiet visit
    → (seg : Segment) (rs : List LogRecord) (r : LogRecord) (n : ℕ) (s : S) → All LogFits rs
    → LogFits r
    → n < size_of r
    → seg.bytes ≡ written rs ++ take n (encode r)
    → for_each seg 0 visit s ≡ (length (written rs), none, replay visit 0 rs s)
unfolding for_each
for_each-torn visit quiet seg rs r n s fits last short e = rw (e) (
    scan_from_start visit quiet rs (take n (encode r)) s fits
      (next_record_torn (written rs) r n last short))
