-- ===== src/Bitcask/Segment/Scan.antt =====
-- What a walk over a segment finds: the records that were written, then the end of the log.
use in_memory_db.Base.{
  ℕ, zero, suc, ◌+◌, ◌≤◌, ◌<◌, ◌≡◌, refl, ap, ap₂, sym, List, [], ◌∷◌, ◌++◌, append_assoc,
  append-nil, length, take, drop, length-append, take-append, drop-append, leb, ltb, le→leb, le→ltb,
  Bool, true, false, none, some, arith,
}
use in_memory_db.Bytes.Reader.{write_many, All}
use in_memory_db.Bitcask.Record.{RecordHeader, header_size, record_size, encode_record}
use in_memory_db.Bitcask.Record.RoundTrip.{
  RecordFits, record_crc, flag, length-encode_record, decode_header-encode, verify_checksum-encode,
  encode_record-slices,
}
use in_memory_db.Bitcask.Segment.{next_record, Visit, scan}

-- A record before it is encoded.
pub record LogRecord : Type 0 where
  pub key : List ℕ
  pub value : List ℕ
  pub tombstone : Bool
  pub timestamp : ℕ

abbrev pub LogFits : LogRecord → Type 0
LogFits r = RecordFits r.key r.value r.timestamp

abbrev pub encode : LogRecord → List ℕ
encode r = encode_record r.key r.value r.tombstone r.timestamp

abbrev pub size_of : LogRecord → ℕ
size_of r = record_size (length r.key) (length r.value)

abbrev pub header_of : LogRecord → RecordHeader
header_of r = record {
  crc = record_crc r.key r.value r.tombstone r.timestamp;
  timestamp = r.timestamp;
  key_len = length r.key;
  val_len = length r.value;
  flags = flag r.tombstone;
}

-- At an encoded record whose fields fit their widths, whatever stands before and behind it, the
-- walk reads back its header, key and value.
pub next_record-encode :
    (pre : List ℕ) (r : LogRecord) (post : List ℕ)
    → LogFits r
    → next_record (pre ++ (encode r ++ post)) (length pre) ≡ some (header_of r, r.key, r.value)
unfolding next_record record_size
next_record-encode pre r post h =
    let bs = pre ++ (encode r ++ post) in
    let at_pre = drop-append (length pre) pre (encode r ++ post) refl in
    let header = decode_header-encode r.key r.value r.tombstone r.timestamp post h in
    let size = length-encode_record r.key r.value r.tombstone r.timestamp in
    let whole = take-append (size_of r) (encode r) post size in
    let len : length bs ≡ length pre + (size_of r + length post) =
      omega (arith, length-append pre (encode r ++ post), length-append (encode r) post, size) in
    let fits : leb (length pre + header_size) (length bs) ≡ true = le→leb _ _ (omega arith) in
    let large : ltb (size_of r) header_size ≡ false = le→ltb _ _ (omega arith) in
    let inside : ltb (length bs) (length pre + size_of r) ≡ false = le→ltb _ _ (omega arith) in
    let slices = encode_record-slices r.key r.value r.tombstone r.timestamp [] in
    let at_key : take (length r.key) (drop header_size (encode r)) ≡ r.key =
      rw append-nil at (slices.0) in
    let at_value : drop (header_size + length r.key) (encode r) ≡ r.value =
      simp append-nil at (slices.1) in
    rw
      (
        at_pre,
        header,
        fits,
        large,
        inside,
        whole,
        verify_checksum-encode r.key r.value r.tombstone r.timestamp,
      )
      (ap₂ (λ k v. some (header_of r, k, v)) at_key at_value)

-- The state that a walk over the records gives, from the offset of the first.
unfoldable pub replay : {S : Type 0} → Visit S → ℕ → List LogRecord → S → S
replay visit off [] s = s
replay visit off (r ∷ rs) s =
    replay visit (off + size_of r) rs (visit off (header_of r) r.key r.value s).0

-- The callback returns no error.
abbrev pub Quiet : {S : Type 0} → Visit S → Type 0
Quiet {S} visit =
    (off : ℕ) (h : RecordHeader) (key value : List ℕ) (s : S) → (visit off h key value s).1 ≡ none

abbrev pub written : List LogRecord → List ℕ
written = write_many encode

module _ {S : Type 0} (visit : Visit S) (quiet : Quiet visit) where
  -- A walk that starts at records which no well-formed record follows visits each of them once, in
  -- order, and ends behind the last.
  pub scan-written :
      (rs : List LogRecord) (pre tail : List ℕ) (fuel : ℕ) (s : S)
      → All LogFits rs
      → length rs < fuel
      → next_record (pre ++ (written rs ++ tail)) (length pre + length (written rs)) ≡ none
      → scan visit (pre ++ (written rs ++ tail)) fuel (length pre) s
        ≡ (length pre + length (written rs), none, replay visit (length pre) rs s)
  unfolding scan replay write_many
  scan-written rs pre tail zero s fits enough stop = absurd (omega arith)
  scan-written [] pre tail (suc fuel) s fits enough stop =
      let e : length pre + 0 ≡ length pre = omega arith in
      let here : next_record (pre ++ tail) (length pre) ≡ none = rw e at stop in
      rw (here, scan) (ap (λ (k : ℕ). (k, none, s)) (sym e))
  scan-written (r ∷ rs) pre tail (suc fuel) s fits enough stop =
      let pre' = pre ++ encode r in
      let s' = (visit (length pre) (header_of r) r.key r.value s).0 in
      let regroup : pre' ++ (written rs ++ tail) ≡ pre ++ ((encode r ++ written rs) ++ tail) =
        simp append_assoc in
      let first : pre ++ (encode r ++ (written rs ++ tail))
          ≡ pre ++ ((encode r ++ written rs) ++ tail) =
        simp append_assoc in
      let at_next : length pre' ≡ length pre + size_of r = omega (
        arith,
        length-append pre (encode r),
        length-encode_record r.key r.value r.tombstone r.timestamp,
      ) in
      let last : length pre' + length (written rs) ≡ length pre + length (encode r ++ written rs) =
        omega (arith, length-append pre (encode r), length-append (encode r) (written rs)) in
      let ih = scan-written rs pre' tail fuel s' fits.1 (omega arith) (rw (regroup, last) stop) in
      let found : next_record (pre ++ ((encode r ++ written rs) ++ tail)) (length pre)
          ≡ some (header_of r, r.key, r.value) =
        rw first at (next_record-encode pre r (written rs ++ tail) fits.0) in
      let ih' = rw (regroup, last, at_next) at ih in
      rw (found, scan, quiet (length pre) (header_of r) r.key r.value s) ih'

pub length-written_le : (rs : List LogRecord) → length rs ≤ length (written rs)
unfolding write_many record_size
length-written_le [] = omega arith
length-written_le (r ∷ rs) = omega (
  arith,
  length-written_le rs,
  length-append (encode r) (written rs),
  length-encode_record r.key r.value r.tombstone r.timestamp,
)
