-- ===== src/Bitcask/Record/RoundTrip.antt =====
-- What decodeHeader and verifyChecksum read from a record that encodeRecord wrote, with any bytes
-- behind it.
use in_memory_db.Base.{
  ℕ, ◌+◌, ◌<◌, ◌^◌, ◌≡◌, refl, List, [], ◌∷◌, ◌++◌, append_assoc, length, take, drop, length-append,
  take-append, drop-append, ltb, ◌==◌, ==_iff, if◌then◌else◌, Bool, true, false, le→ltb, arith,
  drop-add, bit_and, not,
}
use in_memory_db.Bytes.Words.{
  put_uint32, put_uint64, uint32, uint64, uint32-put_uint32, uint64-put_uint64, length-put_uint32,
  length-put_uint64,
}
use in_memory_db.Bytes.Checksum.{checksum_ieee, checksum_ieee-lt}
use in_memory_db.Bitcask.Record.{
  RecordHeader, is_tombstone, header_size, flag_tombstone, record_size, record_body, encode_record,
  decode_header, verify_checksum,
}

-- The sizes that the header's fields hold.
pub record RecordFits (key value : List ℕ) (timestamp : ℕ) : Type 0 where
  pub key_fits : length key < 2 ^ 32
  pub value_fits : length value < 2 ^ 32
  pub timestamp_fits : timestamp < 2 ^ 64

header_bytes : ℕ → ℕ → ℕ → ℕ → ℕ → List ℕ
header_bytes crc timestamp key_len val_len flags =
    put_uint32 crc
    ++ (put_uint64 timestamp ++ (put_uint32 key_len ++ (put_uint32 val_len ++ flags ∷ [])))

header_slices :
    (crc timestamp key_len val_len flags : ℕ)
    → decode_header (header_bytes crc timestamp key_len val_len flags) ≡ record {
      crc = uint32 (put_uint32 crc);
      timestamp = uint64 (put_uint64 timestamp);
      key_len = uint32 (put_uint32 key_len);
      val_len = uint32 (put_uint32 val_len);
      flags = flags;
    }
unfolding decode_header header_bytes put_uint32 put_uint64
header_slices crc timestamp key_len val_len flags = refl

length-header_bytes :
    (crc timestamp key_len val_len flags : ℕ)
    → length (header_bytes crc timestamp key_len val_len flags) ≡ header_size
unfolding header_bytes put_uint32 put_uint64
length-header_bytes crc timestamp key_len val_len flags = refl

abbrev pub flag : Bool → ℕ
flag b = if b then flag_tombstone else 0

flag_cases : (b : Bool) → not (bit_and (if b then flag_tombstone else 0) flag_tombstone == 0) ≡ b
flag_cases true = refl
flag_cases false = refl

module _ (key value : List ℕ) (tombstone : Bool) (timestamp : ℕ) where
  pub length-encode_record :
      length (encode_record key value tombstone timestamp) ≡ record_size (length key) (length value)
  unfolding encode_record record_body record_size
  length-encode_record =
      let tail : List ℕ = (flag tombstone) ∷ (key ++ value) in
      let crc = checksum_ieee (record_body key value tombstone timestamp) in
      omega (
        arith,
        length-append (put_uint32 crc) (record_body key value tombstone timestamp),
        length-append (put_uint64 timestamp)
            (put_uint32 (length key) ++ (put_uint32 (length value) ++ tail)),
        length-append (put_uint32 (length key)) (put_uint32 (length value) ++ tail),
        length-append (put_uint32 (length value)) tail,
        length-append key value,
        length-put_uint32 crc,
        length-put_uint64 timestamp,
        length-put_uint32 (length key),
        length-put_uint32 (length value),
      )

  pub record_crc : ℕ
  record_crc = checksum_ieee (record_body key value tombstone timestamp)

  -- A record is its header, its key and its value.
  encode_record-parts :
      (rest : List ℕ)
      → encode_record key value tombstone timestamp ++ rest
        ≡ header_bytes record_crc timestamp (length key) (length value) (flag tombstone)
          ++ (key ++ (value ++ rest))
  unfolding encode_record record_body header_bytes record_crc
  encode_record-parts rest = simp append_assoc

  pub decode_header-encode :
      (rest : List ℕ)
      → RecordFits key value timestamp
      → decode_header (take header_size (encode_record key value tombstone timestamp ++ rest))
        ≡ record {
          crc = record_crc;
          timestamp = timestamp;
          key_len = length key;
          val_len = length value;
          flags = (flag tombstone);
        }
  unfolding record_crc
  decode_header-encode rest h = rw (
    encode_record-parts rest,
    take-append header_size
        (header_bytes record_crc timestamp (length key) (length value) (flag tombstone))
        (key ++ (value ++ rest)) (length-header_bytes _ _ _ _ _),
    header_slices record_crc timestamp (length key) (length value) (flag tombstone),
    uint32-put_uint32 record_crc (checksum_ieee-lt _),
    uint64-put_uint64 timestamp h.timestamp_fits,
    uint32-put_uint32 (length key) h.key_fits,
    uint32-put_uint32 (length value) h.value_fits,
  )

  pub verify_checksum-encode : verify_checksum (encode_record key value tombstone timestamp) ≡ true
  unfolding verify_checksum encode_record
  verify_checksum-encode =
      let body = record_body key value tombstone timestamp in
      let crc = put_uint32 (checksum_ieee body) in
      let long : ltb (length (crc ++ body)) header_size ≡ false =
        le→ltb _ _ (unfold record_size encode_record in omega (arith, length-encode_record)) in
      rw (
        long,
        drop-append 4 crc body (length-put_uint32 _),
        take-append 4 crc body (length-put_uint32 _),
        uint32-put_uint32 (checksum_ieee body) (checksum_ieee-lt body),
        (==_iff (checksum_ieee body) (checksum_ieee body)).1 refl,
      )

  -- Where the key and the value stand.
  pub encode_record-slices :
      (rest : List ℕ)
      → let bs = encode_record key value tombstone timestamp ++ rest in
        (take (length key) (drop header_size bs) ≡ key)
        × (drop (header_size + length key) bs ≡ value ++ rest)
  encode_record-slices rest =
      let hdr = header_bytes record_crc timestamp (length key) (length value) (flag tombstone) in
      let size =
        length-header_bytes record_crc timestamp (length key) (length value) (flag tombstone) in
      (
        rw (encode_record-parts rest, drop-append header_size hdr (key ++ (value ++ rest)) size)
            (take-append (length key) key (value ++ rest) refl),
        rw (
          ← drop-add header_size (length key) (encode_record key value tombstone timestamp ++ rest),
          encode_record-parts rest,
          drop-append header_size hdr (key ++ (value ++ rest)) size,
          drop-append (length key) key (value ++ rest) refl,
        ),
      )

  pub is_tombstone-flag :
      (h : RecordHeader) → h.flags ≡ (flag tombstone) → is_tombstone h ≡ tombstone
  unfolding is_tombstone
  is_tombstone-flag h e = rw e (flag_cases tombstone)
