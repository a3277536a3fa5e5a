-- ===== src/Bitcask/Record.antt =====
-- internal/bitcask/record.go: one record of the log. An `int64` timestamp is its bit pattern.
pub mod RoundTrip
use in_memory_db.Base.{
  ℕ, ◌+◌, List, [], ◌∷◌, ◌++◌, length, take, drop, ltb, ◌==◌, if◌then◌else◌, Bool, true, false, not,
  bit_and,
}
use in_memory_db.Bytes.Words.{put_uint32, put_uint64, uint32, uint64}
use in_memory_db.Bytes.Checksum.{checksum_ieee}

abbrev pub header_size : ℕ
header_size = 21

abbrev pub flag_tombstone : ℕ
flag_tombstone = 1

pub record RecordHeader : Type 0 where
  pub crc : ℕ
  pub timestamp : ℕ
  pub key_len : ℕ
  pub val_len : ℕ
  pub flags : ℕ

unfoldable pub is_tombstone : RecordHeader → Bool
is_tombstone h = not (bit_and h.flags flag_tombstone == 0)

unfoldable pub record_size : ℕ → ℕ → ℕ
record_size key_len val_len = header_size + key_len + val_len

-- All that the checksum covers: the record from its timestamp on.
unfoldable pub record_body : List ℕ → List ℕ → Bool → ℕ → List ℕ
record_body key value tombstone timestamp =
    put_uint64 timestamp
    ++ (put_uint32 (length key)
        ++ (put_uint32 (length value)
            ++ ((if tombstone then flag_tombstone else 0) ∷ (key ++ value))))

unfoldable pub encode_record : List ℕ → List ℕ → Bool → ℕ → List ℕ
unfolding record_body
encode_record key value tombstone timestamp =
    let body = record_body key value tombstone timestamp in put_uint32 (checksum_ieee body) ++ body

-- `buf[i]`
abbrev pub byte_at : ℕ → List ℕ → ℕ
byte_at i bs = elim (drop i bs) [ [] ↦ 0 | b ∷ _ ↦ b ]

unfoldable pub decode_header : List ℕ → RecordHeader
decode_header buf = record {
  crc = uint32 (take 4 buf);
  timestamp = uint64 (take 8 (drop 4 buf));
  key_len = uint32 (take 4 (drop 12 buf));
  val_len = uint32 (take 4 (drop 16 buf));
  flags = byte_at 20 buf;
}

unfoldable pub verify_checksum : List ℕ → Bool
verify_checksum rec =
    if ltb (length rec) header_size
    then false
    else checksum_ieee (drop 4 rec) == uint32 (take 4 rec)
