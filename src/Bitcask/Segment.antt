-- ===== src/Bitcask/Segment.antt =====
-- internal/bitcask/segment.go: one preallocated, append-only file. `bytes` is the mapped file
-- (`s.mf.Bytes()`); the file is shared with the mapping, so a positioned read (`s.mf.ReadAt`) and a
-- slice of the mapping give the same bytes, and the residency cache, which only chooses between
-- them, is left out.
pub mod Scan
pub mod Appends
pub mod LogEnd
use in_memory_db.Base.{
  ℕ, zero, suc, ◌+◌, ◌-◌, List, [], ◌∷◌, ◌++◌, length, take, drop, replicate, leb, ltb, ◌==◌, ◌||◌,
  if◌then◌else◌, Option, none, some, Result, ok, err, Error, message,
}
use in_memory_db.Bitcask.Record.{
  RecordHeader, header_size, record_size, decode_header, verify_checksum,
}

pub record Segment : Type 0 where
  pub id : ℕ
  pub bytes : List ℕ
  pub capacity : ℕ
  pub size : ℕ

-- The new file is `capacity` zero bytes (`mmapfile.Create` truncates it to that size).
unfoldable pub create_segment : ℕ → ℕ → Segment
create_segment id capacity = record {
  id = id;
  bytes = replicate capacity 0;
  capacity = capacity;
  size = 0;
}

-- The file's content is mapped whole; its used size is found by a scan.
unfoldable pub open_segment : ℕ → List ℕ → Segment
open_segment id content = record { id = id; bytes = content; capacity = length content; size = 0 }

unfoldable pub remaining : Segment → ℕ
remaining s = s.capacity - s.size

-- `copy(dst[off:], record)` for a record that fits
unfoldable pub overwrite : List ℕ → ℕ → List ℕ → List ℕ
overwrite dst off rec = take off dst ++ (rec ++ drop (off + length rec) dst)

unfoldable pub append : Segment → List ℕ → Result (ℕ × Segment)
unfolding overwrite
append s rec =
    let off = s.size in
    if ltb (length s.bytes) (off + length rec)
    then err (message "segment: record does not fit")
    else ok (off, record s { bytes = overwrite s.bytes off rec; size = off + length rec })

-- Offsets and lengths come from unsigned fields, so they are not negative.
unfoldable pub read_at : Segment → ℕ → ℕ → Result (List ℕ)
read_at s offset length' =
    if ltb (length s.bytes) (offset + length')
    then err (message "segment: read out of range")
    else ok (take length' (drop offset s.bytes))

-- The well-formed record at an offset, if there is one: its header, key and value.
unfoldable pub next_record : List ℕ → ℕ → Option (RecordHeader × List ℕ × List ℕ)
next_record bs off =
    let h = decode_header (take header_size (drop off bs)) in
    let total = record_size h.key_len h.val_len in
    let rec = take total (drop off bs) in
    if leb (off + header_size) (length bs)
    then if ltb total header_size || ltb (length bs) (off + total)
      then none
      else if verify_checksum rec
      then some (h, take h.key_len (drop header_size rec), drop (header_size + h.key_len) rec)
      else none
    else none

-- What `forEach` calls for a record: it changes a state, and an error ends the walk.
abbrev pub Visit : Type 0 → Type 0
Visit S = ℕ → RecordHeader → List ℕ → List ℕ → S → S × Option Error

-- The walk ends with the offset reached, the error if there was one, and the state.
unfoldable pub scan : {S : Type 0} → Visit S → List ℕ → ℕ → ℕ → S → ℕ × Option Error × S
scan visit bs zero off s = (off, none, s)
scan visit bs (suc fuel) off s = elim (next_record bs off) [
  | none ↦ (off, none, s)
  | some (h, key, value) ↦
      let (s', failed) = visit off h key value s in
      elim failed [
        | some e ↦ (off, some e, s')
        | none ↦ scan visit bs fuel (off + record_size h.key_len h.val_len) s'
      ]
]

-- A record takes at least `header_size` bytes, so the file's length is fuel enough.
unfoldable pub for_each : {S : Type 0} → Segment → ℕ → Visit S → S → ℕ × Option Error × S
for_each seg from_offset visit s = scan visit seg.bytes (length seg.bytes + 1) from_offset s

-- The mapping shrinks to the bytes in use.
unfoldable pub finalize : Segment → Segment
finalize s =
    if s.size == s.capacity then s else record s { bytes = take s.size s.bytes; capacity = s.size }
