-- ===== src/Bitcask/Snapshot.antt =====
-- internal/bitcask/index_snapshot.go: the index written as a flat list of keys and locations, with
-- the id and the used size of the active segment. A write is the content of the finished file.
use in_memory_db.Base.{
  ℕ, ◌<◌, ◌^◌, ◌≡◌, refl, List, [], ◌∷◌, ◌++◌, append_assoc, arith, length, foldl, Result, ok,
  ◌>>=◌, ◌>>◌, guard, message, ◌==◌,
}
use in_memory_db.Bytes.Words.{put_uint16, put_uint32, put_uint64}
use in_memory_db.Bytes.Reader.{
  Reader, read_full, read_uint16, read_uint32, read_uint64, read_full-append, read_uint16-put,
  read_uint32-put, read_uint64-put, read_many, write_many, read_many-write_many, All,
}
use in_memory_db.Bytes.Frame.{
  expect_magic, expect_magic-append, sealed, verify_trailer, verify_trailer-sealed,
}
use in_memory_db.Bitcask.IndexSpec.{IndexSpec, Location}
use in_memory_db.Bitcask.Segment.{Segment}
use in_memory_db.Bitcask.Db.{Db, segment_at}

-- "KVS1"
abbrev snapshot_magic : List ℕ
snapshot_magic = 0x4B ∷ 0x56 ∷ 0x53 ∷ 0x31 ∷ []

abbrev snapshot_version : ℕ
snapshot_version = 1

abbrev pub Entry : Type 0
Entry = List ℕ × Location

-- The values that the fixed widths hold.
pub record EntryFits (e : Entry) : Type 0 where
  pub key : length e.0 < 2 ^ 16
  pub seg_id : e.1.seg_id < 2 ^ 32
  pub val_offset : e.1.val_offset < 2 ^ 32
  pub val_len : e.1.val_len < 2 ^ 32

unfoldable pub write_snapshot_entry : Entry → List ℕ
write_snapshot_entry (key, loc) =
    put_uint16 (length key)
    ++ (key ++ (put_uint32 loc.seg_id ++ (put_uint32 loc.val_offset ++ put_uint32 loc.val_len)))

unfoldable pub read_snapshot_entry : Reader Entry
read_snapshot_entry bs = do
  (key_len, bs₁) ← read_uint16 bs
  (key, bs₂) ← read_full key_len bs₁
  (seg_id, bs₃) ← read_uint32 bs₂
  (val_offset, bs₄) ← read_uint32 bs₃
  (val_len, rest) ← read_uint32 bs₄
  ok ((key, record { seg_id = seg_id; val_offset = val_offset; val_len = val_len }), rest)

read_snapshot_entry-write :
    (e : Entry) (rest : List ℕ)
    → EntryFits e
    → read_snapshot_entry (write_snapshot_entry e ++ rest) ≡ ok (e, rest)
unfolding read_snapshot_entry write_snapshot_entry
read_snapshot_entry-write (key, loc) rest h = simp append_assoc (
    rw (
      read_uint16-put (length key) _ h.key,
      read_full-append (length key) key _ refl,
      read_uint32-put loc.seg_id _ h.seg_id,
      read_uint32-put loc.val_offset _ h.val_offset,
      read_uint32-put loc.val_len rest h.val_len,
    ))

module _ {spec : IndexSpec} where
  unfoldable pub save_snapshot : Db spec → Result (List ℕ)
  save_snapshot db = do
    act ← segment_at db.active db
    ok (
        sealed (
          snapshot_magic
          ++ (put_uint32 snapshot_version
              ++ (put_uint32 act.id
                  ++ (put_uint64 act.size
                      ++ (put_uint64 (spec.len db.idx)
                          ++ write_many write_snapshot_entry (spec.entries db.idx)))))))

module _ (spec : IndexSpec) where
  -- One entry goes into the index.
  abbrev pub apply_entry : spec.Index → Entry → spec.Index
  apply_entry idx e = (spec.put idx e.0 e.1).0

  -- The watermark (the segment's id and size) and the index with the entries put into it. After an
  -- error the caller throws the index away.
  unfoldable pub load_snapshot_into : List ℕ → spec.Index → Result ((ℕ × ℕ) × spec.Index)
  load_snapshot_into bs idx = do
    verify_trailer (message "kv: snapshot: truncated") (message "kv: snapshot: checksum mismatch")
        bs
    (_, bs₁) ← expect_magic snapshot_magic (message "kv: snapshot: bad magic") bs
    (version, bs₂) ← read_uint32 bs₁
    guard (version == snapshot_version) (message "kv: snapshot: unsupported version")
    (watermark_seg_id, bs₃) ← read_uint32 bs₂
    (watermark_size, bs₄) ← read_uint64 bs₃
    (count, bs₅) ← read_uint64 bs₄
    (es, _) ← read_many read_snapshot_entry count bs₅
    ok ((watermark_seg_id, watermark_size), foldl apply_entry idx es)

module _ {spec : IndexSpec} where
  -- A snapshot that a store saved loads again, if its index is well formed and has fewer than
  -- 2^64 entries whose fields fit their widths, and the active segment's id and size fit
  -- theirs: the watermark is the id and the used size of the active segment, and the index is
  -- the given one with every entry of the store's index put into it.
  pub load_snapshot_into-save :
      (db : Db spec) (act : Segment) (idx : spec.Index)
      → segment_at db.active db ≡ ok act
      → spec.Valid db.idx
      → act.id < 2 ^ 32
      → act.size < 2 ^ 64
      → length (spec.entries db.idx) < 2 ^ 64
      → All EntryFits (spec.entries db.idx)
      → (save_snapshot db >>= λ bs. load_snapshot_into spec bs idx)
        ≡ ok ((act.id, act.size), foldl (apply_entry spec) idx (spec.entries db.idx))
  unfolding save_snapshot load_snapshot_into
  load_snapshot_into-save db act idx here valid small low short fits =
      let es = spec.entries db.idx in
      rw (here, spec.len-entries db.idx valid, verify_trailer-sealed _ _ _)
        (unfold sealed in
          simp append_assoc (
            rw (
              expect_magic-append snapshot_magic _ _,
              read_uint32-put snapshot_version _ (omega arith),
              read_uint32-put act.id _ small,
              read_uint64-put act.size _ low,
              read_uint64-put (length es) _ short,
              read_many-write_many EntryFits write_snapshot_entry read_snapshot_entry
                  read_snapshot_entry-write es _ fits,
            )))
