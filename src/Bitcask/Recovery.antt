-- ===== src/Bitcask/Recovery.antt =====
-- internal/bitcask/recovery.go, and Open and Close of internal/bitcask/db.go. The directory is the
-- content of its segment files with their ids, in ascending order as `listSegmentIDs` returns them,
-- and the content of the snapshot file if there is one. Opening a file succeeds.
pub mod Fresh
pub mod Replay
pub mod Durable
pub mod Answers
use in_memory_db.Base.{
  ℕ, zero, suc, ◌+◌, ◌*◌, ◌%◌, ◌^◌, List, [], ◌∷◌, length, ◌==◌, ltb, leb, if◌then◌else◌, Bool,
  true, false, not, ◌||◌, Option, none, some, Result, ok, err, Error, message, ◌>>=◌, ◌>>◌, guard,
  closed,
}
use in_memory_db.Base.NatMap.{NatMap, insert}
use in_memory_db.Bitcask.IndexSpec.{IndexSpec, Location}
use in_memory_db.Bitcask.Record.{RecordHeader, header_size, is_tombstone}
use in_memory_db.Bitcask.Segment
use in_memory_db.Bitcask.Segment.{Segment, Visit, for_each, create_segment, open_segment}
use in_memory_db.Bitcask.Db.{Db, Options, with_defaults, set_segment}
use in_memory_db.Bitcask.Snapshot.{save_snapshot, load_snapshot_into}

abbrev pub SegmentFile : Type 0
SegmentFile = ℕ × List ℕ

-- `present[id]`
unfoldable pub present : ℕ → List SegmentFile → Bool
present id [] = false
present id ((i, content) ∷ files) = i == id || present id files

-- A walk's end and state, or its error.
abbrev pub walk_outcome : {S : Type 0} → ℕ × Option Error × S → Result (ℕ × S)
walk_outcome (end_, none, s) = ok (end_, s)
walk_outcome (end_, some e, s) = err e

module _ (spec : IndexSpec) where
  -- What the replay does with a record.
  unfoldable pub replay_record : ℕ → Visit spec.Index
  replay_record seg_id off h key value idx =
      let loc : Location = record {
        seg_id = seg_id;
        val_offset = (off + header_size + h.key_len) % 2 ^ 32;
        val_len = h.val_len;
      } in
      if is_tombstone h then ((spec.delete idx key).0, none) else ((spec.put idx key loc).0, none)

  unfoldable pub replay_segment : Segment → ℕ → spec.Index → Result (ℕ × spec.Index)
  unfolding replay_record
  replay_segment seg from_offset idx =
      walk_outcome (for_each seg from_offset (replay_record seg.id) idx)

  -- The index to go on with, and the watermark if the snapshot is used.
  unfoldable pub try_load_snapshot :
      List SegmentFile → Option (List ℕ) → spec.Index → spec.Index × Option (ℕ × ℕ)
  try_load_snapshot files none idx = (idx, none)
  try_load_snapshot files (some bs) idx = elim (load_snapshot_into spec bs idx) [
    | err _ ↦ (spec.empty, none)
    | ok (watermark, idx') ↦
        if present watermark.0 files then (idx', some watermark) else (spec.empty, none)
  ]

  -- The segment with the used size that a replay finds.
  unfoldable pub replayed : Segment → ℕ → spec.Index → Result (Segment × spec.Index)
  unfolding replay_segment
  replayed seg from_offset idx = do
    (end_, idx') ← replay_segment seg from_offset idx
    ok (record seg { size = end_ }, idx')

  -- The segment with its used size, and the index after its records.
  unfoldable pub recover_segment :
      Option (ℕ × ℕ) → SegmentFile → spec.Index → Result (Segment × spec.Index)
  unfolding replayed
  recover_segment none (id, content) idx = replayed (open_segment id content) 0 idx
  recover_segment (some (watermark_id, watermark_size)) (id, content) idx =
      let seg = open_segment id content in
      if ltb id watermark_id
      then ok (record seg { size = seg.capacity }, idx)
      else if id == watermark_id
      then replayed seg watermark_size idx
      else replayed seg 0 idx

module _ {spec : IndexSpec} where
  -- The loop over the files: the last segment becomes the active one, the others are finalized.
  unfoldable pub recover_segments : Option (ℕ × ℕ) → List SegmentFile → Db spec → Result (Db spec)
  unfolding recover_segment set_segment
  recover_segments watermark [] db = ok db
  recover_segments watermark (file ∷ []) db = do
    (seg, idx) ← recover_segment spec watermark file db.idx
    ok (record (set_segment seg db) {
      idx = idx;
      active = seg.id;
      next_seg_id = (seg.id + 1) % 2 ^ 32;
    })
  recover_segments watermark (file ∷ next ∷ files) db = do
    (seg, idx) ← recover_segment spec watermark file db.idx
    recover_segments watermark (next ∷ files)
        (record (set_segment (Segment.finalize seg) db) { idx = idx })

  unfoldable pub recover : Option (List ℕ) → List SegmentFile → Db spec → Result (Db spec)
  unfolding recover_segments try_load_snapshot set_segment
  recover snapshot [] db = ok (record (set_segment (create_segment 0 db.opts.segment_size) db) {
    active = 0;
    next_seg_id = 1;
  })
  recover snapshot (file ∷ files) db =
      let (idx, watermark) = try_load_snapshot spec (file ∷ files) snapshot db.idx in
      recover_segments watermark (file ∷ files) (record db { idx = idx })

  -- The store before recovery; it has no active segment yet, and id 0 stands for the nil pointer.
  unfoldable pub new_db : Options → Db spec
  new_db opts = record {
    opts = opts;
    idx = spec.empty;
    segments = [];
    active = 0;
    compact_out = none;
    next_seg_id = 0;
    dead_bytes = [];
    compact_err = none;
    is_closed = false;
  }

  unfoldable pub open_store : Options → Option (List ℕ) → List SegmentFile → Result (Db spec)
  unfolding recover new_db
  open_store o snapshot files = do
    let opts = with_defaults o
    guard (not (length opts.dir == 0)) (message "kv: Options.Dir is required")
    guard (leb opts.ratio_num opts.ratio_den)
        (message "kv: Options.CompactionRatio out of range (0, 1]")
    recover snapshot files (new_db opts)

  -- The store, closed, and the snapshot that was written.
  unfoldable pub close : Db spec → Db spec × Result (Option (List ℕ))
  close db =
      let db' : Db spec = record db { is_closed = true } in
      if db.is_closed
      then (db, err closed)
      else if db.opts.snapshot_on_close
      then elim (save_snapshot db') [ err e ↦ (db', err e) | ok bs ↦ (db', ok (some bs)) ]
      else (db', ok none)
