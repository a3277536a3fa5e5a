-- ===== src/Bitcask/Db.antt =====
-- internal/bitcask/db.go and kv.go: the state of a store and its operations. `active` and
-- `compact_out` are the ids of segments of the map, which are the objects that the code's pointers
-- share with it. Creating, syncing and shrinking files succeed here; the time of a call is an
-- argument. `compaction_ratio` is a fraction.
pub mod Layout
pub mod Reads
pub mod Writes
use in_memory_db.Base.{
  ℕ, zero, suc, ◌+◌, ◌*◌, ◌%◌, ◌^◌, List, [], ◌∷◌, length, ◌==◌, leb, ltb, if◌then◌else◌, Bool,
  true, false, not, ◌&&◌, Option, none, some, Result, ok, err, Error, message, ◌>>=◌, ◌>>◌, guard,
  is_some, closed, empty_key, not_found, key_too_large,
}
use in_memory_db.Base.NatMap.{NatMap, lookup, insert, remove}
use in_memory_db.Bitcask.IndexSpec.{IndexSpec, Location}
use in_memory_db.Bitcask.Record.{header_size, record_size, encode_record}
use in_memory_db.Bitcask.Segment
use in_memory_db.Bitcask.Segment.{Segment, create_segment}

abbrev pub max_key_len : ℕ
max_key_len = 65535

pub record Options : Type 0 where
  pub dir : List ℕ
  pub segment_size : ℕ
  pub sync_on_write : Bool
  pub snapshot_on_close : Bool
  pub ratio_num : ℕ
  pub ratio_den : ℕ

-- 64 MB, and one half
unfoldable pub with_defaults : Options → Options
with_defaults o =
    let sized = if o.segment_size == 0 then record o { segment_size = 67108864 } else o in
    if o.ratio_num == 0 then record sized { ratio_num = 1; ratio_den = 2 } else sized

module _ (spec : IndexSpec) where
  pub record Db : Type 0 where
    pub opts : Options
    pub idx : spec.Index
    pub segments : NatMap Segment
    pub active : ℕ
    pub compact_out : Option ℕ
    pub next_seg_id : ℕ
    pub dead_bytes : NatMap ℕ
    pub compact_err : Option Error
    pub is_closed : Bool

unfoldable pub check_key : List ℕ → Result (Unit {0})
check_key key = do
  guard (not (length key == 0)) empty_key
  guard (leb (length key) max_key_len) key_too_large

-- The location that Put gives a record at `off`.
unfoldable pub value_location : ℕ → ℕ → List ℕ → List ℕ → Location
value_location seg_id off key value = record {
  seg_id = seg_id;
  val_offset = (off + header_size + length key) % 2 ^ 32;
  val_len = length value % 2 ^ 32;
}

module _ {spec : IndexSpec} where
  unfoldable pub set_segment : Segment → Db spec → Db spec
  set_segment seg db = record db { segments = insert seg.id seg db.segments }

  -- `db.deadBytes[segID] += n`
  unfoldable pub add_dead_bytes : ℕ → ℕ → Db spec → Db spec
  add_dead_bytes seg_id n db =
      let before : ℕ = elim (lookup seg_id db.dead_bytes) [ none ↦ 0 | some d ↦ d ] in
      record db { dead_bytes = insert seg_id (before + n) db.dead_bytes }

  -- A pointer that is never nil in the code; the map has its segment by the invariant.
  unfoldable pub segment_at : ℕ → Db spec → Result Segment
  segment_at id db = elim (lookup id db.segments) [
    | none ↦ err (message "kv: internal: segment missing for a live key")
    | some seg ↦ ok seg
  ]

  -- The rotation to a fresh segment, for the active one and for the compaction output.
  unfoldable pub rotate : Option Segment → Db spec → Db spec
  unfolding set_segment
  rotate old db =
      let seg = create_segment db.next_seg_id db.opts.segment_size in
      let db' : Db spec = elim old [ none ↦ db | some s ↦ set_segment (Segment.finalize s) db ] in
      record (set_segment seg db') { next_seg_id = (db.next_seg_id + 1) % 2 ^ 32 }

  unfoldable pub ensure_capacity : ℕ → Db spec → Result (Db spec)
  unfolding rotate
  ensure_capacity record_len db = do
    guard (leb record_len db.opts.segment_size) (message "kv: record exceeds segment size")
    act ← segment_at db.active db
    if leb record_len (Segment.remaining act)
        then ok db
        else ok (record (rotate (some act) db) { active = db.next_seg_id })

  -- What Put and Delete do under the lock: room in the active segment, then the record at its end.
  unfoldable pub write_record : List ℕ → Db spec → Result (ℕ × Db spec)
  write_record rec db = do
    guard (not db.is_closed) closed
    db₁ ← ensure_capacity (length rec) db
    act ← segment_at db₁.active db₁
    (off, act') ← Segment.append act rec
    ok (off, set_segment act' db₁)

  -- The dead bytes of the location that a write supersedes.
  unfoldable pub retire : List ℕ → Option Location → Db spec → Db spec
  unfolding add_dead_bytes
  retire key none db = db
  retire key (some prev) db = add_dead_bytes prev.seg_id (record_size (length key) prev.val_len) db

  unfoldable pub put : List ℕ → List ℕ → ℕ → Db spec → Result (Db spec)
  unfolding retire value_location
  put key value now db = do
    check_key key
    (off, db₁) ← write_record (encode_record key value false now) db
    let loc = value_location db₁.active off key value
    let (idx, prev) = spec.put db₁.idx key loc
    ok (retire key prev (record db₁ { idx = idx }))

  unfoldable pub delete : List ℕ → ℕ → Db spec → Result (Db spec)
  unfolding retire add_dead_bytes
  delete key now db = do
    check_key key
    let rec = encode_record key [] true now
    (_, db₁) ← write_record rec db
    let db₂ = add_dead_bytes db₁.active (length rec) db₁
    let (idx, prev) = spec.delete db₂.idx key
    ok (retire key prev (record db₂ { idx = idx }))

  unfoldable pub get_locked : List ℕ → Db spec → Result (List ℕ)
  get_locked key db = elim (spec.get db.idx key) [
    | none ↦ err not_found
    | some loc ↦ do seg ← segment_at loc.seg_id db; Segment.read_at seg loc.val_offset loc.val_len
  ]

  unfoldable pub get : List ℕ → Db spec → Result (List ℕ)
  get key db = do
    guard (not (length key == 0)) empty_key
    guard (not db.is_closed) closed
    get_locked key db

  unfoldable pub has : List ℕ → Db spec → Result Bool
  has key db = do
    guard (not (length key == 0)) empty_key
    guard (not db.is_closed) closed
    ok (is_some (spec.get db.idx key))

  unfoldable pub sync : Db spec → Result (Unit {0})
  sync db = guard (not db.is_closed) closed
