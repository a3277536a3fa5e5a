-- ===== src/Bitcask/Compaction.antt =====
-- internal/bitcask/compaction.go, without its timer and goroutine, and Stats of
-- internal/bitcask/db.go. The code compares `float64` quotients; here the fractions are compared
-- exactly. Between two records of a walk the code gives up its lock; here a pass runs undisturbed.
use in_memory_db.Base.{
  ℕ, zero, suc, ◌+◌, ◌*◌, ◌%◌, ◌^◌, List, [], ◌∷◌, length, ◌==◌, leb, if◌then◌else◌, Bool, true,
  false, not, ◌&&◌, Option, none, some, Result, ok, err, Error, ◌>>=◌, closed,
}
use in_memory_db.Base.NatMap.{NatMap, lookup, remove}
use in_memory_db.Bitcask.IndexSpec.{IndexSpec}
use in_memory_db.Bitcask.Record.{
  RecordHeader, header_size, record_size, encode_record, is_tombstone,
}
use in_memory_db.Bitcask.Segment
use in_memory_db.Bitcask.Segment.{Segment, Visit, for_each}
use in_memory_db.Bitcask.Db.{Db, rotate, set_segment, segment_at, value_location}

-- The key's entry in a map of counters, 0 if there is none.
unfoldable pub counter : ℕ → NatMap ℕ → ℕ
counter id m = elim (lookup id m) [ none ↦ 0 | some n ↦ n ]

unfoldable pub sum_values : NatMap ℕ → ℕ
sum_values [] = 0
sum_values ((id, n) ∷ m) = n + sum_values m

pub record Stats : Type 0 where
  pub keys : ℕ
  pub segments : ℕ
  pub dead_bytes : ℕ
  pub last_compaction_err : Option Error

module _ {spec : IndexSpec} where
  unfoldable pub stats : Db spec → Stats
  unfolding sum_values
  stats db = record {
    keys = spec.len db.idx;
    segments = length db.segments;
    dead_bytes = sum_values db.dead_bytes;
    last_compaction_err = db.compact_err;
  }

  unfoldable pub is_candidate : Db spec → ℕ → Segment → Bool
  unfolding counter
  is_candidate db id seg =
      let is_out : Bool = elim db.compact_out [ none ↦ false | some out ↦ id == out ] in
      not (id == db.active)
      && (not is_out
          && (not (seg.capacity == 0)
              && leb (db.opts.ratio_num * seg.capacity)
                  (counter id db.dead_bytes * db.opts.ratio_den)))

  -- The first candidate in the order of the map, which in Go is any order.
  unfoldable pub pick_candidate : Db spec → NatMap Segment → Option ℕ
  unfolding is_candidate
  pick_candidate db [] = none
  pick_candidate db ((id, seg) ∷ m) =
      let rest = pick_candidate db m in if is_candidate db id seg then some id else rest

  unfoldable pub pick_compaction_candidate : Db spec → Option ℕ
  unfolding pick_candidate
  pick_compaction_candidate db = pick_candidate db db.segments

  unfoldable pub ensure_compaction_capacity : ℕ → Db spec → Db spec
  unfolding rotate
  ensure_compaction_capacity record_len db =
      let old : Option Segment = elim db.compact_out [
        | none ↦ none
        | some id ↦ lookup id db.segments
      ] in
      let rotated : Db spec = record (rotate old db) { compact_out = some db.next_seg_id } in
      elim old [
        | none ↦ rotated
        | some out ↦ if leb record_len (Segment.remaining out) then db else rotated
      ]

  -- The copy of a live record to the output segment.
  unfoldable pub relocate : RecordHeader → List ℕ → List ℕ → Db spec → Db spec × Option Error
  unfolding ensure_compaction_capacity set_segment value_location
  relocate h key value db =
      let db₁ = ensure_compaction_capacity (record_size h.key_len h.val_len) db in
      let out_id : ℕ = elim db₁.compact_out [ none ↦ 0 | some id ↦ id ] in
      let appended = do
        out ← segment_at out_id db₁
        Segment.append out (encode_record key value false h.timestamp)
      in elim appended [
        | err e ↦ (db₁, some e)
        | ok (new_off, out) ↦
            let loc = record (value_location out.id new_off key value) { val_len = h.val_len } in
            (record (set_segment out db₁) { idx = (spec.put db₁.idx key loc).0 }, none)
      ]

  unfoldable pub compact_record : ℕ → Visit (Db spec)
  unfolding relocate
  compact_record src_id off h key value db =
      let want_offset = (off + header_size + h.key_len) % 2 ^ 32 in
      let moved = relocate h key value db in
      if is_tombstone h then (db, none) else elim (spec.get db.idx key) [
        | none ↦ (db, none)
        | some cur ↦
            if (cur.seg_id == src_id) && (cur.val_offset == want_offset) then moved else (db, none)
      ]

  -- The result tells whether the source's file and the index snapshot were removed.
  unfoldable pub compact_segment : ℕ → Db spec → Db spec × Result Bool
  unfolding compact_record
  compact_segment src_id db = elim (lookup src_id db.segments) [
    | none ↦ (db, ok false)
    | some src ↦
        let (_, failed, db') = for_each src 0 (compact_record src.id) db in
        if src.id == db.active then (db, ok false) else elim failed [
          | some e ↦ (db', err e)
          | none ↦ (
            record db' {
              dead_bytes = remove src.id db'.dead_bytes;
              segments = remove src.id db'.segments;
            },
            ok true,
          )
        ]
  ]

  -- On fuel; out of fuel, the pass is given up with candidates left.
  unfoldable pub compact_now : ℕ → Db spec → Db spec × Result (Unit {0})
  unfolding compact_segment pick_compaction_candidate
  compact_now zero db = (db, ok tt)
  compact_now (suc fuel) db = elim (pick_compaction_candidate db) [
    | none ↦ (db, ok tt)
    | some id ↦
        let (db', outcome) = compact_segment id db in
        elim outcome [ err e ↦ (db', err e) | ok _ ↦ compact_now fuel db' ]
  ]

  unfoldable pub record_compaction_err : Result (Unit {0}) → Db spec → Db spec
  record_compaction_err (err e) db = record db { compact_err = some e }
  record_compaction_err (ok _) db = record db { compact_err = none }

  unfoldable pub compact : ℕ → Db spec → Db spec × Result (Unit {0})
  unfolding compact_now record_compaction_err
  compact fuel db =
      let (db', outcome) = compact_now fuel db in
      if db.is_closed then (db, err closed) else (record_compaction_err outcome db', outcome)
