-- ===== src/Bitcask/Db/Writes.antt =====
-- Put and Delete on a store: the index and the log together implement a map.
use in_memory_db.Base.{
  ℕ, ◌+◌, ◌^◌, ◌≤◌, ◌<◌, ◌≡◌, ap, ◌∙◌, List, [], length, true, false, subst, none, some, ok, err,
  arith, not_found,
}
use in_memory_db.Bitcask.IndexSpec.{IndexSpec}
use in_memory_db.Bitcask.Record.{record_size, encode_record}
use in_memory_db.Bitcask.Record.RoundTrip.{length-encode_record}
use in_memory_db.Bitcask.Db.{Db, max_key_len, put, delete, value_location, add_dead_bytes}
use in_memory_db.Bitcask.Db.Layout.{write_record_lem}
use in_memory_db.Bitcask.Db.Reads.{
  check_key_lem, Stored, IsValid, Stored-value, retire_lem, Effect, updated, with_index, same_bytes,
}

module _ {spec : IndexSpec} where
  -- Put on a valid, open store, with a key of 1 to 65535 bytes, a record that fits a segment, a
  -- segment size below 2^32, a segment id to spare and room in the index: it succeeds, the new
  -- store is valid and open, the key reads as the value, and every other key reads as before,
  -- also across a rotation of the active segment.
  pub put-Effect :
      (key value : List ℕ) (now : ℕ) (db : Db spec)
      → IsValid db
      → db.is_closed ≡ false
      → 0 < length key
      → length key ≤ max_key_len
      → record_size (length key) (length value) ≤ db.opts.segment_size
      → db.opts.segment_size < 2 ^ 32
      → db.next_seg_id + 1 < 2 ^ 32
      → spec.Room db.idx key
      → (db' : Db spec) × (put key value now db ≡ ok db') × Effect key (ok value) db db'
  unfolding put
  put-Effect key value now db v live pos small fits low ids_left room =
      let rec = encode_record key value false now in
      let size = length-encode_record key value false now in
      let (off, db₁, run, w) =
        write_record_lem rec db v.layout (omega (arith, size)) low ids_left live in
      let loc = value_location db₁.active off key value in
      let idx = (spec.put db₁.idx key loc).0 in
      let db₂ = record db₁ { idx = idx } in
      let (dead, retired) = retire_lem key (spec.put db₁.idx key loc).1 db₂ in
      (
        record db₂ { dead_bytes = dead },
        rw (check_key_lem key pos small, run) (ap ok retired),
        let db' : Db spec = record db₂ { dead_bytes = dead } in
            let (stored, at_value) = Stored-value key value now db off db₁ w in
            let valid = rw (← w.idx) at (v.idx_valid) in
            let room' = rw (← w.idx) at room in
            let e =
              updated key (some loc) db db' v (with_index db₁ idx dead w.layout) w.kept
                (spec.put-Valid db₁.idx key loc valid room')
                (λ q. spec.get-put db₁.idx key q loc valid room' ∙ rw (w.idx))
                (λ loc' same. subst (λ x. Stored db' x) (let e : loc ≡ loc' = cc in e) stored)
                w.live in
            subst (λ a. Effect key a db db') (same_bytes db₁ idx dead loc stored ∙ at_value) e,
      )

  -- Delete on a valid, open store, with a key of 1 to 65535 bytes, a tombstone record that fits
  -- a segment, a segment size below 2^32 and a segment id to spare: it succeeds, the new store
  -- is valid and open, the key is not found, and every other key reads as before.
  pub delete-Effect :
      (key : List ℕ) (now : ℕ) (db : Db spec)
      → IsValid db
      → db.is_closed ≡ false
      → 0 < length key
      → length key ≤ max_key_len
      → record_size (length key) 0 ≤ db.opts.segment_size
      → db.opts.segment_size < 2 ^ 32
      → db.next_seg_id + 1 < 2 ^ 32
      → (db' : Db spec) × (delete key now db ≡ ok db') × Effect key (err not_found) db db'
  unfolding delete add_dead_bytes
  delete-Effect key now db v live pos small fits low ids_left =
      let rec = encode_record key [] true now in
      let size = length-encode_record key [] true now in
      let (off, db₁, run, w) =
        write_record_lem rec db v.layout (omega (arith, size)) low ids_left live in
      let db₂ = add_dead_bytes db₁.active (length rec) db₁ in
      let idx = (spec.delete db₁.idx key).0 in
      let db₃ = record db₂ { idx = idx } in
      let (dead, retired) = retire_lem key (spec.delete db₁.idx key).1 db₃ in
      (
        record db₃ { dead_bytes = dead },
        rw (check_key_lem key pos small, run) (ap ok retired),
        let db' : Db spec = record db₃ { dead_bytes = dead } in
            let valid = rw (← w.idx) at (v.idx_valid) in
            updated key none db db' v (with_index db₁ idx dead w.layout) w.kept
              (spec.delete-Valid db₁.idx key valid)
              (λ q. spec.get-delete db₁.idx key q valid ∙ rw (w.idx)) (λ loc' same. absurd cc)
              w.live,
      )
