-- ===== src/Bitcask/Recovery/Replay.antt =====
-- The replay of a segment: the index that it makes answers every key by the last record of the key.
use in_memory_db.Base.{
  ℕ, ◌+◌, ◌%◌, ◌^◌, ◌≤◌, ◌<◌, ◌≡◌, refl, ap, sym, ◌∙◌, List, [], ◌∷◌, ◌++◌, append_assoc, length,
  length-append, take-append, drop-append, drop-add, Bool, Bool-cases, if◌then◌else◌, Option, none,
  some, Result, ok, err, arith, inl, inr, not_found, bytes_equal, subst, Error,
}
use in_memory_db.Bytes.Reader.{All, write_many}
use in_memory_db.Bitcask.IndexSpec.{IndexSpec, Location}
use in_memory_db.Bitcask.Record.{header_size, record_size, is_tombstone}
use in_memory_db.Bitcask.Record.RoundTrip.{encode_record-slices, length-encode_record}
use in_memory_db.Bitcask.Segment
use in_memory_db.Bitcask.Segment.{Segment, Visit}
use in_memory_db.Bitcask.Segment.Scan.{
  LogRecord, LogFits, encode, size_of, header_of, replay, written,
}
use in_memory_db.Bitcask.Segment.Appends.{read_at_lem}
use in_memory_db.Bitcask.Recovery.{replay_record}

-- What a log answers for a key: the value of its last record, nothing after a tombstone, and `before`
-- if the log has no record of the key.
unfoldable pub latest : List LogRecord → List ℕ → Result (List ℕ) → Result (List ℕ)
latest [] q before = before
latest (r ∷ rs) q before =
    latest rs q
      (if bytes_equal r.key q then (if r.tombstone then err not_found else ok r.value) else before)

is_tombstone-header_of : (r : LogRecord) → is_tombstone (header_of r) ≡ r.tombstone
unfolding is_tombstone
is_tombstone-header_of r = elim (Bool-cases r.tombstone) [ inl t ↦ rw t refl | inr f ↦ rw f refl ]

module _ (spec : IndexSpec) (seg : Segment) where
  abbrev visit : Visit spec.Index
  visit = replay_record spec seg.id

  -- The index has room for each record when its turn comes.
  unfoldable pub RoomFor : ℕ → List LogRecord → spec.Index → Type 0
  RoomFor off [] idx = Unit
  RoomFor off (r ∷ rs) idx =
      spec.Room idx r.key
      × RoomFor (off + size_of r) rs (visit off (header_of r) r.key r.value idx).0

  -- What the index answers for a key, with the segment's bytes.
  unfoldable pub answer : spec.Index → List ℕ → Result (List ℕ)
  answer idx q = elim (spec.get idx q) [
    | none ↦ err not_found
    | some loc ↦ Segment.read_at seg loc.val_offset loc.val_len
  ]

  pub answer-at :
      (idx : spec.Index) (q : List ℕ) (o : Option Location)
      → spec.get idx q ≡ o
      → answer idx q ≡ (elim o [
        | none ↦ err not_found
        | some loc ↦ Segment.read_at seg loc.val_offset loc.val_len
      ])
  unfolding answer
  answer-at idx q o h = rw (h, answer) refl

  -- Every location of the index lies in the first `n` bytes of the segment.
  abbrev pub Within : ℕ → spec.Index → Type 0
  Within n idx =
      (q : List ℕ) (loc : Location)
      → spec.get idx q ≡ some loc
      → (loc.seg_id ≡ seg.id) × (loc.val_offset + loc.val_len ≤ n)

  module _ (low : length seg.bytes < 2 ^ 32) (pre post : List ℕ) (r : LogRecord) (fits : LogFits r)
      (e : seg.bytes ≡ pre ++ (encode r ++ post)) where
    sizes : length seg.bytes ≡ length pre + (size_of r + length post)
    unfolding record_size
    sizes = omega (
      arith,
      ap (λ (bs : List ℕ). length bs) e,
      length-append pre (encode r ++ post),
      length-append (encode r) post,
      length-encode_record r.key r.value r.tombstone r.timestamp,
    )

    value_off :
        (length pre + header_size + length r.key) % 2 ^ 32
        ≡ length pre + (header_size + length r.key)
    unfolding record_size
    value_off = omega (arith, sizes)

    value_here :
        Segment.read_at seg (length pre + (header_size + length r.key)) (length r.value)
        ≡ ok r.value
    unfolding record_size
    value_here =
        read_at_lem seg (length pre + (header_size + length r.key)) (length r.value)
          (omega (arith, sizes))
        ∙ rw
            (
              e,
              ← drop-add (length pre) (header_size + length r.key) (pre ++ (encode r ++ post)),
              drop-append (length pre) pre (encode r ++ post) refl,
              (encode_record-slices r.key r.value r.tombstone r.timestamp post).1,
              take-append (length r.value) r.value post refl,
            )
            refl

    -- One entry of the index changes.
    module _ (idx idx' : spec.Index) (new : Option Location)
        (gets : (q : List ℕ)
          → spec.get idx' q ≡ (if bytes_equal r.key q then new else spec.get idx q)) where
      changed :
          (q : List ℕ)
          → answer idx' q ≡ (
              if bytes_equal r.key q
              then (elim new [
                | none ↦ err not_found
                | some loc ↦ Segment.read_at seg loc.val_offset loc.val_len
              ])
              else answer idx q)
      changed q = elim (Bool-cases (bytes_equal r.key q)) [
        | inl same ↦ rw same (answer-at idx' q new (rw same at (gets q)))
        | inr other ↦
            let g = rw other at (gets q) in
            rw other
              (answer-at idx' q (spec.get idx q) g ∙ sym (answer-at idx q (spec.get idx q) refl))
      ]

      changed-Within :
          ((loc : Location)
            → new ≡ some loc
            → (loc.seg_id ≡ seg.id) × (loc.val_offset + loc.val_len ≤ length pre + size_of r))
          → Within (length pre) idx
          → Within (length pre + size_of r) idx'
      changed-Within new_in old_in q loc h = elim (Bool-cases (bytes_equal r.key q)) [
        | inl same ↦ new_in loc (let g = rw same at (gets q) in sym g ∙ h)
        | inr other ↦
            let g = rw other at (gets q) in
            let (same_id, low') = old_in q loc (sym g ∙ h) in (same_id, omega arith)
      ]

    abbrev value_loc : Location
    value_loc = record {
      seg_id = seg.id;
      val_offset = (length pre + header_size + length r.key) % 2 ^ 32;
      val_len = length r.value;
    }

    abbrev next_index : spec.Index → spec.Index
    next_index idx = (visit (length pre) (header_of r) r.key r.value idx).0

    next_index_lem :
        (idx : spec.Index)
        → next_index idx
          ≡ (if r.tombstone then (spec.delete idx r.key).0 else (spec.put idx r.key value_loc).0)
    unfolding replay_record
    next_index_lem idx =
        let by_flag : Bool → spec.Index × Option Error = λ b.
          if b
          then ((spec.delete idx r.key).0, none)
          else ((spec.put idx r.key value_loc).0, none) in
        ap (λ (b : Bool). (by_flag b).0) (is_tombstone-header_of r)
        ∙ elim (Bool-cases r.tombstone) [ inl t ↦ rw t refl | inr f ↦ rw f refl ]

    step :
        (idx : spec.Index)
        → spec.Valid idx
        → spec.Room idx r.key
        → Within (length pre) idx
        → spec.Valid (next_index idx)
          × Within (length pre + size_of r) (next_index idx)
          × ((q : List ℕ)
              → answer (next_index idx) q ≡ (
                  if bytes_equal r.key q
                  then (if r.tombstone then err not_found else ok r.value)
                  else answer idx q))
    unfolding record_size
    step idx v room within = elim (Bool-cases r.tombstone) [
      | inl t ↦
          let is_next : next_index idx ≡ (spec.delete idx r.key).0 =
            next_index_lem idx ∙ rw t refl in
          let gets = λ (q : List ℕ). spec.get-delete idx r.key q v in
          rw (is_next, t)
            (
              spec.delete-Valid idx r.key v,
              changed-Within idx (spec.delete idx r.key).0 none gets (λ loc h. absurd cc) within,
              changed idx (spec.delete idx r.key).0 none gets,
            )
      | inr f ↦
          let is_next : next_index idx ≡ (spec.put idx r.key value_loc).0 =
            next_index_lem idx ∙ rw f refl in
          let gets = λ (q : List ℕ). spec.get-put idx r.key q value_loc v room in
          let new_in : (value_loc.seg_id ≡ seg.id)
              × (value_loc.val_offset + value_loc.val_len ≤ length pre + size_of r) =
            (refl, omega (arith, value_off)) in
          let at_new : Segment.read_at seg value_loc.val_offset value_loc.val_len ≡ ok r.value =
            rw value_off value_here in
          rw (is_next, f)
            (
              spec.put-Valid idx r.key value_loc v room,
              changed-Within idx (spec.put idx r.key value_loc).0 (some value_loc) gets
                  (λ loc h.
                    subst
                      (λ x.
                        (x.seg_id ≡ seg.id) × (x.val_offset + x.val_len ≤ length pre + size_of r))
                      (let same : value_loc ≡ loc = cc in same) new_in)
                  within,
              λ q.
                  changed idx (spec.put idx r.key value_loc).0 (some value_loc) gets q
                  ∙ rw at_new refl,
            )
    ]

  -- The replay of the records that follow `pre` in the segment: the index stays well formed and within
  -- the replayed bytes, and it answers every key as the log does.
  pub replay-latest :
      length seg.bytes < 2 ^ 32
      → (rs : List LogRecord) (pre tail : List ℕ) (idx : spec.Index)
      → seg.bytes ≡ pre ++ (written rs ++ tail)
      → All LogFits rs
      → spec.Valid idx
      → RoomFor (length pre) rs idx
      → Within (length pre) idx
      → let idx' = replay visit (length pre) rs idx in
        spec.Valid idx'
        × Within (length pre + length (written rs)) idx'
        × ((q : List ℕ) → answer idx' q ≡ latest rs q (answer idx q))
  unfolding replay latest write_many RoomFor
  replay-latest low [] pre tail idx e fits v room within =
      (v, (λ q loc h. let (a, b) = within q loc h in (a, omega (arith))), λ q. refl)
  replay-latest low (r ∷ rs) pre tail idx e (r_fits, fits) v (r_room, room) within =
      let post = written rs ++ tail in
      let split : seg.bytes ≡ pre ++ (encode r ++ post) = e ∙ simp append_assoc in
      let (v', within', answers) = step low pre post r r_fits split idx v r_room within in
      let size = length-encode_record r.key r.value r.tombstone r.timestamp in
      let at_next : length (pre ++ encode r) ≡ length pre + size_of r =
        omega (arith, length-append pre (encode r), size) in
      let regroup : seg.bytes ≡ (pre ++ encode r) ++ (written rs ++ tail) =
        split ∙ simp append_assoc in
      let ih = rw at_next at (
        replay-latest low rs (pre ++ encode r) tail (next_index low pre post r r_fits split idx)
          regroup fits v') in
      let (v'', within'', answers') = ih room within' in
      (
        v'',
        (λ q loc h.
            let (a, b) = within'' q loc h in
            (a, omega (arith, size, length-append (encode r) (written rs)))),
        λ q. answers' q ∙ ap (λ a. latest rs q a) (answers q),
      )
