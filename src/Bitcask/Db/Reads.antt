-- ===== src/Bitcask/Db/Reads.antt =====
-- What a read returns after a write.
use in_memory_db.Base.{
  take_all, ℕ, ◌+◌, ◌%◌, ◌^◌, ◌≤◌, ◌<◌, ◌≡◌, refl, ap, sym, ◌∙◌, List, [], append-nil, length, take,
  drop, false, Bool-cases, inl, inr, if◌then◌else◌, Option, none, some, Result, ok, err, ◌>>=◌,
  arith, bytes_equal, not_found,
}
use in_memory_db.Base.NatMap.{NatMap, lookup}
use in_memory_db.Bitcask.IndexSpec.{IndexSpec, Location}
use in_memory_db.Bitcask.Record.{header_size, record_size, encode_record}
use in_memory_db.Bitcask.Record.RoundTrip.{length-encode_record, encode_record-slices}
use in_memory_db.Bitcask.Segment
use in_memory_db.Bitcask.Segment.{Segment}
use in_memory_db.Bitcask.Db.{
  Db, max_key_len, get_locked, check_key, retire, value_location, add_dead_bytes, segment_at,
}
use in_memory_db.Bitcask.Db.Layout.{Layout, Kept, Wrote, segment_at_lem}

pub check_key_lem :
    (key : List ℕ) → 0 < length key → length key ≤ max_key_len → check_key key ≡ ok tt
unfolding check_key
check_key_lem key pos small = ground arith

module _ {spec : IndexSpec} where
  -- A location whose bytes are in use in a segment of the store.
  abbrev pub Stored : Db spec → Location → Type 0
  Stored db loc =
      (seg : Segment) × (lookup loc.seg_id db.segments ≡ some seg)
      × (loc.val_offset + loc.val_len ≤ seg.size)

  pub record IsValid (db : Db spec) : Type 0 where
    pub layout : Layout db
    pub idx_valid : spec.Valid db.idx
    pub placed : (key : List ℕ) (loc : Location) → spec.get db.idx key ≡ some loc → Stored db loc

  -- The bytes at a location.
  abbrev pub bytes_at : Location → Db spec → Result (List ℕ)
  bytes_at loc db = do
    seg ← segment_at loc.seg_id db
    Segment.read_at seg loc.val_offset loc.val_len

  Stored-Kept :
      (db db' : Db spec) (loc : Location)
      → Kept db db'
      → Stored db loc
      → Stored db' loc × (bytes_at loc db' ≡ bytes_at loc db)
  Stored-Kept db db' loc kept (seg, here, inside) =
      let (seg', here', e) = kept loc.seg_id seg here in
      (
        (seg', here', omega (arith, e.grows)),
        rw (segment_at_lem loc.seg_id seg db here, segment_at_lem loc.seg_id seg' db' here')
            (e.reads loc.val_offset loc.val_len inside),
      )

  pub get_locked-none :
      (key : List ℕ) (db : Db spec) → spec.get db.idx key ≡ none → get_locked key db ≡ err not_found
  unfolding get_locked
  get_locked-none key db h = rw (h, get_locked)

  pub get_locked-some :
      (key : List ℕ) (db : Db spec) (loc : Location)
      → spec.get db.idx key ≡ some loc
      → get_locked key db ≡ bytes_at loc db
  unfolding get_locked
  get_locked-some key db loc h = rw (h, get_locked)

  -- Where Put points the index, the value can be read back.
  module _ (key value : List ℕ) (now : ℕ) (db : Db spec) where
    abbrev rec : List ℕ
    rec = encode_record key value false now

    whole_value : take (length value) (drop (header_size + length key) rec) ≡ value
    whole_value =
        let at_value : drop (header_size + length key) rec ≡ value =
          simp append-nil at ((encode_record-slices key value false now []).1) in
        rw at_value (take_all (length value) value (omega arith))

    pub Stored-value :
        (off : ℕ) (db' : Db spec)
        → Wrote rec db off db'
        → let loc = value_location db'.active off key value in
          Stored db' loc × (bytes_at loc db' ≡ ok value)
    unfolding value_location record_size
    Stored-value off db' w =
        let size = length-encode_record key value false now in
        let v = w.layout.sized db'.active w.seg w.is_active in
        let low : off + length rec < 2 ^ 32 = omega (arith, w.inside, v.used, v.addressable) in
        let no_wrap : (off + header_size + length key) % 2 ^ 32 ≡ off + (header_size + length key) =
          omega (arith, size) in
        let len_fits : length value % 2 ^ 32 ≡ length value = omega (arith, size) in
        (
          (w.seg, w.is_active, rw (no_wrap, len_fits) (omega (arith, size, w.inside))),
          rw
              (
                segment_at_lem db'.active w.seg db' w.is_active,
                no_wrap,
                len_fits,
                w.reads (header_size + length key) (length value) (omega (arith, size)),
              )
              (ap ok whole_value),
        )

  -- Counting dead bytes changes nothing else.
  pub retire_lem :
      (key : List ℕ) (prev : Option Location) (db : Db spec)
      → (dead : NatMap ℕ) × (retire key prev db ≡ record db { dead_bytes = dead })
  unfolding retire add_dead_bytes
  retire_lem key none db = (db.dead_bytes, refl)
  retire_lem key (some prev) db = (_, refl)

  -- The effect of a write on all that reads see: one key has a new answer, and the others the old.
  pub record Effect (key : List ℕ) (answer : Result (List ℕ)) (db db' : Db spec) : Type 0 where
    pub valid : IsValid db'
    pub live : db'.is_closed ≡ db.is_closed
    pub reads :
        (q : List ℕ) → get_locked q db' ≡ (if bytes_equal key q then answer else get_locked q db)

  -- What a key with this location, or none, reads as.
  abbrev answer_at : Option Location → Db spec → Result (List ℕ)
  answer_at none db = err not_found
  answer_at (some loc) db = bytes_at loc db

  pub get_locked_at :
      (key : List ℕ) (db : Db spec) (o : Option Location)
      → spec.get db.idx key ≡ o
      → get_locked key db ≡ answer_at o db
  get_locked_at key db none h = get_locked-none key db h
  get_locked_at key db (some loc) h = get_locked-some key db loc h

  -- One entry of the index changes, and the segments only grow.
  module _ (key : List ℕ) (new : Option Location) (db db' : Db spec) (v : IsValid db)
      (layout : Layout db') (kept : Kept db db') (idx_valid : spec.Valid db'.idx)
      (gets : (q : List ℕ)
        → spec.get db'.idx q ≡ (if bytes_equal key q then new else spec.get db.idx q))
      (new_stored : (loc : Location) → new ≡ some loc → Stored db' loc) where
    kept_answer :
        (q : List ℕ) (o : Option Location)
        → spec.get db.idx q ≡ o
        → answer_at o db' ≡ answer_at o db
    kept_answer q none h = refl
    kept_answer q (some loc) h = (Stored-Kept db db' loc kept (v.placed q loc h)).1

    updated_placed : (q : List ℕ) (loc : Location) → spec.get db'.idx q ≡ some loc → Stored db' loc
    updated_placed q loc h = elim (Bool-cases (bytes_equal key q)) [
      | inl same ↦ new_stored loc (let g = rw same at (gets q) in sym g ∙ h)
      | inr other ↦
          let g = rw other at (gets q) in
          (Stored-Kept db db' loc kept (v.placed q loc (sym g ∙ h))).0
    ]

    updated_reads :
        (q : List ℕ)
        → get_locked q db' ≡ (if bytes_equal key q then answer_at new db' else get_locked q db)
    updated_reads q = elim (Bool-cases (bytes_equal key q)) [
      | inl same ↦ rw same (get_locked_at q db' new (rw same at (gets q)))
      | inr other ↦
          let g = rw other at (gets q) in
          rw other (
            get_locked_at q db' (spec.get db.idx q) g
            ∙ (kept_answer q (spec.get db.idx q) refl
                ∙ sym (get_locked_at q db (spec.get db.idx q) refl)))
    ]

    pub updated : db'.is_closed ≡ db.is_closed → Effect key (answer_at new db') db db'
    updated live = record {
      valid = record { layout = layout; idx_valid = idx_valid; placed = updated_placed };
      live = live;
      reads = updated_reads;
    }

  -- The index and the dead bytes are no part of the layout.
  pub with_index :
      (db : Db spec) (idx : spec.Index) (dead : NatMap ℕ)
      → Layout db
      → Layout (record db { idx = idx; dead_bytes = dead })
  with_index db idx dead l = record {
    ids = l.ids;
    sized = l.sized;
    below = l.below;
    active_here = l.active_here;
  }

  pub same_bytes :
      (db : Db spec) (idx : spec.Index) (dead : NatMap ℕ) (loc : Location)
      → Stored db loc
      → bytes_at loc (record db { idx = idx; dead_bytes = dead }) ≡ bytes_at loc db
  same_bytes db idx dead loc (seg, here, inside) = rw (
    segment_at_lem loc.seg_id seg db here,
    segment_at_lem loc.seg_id seg (record db { idx = idx; dead_bytes = dead }) here,
  )
