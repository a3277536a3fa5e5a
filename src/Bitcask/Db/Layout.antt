-- ===== src/Bitcask/Db/Layout.antt =====
-- The segments of a store: what rotations and writes keep readable.
use in_memory_db.Base.{
  ℕ, ◌+◌, ◌%◌, ◌^◌, ◌≤◌, ◌<◌, ◌≡◌, refl, sym, ◌∙◌, List, length, take, drop, leb, le→leb, leb→le,
  ◌==◌, ==_iff, false, Bool-cases, inl, inr, ◌⊎◌, subst, some, ok, arith,
}
use in_memory_db.Base.NatMap.{NatMap, lookup, insert, lookup-insert}
use in_memory_db.Bitcask.IndexSpec.{IndexSpec}
use in_memory_db.Bitcask.Segment
use in_memory_db.Bitcask.Segment.{Segment, create_segment}
use in_memory_db.Bitcask.Segment.Appends.{
  IsSized, Extends, Extends-refl, Extends-trans, create_segment-IsSized, finalize-IsSized,
  finalize-Extends, after_append, append_lem, after_append-IsSized, append-Extends, append-reads,
}
use in_memory_db.Bitcask.Db.{Db, set_segment, segment_at, rotate, ensure_capacity, write_record}

-- What stands at a key after a write to the map.
pub lookup_set :
    {V : Type 0} (k id : ℕ) (v s : V) (m : NatMap V)
    → lookup id (insert k v m) ≡ some s
    → ((k ≡ id) × (v ≡ s)) ⊎ (((k == id) ≡ false) × (lookup id m ≡ some s))
lookup_set k id v s m h = elim (Bool-cases (k == id)) [
  | inl same ↦ let h' = rw (lookup-insert k id v m, same) at h in inl ((==_iff k id).0 same, cc)
  | inr other ↦ let h' = rw (lookup-insert k id v m, other) at h in inr (other, h')
]

lookup-insert-some :
    {V : Type 0} (k id : ℕ) (v : V) (m : NatMap V)
    → (s : V) × (lookup id m ≡ some s)
    → (s : V) × (lookup id (insert k v m) ≡ some s)
lookup-insert-some k id v m (s, h) = elim (Bool-cases (k == id)) [
  | inl same ↦ (v, rw (lookup-insert, same))
  | inr other ↦ (s, rw (lookup-insert, other) h)
]

module _ {spec : IndexSpec} where
  -- The map of segments and the pointers into it.
  pub record Layout (db : Db spec) : Type 0 where
    pub ids : (id : ℕ) (seg : Segment) → lookup id db.segments ≡ some seg → seg.id ≡ id
    pub sized : (id : ℕ) (seg : Segment) → lookup id db.segments ≡ some seg → IsSized seg
    pub below : (id : ℕ) (seg : Segment) → lookup id db.segments ≡ some seg → id < db.next_seg_id
    pub active_here : (seg : Segment) × (lookup db.active db.segments ≡ some seg)

  -- Every segment of the first store is in the second, with its bytes in use as they were.
  abbrev pub Kept : Db spec → Db spec → Type 0
  Kept db db' =
      (id : ℕ) (seg : Segment)
      → lookup id db.segments ≡ some seg
      → (seg' : Segment) × (lookup id db'.segments ≡ some seg') × Extends seg seg'

  pub Kept-trans : (a b c : Db spec) → Kept a b → Kept b c → Kept a c
  Kept-trans a b c ab bc id seg h =
      let (seg', h', e) = ab id seg h in
      let (seg'', h'', f) = bc id seg' h' in (seg'', h'', Extends-trans e f)

  -- A segment of the map is replaced by one that extends it.
  module _ (db : Db spec) (seg old : Segment) (l : Layout db)
      (here : lookup seg.id db.segments ≡ some old) (sized : IsSized seg)
      (e : Extends old seg) where
    pub set_segment-Layout : Layout (set_segment seg db)
    unfolding set_segment
    set_segment-Layout = record {
      ids = λ id s h. elim (lookup_set seg.id id seg s db.segments h) [
        | inl (same, eq) ↦ rw (← eq) same
        | inr (_, old_one) ↦ l.ids id s old_one
      ];
      sized = λ id s h. elim (lookup_set seg.id id seg s db.segments h) [
        | inl (same, eq) ↦ subst IsSized eq sized
        | inr (_, old_one) ↦ l.sized id s old_one
      ];
      below = λ id s h. elim (lookup_set seg.id id seg s db.segments h) [
        | inl (same, eq) ↦ omega (arith, l.below seg.id old here)
        | inr (_, old_one) ↦ l.below id s old_one
      ];
      active_here = lookup-insert-some seg.id db.active seg db.segments l.active_here;
    }

    pub set_segment-Kept : Kept db (set_segment seg db)
    unfolding set_segment
    set_segment-Kept id s h = elim (Bool-cases (seg.id == id)) [
      | inl same ↦
          let at_id : seg.id ≡ id = (==_iff seg.id id).0 same in
          let is_old : old ≡ s = ground (arith, h, here, rw at_id at here) in
          (seg, rw (lookup-insert, same), subst (λ x. Extends x seg) is_old e)
      | inr other ↦ (s, rw (lookup-insert, other) h, Extends-refl s)
    ]

  -- A new segment under the next id becomes the active one.
  module _ (db : Db spec) (l : Layout db) (capacity : ℕ) (low : capacity < 2 ^ 32)
      (ids_left : db.next_seg_id + 1 < 2 ^ 32) where
    abbrev pub fresh : Segment
    fresh = create_segment db.next_seg_id capacity

    abbrev pub opened : Db spec
    opened = record db {
      segments = insert fresh.id fresh db.segments;
      active = db.next_seg_id;
      next_seg_id = (db.next_seg_id + 1) % 2 ^ 32;
    }

    fresh_id : fresh.id ≡ db.next_seg_id
    unfolding create_segment
    fresh_id = refl

    pub opened_active : lookup opened.active opened.segments ≡ some fresh
    opened_active = rw (lookup-insert, (==_iff fresh.id db.next_seg_id).1 fresh_id)

    next_id : (db.next_seg_id + 1) % 2 ^ 32 ≡ db.next_seg_id + 1
    next_id = omega arith

    pub opened-Layout : Layout opened
    opened-Layout = record {
      ids = λ id s h. elim (lookup_set fresh.id id fresh s db.segments h) [
        | inl (same, eq) ↦ rw (← eq) same
        | inr (_, old_one) ↦ l.ids id s old_one
      ];
      sized = λ id s h. elim (lookup_set fresh.id id fresh s db.segments h) [
        | inl (same, eq) ↦ subst IsSized eq (create_segment-IsSized db.next_seg_id capacity low)
        | inr (_, old_one) ↦ l.sized id s old_one
      ];
      below = λ id s h. elim (lookup_set fresh.id id fresh s db.segments h) [
        | inl (same, eq) ↦ omega (arith, fresh_id)
        | inr (_, old_one) ↦ omega (arith, l.below id s old_one)
      ];
      active_here = (fresh, opened_active);
    }

    pub opened-Kept : Kept db opened
    opened-Kept id s h = elim (Bool-cases (fresh.id == id)) [
      | inl same ↦ absurd (omega (arith, l.below id s h, fresh_id, (==_iff fresh.id id).0 same))
      | inr other ↦ (s, rw (lookup-insert, other) h, Extends-refl s)
    ]

  set_segment_here :
      (seg : Segment) (db : Db spec)
      → seg.id ≡ db.active
      → lookup (set_segment seg db).active (set_segment seg db).segments ≡ some seg
  unfolding set_segment
  set_segment_here seg db e = rw (lookup-insert, (==_iff seg.id db.active).1 e)

  pub segment_at_lem :
      (id : ℕ) (seg : Segment) (db : Db spec)
      → lookup id db.segments ≡ some seg
      → segment_at id db ≡ ok seg
  unfolding segment_at
  segment_at_lem id seg db h = rw (h, segment_at)

  -- Room for a record: either the active segment has it, or it is finalized and a new one has it.
  pub record Roomy (n : ℕ) (db db' : Db spec) : Type 0 where
    pub layout : Layout db'
    pub kept : Kept db db'
    pub act : Segment
    pub is_active : lookup db'.active db'.segments ≡ some act
    pub room : n ≤ Segment.remaining act
    pub idx : db'.idx ≡ db.idx
    pub live : db'.is_closed ≡ db.is_closed

  rotate_lem :
      (n : ℕ) (db : Db spec) (act : Segment)
      → Layout db
      → n ≤ db.opts.segment_size
      → db.opts.segment_size < 2 ^ 32
      → db.next_seg_id + 1 < 2 ^ 32
      → lookup db.active db.segments ≡ some act
      → Roomy n db (record (rotate (some act) db) { active = db.next_seg_id })
  unfolding rotate set_segment
  rotate_lem n db act l small low ids_left here =
      let done = Segment.finalize act in
      let e = finalize-Extends act (l.sized db.active act here) in
      let at_act : lookup done.id db.segments ≡ some act =
        subst (λ k. lookup k db.segments ≡ some act) (sym (e.same_id ∙ l.ids db.active act here))
          here in
      let v = finalize-IsSized act (l.sized db.active act here) in
      let l₁ = set_segment-Layout db done act l at_act v e in
      let k₁ = set_segment-Kept db done act l at_act v e in
      let db₁ = set_segment done db in
      let l₂ = opened-Layout db₁ l₁ db.opts.segment_size low ids_left in
      let k₂ = opened-Kept db₁ l₁ db.opts.segment_size low ids_left in
      record {
        layout = l₂;
        kept = Kept-trans db db₁ (opened db₁ l₁ db.opts.segment_size low ids_left) k₁ k₂;
        act = create_segment db.next_seg_id db.opts.segment_size;
        is_active = opened_active db₁ l₁ db.opts.segment_size low ids_left;
        room = unfold create_segment Segment.remaining in omega arith;
        idx = refl;
        live = refl;
      }

  -- A record that fits a segment finds room, if segment ids are left.
  pub ensure_capacity_lem :
      (n : ℕ) (db : Db spec)
      → Layout db
      → n ≤ db.opts.segment_size
      → db.opts.segment_size < 2 ^ 32
      → db.next_seg_id + 1 < 2 ^ 32
      → (db' : Db spec) × (ensure_capacity n db ≡ ok db') × Roomy n db db'
  unfolding ensure_capacity
  ensure_capacity_lem n db l small low ids_left =
      let (act, here) = l.active_here in
      elim (Bool-cases (leb n (Segment.remaining act))) [
        | inl enough ↦ (
          db,
          rw (le→leb n db.opts.segment_size small, segment_at_lem db.active act db here, enough),
          record {
            layout = l;
            kept = λ id s h. (s, h, Extends-refl s);
            act = act;
            is_active = here;
            room = leb→le _ _ enough;
            idx = refl;
            live = refl;
          },
        )
        | inr full ↦ (
          record (rotate (some act) db) { active = db.next_seg_id },
          rw (le→leb n db.opts.segment_size small, segment_at_lem db.active act db here, full),
          rotate_lem n db act l small low ids_left here,
        )
      ]

  -- A record at the end of the active segment.
  pub record Wrote (rec : List ℕ) (db : Db spec) (off : ℕ) (db' : Db spec) : Type 0 where
    pub layout : Layout db'
    pub kept : Kept db db'
    pub seg : Segment
    pub is_active : lookup db'.active db'.segments ≡ some seg
    pub inside : off + length rec ≤ seg.size
    pub reads :
        (o n : ℕ) → o + n ≤ length rec → Segment.read_at seg (off + o) n ≡ ok (take n (drop o rec))
    pub idx : db'.idx ≡ db.idx
    pub live : db'.is_closed ≡ db.is_closed

  pub write_record_lem :
      (rec : List ℕ) (db : Db spec)
      → Layout db
      → length rec ≤ db.opts.segment_size
      → db.opts.segment_size < 2 ^ 32
      → db.next_seg_id + 1 < 2 ^ 32
      → db.is_closed ≡ false
      → (off : ℕ) × (db' : Db spec) × (write_record rec db ≡ ok (off, db')) × Wrote rec db off db'
  unfolding write_record
  write_record_lem rec db l small low ids_left live =
      let (db₁, run, r) = ensure_capacity_lem (length rec) db l small low ids_left in
      let v = r.layout.sized db₁.active r.act r.is_active in
      let seg = after_append r.act v rec r.room in
      let at_seg : lookup seg.id db₁.segments ≡ some r.act =
        subst (λ k. lookup k db₁.segments ≡ some r.act)
          (sym (r.layout.ids db₁.active r.act r.is_active)) r.is_active in
      let e = append-Extends r.act v rec r.room in
      let w = after_append-IsSized r.act v rec r.room in
      (
        r.act.size,
        set_segment seg db₁,
        simp live (
            rw (
              run,
              segment_at_lem db₁.active r.act db₁ r.is_active,
              append_lem r.act v rec r.room,
            )),
        record {
          layout = set_segment-Layout db₁ seg r.act r.layout at_seg w e;
          kept =
              Kept-trans db db₁ (set_segment seg db₁) r.kept
                (set_segment-Kept db₁ seg r.act r.layout at_seg w e);
          seg = seg;
          is_active = set_segment_here seg db₁ (r.layout.ids db₁.active r.act r.is_active);
          inside = omega arith;
          reads = append-reads r.act v rec r.room;
          idx = unfold set_segment in r.idx;
          live = unfold set_segment in r.live;
        },
      )
