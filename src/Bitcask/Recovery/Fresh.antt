-- ===== src/Bitcask/Recovery/Fresh.antt =====
-- The store that Open makes in a directory without segment files.
use in_memory_db.Base.{ℕ, ◌^◌, ◌<◌, ◌≡◌, [], false, none, some, arith, inl, inr}
use in_memory_db.Base.NatMap.{lookup, insert, lookup-insert}
use in_memory_db.Bitcask.IndexSpec.{IndexSpec}
use in_memory_db.Bitcask.Segment.{Segment, create_segment}
use in_memory_db.Bitcask.Segment.Appends.{create_segment-IsSized}
use in_memory_db.Bitcask.Db.{Db, Options}
use in_memory_db.Bitcask.Db.Layout.{Layout, lookup_set}
use in_memory_db.Bitcask.Db.Reads.{IsValid}

module _ (spec : IndexSpec) (opts : Options) where
  abbrev first : Segment
  first = create_segment 0 opts.segment_size

  abbrev pub fresh : Db spec
  fresh = record {
    opts = opts;
    idx = spec.empty;
    segments = insert 0 first [];
    active = 0;
    compact_out = none;
    next_seg_id = 1;
    dead_bytes = [];
    compact_err = none;
    is_closed = false;
  }

  only_first :
      (id : ℕ) (seg : Segment) → lookup id fresh.segments ≡ some seg → (0 ≡ id) × (first ≡ seg)
  unfolding lookup
  only_first id seg h = elim (lookup_set 0 id first seg [] h) [
    | inl (same, eq) ↦ (same, eq)
    | inr (_, old) ↦ absurd cc
  ]

  fresh-Layout : opts.segment_size < 2 ^ 32 → Layout fresh
  unfolding create_segment
  fresh-Layout low = record {
    ids = λ id seg h. let (same, eq) = only_first id seg h in rw (← eq) same;
    sized = λ id seg h.
        let (same, eq) = only_first id seg h in
        rw (← eq) (create_segment-IsSized 0 opts.segment_size low);
    below = λ id seg h. let (same, eq) = only_first id seg h in omega (arith, same);
    active_here = (first, rw (lookup-insert));
  }

  pub fresh-IsValid : opts.segment_size < 2 ^ 32 → IsValid fresh
  fresh-IsValid low = record {
    layout = fresh-Layout low;
    idx_valid = spec.empty-Valid;
    placed = λ key loc h. let e = spec.get-empty key in absurd cc;
  }
