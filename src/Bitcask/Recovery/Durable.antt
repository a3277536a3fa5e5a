-- ===== src/Bitcask/Recovery/Durable.antt =====
-- Recovery after a shutdown or a crash, of a directory with one segment and no snapshot.
use in_memory_db.Base.{
  ℕ, ◌+◌, ◌%◌, ◌^◌, ◌<◌, ◌≡◌, refl, ap, sym, ◌∙◌, List, [], ◌∷◌, ◌++◌, length, take, replicate,
  length-append, Bool-cases, false, Option, none, some, ok, err, arith, inl, inr, ◌⊎◌, not_found,
  ==_iff, ◌>>=◌,
}
use in_memory_db.Base.NatMap.{lookup, insert, lookup-insert}
use in_memory_db.Bytes.Reader.{All}
use in_memory_db.Bitcask.IndexSpec.{IndexSpec, Location}
use in_memory_db.Bitcask.Record.{is_tombstone}
use in_memory_db.Bitcask.Segment.{Segment, open_segment, next_record, for_each}
use in_memory_db.Bitcask.Segment.Scan.{LogRecord, LogFits, Quiet, encode, size_of, replay, written}
use in_memory_db.Bitcask.Segment.LogEnd.{scan_from_start, next_record_zeros, next_record_torn}
use in_memory_db.Bitcask.Db.{Db, Options, get_locked, set_segment}
use in_memory_db.Bitcask.Db.Layout.{Layout, lookup_set, segment_at_lem}
use in_memory_db.Bitcask.Db.Reads.{IsValid, get_locked_at}
use in_memory_db.Bitcask.Recovery.{
  recover, walk_outcome, new_db, try_load_snapshot, replay_segment, replay_record, replayed,
}
use in_memory_db.Bitcask.Recovery.Replay.{RoomFor, Within, latest, answer, answer-at, replay-latest}

replayed_lem :
    (spec : IndexSpec) (seg : Segment) (idx idx' : spec.Index) (n : ℕ)
    → for_each seg 0 (replay_record spec seg.id) idx ≡ (n, none, idx')
    → replayed spec seg 0 idx ≡ ok (record seg { size = n }, idx')
unfolding replayed replay_segment
replayed_lem spec seg idx idx' n h =
    ap (λ t. walk_outcome t >>= λ (end_, i). ok (record seg { size = end_ }, i)) h

module _ (spec : IndexSpec) (opts : Options) (id : ℕ) (rs : List LogRecord) (tail : List ℕ) where
  abbrev file : Segment
  file = open_segment id (written rs ++ tail)

  quiet : Quiet (replay_record spec id)
  unfolding replay_record
  quiet off h key value idx = elim (Bool-cases (is_tombstone h)) [
    | inl t ↦ rw t refl
    | inr f ↦ rw f refl
  ]

  abbrev index : spec.Index
  index = replay (replay_record spec id) 0 rs spec.empty

  abbrev recovered : Db spec
  recovered = record {
    opts = opts;
    idx = index;
    segments = insert id (record file { size = length (written rs) }) [];
    active = id;
    compact_out = none;
    next_seg_id = (id + 1) % 2 ^ 32;
    dead_bytes = [];
    compact_err = none;
    is_closed = false;
  }

  abbrev pub used : Segment
  used = record file { size = length (written rs) }

  only_one :
      (i : ℕ) (seg : Segment) → lookup i recovered.segments ≡ some seg → (id ≡ i) × (used ≡ seg)
  unfolding lookup
  only_one i seg h = elim (lookup_set id i used seg [] h) [
    | inl (same, eq) ↦ (same, eq)
    | inr (_, old) ↦ absurd cc
  ]

  module _ (fits : All LogFits rs)
      (stop : next_record (written rs ++ tail) (length (written rs)) ≡ none) where
    replayed-file : replayed spec file 0 spec.empty ≡ ok (used, index)
    unfolding open_segment for_each
    replayed-file =
        replayed_lem spec file spec.empty index (length (written rs))
          (scan_from_start (replay_record spec id) quiet rs tail spec.empty fits stop)

    recover_one : recover none ((id, written rs ++ tail) ∷ []) (new_db opts) ≡ ok recovered
    unfolding recover set_segment new_db try_load_snapshot open_segment
    recover_one = rw (replayed-file) refl

    here : lookup id recovered.segments ≡ some used
    here = rw (lookup-insert, (==_iff id id).1 refl)

    module _ (low : length (written rs ++ tail) < 2 ^ 32) (ids_left : id + 1 < 2 ^ 32)
        (room : RoomFor spec used 0 rs spec.empty) where
      recovered-Layout : Layout recovered
      unfolding open_segment
      recovered-Layout = record {
        ids = λ i seg h. let (same, eq) = only_one i seg h in rw (← eq) same;
        sized = λ i seg h.
            let (same, eq) = only_one i seg h in
            rw (← eq) (record {
              used = omega (arith, length-append (written rs) tail);
              mapped = refl;
              addressable = low;
            });
        below = λ i seg h. let (same, eq) = only_one i seg h in omega (arith, same);
        active_here = (used, here);
      }

      replays :
          spec.Valid index
          × Within spec used (length (written rs)) index
          × ((q : List ℕ) → answer spec used index q ≡ latest rs q (answer spec used spec.empty q))
      unfolding open_segment
      replays =
          let at_start : 0 + length (written rs) ≡ length (written rs) = omega arith in
          rw at_start at (
            replay-latest spec used low rs [] tail spec.empty refl fits spec.empty-Valid room
              (λ q loc h. let e = spec.get-empty q in absurd cc))

      recovered-IsValid : IsValid recovered
      unfolding open_segment
      recovered-IsValid = record {
        layout = recovered-Layout;
        idx_valid = replays.0;
        placed = λ key loc h.
            let (same, inside) = replays.1 key loc h in (used, rw same here, omega (arith, inside));
      }

      reads_at :
          (key : List ℕ) (o : Option Location)
          → spec.get index key ≡ o
          → get_locked key recovered ≡ answer spec used index key
      reads_at key none h =
          get_locked_at key recovered none h ∙ sym (answer-at spec used index key none h)
      reads_at key (some loc) h =
          let same = replays.1 key loc h in
          let at_seg : loc.seg_id ≡ id = same.0 ∙ unfold open_segment in refl in
          get_locked_at key recovered (some loc) h
          ∙ (rw (at_seg, segment_at_lem id used recovered here) refl
              ∙ sym (answer-at spec used index key (some loc) h))

      pub recover_file :
          (db : Db spec) × (recover none ((id, written rs ++ tail) ∷ []) (new_db opts) ≡ ok db)
          × IsValid db
          × (db.is_closed ≡ false)
          × ((key : List ℕ) → get_locked key db ≡ latest rs key (err not_found))
      recover_file = (
        recovered,
        recover_one,
        recovered-IsValid,
        refl,
        λ key.
            let before : answer spec used spec.empty key ≡ err not_found =
              answer-at spec used spec.empty key none (spec.get-empty key) in
            reads_at key (spec.get index key) refl
            ∙ (replays.2 key ∙ ap (λ a. latest rs key a) before),
      )

-- Recovery of a directory with one segment file and no snapshot, where the file holds whole
-- records and then zeroed space, or whole records and a last record that is cut short, the
-- records fit their header, the file is shorter than 2^32 bytes, the next segment id fits 32
-- bits, and the index has room for each record: it succeeds with a valid, open store in which
-- every key reads as its last whole record says, and as not found after a tombstone or without a
-- record.
pub recover-latest :
    (spec : IndexSpec) (opts : Options) (id : ℕ) (rs : List LogRecord) (tail : List ℕ)
    → All LogFits rs
    → ((n : ℕ) × (tail ≡ replicate n 0))
      ⊎ ((r : LogRecord) × (n : ℕ) × LogFits r × (n < size_of r) × (tail ≡ take n (encode r)))
    → length (written rs ++ tail) < 2 ^ 32
    → id + 1 < 2 ^ 32
    → RoomFor spec (used spec opts id rs tail) 0 rs spec.empty
    → (db : Db spec) × (recover none ((id, written rs ++ tail) ∷ []) (new_db opts) ≡ ok db)
      × IsValid db
      × (db.is_closed ≡ false)
      × ((key : List ℕ) → get_locked key db ≡ latest rs key (err not_found))
recover-latest spec opts id rs tail fits ends low ids_left room =
    let stop : next_record (written rs ++ tail) (length (written rs)) ≡ none = elim ends [
      | inl (n, e) ↦ rw e (next_record_zeros (written rs) n)
      | inr (r, n, r_fits, short, e) ↦ rw e (next_record_torn (written rs) r n r_fits short)
    ] in
    recover_file spec opts id rs tail fits stop low ids_left room
