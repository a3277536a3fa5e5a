-- ===== src/Tests/Store.antt =====
-- The store at concrete inputs: one segment of 128 bytes, and logs of a few records.
use in_memory_db.Base.{
  ◌⊎◌, ℕ, ◌+◌, ◌<◌, ◌≡◌, refl, List, [], ◌∷◌, ◌++◌, length, take, replicate, true, false, none,
  some, ok, err, ◌>>=◌, arith, inr, not_found, foldl, ◌^◌, length-append, length-take,
}
use in_memory_db.Base.NatMap.{insert, lookup, remove}
use in_memory_db.Bytes.Reader.{write_many}
use in_memory_db.Bitcask.Record.RoundTrip.{length-encode_record}
use in_memory_db.Bitcask.Record.{record_size}
use in_memory_db.Bitcask.Segment.{Segment, Visit, create_segment, for_each, next_record}
use in_memory_db.Bitcask.Segment.Scan.{
  LogRecord, LogFits, encode, header_of, written, replay, next_record-encode,
}
use in_memory_db.Bitcask.Segment.LogEnd.{for_each-written, for_each-torn}
use in_memory_db.Bitcask.Db.{Db, Options, put, delete, get_locked, segment_at, get, has}
use in_memory_db.Bitcask.Db.Reads.{IsValid, Effect}
use in_memory_db.Bitcask.Db.Writes.{put-Effect, delete-Effect}
use in_memory_db.Bitcask.Snapshot.{
  save_snapshot, load_snapshot_into, apply_entry, load_snapshot_into-save,
}
use in_memory_db.Bitcask.Recovery.{recover, new_db}
use in_memory_db.Bitcask.Recovery.Fresh.{fresh, fresh-IsValid}
use in_memory_db.Bitcask.Recovery.Replay.{RoomFor, latest}
use in_memory_db.Bitcask.Recovery.Durable.{used, recover-latest}
use in_memory_db.Tests.Index.{index, new_index-Room, two_slots, two_slots-Valid}
use in_memory_db.Bitcask.HashIndex.{new_index, entries, live_entries, key_at}
use in_memory_db.Bitcask.HashIndex.KeyArena
use in_memory_db.Bitcask.Recovery.Answers.{get-has}

abbrev opts : Options
opts = record {
  dir = 46 ∷ [];
  segment_size = 128;
  sync_on_write = false;
  snapshot_on_close = true;
  ratio_num = 1;
  ratio_den = 2;
}

abbrev db : Db index
db = fresh index opts

abbrev key : List ℕ
key = 107 ∷ []

abbrev value : List ℕ
value = 118 ∷ 119 ∷ []

put-Effect_example : (db' : Db index) × (put key value 7 db ≡ ok db') × Effect key (ok value) db db'
put-Effect_example =
    put-Effect key value 7 db (fresh-IsValid index opts (omega arith)) refl (omega arith)
      (omega arith) (unfold record_size in omega arith) (omega arith) (omega arith) new_index-Room

delete-Effect_example :
    (db' : Db index) × (delete key 7 db ≡ ok db') × Effect key (err not_found) db db'
delete-Effect_example =
    delete-Effect key 7 db (fresh-IsValid index opts (omega arith)) refl (omega arith) (omega arith)
      (unfold record_size in omega arith) (omega arith) (omega arith)

abbrev first : LogRecord
first = record { key = key; value = value; tombstone = false; timestamp = 5 }

abbrev second : LogRecord
second = record { key = key; value = []; tombstone = true; timestamp = 6 }

first_fits : LogFits first
first_fits = record {
  key_fits = omega arith;
  value_fits = omega arith;
  timestamp_fits = omega arith;
}

second_fits : LogFits second
second_fits = record {
  key_fits = omega arith;
  value_fits = omega arith;
  timestamp_fits = omega arith;
}

next_record-encode_example :
    next_record ((0 ∷ 0 ∷ []) ++ (encode first ++ (0 ∷ []))) 2 ≡ some (header_of first, key, value)
next_record-encode_example = next_record-encode (0 ∷ 0 ∷ []) first (0 ∷ []) first_fits

-- A visit that counts the records.
abbrev count : Visit ℕ
count off h k v n = (n + 1, none)

abbrev log_of : List ℕ → Segment
log_of bs = record { id = 0; bytes = bs; capacity = length bs; size = 0 }

for_each-written_example :
    for_each (log_of (written (first ∷ second ∷ []) ++ replicate 30 0)) 0 count 0
    ≡ (length (written (first ∷ second ∷ [])), none, replay count 0 (first ∷ second ∷ []) 0)
for_each-written_example =
    for_each-written count (λ off h k v n. refl)
      (log_of (written (first ∷ second ∷ []) ++ replicate 30 0)) (first ∷ second ∷ []) 30 0
      (first_fits, (second_fits, tt)) refl

for_each-torn_example :
    for_each (log_of (written (first ∷ []) ++ take 9 (encode second))) 0 count 0
    ≡ (length (written (first ∷ [])), none, replay count 0 (first ∷ []) 0)
for_each-torn_example =
    for_each-torn count (λ off h k v n. refl)
      (log_of (written (first ∷ []) ++ take 9 (encode second))) (first ∷ []) second 9 0
      (first_fits, tt) second_fits (unfold record_size in omega arith) refl

short : length (written (first ∷ []) ++ take 9 (encode second)) < 2 ^ 32
unfolding record_size write_many
short = omega (
  arith,
  length-append (written (first ∷ [])) (take 9 (encode second)),
  length-append (encode first) [],
  length-encode_record key value false 5,
  length-encode_record key [] true 6,
  length-take 9 (encode second) (omega (arith, length-encode_record key [] true 6)),
)

room :
    RoomFor index (used index opts 0 (first ∷ []) (take 9 (encode second))) 0 (first ∷ []) new_index
unfolding RoomFor
room = (new_index-Room, tt)

recover-latest_example :
    (db' : Db index) × (recover none
        ((0, written (first ∷ []) ++ take 9 (encode second)) ∷ [])
        (new_db opts)
      ≡ ok db')
    × IsValid db'
    × (db'.is_closed ≡ false)
    × ((k : List ℕ) → get_locked k db' ≡ latest (first ∷ []) k (err not_found))
recover-latest_example =
    recover-latest index opts 0 (first ∷ []) (take 9 (encode second)) (first_fits, tt)
      (inr (second, 9, second_fits, (unfold record_size in omega arith), refl)) short (omega arith)
      room

abbrev saved : Db index
saved = record db { idx = two_slots }

load_snapshot_into-save_example :
    (save_snapshot saved >>= λ bs. load_snapshot_into index bs new_index)
    ≡ ok ((0, 0), foldl (apply_entry index) new_index (entries two_slots))
unfolding segment_at create_segment lookup insert remove entries live_entries key_at KeyArena.get
    KeyArena.chunk_at
load_snapshot_into-save_example =
    load_snapshot_into-save saved (create_segment 0 128) new_index refl two_slots-Valid
      (omega arith) (omega arith) (omega arith)
      (
        record {
          key = omega arith;
          seg_id = omega arith;
          val_offset = omega arith;
          val_len = omega arith;
        },
        tt,
      )

get-has_example :
    ((has key db ≡ ok false) × (get key db ≡ err not_found))
    ⊎ ((v : List ℕ) × (has key db ≡ ok true) × (get key db ≡ ok v))
get-has_example = get-has key db (fresh-IsValid index opts (omega arith)) (omega arith) refl
