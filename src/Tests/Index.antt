-- ===== src/Tests/Index.antt =====
-- A hash index over a simple hash function, and one of two slots, of which the first is live.
use in_memory_db.Base.{ℕ, zero, suc, ◌+◌, List, [], ◌∷◌, length, refl, ◌≡◌, subst, some, inr, arith}
use in_memory_db.Bitcask.IndexSpec.{IndexSpec, Location}
use in_memory_db.Bitcask.HashIndex.{
  Slot, vacant, live, LiveSlot, HashIndex, new_index, slot_at, first_slot, key_at, matches,
  find_slot, locate,
}
use in_memory_db.Bitcask.HashIndex.KeyArena.{new_arena, chunk_at, get}
use in_memory_db.Bitcask.HashIndex.Tables.{Valid}
use in_memory_db.Bitcask.HashIndex.Storage.{Stored}
use in_memory_db.Bitcask.HashIndex.Laws.{hash_index, Room, index_get-put}
use in_memory_db.Bitcask.HashIndex.Deletes.{index_get-delete}
use in_memory_db.Bitcask.HashIndex
use in_memory_db.Base.{bytes_equal, if◌then◌else◌, none}

abbrev pub hash : List ℕ → ℕ
hash k = length k + 1

abbrev pub index : IndexSpec
index = hash_index hash

abbrev pub key : List ℕ
key = 107 ∷ []

pub new_index-Room : Room new_index key
unfolding new_index new_arena
new_index-Room = (omega arith, omega arith)

abbrev slot : LiveSlot
slot = record {
  hash = 2;
  chunk_idx = 0;
  key_offset = 0;
  key_len = 1;
  loc = record { seg_id = 0; val_offset = 22; val_len = 2 };
}

abbrev pub two_slots : HashIndex
two_slots = record {
  slots = live slot ∷ vacant ∷ [];
  count = 1;
  tomb = 0;
  arena = record { chunk_size = 4; chunks = (107 ∷ 0 ∷ 0 ∷ 0 ∷ []) ∷ []; used = 1 };
}

only_slot :
    (P : ℕ → LiveSlot → Type 0) (j : ℕ) (s : LiveSlot)
    → P 0 slot
    → slot_at two_slots.slots j ≡ live s
    → P j s
unfolding slot_at
only_slot P zero s p e = let eq : slot ≡ s = cc in subst (P 0) eq p
only_slot P (suc zero) s p e = absurd (cc)
only_slot P (suc (suc j)) s p e = absurd (cc)

hashed : slot.hash ≡ hash (key_at two_slots.arena slot)
unfolding key_at get chunk_at
hashed = refl

reached : locate hash two_slots.arena two_slots.slots (key_at two_slots.arena slot) ≡ some (0, slot)
unfolding locate find_slot first_slot slot_at matches key_at get chunk_at bytes_equal
reached = refl

stored : Stored two_slots.arena 0 0 1
unfolding chunk_at
stored = record { exists = omega arith; inside = omega arith; in_use = λ e. omega arith }

pub two_slots-Valid : Valid hash two_slots
two_slots-Valid = record {
  wide = (1, refl);
  placed = record {
    hashed = λ j s is. only_slot (λ i x. x.hash ≡ hash (key_at two_slots.arena x)) j s hashed is;
    reach = λ j s is.
        only_slot
          (λ i x.
            locate hash two_slots.arena two_slots.slots (key_at two_slots.arena x) ≡ some (i, x))
          j s reached is;
  };
  counted = refl;
  tombs = refl;
  sound = record {
    narrow = omega arith;
    shape = inr ([], 107 ∷ 0 ∷ 0 ∷ 0 ∷ [], refl, omega arith, omega arith);
  };
  kept = λ j s is.
      only_slot (λ i x. Stored two_slots.arena x.chunk_idx x.key_offset x.key_len) j s stored is;
}

abbrev moved : Location
moved = record { seg_id = 1; val_offset = 22; val_len = 3 }

index_get-put_example :
    Valid hash (HashIndex.put hash two_slots key moved).0
    × ((HashIndex.put hash two_slots key moved).1 ≡ HashIndex.get hash two_slots key)
    × ((q : List ℕ)
        → HashIndex.get hash (HashIndex.put hash two_slots key moved).0 q
          ≡ (if bytes_equal key q then some moved else HashIndex.get hash two_slots q))
index_get-put_example =
    index_get-put hash two_slots key moved two_slots-Valid (omega arith) (omega arith)

index_get-delete_example :
    Valid hash (HashIndex.delete hash two_slots key).0
    × ((HashIndex.delete hash two_slots key).1 ≡ HashIndex.get hash two_slots key)
    × ((q : List ℕ)
        → HashIndex.get hash (HashIndex.delete hash two_slots key).0 q
          ≡ (if bytes_equal key q then none else HashIndex.get hash two_slots q))
index_get-delete_example = index_get-delete hash two_slots key two_slots-Valid
