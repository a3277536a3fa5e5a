-- ===== src/Bitcask/HashIndex.antt =====
-- internal/bitcask/index.go: the open-addressing table from keys to locations. The hash function
-- (hash/maphash with the table's seed) is an argument, and the mask is one less than the number of
-- slots. A loop over the slots runs on their number as fuel.
pub mod KeyArena
pub mod Probes
pub mod Targets
pub mod Cycle
pub mod Placed
pub mod Counts
pub mod Changes
pub mod Rehash
pub mod Storage
pub mod Tables
pub mod Deletes
pub mod Writes
pub mod Laws
use in_memory_db.Base.{
  ℕ, zero, suc, ◌+◌, ◌-◌, ◌*◌, ◌%◌, ◌^◌, List, [], ◌∷◌, length, replicate, get_elem?, set, bit_and,
  ltb, leb, ◌==◌, ◌&&◌, if◌then◌else◌, Bool, true, false, is_some, Option, none, some, bytes_equal,
}
use in_memory_db.Bitcask.IndexSpec.{Location}
use in_memory_db.Bitcask.HashIndex.KeyArena.{Arena, new_arena, arena_chunk_size}
use in_memory_db.Bitcask.HashIndex.KeyArena

-- What a slot holds whose state is `slotLive`.
pub record LiveSlot : Type 0 where
  pub hash : ℕ
  pub chunk_idx : ℕ
  pub key_offset : ℕ
  pub key_len : ℕ
  pub loc : Location

-- `indexSlot`; the fields of a slot that is not live are not read.
pub data Slot : Type 0 where
  vacant tombstone : Slot
  live : LiveSlot → Slot

-- The slots and the arena, the number of live slots and that of tombstones.
pub record HashIndex : Type 0 where
  pub slots : List Slot
  pub count : ℕ
  pub tomb : ℕ
  pub arena : Arena

abbrev pub initial_slot_capacity : ℕ
initial_slot_capacity = 1024

unfoldable pub new_index : HashIndex
unfolding new_arena
new_index = record {
  slots = replicate initial_slot_capacity vacant;
  count = 0;
  tomb = 0;
  arena = new_arena arena_chunk_size;
}

unfoldable pub slot_at : List Slot → ℕ → Slot
slot_at slots i = elim (get_elem? slots i) [ none ↦ vacant | some s ↦ s ]

unfoldable pub next_slot : List Slot → ℕ → ℕ
next_slot slots i = bit_and (i + 1) (length slots - 1)

unfoldable pub first_slot : List Slot → ℕ → ℕ
first_slot slots h = bit_and h (length slots - 1)

unfoldable pub key_at : Arena → LiveSlot → List ℕ
key_at arena s = KeyArena.get arena s.chunk_idx s.key_offset s.key_len

unfoldable pub matches : Arena → ℕ → List ℕ → LiveSlot → Bool
unfolding key_at
matches arena h key s = (s.hash == h) && bytes_equal (key_at arena s) key

-- Where the probes for a key end in `put`: at its live slot, at a slot that a new entry takes (with
-- whether that is a tombstone), or nowhere.
pub data Probe : Type 0 where
  found : ℕ → LiveSlot → Probe
  target : ℕ → Bool → Probe
  full : Probe

unfoldable pub reused : Option ℕ → ℕ → ℕ
reused none i = i
reused (some r) i = r

module _ (arena : Arena) (slots : List Slot) (h : ℕ) (key : List ℕ) where
  -- The loop of `get` and of `delete`: the live slot of the key.
  unfoldable pub find_slot : ℕ → ℕ → Option (ℕ × LiveSlot)
  find_slot zero i = none
  find_slot (suc fuel) i =
      let rest = find_slot fuel (next_slot slots i) in
      elim (slot_at slots i) [
        | vacant ↦ none
        | tombstone ↦ rest
        | live s ↦ if matches arena h key s then some (i, s) else rest
      ]

  -- The loop of `put`, with the tombstone that it would reuse.
  unfoldable pub probe_slot : ℕ → ℕ → Option ℕ → Probe
  probe_slot zero i reuse = full
  probe_slot (suc fuel) i reuse =
      let rest = probe_slot fuel (next_slot slots i) reuse in
      let marked = probe_slot fuel (next_slot slots i) (some (reused reuse i)) in
      elim (slot_at slots i) [
        | vacant ↦ target (reused reuse i) (is_some reuse)
        | tombstone ↦ marked
        | live s ↦ if matches arena h key s then found i s else rest
      ]

-- The loop of `reinsert`: the first vacant slot.
unfoldable pub vacant_slot : List Slot → ℕ → ℕ → Option ℕ
vacant_slot slots zero i = none
vacant_slot slots (suc fuel) i =
    let rest = vacant_slot slots fuel (next_slot slots i) in
    elim (slot_at slots i) [ vacant ↦ some i | tombstone ↦ rest | live s ↦ rest ]

unfoldable pub reinsert : LiveSlot → List Slot × ℕ → List Slot × ℕ
reinsert s (slots, count) = elim (vacant_slot slots (length slots) (first_slot slots s.hash)) [
  | none ↦ (slots, count)
  | some i ↦ (set slots i (live s), count + 1)
]

-- The loop of `rehash` over the old slots.
unfoldable pub reinsert_all : List Slot → List Slot × ℕ → List Slot × ℕ
unfolding reinsert
reinsert_all [] t = t
reinsert_all (vacant ∷ old) t = reinsert_all old t
reinsert_all (tombstone ∷ old) t = reinsert_all old t
reinsert_all (live s ∷ old) t = reinsert_all old (reinsert s t)

unfoldable pub rehash : ℕ → HashIndex → HashIndex
unfolding reinsert_all
rehash capacity t =
    let (slots, count) = reinsert_all t.slots (replicate capacity vacant, 0) in
    record t { slots = slots; count = count; tomb = 0 }

unfoldable pub grow_target_capacity : HashIndex → ℕ
grow_target_capacity t =
    if leb (length t.slots) (t.count * 2) then length t.slots * 2 else length t.slots

-- The load factor 0.65 is the float64 5854679515581645 / 2^53, by which a power of two is
-- multiplied exactly.
unfoldable pub maybe_rehash : HashIndex → HashIndex
unfolding rehash grow_target_capacity
maybe_rehash t =
    if ltb ((t.count + t.tomb) * 9007199254740992) (5854679515581645 * length t.slots)
    then t
    else rehash (grow_target_capacity t) t

-- `writeSlot`
unfoldable pub write_slot : ℕ → List ℕ → ℕ → Location → HashIndex → HashIndex
write_slot i key h loc t =
    let (arena, place) = KeyArena.put t.arena key in
    let s : LiveSlot = record {
      hash = h;
      chunk_idx = place.0;
      key_offset = place.1;
      key_len = length key % 2 ^ 16;
      loc = loc;
    } in
    record t { slots = set t.slots i (live s); arena = arena }

module _ (hash : List ℕ → ℕ) where
  unfoldable pub locate : Arena → List Slot → List ℕ → Option (ℕ × LiveSlot)
  unfolding find_slot first_slot
  locate arena slots key =
      find_slot arena slots (hash key) key (length slots) (first_slot slots (hash key))

  unfoldable pub get : HashIndex → List ℕ → Option Location
  unfolding locate
  get t key = elim (locate t.arena t.slots key) [ none ↦ none | some (i, s) ↦ some s.loc ]

  unfoldable pub delete : HashIndex → List ℕ → HashIndex × Option Location
  unfolding locate
  delete t key = elim (locate t.arena t.slots key) [
    | none ↦ (t, none)
    | some (i, s) ↦ (
      record t { slots = set t.slots i tombstone; count = t.count - 1; tomb = t.tomb + 1 },
      some s.loc,
    )
  ]

  unfoldable pub probe_for : Arena → List Slot → List ℕ → Probe
  unfolding probe_slot first_slot
  probe_for arena slots key =
      probe_slot arena slots (hash key) key (length slots) (first_slot slots (hash key)) none

  -- `put` calls itself when a probe of all slots has ended nowhere.
  unfoldable pub put_fuel : ℕ → HashIndex → List ℕ → Location → HashIndex × Option Location
  unfolding maybe_rehash probe_for write_slot
  put_fuel zero t key loc = (t, none)
  put_fuel (suc fuel) t key loc =
      let t₁ = maybe_rehash t in
      let again = put_fuel fuel (rehash (grow_target_capacity t₁) t₁) key loc in
      elim (probe_for t₁.arena t₁.slots key) [
        | found i s ↦
            (record t₁ { slots = set t₁.slots i (live (record s { loc = loc })) }, some s.loc)
        | target i reuse ↦
            let t₂ = write_slot i key (hash key) loc t₁ in
            (
              record t₂ { count = t₂.count + 1; tomb = if reuse then t₂.tomb - 1 else t₂.tomb },
              none,
            )
        | full ↦ again
      ]

  -- Fuel for one call; out of fuel leaves the table as it is.
  unfoldable pub put : HashIndex → List ℕ → Location → HashIndex × Option Location
  unfolding put_fuel
  put t key loc = put_fuel 1 t key loc

-- What `forEach` visits, in the order of the slots.
unfoldable pub live_entries : Arena → List Slot → List (List ℕ × Location)
unfolding key_at
live_entries arena [] = []
live_entries arena (vacant ∷ slots) = live_entries arena slots
live_entries arena (tombstone ∷ slots) = live_entries arena slots
live_entries arena (live s ∷ slots) = (key_at arena s, s.loc) ∷ live_entries arena slots

unfoldable pub entries : HashIndex → List (List ℕ × Location)
unfolding live_entries
entries t = live_entries t.arena t.slots

unfoldable pub len : HashIndex → ℕ
len t = t.count
