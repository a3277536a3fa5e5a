-- ===== src/Bitcask/HashIndex/Counts.antt =====
-- The numbers of live slots and of tombstones.
use in_memory_db.Base.{
  ℕ, zero, suc, ◌+◌, ◌<◌, ◌≤◌, ◌≡◌, refl, List, [], ◌∷◌, length, replicate, set, arith,
}
use in_memory_db.Bitcask.HashIndex.{Slot, vacant, tombstone, live, slot_at, live_entries}
use in_memory_db.Bitcask.HashIndex.KeyArena.{Arena}

abbrev pub live_one : Slot → ℕ
live_one vacant = 0
live_one tombstone = 0
live_one (live s) = 1

abbrev pub tomb_one : Slot → ℕ
tomb_one vacant = 0
tomb_one tombstone = 1
tomb_one (live s) = 0

abbrev pub live_count : List Slot → ℕ
live_count [] = 0
live_count (s ∷ slots) = live_one s + live_count slots

abbrev pub tomb_count : List Slot → ℕ
tomb_count [] = 0
tomb_count (s ∷ slots) = tomb_one s + tomb_count slots

pub live_count-set :
    (slots : List Slot) (t : ℕ) (v : Slot)
    → t < length slots
    → live_count (set slots t v) + live_one (slot_at slots t) ≡ live_count slots + live_one v
unfolding slot_at
live_count-set [] t v h = absurd (omega arith)
live_count-set (s ∷ slots) zero v h = omega arith
live_count-set (s ∷ slots) (suc t) v h = omega (arith, live_count-set slots t v (omega arith))

pub tomb_count-set :
    (slots : List Slot) (t : ℕ) (v : Slot)
    → t < length slots
    → tomb_count (set slots t v) + tomb_one (slot_at slots t) ≡ tomb_count slots + tomb_one v
unfolding slot_at
tomb_count-set [] t v h = absurd (omega arith)
tomb_count-set (s ∷ slots) zero v h = omega arith
tomb_count-set (s ∷ slots) (suc t) v h = omega (arith, tomb_count-set slots t v (omega arith))

-- Fewer entries and tombstones than slots leave a vacant slot.
pub some_vacant :
    (slots : List Slot)
    → live_count slots + tomb_count slots < length slots
    → (j : ℕ) × (j < length slots) × (slot_at slots j ≡ vacant)
unfolding slot_at
some_vacant [] h = absurd (omega arith)
some_vacant (vacant ∷ slots) h = (0, omega arith, refl)
some_vacant (tombstone ∷ slots) h =
    let (j, lt, e) = some_vacant slots (omega arith) in (suc j, omega arith, e)
some_vacant (live s ∷ slots) h =
    let (j, lt, e) = some_vacant slots (omega arith) in (suc j, omega arith, e)

pub length-live_entries :
    (a : Arena) (slots : List Slot) → length (live_entries a slots) ≡ live_count slots
unfolding live_entries
length-live_entries a [] = refl
length-live_entries a (vacant ∷ slots) = omega (arith, length-live_entries a slots)
length-live_entries a (tombstone ∷ slots) = omega (arith, length-live_entries a slots)
length-live_entries a (live s ∷ slots) = omega (arith, length-live_entries a slots)

pub slot_at-replicate : (n j : ℕ) → slot_at (replicate n vacant) j ≡ vacant
unfolding slot_at
slot_at-replicate zero j = refl
slot_at-replicate (suc n) zero = refl
slot_at-replicate (suc n) (suc j) = slot_at-replicate n j

pub live_count-replicate : (n : ℕ) → live_count (replicate n vacant) ≡ 0
live_count-replicate zero = refl
live_count-replicate (suc n) = omega (arith, live_count-replicate n)

pub tomb_count-replicate : (n : ℕ) → tomb_count (replicate n vacant) ≡ 0
tomb_count-replicate zero = refl
tomb_count-replicate (suc n) = omega (arith, tomb_count-replicate n)

pub live_count_le : (slots : List Slot) → live_count slots ≤ length slots
live_count_le [] = omega arith
live_count_le (vacant ∷ slots) = omega (arith, live_count_le slots)
live_count_le (tombstone ∷ slots) = omega (arith, live_count_le slots)
live_count_le (live s ∷ slots) = omega (arith, live_count_le slots)
