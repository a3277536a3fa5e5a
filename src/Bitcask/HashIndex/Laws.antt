-- ===== src/Bitcask/HashIndex/Laws.antt =====
-- The table is the index that the store asks for.
use in_memory_db.Base.{
  ℕ, ◌+◌, ◌^◌, ◌<◌, ◌≡◌, refl, ap, sym, ◌∙◌, subst, List, length, length-replicate, bytes_equal,
  if◌then◌else◌, Bool, Option-cases, none, some, ◌⊎◌, inl, inr, arith,
}
use in_memory_db.Bitcask.IndexSpec.{IndexSpec, Location}
use in_memory_db.Bitcask.HashIndex.{
  vacant, live, LiveSlot, HashIndex, new_index, slot_at, Probe, found, target, full, locate, get,
  delete, probe_for, put_fuel, put, maybe_rehash, write_slot, entries, len, initial_slot_capacity,
}
use in_memory_db.Bitcask.HashIndex.KeyArena.{new_arena}
use in_memory_db.Bitcask.HashIndex.Targets.{probe_slot_full}
use in_memory_db.Bitcask.HashIndex.Cycle.{walk_meets}
use in_memory_db.Bitcask.HashIndex.Counts.{
  some_vacant, length-live_entries, slot_at-replicate, live_count-replicate, tomb_count-replicate,
}
use in_memory_db.Bitcask.HashIndex.Placed.{locate_sound}
use in_memory_db.Bitcask.HashIndex.Tables.{Valid, Roomy, loc_of, get_lem, maybe_rehash-Roomy}
use in_memory_db.Bitcask.HashIndex.Deletes.{index_get-delete}
use in_memory_db.Bitcask.HashIndex.Writes.{Holds, found-Holds, target-Holds, first_lt}

-- What one more key needs of the arena.
abbrev pub Room : HashIndex → List ℕ → Type 0
Room t key = (length key < 2 ^ 16) × (length t.arena.chunks < 2 ^ 16)

Probe-cases :
    (p : Probe)
    → ((i : ℕ) × (s : LiveSlot) × (p ≡ found i s))
      ⊎ (((i : ℕ) × (b : Bool) × (p ≡ target i b)) ⊎ (p ≡ full))
Probe-cases (found i s) = inl (i, s, refl)
Probe-cases (target i b) = inr (inl (i, b, refl))
Probe-cases full = inr (inr refl)

module _ (hash : List ℕ → ℕ) where
  -- With a vacant slot, the probes end somewhere.
  not_full :
      (t : HashIndex) (key : List ℕ)
      → Valid hash t
      → t.count + t.tomb < length t.slots
      → probe_for hash t.arena t.slots key ≡ full
      → ⊥
  unfolding probe_for
  not_full t key v room e =
      let counted = v.counted in
      let tombs = v.tombs in
      let (n, wide) = v.wide in
      let (j, lt, is) = some_vacant t.slots (omega arith) in
      let start_lt = first_lt hash t v key none_loc n wide in
      let (m, lt_m, meets) = walk_meets t.slots n wide _ j start_lt lt in
      probe_slot_full t.arena t.slots (hash key) key (length t.slots) _ none e m lt_m
        (ap (slot_at t.slots) meets ∙ is)
    where
      none_loc : Location
      none_loc = record { seg_id = 0; val_offset = 0; val_len = 0 }

  -- What a put did to the table that `maybe_rehash` gave, it did to the table before.
  from_Roomy :
      (t t₁ t' : HashIndex) (key : List ℕ) (loc : Location)
      → Roomy hash t t₁
      → Holds hash t₁ t' key loc
      → Holds hash t t' key loc
  from_Roomy t t₁ t' key loc r h = record {
    valid = h.valid;
    answers = λ q. h.answers q ∙ ap (λ x. if bytes_equal key q then some loc else x) (r.answers q);
  }

  -- A put in a well-formed table, with fuel for one call, of a key shorter than 2^16 with fewer
  -- than 2^16 chunks in the arena, keeps the table well formed and gives the location that the
  -- key had, and then the key is found at the new location and every other key as before.
  pub index_get-put :
      (t : HashIndex) (key : List ℕ) (loc : Location)
      → Valid hash t
      → length key < 2 ^ 16
      → length t.arena.chunks < 2 ^ 16
      → Valid hash (put hash t key loc).0
        × ((put hash t key loc).1 ≡ get hash t key)
        × ((q : List ℕ)
            → get hash (put hash t key loc).0 q
              ≡ (if bytes_equal key q then some loc else get hash t q))
  unfolding put put_fuel write_slot
  index_get-put t key loc v short few =
      let t₁ = maybe_rehash t in
      let r = maybe_rehash-Roomy hash t v in
      let few₁ : length t₁.arena.chunks < 2 ^ 16 =
        subst (λ x. length x.chunks < 2 ^ 16) (sym r.same_arena) few in
      elim (Probe-cases (probe_for hash t₁.arena t₁.slots key)) [
        | inl (i, s, e) ↦
            let (h, prev) = found-Holds hash t₁ r.valid key loc i s e in
            let h' = from_Roomy t t₁ _ key loc r h in
            rw (put, put_fuel, e) (h'.valid, sym prev ∙ r.answers key, h'.answers)
        | inr (inl (i, b, e)) ↦
            let (h, prev) = target-Holds hash t₁ r.valid key loc short few₁ i b e in
            let h' = from_Roomy t t₁ _ key loc r h in
            rw (put, put_fuel, e) (h'.valid, sym prev ∙ r.answers key, h'.answers)
        | inr (inr e) ↦ absurd (not_full t₁ key r.valid r.room e)
      ]

  pub nothing : (key : List ℕ) → get hash new_index key ≡ none
  unfolding new_index
  nothing key =
      get_lem hash new_index key
      ∙ (elim (Option-cases (locate hash new_index.arena new_index.slots key)) [
        | inl gone ↦ ap (loc_of hash) gone
        | inr ((i, s), e) ↦
            let (is, _) = locate_sound hash new_index.arena new_index.slots key i s e in
            let empty_ = slot_at-replicate initial_slot_capacity i in absurd (cc)
      ])

  pub new_index-Valid : Valid hash new_index
  unfolding new_index new_arena
  new_index-Valid =
      let vacant_ : (j : ℕ) (s : LiveSlot) → slot_at new_index.slots j ≡ live s → ⊥ =
        λ j s is. let empty_ = slot_at-replicate initial_slot_capacity j in absurd (cc) in
      record {
        wide = (10, length-replicate initial_slot_capacity vacant);
        placed = record {
          hashed = λ j s is. absurd (vacant_ j s is);
          reach = λ j s is. absurd (vacant_ j s is);
        };
        counted = sym (live_count-replicate initial_slot_capacity);
        tombs = sym (tomb_count-replicate initial_slot_capacity);
        sound = record { narrow = omega arith; shape = inl refl };
        kept = λ j s is. absurd (vacant_ j s is);
      }

  pub len-entries : (t : HashIndex) → Valid hash t → len t ≡ length (entries t)
  unfolding len entries
  len-entries t v = v.counted ∙ sym (length-live_entries t.arena t.slots)

  abbrev pub hash_index : IndexSpec
  hash_index = record {
    Index = HashIndex;
    empty = new_index;
    get = get hash;
    put = put hash;
    delete = delete hash;
    entries = entries;
    len = len;
    Valid = Valid hash;
    Room = Room;
    empty-Valid = new_index-Valid;
    put-Valid = λ t k l v r. (index_get-put t k l v r.0 r.1).0;
    delete-Valid = λ t k v. (index_get-delete hash t k v).0;
    get-empty = nothing;
    get-put = λ t k q l v r. (index_get-put t k l v r.0 r.1).2 q;
    put-prev = λ t k l v r. (index_get-put t k l v r.0 r.1).1;
    get-delete = λ t k q v. (index_get-delete hash t k v).2 q;
    delete-prev = λ t k v. (index_get-delete hash t k v).1;
    len-entries = len-entries;
  }
