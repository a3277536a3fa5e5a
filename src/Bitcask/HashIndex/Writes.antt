-- ===== src/Bitcask/HashIndex/Writes.antt =====
-- What `put` does to the table.
use in_memory_db.Base.{
  ℕ, ◌+◌, ◌-◌, ◌%◌, ◌^◌, ◌<◌, ◌≡◌, refl, ap, sym, ◌∙◌, subst, List, length, length-set, set,
  bytes_equal, bytes_equal_sound, if◌then◌else◌, Bool, Bool-cases, false, none, some, inl, inr,
  arith, ◌==◌, ==_iff,
}
use in_memory_db.Bitcask.IndexSpec.{Location}
use in_memory_db.Bitcask.HashIndex.{
  live, LiveSlot, HashIndex, slot_at, first_slot, key_at, found, target, locate, get, probe_for,
}
use in_memory_db.Bitcask.HashIndex.KeyArena.{Arena}
use in_memory_db.Bitcask.HashIndex.KeyArena
use in_memory_db.Bitcask.HashIndex.Probes.{
  slot_at-set_same, slot_at-set_other, probe_slot-found, probe_slot_target, find_slot-set_hit,
}
use in_memory_db.Bitcask.HashIndex.Targets.{probe_slot_reaches}
use in_memory_db.Bitcask.HashIndex.Cycle.{masked, next_slot_lt}
use in_memory_db.Bitcask.HashIndex.Counts.{live_one, tomb_one, live_count-set, tomb_count-set}
use in_memory_db.Bitcask.HashIndex.Placed.{
  Placed, matches_key, matches_same, locate_sound, locate-set,
}
use in_memory_db.Bitcask.HashIndex.Changes.{
  slot_lt, write-other, live-Placed, others_of_found, others_of_none,
}
use in_memory_db.Bitcask.HashIndex.Storage.{Stored, put-Done}
use in_memory_db.Bitcask.HashIndex.Tables.{
  Valid, loc_of, get_lem, find_slot-arena, probe_slot-arena,
}
use in_memory_db.Bitcask.HashIndex.Deletes.{own_key}

-- What a put of a key promises of the table that it leaves.
pub record Holds (hash : List ℕ → ℕ) (t t' : HashIndex) (key : List ℕ) (loc : Location)
    : Type 0 where
  pub valid : Valid hash t'
  pub answers :
      (q : List ℕ) → get hash t' q ≡ (if bytes_equal key q then some loc else get hash t q)

module _ (hash : List ℕ → ℕ) (t : HashIndex) (v : Valid hash t) (key : List ℕ)
    (loc : Location) where
  abbrev start : ℕ
  start = first_slot t.slots (hash key)

  pub first_lt : (n : ℕ) → length t.slots ≡ 2 ^ n → start < length t.slots
  unfolding first_slot
  first_lt n wide = masked t.slots n wide (hash key)

  -- The answers of a table whose slot `i` now has an entry of the key.
  answers_lem :
      (t' : HashIndex) (i : ℕ) (s : LiveSlot)
      → s.loc ≡ loc
      → locate hash t'.arena t'.slots key ≡ some (i, s)
      → ((q : List ℕ)
          → bytes_equal key q ≡ false
          → locate hash t'.arena t'.slots q ≡ locate hash t.arena t.slots q)
      → (q : List ℕ) → get hash t' q ≡ (if bytes_equal key q then some loc else get hash t q)
  answers_lem t' i s at_loc here others q = elim (Bool-cases (bytes_equal key q)) [
    | inl same ↦
        let eq = bytes_equal_sound key q same in
        rw same (
          get_lem hash t' q
          ∙ (ap (loc_of hash) (subst (λ x. locate hash t'.arena t'.slots x ≡ some (i, s)) eq here)
              ∙ ap (λ (x : Location). some x) at_loc))
    | inr differ ↦
        rw differ
          (get_lem hash t' q ∙ (ap (loc_of hash) (others q differ) ∙ sym (get_lem hash t q)))
  ]

  pub found-Holds :
      (i : ℕ) (s : LiveSlot)
      → probe_for hash t.arena t.slots key ≡ found i s
      → Holds hash t (record t { slots = set t.slots i (live (record s { loc = loc })) }) key loc
        × (get hash t key ≡ some s.loc)
  unfolding probe_for locate key_at
  found-Holds i s e =
      let s' : LiveSlot = record s { loc = loc } in
      let at_i : locate hash t.arena t.slots key ≡ some (i, s) =
        probe_slot-found t.arena t.slots (hash key) key (length t.slots) start none i s e in
      let (is, hit) = locate_sound hash t.arena t.slots key i s at_i in
      let k = matches_key t.arena (hash key) key s hit in
      let hashed : s.hash ≡ hash key = v.placed.hashed i s is ∙ ap hash k in
      let inside = slot_lt t.slots i s is in
      let (n, wide) = v.wide in
      let others = others_of_found hash t.arena t.slots v.placed key i s is k in
      let own : (l : LiveSlot) → slot_at t.slots i ≡ live l → key_at t.arena l ≡ key =
        λ l is'. own_key hash s l t i key is k is' in
      let mine = matches_same t.arena (hash key) key s' hashed k in
      let there : locate hash t.arena (set t.slots i (live s')) key ≡ some (i, s') =
        locate-set hash t.arena t.slots i (live s') key
        ∙ find_slot-set_hit t.arena t.slots (hash key) key s' (length t.slots) start i s inside mine
            at_i in
      let same_live = live_count-set t.slots i (live s') inside in
      let same_dead = tomb_count-set t.slots i (live s') inside in
      let was_live : live_one (slot_at t.slots i) ≡ 1 = ap live_one is in
      let was_dead : tomb_one (slot_at t.slots i) ≡ 0 = ap tomb_one is in
      let counted = v.counted in
      let tombs = v.tombs in
      let t' : HashIndex = record t { slots = set t.slots i (live s') } in
      (
        record {
          valid = record {
            wide = (n, length-set t.slots i (live s') ∙ wide);
            placed =
                live-Placed hash t.arena t.slots v.placed key i inside own others s' k hashed there;
            counted = omega arith;
            tombs = omega arith;
            sound = v.sound;
            kept = λ j l at_j. elim (Bool-cases (i == j)) [
              | inl here ↦
                  let now : slot_at (set t.slots i (live s')) j ≡ live s' =
                    subst (λ x. slot_at (set t.slots i (live s')) x ≡ live s') ((==_iff i j).0 here)
                      (slot_at-set_same t.slots i (live s') inside) in
                  let eq : live s' ≡ live l = sym now ∙ at_j in
                  let eq_l : s' ≡ l = cc in
                  subst (λ (x : LiveSlot). Stored t.arena x.chunk_idx x.key_offset x.key_len) eq_l
                    (v.kept i s is)
              | inr off ↦ v.kept j l (sym (slot_at-set_other t.slots i j (live s') off) ∙ at_j)
            ];
          };
          answers = answers_lem t' i s' refl there (λ q differ.
              write-other hash t.arena t.slots v.placed key i inside own others (live s') q
                (inr (s', refl, k)) differ);
        },
        get_lem hash t key ∙ ap (loc_of hash) at_i,
      )

  module _ (short : length key < 2 ^ 16) (few : length t.arena.chunks < 2 ^ 16) where
    abbrev b : Arena
    b = (KeyArena.put t.arena key).0

    abbrev s : LiveSlot
    s = record {
      hash = hash key;
      chunk_idx = (KeyArena.put t.arena key).1.0;
      key_offset = (KeyArena.put t.arena key).1.1;
      key_len = length key % 2 ^ 16;
      loc = loc;
    }

    same_keys : (j : ℕ) (l : LiveSlot) → slot_at t.slots j ≡ live l → key_at b l ≡ key_at t.arena l
    unfolding key_at
    same_keys j l is =
        let d = put-Done t.arena key v.sound short few in
        d.keeps.reads l.chunk_idx l.key_offset l.key_len (v.kept j l is)

    new_key : key_at b s ≡ key
    unfolding key_at
    new_key =
        let d = put-Done t.arena key v.sound short few in
        let size : length key % 2 ^ 16 ≡ length key = omega arith in
        ap (KeyArena.get b s.chunk_idx s.key_offset) size ∙ d.reads

    same_locate : (q : List ℕ) → locate hash b t.slots q ≡ locate hash t.arena t.slots q
    unfolding locate
    same_locate q =
        find_slot-arena t.arena b t.slots (hash q) q same_keys (length t.slots)
          (first_slot t.slots (hash q))

    b-Placed : Placed hash b t.slots
    b-Placed = record {
      hashed = λ j l is. v.placed.hashed j l is ∙ ap hash (sym (same_keys j l is));
      reach = λ j l is.
          same_locate (key_at b l)
          ∙ (ap (locate hash t.arena t.slots) (same_keys j l is) ∙ v.placed.reach j l is);
    }

    pub target-Holds :
        (i : ℕ) (reuse : Bool)
        → probe_for hash t.arena t.slots key ≡ target i reuse
        → Holds hash t
            (record {
              slots = set t.slots i (live s);
              count = t.count + 1;
              tomb = if reuse then t.tomb - 1 else t.tomb;
              arena = b;
            })
            key
            loc
          × (get hash t key ≡ none)
    unfolding probe_for locate
    target-Holds i reuse e =
        let d = put-Done t.arena key v.sound short few in
        let (n, wide) = v.wide in
        let gone : locate hash t.arena t.slots key ≡ none =
          probe_slot_target t.arena t.slots (hash key) key (length t.slots) start none i reuse e in
        let gone_b = same_locate key ∙ gone in
        let e_b =
          probe_slot-arena t.arena b t.slots (hash key) key same_keys (length t.slots) start none
          ∙ e in
        let mine = matches_same b (hash key) key s refl new_key in
        let (free, inside, reached) =
          probe_slot_reaches b t.slots (hash key) key (next_slot_lt t.slots n wide) s mine
            (length t.slots) start i reuse (first_lt n wide) e_b in
        let there : locate hash b (set t.slots i (live s)) key ≡ some (i, s) =
          locate-set hash b t.slots i (live s) key ∙ reached in
        let own : (l : LiveSlot) → slot_at t.slots i ≡ live l → key_at b l ≡ key =
          λ l is. elim free [ inl (dead, _) ↦ absurd (cc) | inr (empty_, _) ↦ absurd (cc) ] in
        let others : (j : ℕ) (l : LiveSlot)
            → (i == j) ≡ false
            → slot_at t.slots j ≡ live l
            → bytes_equal key (key_at b l) ≡ false =
          λ j l off is. others_of_none hash b t.slots b-Placed key i gone_b j l is in
        let more = live_count-set t.slots i (live s) inside in
        let dead_ = tomb_count-set t.slots i (live s) inside in
        let counted = v.counted in
        let tombs = v.tombs in
        let t' : HashIndex = record {
          slots = set t.slots i (live s);
          count = t.count + 1;
          tomb = if reuse then t.tomb - 1 else t.tomb;
          arena = b;
        } in
        (
          record {
            valid = record {
              wide = (n, length-set t.slots i (live s) ∙ wide);
              placed =
                  live-Placed hash b t.slots b-Placed key i inside own others s new_key refl there;
              counted = elim free [
                | inl (is, _) ↦
                    let was : live_one (slot_at t.slots i) ≡ 0 = ap live_one is in omega arith
                | inr (is, _) ↦
                    let was : live_one (slot_at t.slots i) ≡ 0 = ap live_one is in omega arith
              ];
              tombs = elim free [
                | inl (is, r) ↦
                    let was : tomb_one (slot_at t.slots i) ≡ 1 = ap tomb_one is in
                    rw r (omega arith)
                | inr (is, r) ↦
                    let was : tomb_one (slot_at t.slots i) ≡ 0 = ap tomb_one is in
                    rw r (omega arith)
              ];
              sound = d.sound;
              kept = λ j l at_j. elim (Bool-cases (i == j)) [
                | inl here ↦
                    let now : slot_at (set t.slots i (live s)) j ≡ live s =
                      subst (λ x. slot_at (set t.slots i (live s)) x ≡ live s) ((==_iff i j).0 here)
                        (slot_at-set_same t.slots i (live s) inside) in
                    let eq : live s ≡ live l = sym now ∙ at_j in
                    let eq_l : s ≡ l = cc in
                    let size : length key ≡ length key % 2 ^ 16 = omega arith in
                    subst (λ (x : LiveSlot). Stored b x.chunk_idx x.key_offset x.key_len) eq_l
                      (subst (Stored b s.chunk_idx s.key_offset) size d.stored)
                | inr off ↦
                    let before = sym (slot_at-set_other t.slots i j (live s) off) ∙ at_j in
                    d.keeps.stays l.chunk_idx l.key_offset l.key_len (v.kept j l before)
              ];
            };
            answers = answers_lem t' i s refl there (λ q differ.
                write-other hash b t.slots b-Placed key i inside own others (live s) q
                  (inr (s, refl, new_key)) differ
                ∙ same_locate q);
          },
          get_lem hash t key ∙ ap (loc_of hash) gone,
        )
