-- ===== src/Pool/Counts.antt =====
-- What holds after any interleaving: an entry counts its handles, and is open while it has any.
use in_memory_db.Base.{
  ℕ, zero, suc, ◌+◌, ◌<◌, ◌≡◌, refl, List, [], ◌∷◌, set, get_elem?, true, false, some, arith,
  bytes_equal_iff, Option-cases, inl, inr,
}
use in_memory_db.Base.ByteMap.{lookup, lookup-insert}
use in_memory_db.Pool.{
  Pool, new, ensure_entry, acquire_entry, release_entry, sweep_entry, close_entry, fresh_entry,
}
use in_memory_db.Pool.Sections.{
  dropping, released, Handle, World, counts, outstanding, refs_of, live_of, entry_at, Step, enters,
  acquires, marks, drops, sweeps, begins_close, closes, Reach, here, then_,
}

outstanding-set :
    (name : List ℕ) (hs : List Handle) (i : ℕ) (h h' : Handle)
    → get_elem? hs i ≡ some h
    → outstanding name (set hs i h') + counts name h ≡ outstanding name hs + counts name h'
unfolding outstanding
outstanding-set name [] i h h' e = cc
outstanding-set name (x ∷ hs) zero h h' e = ground arith
outstanding-set name (x ∷ hs) (suc i) h h' e = omega (arith, outstanding-set name hs i h h' e)

-- For each name: the entry's count is the number of handles, and an entry with handles is open
-- unless the pool was closed.
pub record Inv {T : Type 0} (w : World T) : Type 0 where
  pub counted : (name : List ℕ) → refs_of (entry_at name w) ≡ outstanding name w.handles
  pub open_ :
      (name : List ℕ)
      → w.pool.is_closed ≡ false
      → 0 < refs_of (entry_at name w)
      → live_of (entry_at name w) ≡ true

module _ {T : Type 0} where
  -- Making a missing entry changes no count and opens nothing.
  ensure_entry_lem :
      (name q : List ℕ) (p : Pool T)
      → ((ensure_entry name p).is_closed ≡ p.is_closed)
        × (refs_of (lookup q (ensure_entry name p).entries) ≡ refs_of (lookup q p.entries))
        × (live_of (lookup q (ensure_entry name p).entries) ≡ live_of (lookup q p.entries))
  unfolding ensure_entry
  ensure_entry_lem name q p = elim (Option-cases (lookup name p.entries)) [
    | inr (e, found) ↦ rw (found, ensure_entry) (refl, refl, refl)
    | inl missing ↦
        rw (missing, ensure_entry)
          (
            refl,
            ground (
              arith,
              lookup-insert name q (fresh_entry {T = T}) p.entries,
              bytes_equal_iff name q,
            ),
            ground (
              arith,
              lookup-insert name q (fresh_entry {T = T}) p.entries,
              bytes_equal_iff name q,
            ),
          )
  ]

  pub new-Inv : (idle_ttl : ℕ) → Inv {T = T} (record { pool = new idle_ttl; handles = [] })
  unfolding new outstanding lookup
  new-Inv idle_ttl = record { counted = λ name. refl; open_ = λ name live h. elim h [ ] }

  pub Step-Inv : {w w' : World T} → Step w w' → Inv w → Inv w'
  unfolding outstanding acquire_entry release_entry sweep_entry close_entry
  Step-Inv (enters w name valid) v =
      let same = λ (q : List ℕ). ensure_entry_lem name q w.pool in
      record {
        counted = λ q. rw ((same q).1) (v.counted q);
        open_ = λ q live h.
            rw ((same q).2) (v.open_ q (rw ((same q).0) at live) (rw ((same q).1) at h));
      }
  Step-Inv (acquires w name e e' opened r at_ done) v = record {
    counted = λ q.
        ground (arith, lookup-insert name q e' w.pool.entries, bytes_equal_iff name q, v.counted q);
    open_ = λ q live h.
        ground (arith, lookup-insert name q e' w.pool.entries, bytes_equal_iff name q, v.open_ q);
  }
  Step-Inv (marks w i h at_ state) v = record {
    counted = λ q.
        ground
          (arith, v.counted q, outstanding-set q w.handles i h (record h { state = dropping }));
    open_ = v.open_;
  }
  Step-Inv (drops w i now h e at_ state found) v = record {
    counted = λ q. ground (
      arith,
      lookup-insert h.name q (release_entry now e) w.pool.entries,
      bytes_equal_iff h.name q,
      v.counted q,
      outstanding-set q w.handles i h (record h { state = released }),
    );
    open_ = λ q live p. ground (
      arith,
      lookup-insert h.name q (release_entry now e) w.pool.entries,
      bytes_equal_iff h.name q,
      v.counted q,
      v.open_ q,
    );
  }
  Step-Inv (sweeps w name now closed_with e at_) v = record {
    counted = λ q. ground (
      arith,
      lookup-insert name q (sweep_entry w.pool.idle_ttl now closed_with e) w.pool.entries,
      bytes_equal_iff name q,
      v.counted q,
    );
    open_ = λ q live h. ground (
      arith,
      lookup-insert name q (sweep_entry w.pool.idle_ttl now closed_with e) w.pool.entries,
      bytes_equal_iff name q,
      v.open_ q,
    );
  }
  Step-Inv (begins_close w live) v = record { counted = v.counted; open_ = λ q live' h. cc }
  Step-Inv (closes w name e shut at_) v = record {
    counted = λ q. ground (
      arith,
      lookup-insert name q (close_entry e) w.pool.entries,
      bytes_equal_iff name q,
      v.counted q,
    );
    open_ = λ q live h. cc;
  }

  -- From a state of the pool that has the invariant, every interleaving of the sections of
  -- Acquire, Release, the reaper and Close leads to a state that has it: each entry counts
  -- exactly the handles that still hold it, and an entry that is held is open unless the pool
  -- was closed.
  pub Reach-Inv : {s w : World T} → Inv s → Reach s w → Inv w
  Reach-Inv v here = v
  Reach-Inv v (then_ r st) = Step-Inv st (Reach-Inv v r)

  -- In a pool that is closed, no section of any call opens the pool again, or opens an entry
  -- that is not open: what the loop of Close has passed over stays closed.
  pub closed_stays :
      {w w' : World T} (name : List ℕ)
      → Step w w'
      → w.pool.is_closed ≡ true
      → live_of (entry_at name w) ≡ false
      → (w'.pool.is_closed ≡ true) × (live_of (entry_at name w') ≡ false)
  unfolding acquire_entry release_entry sweep_entry close_entry
  closed_stays q (enters w name valid) shut h =
      let same = ensure_entry_lem name q w.pool in (rw (same.0) shut, rw (same.2) h)
  closed_stays q (acquires w name e e' opened r at_ done) shut h = ground arith
  closed_stays q (marks w i x at_ state) shut h = (shut, h)
  closed_stays q (drops w i now x e at_ state found) shut h =
      ground (
        arith,
        lookup-insert x.name q (release_entry now e) w.pool.entries,
        bytes_equal_iff x.name q,
      )
  closed_stays q (sweeps w name now closed_with e at_) shut h = ground (
    arith,
    lookup-insert name q (sweep_entry w.pool.idle_ttl now closed_with e) w.pool.entries,
    bytes_equal_iff name q,
  )
  closed_stays q (begins_close w live) shut h = cc
  closed_stays q (closes w name e shut' at_) shut h =
      ground (arith, lookup-insert name q (close_entry e) w.pool.entries, bytes_equal_iff name q)
