-- ===== src/Pool/Sections.antt =====
-- Concurrent calls as interleaved sections. A handle is held, then marked by the atomic swap of
-- HandleRef.Release, then dropped by Entry.Release; a second Release finds the mark and does nothing.
use in_memory_db.Base.{
  ℕ, ◌+◌, ◌≡◌, List, [], ◌∷◌, set, get_elem?, if◌then◌else◌, Bool, true, false, Option, none, some,
  Result, ok, Error, bytes_equal,
}
use in_memory_db.Base.ByteMap.{lookup, insert}
use in_memory_db.Pool.{
  Pool, Entry, ensure_entry, acquire_entry, release_entry, sweep_entry, close_entry, validate_name,
}

pub data HandleState : Type 0 where
  held dropping released : HandleState

pub record Handle : Type 0 where
  pub name : List ℕ
  pub state : HandleState

pub record World (T : Type 0) : Type 0 where
  pub pool : Pool T
  pub handles : List Handle

-- A handle that still counts in its entry's `refs`.
abbrev pub counts : List ℕ → Handle → ℕ
counts name h = elim h.state [ released ↦ 0 | _ ↦ if bytes_equal h.name name then 1 else 0 ]

unfoldable pub outstanding : List ℕ → List Handle → ℕ
outstanding name [] = 0
outstanding name (h ∷ hs) = counts name h + outstanding name hs

abbrev pub refs_of : {T : Type 0} → Option (Entry T) → ℕ
refs_of none = 0
refs_of (some e) = e.refs

abbrev pub live_of : {T : Type 0} → Option (Entry T) → Bool
live_of none = false
live_of (some e) = e.live

module _ {T : Type 0} where
  abbrev pub entry_at : List ℕ → World T → Option (Entry T)
  entry_at name w = lookup name w.pool.entries

  abbrev pub with_entry : List ℕ → Entry T → World T → World T
  with_entry name e w = record w { pool = record w.pool { entries = insert name e w.pool.entries } }

  -- One section of some call, with the tests that its code has made. The test of `closed` at the start
  -- of Acquire is not repeated under the pool's lock, so `enters` does not ask for an open pool.
  pub data Step : World T → World T → Type 0 where
    enters :
        (w : World T) (name : List ℕ)
        → validate_name name ≡ ok tt
        → Step w (record w { pool = ensure_entry name w.pool })
    acquires :
        (w : World T) (name : List ℕ) (e e' : Entry T) (opened : Result T) (r : T)
        → entry_at name w ≡ some e
        → acquire_entry w.pool.is_closed opened e ≡ ok (r, e')
        → Step w (record (with_entry name e' w) {
          handles = record { name = name; state = held } ∷ w.handles;
        })
    marks :
        (w : World T) (i : ℕ) (h : Handle)
        → get_elem? w.handles i ≡ some h
        → h.state ≡ held
        → Step w (record w { handles = set w.handles i (record h { state = dropping }) })
    drops :
        (w : World T) (i now : ℕ) (h : Handle) (e : Entry T)
        → get_elem? w.handles i ≡ some h
        → h.state ≡ dropping
        → entry_at h.name w ≡ some e
        → Step w (record (with_entry h.name (release_entry now e) w) {
          handles = set w.handles i (record h { state = released });
        })
    sweeps :
        (w : World T) (name : List ℕ) (now : ℕ) (closed_with : Option Error) (e : Entry T)
        → entry_at name w ≡ some e
        → Step w (with_entry name (sweep_entry w.pool.idle_ttl now closed_with e) w)
    begins_close :
        (w : World T)
        → w.pool.is_closed ≡ false
        → Step w (record w { pool = record w.pool { is_closed = true } })
    closes :
        (w : World T) (name : List ℕ) (e : Entry T)
        → w.pool.is_closed ≡ true
        → entry_at name w ≡ some e
        → Step w (with_entry name (close_entry e) w)

  pub data Reach (s : World T) : World T → Type 0 where
    here : Reach s s
    then_ : {t u : World T} → Reach s t → Step t u → Reach s u
