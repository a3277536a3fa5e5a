-- ===== src/Tests/Handles.antt =====
-- The pool at a concrete run: one handle is acquired, and the pool is closed.
use in_memory_db.Base.{bytes_equal, ℕ, ◌≡◌, refl, List, [], ◌∷◌, true, false, ok}
use in_memory_db.Base.ByteMap.{lookup}
use in_memory_db.Pool.{new, validate_name, contains_byte, ensure_entry}
use in_memory_db.Pool.Sections.{World, entry_at, live_of, Step, Reach}
use in_memory_db.Pool.Counts.{Inv, new-Inv, Reach-Inv, closed_stays}

-- "db"
abbrev name : List ℕ
name = 100 ∷ 98 ∷ []

abbrev start : World ℕ
start = record { pool = new 60; handles = [] }

abbrev entered : World ℕ
entered = record start { pool = ensure_entry name start.pool }

valid_name : validate_name name ≡ ok tt
unfolding validate_name contains_byte bytes_equal
valid_name = refl

Reach-Inv_example : Inv entered
Reach-Inv_example =
    Reach-Inv (new-Inv 60) (Reach.then_ Reach.here (Step.enters start name valid_name))

abbrev shut : World ℕ
shut = record { pool = record { idle_ttl = 60; is_closed = true; entries = [] }; handles = [] }

nothing_live : live_of (entry_at name shut) ≡ false
unfolding lookup
nothing_live = refl

closed_stays_example :
    let w' : World ℕ = record shut { pool = ensure_entry name shut.pool } in
    (w'.pool.is_closed ≡ true) × (live_of (entry_at name w') ≡ false)
closed_stays_example = closed_stays name (Step.enters shut name valid_name) refl nothing_live
