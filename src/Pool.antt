-- ===== src/Pool.antt =====
-- internal/pool/pool.go: named resources, opened on demand, counted and closed when idle. What a
-- mutex guards is one function here, so that the sections of concurrent calls can be interleaved
-- (Pool/Sections). Opening and closing a resource are the caller's: their outcomes are arguments.
-- Times are numbers on one clock.
pub mod Sections
pub mod Counts
use in_memory_db.Base.{
  ℕ, ◌+◌, ◌-◌, List, [], ◌∷◌, map, ◌==◌, leb, ltb, if◌then◌else◌, Bool, true, false, not, ◌&&◌,
  ◌||◌, Option, none, some, Result, ok, err, Error, message, ◌>>=◌, ◌>>◌, guard, bytes_equal,
}
use in_memory_db.Base.ByteMap.{ByteMap, lookup, insert}

abbrev pub err_closed : Error
err_closed = message "kv: manager is closed"

-- `Entry`, without the lock and the name, which is its key in the pool.
pub record Entry (T : Type 0) : Type 0 where
  pub res : Option T
  pub live : Bool
  pub refs : ℕ
  pub idle_since : ℕ
  pub last_reap_err : Option Error

pub record Pool (T : Type 0) : Type 0 where
  pub idle_ttl : ℕ
  pub is_closed : Bool
  pub entries : ByteMap (Entry T)

unfoldable pub contains_byte : ℕ → List ℕ → Bool
contains_byte c [] = false
contains_byte c (b ∷ bs) = b == c || contains_byte c bs

-- `ValidateName`: one path element, by the bytes of '.', '/', '\' and 0.
unfoldable pub validate_name : List ℕ → Result (Unit {0})
unfolding contains_byte
validate_name [] = err (message "kv: db name must not be empty")
validate_name (b ∷ bs) =
    let name = b ∷ bs in
    guard
      (not (
        bytes_equal name (0x2E ∷ [])
        || bytes_equal name (0x2E ∷ 0x2E ∷ [])
        || contains_byte 0x2F name
        || contains_byte 0x5C name
        || contains_byte 0 name))
      (message "kv: invalid db name: must be a single path element")

module _ {T : Type 0} where
  unfoldable pub new : ℕ → Pool T
  new idle_ttl = record { idle_ttl = idle_ttl; is_closed = false; entries = [] }

  abbrev pub fresh_entry : Entry T
  fresh_entry = record { res = none; live = false; refs = 0; idle_since = 0; last_reap_err = none }

  -- The section of Acquire under the pool's lock: the name's entry, made if there is none.
  unfoldable pub ensure_entry : List ℕ → Pool T → Pool T
  ensure_entry name p = elim (lookup name p.entries) [
    | some e ↦ p
    | none ↦ record p { entries = insert name fresh_entry p.entries }
  ]

  -- The section of Acquire under the entry's lock; `opened` is what `openRes` returns, if it is called.
  unfoldable pub acquire_entry : Bool → Result T → Entry T → Result (T × Entry T)
  acquire_entry pool_closed opened e =
      if pool_closed then err err_closed else elim (if e.live then e.res else none) [
        | some r ↦ ok (r, record e { refs = e.refs + 1 })
        | none ↦ do r ← opened; ok (r, record e { res = some r; live = true; refs = e.refs + 1 })
      ]

  -- A call of Acquire that no other call interrupts.
  unfoldable pub acquire : List ℕ → Result T → Pool T → Pool T × Result T
  unfolding ensure_entry
  acquire name opened p = elim (validate_name name) [
    | err e ↦ (p, err e)
    | ok _ ↦
        if p.is_closed
        then (p, err err_closed)
        else let p' = ensure_entry name p in
          elim (lookup name p'.entries) [
            | none ↦ (p', err err_closed)
            | some e ↦ elim (acquire_entry p'.is_closed opened e) [
              | err f ↦ (p', err f)
              | ok (r, e') ↦ (record p' { entries = insert name e' p'.entries }, ok r)
            ]
          ]
  ]

  -- `Entry.Release`
  unfoldable pub release_entry : ℕ → Entry T → Entry T
  release_entry now e =
      if e.refs == 1
      then record e { refs = e.refs - 1; idle_since = now }
      else record e { refs = e.refs - 1 }

  -- One round of Sweep; `closed_with` is the error of the resource's Close.
  unfoldable pub sweep_entry : ℕ → ℕ → Option Error → Entry T → Entry T
  sweep_entry idle_ttl now closed_with e =
      if e.live && (e.refs == 0) && leb (e.idle_since + idle_ttl) now
      then record e { last_reap_err = closed_with; live = false }
      else e

  unfoldable pub map_entries : (List ℕ → Entry T → Entry T) → ByteMap (Entry T) → ByteMap (Entry T)
  map_entries f [] = []
  map_entries f ((name, e) ∷ m) = (name, f name e) ∷ map_entries f m

  unfoldable pub sweep : ℕ → (List ℕ → Option Error) → Pool T → Pool T
  unfolding map_entries sweep_entry
  sweep now closed_with p = record p {
    entries = map_entries (λ name. sweep_entry p.idle_ttl now (closed_with name)) p.entries;
  }

  -- One round of Close's loop, and the error that it adds.
  unfoldable pub close_entry : Entry T → Entry T
  close_entry e = if e.live then record e { live = false } else e

  close_errors : (List ℕ → Option Error) → ByteMap (Entry T) → List Error
  close_errors closed_with [] = []
  close_errors closed_with ((name, e) ∷ m) =
      let rest = close_errors closed_with m in
      if e.live then elim (closed_with name) [ none ↦ rest | some f ↦ f ∷ rest ] else rest

  -- A call of Close that no other call interrupts, with the errors that it joins.
  unfoldable pub close : (List ℕ → Option Error) → Pool T → Pool T × Result (List Error)
  unfolding map_entries close_entry close_errors
  close closed_with p = if p.is_closed then (p, err err_closed) else (
    record p { is_closed = true; entries = map_entries (λ _. close_entry) p.entries },
    ok (close_errors closed_with p.entries),
  )

-- `Stat`
pub record Stat : Type 0 where
  pub name : List ℕ
  pub is_open : Bool
  pub refs : ℕ
  pub idle_since : Option ℕ
  pub last_reap_err : Option Error

stat_of : {T : Type 0} → List ℕ → Entry T → Stat
stat_of name e = record {
  name = name;
  is_open = e.live;
  refs = e.refs;
  idle_since = if e.refs == 0 then some e.idle_since else none;
  last_reap_err = e.last_reap_err;
}

-- Stats before the sort by name.
unfoldable pub stats : {T : Type 0} → Pool T → List Stat
unfolding stat_of
stats p = map (λ (name, e). stat_of name e) p.entries
