-- ===== src/Iterator.antt =====
-- internal/kvtypes/iterator.go: an iterator over a snapshot of keys. The reader `get` and the order
-- that `slices.SortFunc` makes are arguments; a call of Next reads the store as it then is.
pub mod Drain
use in_memory_db.Base.{
  ℕ, zero, suc, ◌+◌, List, [], ◌∷◌, drop, reverse, Bool, true, false, ◌||◌, if◌then◌else◌, is_some,
  Option, none, some, Result, ok, err, Error, not_found,
}

pub record IterOptions : Type 0 where
  pub prefix : List ℕ
  pub sorted : Bool
  pub reversed : Bool

-- `next_pos` is the code's `pos + 1`, since `pos` starts at -1.
pub record Iterator : Type 0 where
  pub keys : List (List ℕ)
  pub next_pos : ℕ
  pub cur_key : List ℕ
  pub cur_val : List ℕ
  pub failed : Option Error
  pub is_closed : Bool

-- `errors.Is(err, ErrNotFound)`
unfoldable pub is_not_found : Error → Bool
is_not_found not_found = true
is_not_found _ = false

unfoldable pub new_iterator :
    (List (List ℕ) → List (List ℕ)) → List (List ℕ) → IterOptions → Iterator
new_iterator sort keys opts =
    let ordered = if opts.sorted then sort keys else keys in
    record {
      keys = if opts.reversed then reverse ordered else ordered;
      next_pos = 0;
      cur_key = [];
      cur_val = [];
      failed = none;
      is_closed = false;
    }

module _ (get : List ℕ → Result (List ℕ)) where
  -- The loop of Next, over the keys that are left.
  unfoldable pub advance : List (List ℕ) → Iterator → Iterator × Bool
  unfolding is_not_found
  advance [] it = (record it { next_pos = it.next_pos + 1 }, false)
  advance (key ∷ keys) it =
      let it' : Iterator = record it { next_pos = it.next_pos + 1 } in
      let later = advance keys it' in
      elim (get key) [
        | ok val ↦ (record it' { cur_key = key; cur_val = val }, true)
        | err e ↦ if is_not_found e then later else (record it' { failed = some e }, false)
      ]

  unfoldable pub next : Iterator → Iterator × Bool
  unfolding advance
  next it =
      if it.is_closed || is_some it.failed
      then (it, false)
      else advance (drop it.next_pos it.keys) it

unfoldable pub close : Iterator → Iterator
close it = record it { is_closed = true; keys = []; cur_key = []; cur_val = [] }
