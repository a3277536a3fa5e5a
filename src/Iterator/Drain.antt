-- ===== src/Iterator/Drain.antt =====
-- A loop over Next: what it yields.
use in_memory_db.Base.{
  ℕ, zero, suc, ◌+◌, ◌<◌, ◌≤◌, ◌≡◌, refl, ap, sym, ◌∙◌, List, [], ◌∷◌, length, drop, drop-add, Bool,
  true, false, none, Result, ok, err, not_found, arith, inl, inr, ◌⊎◌,
}
use in_memory_db.Iterator.{Iterator, is_not_found, advance, next}

module _ (get : List ℕ → Result (List ℕ)) where
  -- What a loop yields after a call of Next, if `rest` is what it yields from there.
  abbrev yielded : (Iterator → List (List ℕ × List ℕ)) → Iterator × Bool → List (List ℕ × List ℕ)
  yielded rest (it, false) = []
  yielded rest (it, true) = (it.cur_key, it.cur_val) ∷ rest it

  -- `for it.Next() { use(it.Key(), it.Value()) }`
  unfoldable pub collect : ℕ → Iterator → List (List ℕ × List ℕ)
  unfolding next
  collect zero it = []
  collect (suc fuel) it = yielded (collect fuel) (next get it)

  -- The keys that can be read, with their values.
  unfoldable pub found : List (List ℕ) → List (List ℕ × List ℕ)
  found [] = []
  found (key ∷ keys) = elim (get key) [ ok val ↦ (key, val) ∷ found keys | err e ↦ found keys ]

  -- Every key reads, or is not found.
  abbrev pub Reads : Type 0
  Reads = (key : List ℕ) → ((val : List ℕ) × (get key ≡ ok val)) ⊎ (get key ≡ err not_found)

  drop_tail :
      (n : ℕ) (xs : List (List ℕ)) (x : List ℕ) (rest : List (List ℕ))
      → drop n xs ≡ x ∷ rest
      → drop (n + 1) xs ≡ rest
  drop_tail n xs x rest h = sym (drop-add n 1 xs) ∙ rw h refl

  advance_hit :
      (key val : List ℕ) (keys : List (List ℕ)) (it : Iterator)
      → get key ≡ ok val
      → advance get (key ∷ keys) it
        ≡ (record it { next_pos = it.next_pos + 1; cur_key = key; cur_val = val }, true)
  unfolding advance
  advance_hit key val keys it e = rw (e, advance) refl

  advance_miss :
      (key : List ℕ) (keys : List (List ℕ)) (it : Iterator)
      → get key ≡ err not_found
      → advance get (key ∷ keys) it ≡ advance get keys (record it { next_pos = it.next_pos + 1 })
  unfolding advance is_not_found
  advance_miss key keys it e = rw (e, advance) refl

  found_hit :
      (key val : List ℕ) (keys : List (List ℕ))
      → get key ≡ ok val
      → found (key ∷ keys) ≡ (key, val) ∷ found keys
  unfolding found
  found_hit key val keys e = rw (e, found) refl

  found_miss :
      (key : List ℕ) (keys : List (List ℕ))
      → get key ≡ err not_found
      → found (key ∷ keys) ≡ found keys
  unfolding found
  found_miss key keys e = rw (e, found) refl

  next_live :
      (it : Iterator) (keys : List (List ℕ))
      → drop it.next_pos it.keys ≡ keys
      → it.is_closed ≡ false
      → it.failed ≡ none
      → next get it ≡ advance get keys it
  unfolding next
  next_live it keys at_ live fine = rw (live, fine, at_) refl

  module _ (reads : Reads) where
    -- The rest of a loop, from an iterator that goes on: by induction on the keys that are left.
    collect_from :
        (keys : List (List ℕ)) (fuel : ℕ) (it : Iterator)
        → drop it.next_pos it.keys ≡ keys
        → it.is_closed ≡ false
        → it.failed ≡ none
        → length keys ≤ fuel
        → yielded (collect fuel) (advance get keys it) ≡ found keys
    unfolding found collect
    collect_from [] fuel it at_ live fine enough = unfold advance in refl
    collect_from (key ∷ keys) zero it at_ live fine enough = absurd (omega arith)
    collect_from (key ∷ keys) (suc fuel) it at_ live fine enough =
        let at_tail = drop_tail it.next_pos it.keys key keys at_ in
        elim (reads key) [
          | inl (val, e) ↦
              let it' : Iterator = record it {
                next_pos = it.next_pos + 1;
                cur_key = key;
                cur_val = val;
              } in
              let rest : yielded (collect fuel) (next get it') ≡ found keys =
                ap (yielded (collect fuel)) (next_live it' keys at_tail live fine)
                ∙ collect_from keys fuel it' at_tail live fine (omega arith) in
              ap (yielded (collect (suc fuel))) (advance_hit key val keys it e)
              ∙ (ap (λ r. (key, val) ∷ r) rest ∙ sym (found_hit key val keys e))
          | inr e ↦
              ap (yielded (collect (suc fuel))) (advance_miss key keys it e)
              ∙ (collect_from keys (suc fuel) (record it { next_pos = it.next_pos + 1 }) at_tail
                    live fine (omega arith)
                  ∙ sym (found_miss key keys e))
        ]

    -- A loop over Next of an iterator that is not closed and has not failed, with a reader
    -- under which every key either reads or is not found, and fuel above the number of keys
    -- that are left: it yields exactly the keys that are left and can be read, each once, in
    -- their order and with their values.
    pub collect-found :
        (fuel : ℕ) (it : Iterator)
        → it.is_closed ≡ false
        → it.failed ≡ none
        → length (drop it.next_pos it.keys) < fuel
        → collect fuel it ≡ found (drop it.next_pos it.keys)
    unfolding collect
    collect-found zero it live fine enough = absurd (omega arith)
    collect-found (suc fuel) it live fine enough =
        let keys = drop it.next_pos it.keys in
        ap (yielded (collect fuel)) (next_live it keys refl live fine)
        ∙ collect_from keys fuel it refl live fine (omega arith)
