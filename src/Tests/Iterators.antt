-- ===== src/Tests/Iterators.antt =====
-- The iterator at a concrete input: two keys, of which one was deleted.
use in_memory_db.Base.{
  ℕ, ◌≡◌, refl, List, [], ◌∷◌, drop, false, Bool-cases, inl, inr, Result, ok, err, not_found,
  bytes_equal, if◌then◌else◌, arith,
}
use in_memory_db.Iterator.{Iterator, new_iterator}
use in_memory_db.Iterator.Drain.{Reads, collect, found, collect-found}

abbrev reader : List ℕ → Result (List ℕ)
reader key = if bytes_equal key (1 ∷ []) then ok (9 ∷ []) else err not_found

reader-Reads : Reads reader
reader-Reads key = elim (Bool-cases (bytes_equal key (1 ∷ []))) [
  | inl same ↦ inl (9 ∷ [], rw same refl)
  | inr other ↦ inr (rw other refl)
]

abbrev keys : List (List ℕ)
keys = (2 ∷ []) ∷ (1 ∷ []) ∷ []

abbrev iterator : Iterator
iterator = new_iterator (λ ks. ks) keys (record { prefix = []; sorted = false; reversed = false })

collect-found_example : collect reader 3 iterator ≡ found reader (drop 0 keys)
unfolding new_iterator
collect-found_example = collect-found reader reader-Reads 3 iterator refl refl (omega arith)
