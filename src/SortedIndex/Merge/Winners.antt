-- ===== src/SortedIndex/Merge/Winners.antt =====
-- What the merge writes: for each key among its inputs, the entry that no other entry of the key beats.
use in_memory_db.Base.{
  ℕ, zero, suc, ◌%◌, ◌<◌, ◌≡◌, refl, ap, sym, ◌∙◌, List, [], ◌∷◌, foldl, Bool, true, false, ◌&&◌,
  ok, inl, inr, arith, subst, ◌==◌,
}
use in_memory_db.Base.ByteOrder.{bytes_lt, bytes_lt_irrefl}
use in_memory_db.SortedIndex.Format.Entries.{SortEntry}
use in_memory_db.SortedIndex.Merge.{
  EntryReader, HeapItem, heap_less, MergeEnv, Output, better_dup, emit, merge_loop,
}
use in_memory_db.SortedIndex.Merge.Pending.{In, Yields}
use in_memory_db.SortedIndex.Merge.Step.{
  heap_less-StrictWeak, HeapPops, Inv, Pending, size, Round, round_lem,
}
use in_memory_db.SortedIndex.Merge.Duplicates.{Group, merge_dups_lem, nothing-Pending}

and_false : (b : Bool) → (b && false) ≡ false
and_false true = refl
and_false false = refl

abbrev pub StrictlyAscending : List SortEntry → Type 0
StrictlyAscending [] = Unit
StrictlyAscending (e ∷ es) =
    ((z : SortEntry) → In z es → bytes_lt e.key z.key ≡ true) × StrictlyAscending es

-- The entries chosen from a collection, given as a predicate: in order, one for each key, and each the
-- best of its key.
pub record Chosen (ws : List SortEntry) (P : SortEntry → Type 0) : Type 0 where
  pub ascending : StrictlyAscending ws
  pub sound : (w : SortEntry) → In w ws → P w
  pub best : (w z : SortEntry) → In w ws → P z → z.key ≡ w.key → better_dup z w ≡ false
  pub complete : (z : SortEntry) → P z → (w : SortEntry) × In w ws × (w.key ≡ z.key)

-- One round of the outer loop in front of the rest.
Chosen-cons :
    (h : List HeapItem) (ess : List (List SortEntry)) (e : SortEntry) (h₁ : List HeapItem)
    (ess₁ : List (List SortEntry)) (w : SortEntry) (h₂ : List HeapItem)
    (ess₂ : List (List SortEntry)) (ws : List SortEntry)
    → Round h ess e h₁ ess₁
    → Group e h₁ ess₁ w h₂ ess₂
    → Chosen ws (λ z. Pending z h₂ ess₂)
    → Chosen (w ∷ ws) (λ z. Pending z h ess)
Chosen-cons h ess e h₁ ess₁ w h₂ ess₂ ws r g c =
    let apart : (z v : SortEntry) → In v ws → z.key ≡ e.key → z.key ≡ v.key → ⊥ = λ z v m same eq.
      let lt = g.above v (c.sound v m) in
      let lt' : bytes_lt e.key e.key ≡ true = rw (sym eq ∙ same) at lt in
      let irrefl = bytes_lt_irrefl e.key in absurd (cc) in
    record {
      ascending = (λ z m. let lt = g.above z (c.sound z m) in rw g.same_key lt, c.ascending);
      sound = λ z m. elim m [
        | inl is_w ↦
            subst (λ x. Pending x h ess) (sym is_w)
              (elim g.from [
                | inl is_e ↦ subst (λ x. Pending x h ess) (sym is_e) r.here
                | inr p ↦ r.stays w p
              ])
        | inr m' ↦ r.stays z (g.stays z (c.sound z m'))
      ];
      best = λ v z m p eq. elim m [
        | inl is_w ↦ rw is_w (elim (r.others z p) [
          | inl is_e ↦ rw is_e g.beats_first
          | inr p₁ ↦ g.beats z p₁ (eq ∙ (ap (λ (x : SortEntry). x.key) is_w ∙ g.same_key))
        ])
        | inr m' ↦ elim (r.others z p) [
          | inl is_e ↦ absurd (apart z v m' (ap (λ (x : SortEntry). x.key) is_e) eq)
          | inr p₁ ↦ elim (g.others z p₁) [
            | inl same ↦ absurd (apart z v m' same eq)
            | inr p₂ ↦ c.best v z m' p₂ eq
          ]
        ]
      ];
      complete = λ z p. elim (r.others z p) [
        | inl is_e ↦ (w, inl refl, g.same_key ∙ sym (ap (λ (x : SortEntry). x.key) is_e))
        | inr p₁ ↦ elim (g.others z p₁) [
          | inl same ↦ (w, inl refl, g.same_key ∙ sym same)
          | inr p₂ ↦ let (v, m, eq) = c.complete z p₂ in (v, inr m, eq)
        ]
      ];
    }

module _ (env : MergeEnv) (pops : HeapPops env.pop) (runs_on : (n : ℕ) → env.cancelled n ≡ false)
    (interval : ℕ) where
  -- The loop writes the chosen entries in order, and ends.
  pub merge_loop_lem :
      (fuel : ℕ) (rs : List EntryReader) (h : List HeapItem) (ess : List (List SortEntry))
      (out : Output)
      → size h ess < fuel
      → Yields rs ess
      → Inv h ess
      → (ws : List SortEntry) × (merge_loop env fuel interval
            (record { heap = h; readers = rs })
            out
          ≡ ok (foldl (emit env interval) out ws))
        × Chosen ws (λ z. Pending z h ess)
  unfolding merge_loop
  merge_loop_lem zero rs h ess out enough y v = absurd (omega arith)
  merge_loop_lem (suc fuel) rs [] ess out enough y v = (
    [],
    rw (pops.empty heap_less, merge_loop) refl,
    record {
      ascending = tt;
      sound = λ w m. absurd m;
      best = λ w z m p eq. absurd m;
      complete = λ z p. absurd (nothing-Pending ess z v p);
    },
  )
  merge_loop_lem (suc fuel) rs (x ∷ h) ess out enough y v =
      let ((e, i), rest, popped, t) =
        pops.takes heap_less heap_less-StrictWeak (x ∷ h) (omega arith) in
      let (st₁, ess₁, adv, y₁, r) = round_lem rs (x ∷ h) ess e i rest y v t in
      let (w, st₂, ess₂, run, y₂, g) =
        merge_dups_lem env pops fuel e st₁.readers st₁.heap ess₁ (omega (arith, r.falls)) y₁ r.inv
          (λ z p. r.least z (r.stays z p)) in
      let (ws, runs, c) =
        merge_loop_lem fuel st₂.readers st₂.heap ess₂ (emit env interval out w)
          (omega (arith, r.falls, g.falls)) y₂ g.inv in
      (
        w ∷ ws,
        rw (popped, merge_loop, runs_on out.count, and_false (out.count % 100000 == 0), adv, run)
            runs,
        Chosen-cons (x ∷ h) ess e st₁.heap ess₁ w st₂.heap ess₂ ws r g c,
      )
