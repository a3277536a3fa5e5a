-- ===== src/SortedIndex/Merge/Duplicates.antt =====
-- The inner loop of the merge: all entries of one key are taken, and the best of them is kept.
use in_memory_db.Base.{
  ℕ, zero, suc, ◌≤◌, ◌<◌, ◌≡◌, refl, sym, ◌∙◌, List, [], ◌∷◌, true, false, ok, ◌⊎◌, inl, inr, arith,
  subst, Bool-cases, if◌then◌else◌, bytes_equal, bytes_equal_iff,
}
use in_memory_db.Base.ByteOrder.{bytes_lt, bytes_lt_irrefl, bytes_lt_total, bytes_lt_of_lt_le}
use in_memory_db.SortedIndex.Format.Entries.{SortEntry}
use in_memory_db.SortedIndex.Merge.{
  EntryReader, HeapItem, heap_less, MergeEnv, MergeState, better_dup, merge_dups,
}
use in_memory_db.SortedIndex.Merge.Pending.{In, KeyLe, Yields}
use in_memory_db.SortedIndex.Merge.Step.{
  heap_less-StrictWeak, HeapPops, Inv, Pending, size, Round, round_lem,
}

better_trans :
    (a b c : SortEntry) → better_dup a b ≡ false → better_dup c b ≡ true → better_dup a c ≡ false
unfolding better_dup
better_trans a b c h k = ground arith

pub better_irrefl : (a : SortEntry) → better_dup a a ≡ false
unfolding better_dup
better_irrefl a = ground arith

better_asymm : (a b : SortEntry) → better_dup a b ≡ true → better_dup b a ≡ false
unfolding better_dup
better_asymm a b h = ground arith

pub better_le_trans :
    (a b c : SortEntry) → better_dup a b ≡ false → better_dup b c ≡ false → better_dup a c ≡ false
unfolding better_dup
better_le_trans a b c h k = ground arith

-- What the inner loop leaves: one entry of the key, the best, and no other entry of the key.
pub record Group (winner : SortEntry) (h : List HeapItem) (ess : List (List SortEntry))
    (w : SortEntry) (h' : List HeapItem) (ess' : List (List SortEntry)) : Type 0 where
  pub inv : Inv h' ess'
  pub falls : size h' ess' ≤ size h ess
  pub from : (w ≡ winner) ⊎ Pending w h ess
  pub same_key : w.key ≡ winner.key
  pub beats_first : better_dup winner w ≡ false
  pub beats : (z : SortEntry) → Pending z h ess → z.key ≡ winner.key → better_dup z w ≡ false
  pub above : (z : SortEntry) → Pending z h' ess' → bytes_lt winner.key z.key ≡ true
  pub others : (z : SortEntry) → Pending z h ess → (z.key ≡ winner.key) ⊎ Pending z h' ess'
  pub stays : (z : SortEntry) → Pending z h' ess' → Pending z h ess

-- An empty heap means that nothing is pending.
pub nothing-Pending :
    (ess : List (List SortEntry)) (z : SortEntry) → Inv [] ess → Pending z [] ess → ⊥
nothing-Pending ess z v (inl (j, m)) = m
nothing-Pending ess z v (inr (j, es, at_, m)) = elim (v.headed j es at_) [
  | inl none_left ↦ subst (In z) none_left m
  | inr (f, head, below) ↦ head
]

-- Nothing more of the key is pending.
Group-stop :
    (winner : SortEntry) (h : List HeapItem) (ess : List (List SortEntry))
    → Inv h ess
    → ((z : SortEntry) → Pending z h ess → bytes_lt winner.key z.key ≡ true)
    → Group winner h ess winner h ess
Group-stop winner h ess v above = record {
  inv = v;
  falls = omega arith;
  from = inl refl;
  same_key = refl;
  beats_first = better_irrefl winner;
  beats = λ z p same.
      let lt = above z p in
      let lt' : bytes_lt winner.key winner.key ≡ true = rw same at lt in
      let irrefl = bytes_lt_irrefl winner.key in absurd (cc);
  above = above;
  others = λ z p. inr p;
  stays = λ z p. p;
}

-- One duplicate, and the rest of the loop.
Group-more :
    (winner : SortEntry) (h : List HeapItem) (ess : List (List SortEntry)) (e : SortEntry)
    (h₁ : List HeapItem) (ess₁ : List (List SortEntry)) (w : SortEntry) (h' : List HeapItem)
    (ess' : List (List SortEntry))
    → e.key ≡ winner.key
    → Round h ess e h₁ ess₁
    → Group (if better_dup e winner then e else winner) h₁ ess₁ w h' ess'
    → Group winner h ess w h' ess'
Group-more winner h ess e h₁ ess₁ w h' ess' same r g =
    let cand = if better_dup e winner then e else winner in
    let cand_key : cand.key ≡ winner.key = elim (Bool-cases (better_dup e winner)) [
      | inl b ↦ rw b same
      | inr b ↦ rw b refl
    ] in
    let e_not : better_dup e cand ≡ false = elim (Bool-cases (better_dup e winner)) [
      | inl b ↦ rw b (better_irrefl e)
      | inr b ↦ rw b b
    ] in
    let first_not : better_dup winner cand ≡ false = elim (Bool-cases (better_dup e winner)) [
      | inl b ↦ rw b (better_asymm e winner b)
      | inr b ↦ rw b (better_irrefl winner)
    ] in
    record {
      inv = g.inv;
      falls = omega (arith, g.falls, r.falls);
      from = elim g.from [
        | inl is_cand ↦ elim (Bool-cases (better_dup e winner)) [
          | inl b ↦ inr (let eq : w ≡ e = rw b at is_cand in rw eq (r.here))
          | inr b ↦ inl (rw b at is_cand)
        ]
        | inr p ↦ inr (r.stays w p)
      ];
      same_key = g.same_key ∙ cand_key;
      beats_first = better_le_trans winner cand w first_not g.beats_first;
      beats = λ z p eq. elim (r.others z p) [
        | inl is_e ↦ rw is_e (better_le_trans e cand w e_not g.beats_first)
        | inr later ↦ g.beats z later (eq ∙ sym cand_key)
      ];
      above = λ z p. let lt = g.above z p in rw cand_key at lt;
      others = λ z p. elim (r.others z p) [
        | inl is_e ↦ inl (rw is_e same)
        | inr later ↦ elim (g.others z later) [ inl eq ↦ inl (eq ∙ cand_key) | inr p' ↦ inr p' ]
      ];
      stays = λ z p. r.stays z (g.stays z p);
    }

-- Not above, and not the same, is below.
lt_of_ne :
    (a b : SortEntry) → KeyLe a b → bytes_equal b.key a.key ≡ false → bytes_lt a.key b.key ≡ true
lt_of_ne a b le ne = elim (Bool-cases (bytes_lt a.key b.key)) [
  | inl lt ↦ lt
  | inr no_lt ↦
      let same = bytes_lt_total a.key b.key no_lt le in
      let eq = (bytes_equal_iff b.key a.key).1 (sym same) in absurd (cc)
]

module _ (env : MergeEnv) (pops : HeapPops env.pop) where
  pub merge_dups_lem :
      (fuel : ℕ) (winner : SortEntry) (rs : List EntryReader) (h : List HeapItem)
      (ess : List (List SortEntry))
      → size h ess < fuel
      → Yields rs ess
      → Inv h ess
      → ((z : SortEntry) → Pending z h ess → KeyLe winner z)
      → (w : SortEntry) × (st' : MergeState) × (ess' : List (List SortEntry)) × (merge_dups env fuel
            winner
            (record { heap = h; readers = rs })
          ≡ ok (w, st'))
        × Yields st'.readers ess'
        × Group winner h ess w st'.heap ess'
  unfolding merge_dups
  merge_dups_lem zero winner rs h ess enough y v least = absurd (omega arith)
  merge_dups_lem (suc fuel) winner rs [] ess enough y v least = (
    winner,
    record { heap = []; readers = rs },
    ess,
    rw (pops.empty heap_less, merge_dups) refl,
    y,
    Group-stop winner [] ess v (λ z p. absurd (nothing-Pending ess z v p)),
  )
  merge_dups_lem (suc fuel) winner rs (x ∷ h) ess enough y v least =
      let ((e, i), rest, popped, t) =
        pops.takes heap_less heap_less-StrictWeak (x ∷ h) (omega arith) in
      elim (Bool-cases (bytes_equal e.key winner.key)) [
        | inl same ↦
            let same_key = (bytes_equal_iff e.key winner.key).0 same in
            let (st₁, ess₁, adv, y₁, r) = round_lem rs (x ∷ h) ess e i rest y v t in
            let cand = if better_dup e winner then e else winner in
            let cand_key : cand.key ≡ winner.key = elim (Bool-cases (better_dup e winner)) [
              | inl b ↦ rw b same_key
              | inr b ↦ rw b refl
            ] in
            let (w, st', ess', run, y', g) =
              merge_dups_lem fuel cand st₁.readers st₁.heap ess₁ (omega (arith, r.falls)) y₁ r.inv
                (λ z p. rw cand_key (least z (r.stays z p))) in
            (
              w,
              st',
              ess',
              rw (popped, merge_dups, same, adv) run,
              y',
              Group-more winner (x ∷ h) ess e st₁.heap ess₁ w st'.heap ess' same_key r g,
            )
        | inr other ↦
            let (_, _, _, _, r) = round_lem rs (x ∷ h) ess e i rest y v t in
            (
              winner,
              record { heap = x ∷ h; readers = rs },
              ess,
              rw (popped, merge_dups, other) refl,
              y,
              Group-stop winner (x ∷ h) ess v (λ z p.
                  bytes_lt_of_lt_le winner.key e.key z.key
                    (lt_of_ne winner e (least e r.here) other) (r.least z p)),
            )
      ]
