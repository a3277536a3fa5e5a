-- ===== src/SortedIndex/Build/Runs.antt =====
-- The runs of a scan as the inputs of a merge.
use in_memory_db.Base.{
  ℕ, zero, suc, ◌<◌, ◌≡◌, refl, ap, sym, ◌∙◌, List, [], ◌∷◌, ◌++◌, map, length, Option, ok, false,
  ◌⊎◌, inl, inr, ◌↔◌, subst,
}
use in_memory_db.Bytes.Reader.{All}
use in_memory_db.SortedIndex.Format.Entries.{SortEntry, Fits}
use in_memory_db.SortedIndex.Merge.{run, merge_runs}
use in_memory_db.SortedIndex.Merge.Step.{HeapPops}
use in_memory_db.SortedIndex.Merge.Winners.{Chosen}
use in_memory_db.SortedIndex.Merge.Duplicates.{better_le_trans}
use in_memory_db.SortedIndex.Format.BloomFile.{BloomFilter}
use in_memory_db.SortedIndex.Merge.Pending.{In, Ascending}
use in_memory_db.SortedIndex.Merge.Start.{Among, AllAscending}
use in_memory_db.SortedIndex.Merge.Files.{
  Input, run_of, entries_of, reader_of, files_of, merge_runs-Chosen,
}
use in_memory_db.SortedIndex.Lookup.Floor.{In-append}
use in_memory_db.SortedIndex.Build.{BuildEnv, run_less, spill_sorted_runs}
use in_memory_db.SortedIndex.Build.Spill.{
  Sorts, run_less-StrictWeak, concat, run_file, Stands, all_entries, spill_sorted_runs_lem,
}

pub All-In {κ} :
    (P : SortEntry → Type κ) (es : List SortEntry) → ((z : SortEntry) → In z es → P z) → All P es
All-In P [] h = tt
All-In P (e ∷ es) h = (h e (inl refl), All-In P es (λ z m. h z (inr m)))

pub In-left : {A : Type 0} (z : A) (xs ys : List A) → In z xs → In z (xs ++ ys)
In-left z [] ys m = absurd m
In-left z (x ∷ xs) ys (inl e) = inl e
In-left z (x ∷ xs) ys (inr m) = inr (In-left z xs ys m)

pub In-right : {A : Type 0} (z : A) (xs ys : List A) → In z ys → In z (xs ++ ys)
In-right z [] ys m = m
In-right z (x ∷ xs) ys m = inr (In-right z xs ys m)

-- Choosing from a collection depends on its members only.
pub Chosen_iff :
    (ws : List SortEntry) (P Q : SortEntry → Type 0)
    → ((z : SortEntry) → P z ↔ Q z)
    → Chosen ws P
    → Chosen ws Q
Chosen_iff ws P Q iff c = record {
  ascending = c.ascending;
  sound = λ w m. (iff w).0 (c.sound w m);
  best = λ w z m q eq. c.best w z m ((iff z).1 q) eq;
  complete = λ z q. c.complete z ((iff z).1 q);
}

-- What was chosen from a part stands for it in a second choice.
pub Chosen_again :
    (ws ws' : List SortEntry) (Old New : SortEntry → Type 0)
    → Chosen ws Old
    → Chosen ws' (λ z. New z ⊎ In z ws)
    → Chosen ws' (λ z. Old z ⊎ New z)
Chosen_again ws ws' Old New c c' = record {
  ascending = c'.ascending;
  sound = λ w m. elim (c'.sound w m) [ inl new ↦ inr new | inr old ↦ inl (c.sound w old) ];
  best = λ w z m p eq. elim p [
    | inr new ↦ c'.best w z m (inl new) eq
    | inl old ↦
        let (v, k, same) = c.complete z old in
        better_le_trans z v w (c.best v z k old (sym same)) (c'.best w v m (inr k) (same ∙ eq))
  ];
  complete = λ z p. elim p [
    | inr new ↦ c'.complete z (inl new)
    | inl old ↦
        let (v, k, same) = c.complete z old in
        let (w, m, same') = c'.complete v (inr k) in (w, m, same' ∙ same)
  ];
}

-- Sorted chunks, and the inputs behind them.
module _ (env : BuildEnv) (sorts : Sorts env.sort_slice) (tail : List Input) where
  abbrev pub inputs : List (List SortEntry) → List Input
  inputs chunks = map (λ c. run_of (env.sort_slice run_less c)) chunks ++ tail

  pub readers-inputs :
      (cap : ℕ) (chunks : List (List SortEntry))
      → map run (map (run_file env cap) chunks) ++ map reader_of tail
        ≡ map reader_of (inputs chunks)
  unfolding reader_of
  readers-inputs cap [] = refl
  readers-inputs cap (c ∷ chunks) =
      ap (λ t. run (run_file env cap c) ∷ t) (readers-inputs cap chunks)

  pub inputs-Fits :
      (chunks : List (List SortEntry))
      → ((z : SortEntry) → In z (concat chunks) → Fits z)
      → All (λ i. All Fits (entries_of i)) tail
      → All (λ i. All Fits (entries_of i)) (inputs chunks)
  inputs-Fits [] h t = t
  inputs-Fits (c ∷ chunks) h t = (
    All-In Fits (env.sort_slice run_less c)
        (λ z m. h z (In-left z c (concat chunks) ((sorts.same run_less c z).0 m))),
    inputs-Fits chunks (λ z m. h z (In-right z c (concat chunks) m)) t,
  )

  pub inputs-AllAscending :
      (chunks : List (List SortEntry))
      → AllAscending (map entries_of tail)
      → AllAscending (map entries_of (inputs chunks))
  inputs-AllAscending [] t k es at_ = t k es at_
  inputs-AllAscending (c ∷ chunks) t zero es at_ =
      let eq : env.sort_slice run_less c ≡ es = cc in
      subst Ascending eq (sorts.ordered run_less run_less-StrictWeak c)
  inputs-AllAscending (c ∷ chunks) t (suc k) es at_ = inputs-AllAscending chunks t k es at_

  Among→concat :
      (chunks : List (List SortEntry)) (z : SortEntry)
      → Among z (map entries_of (inputs chunks))
      → In z (concat chunks) ⊎ Among z (map entries_of tail)
  Among→concat [] z m = inr m
  Among→concat (c ∷ chunks) z (zero, es, at_, m) =
      let eq : env.sort_slice run_less c ≡ es = cc in
      inl (In-left z c (concat chunks) ((sorts.same run_less c z).0 (subst (In z) (sym eq) m)))
  Among→concat (c ∷ chunks) z (suc k, es, at_, m) = elim (Among→concat chunks z (k, es, at_, m)) [
    | inl here ↦ inl (In-right z c (concat chunks) here)
    | inr there ↦ inr there
  ]

  concat→Among :
      (chunks : List (List SortEntry)) (z : SortEntry)
      → In z (concat chunks) ⊎ Among z (map entries_of tail)
      → Among z (map entries_of (inputs chunks))
  concat→Among [] z (inl m) = absurd m
  concat→Among [] z (inr m) = m
  concat→Among (c ∷ chunks) z (inl m) = elim (In-append z c (concat chunks) m) [
    | inl left ↦ (zero, env.sort_slice run_less c, refl, (sorts.same run_less c z).1 left)
    | inr right ↦ let (k, es, at_, m') = concat→Among chunks z (inl right) in (suc k, es, at_, m')
  ]
  concat→Among (c ∷ chunks) z (inr m) =
      let (k, es, at_, m') = concat→Among chunks z (inr m) in (suc k, es, at_, m')

  pub Among-iff :
      (chunks : List (List SortEntry)) (z : SortEntry)
      → Among z (map entries_of (inputs chunks))
        ↔ (In z (concat chunks) ⊎ Among z (map entries_of tail))
  Among-iff chunks z = (Among→concat chunks z, concat→Among chunks z)

-- The parts of the library do what they document, and nothing is cancelled.
pub record Works (env : BuildEnv) : Type 0 where
  pub pops : HeapPops env.merge.pop
  pub sorts : Sorts env.sort_slice
  pub starts : env.cancelled ≡ false
  pub scans : (file_idx lines : ℕ) → env.scan_cancelled file_idx lines ≡ false
  pub merges : (n : ℕ) → env.merge.cancelled n ≡ false

-- The merge of the runs of a scan, with other inputs, chooses among the scanned entries and theirs.
pub merge_runs-spilled :
    (env : BuildEnv) (paths contents : List (List ℕ)) (base cap interval : ℕ)
    (bloom : Option BloomFilter) (tail : List Input)
    → Works env
    → Stands env paths contents
    → 0 < cap
    → ((z : SortEntry) → In z (all_entries env.key_func base contents) → Fits z)
    → All (λ i. All Fits (entries_of i)) tail
    → AllAscending (map entries_of tail)
    → (runs : List (List ℕ)) × (ws : List SortEntry) × (spill_sorted_runs env cap base paths
        ≡ ok (runs, length (all_entries env.key_func base contents)))
      × (merge_runs env.merge (map run runs ++ map reader_of tail) interval bloom
          ≡ ok (files_of env.merge interval bloom ws))
      × Chosen ws
          (λ z. In z (all_entries env.key_func base contents) ⊎ Among z (map entries_of tail))
merge_runs-spilled env paths contents base cap interval bloom tail works stands pos fits tail_fits
      sorted =
    let all = all_entries env.key_func base contents in
    let (chunks, spilled, cut, _, _) =
      spill_sorted_runs_lem env cap works.scans works.sorts paths contents base stands pos in
    let fits' =
      inputs-Fits env works.sorts tail chunks (λ z m. fits z (subst (In z) cut m)) tail_fits in
    let (ws, merged, c) =
      merge_runs-Chosen env.merge works.pops works.merges (inputs env works.sorts tail chunks)
        interval bloom fits' (inputs-AllAscending env works.sorts tail chunks sorted) in
    (
      map (run_file env cap) chunks,
      ws,
      spilled,
      rw (readers-inputs env works.sorts tail cap chunks) merged,
      Chosen_iff ws (λ z. Among z (map entries_of (inputs env works.sorts tail chunks)))
          (λ z. In z all ⊎ Among z (map entries_of tail))
          (λ z.
            subst
              (λ es.
                Among z (map entries_of (inputs env works.sorts tail chunks))
                ↔ (In z es ⊎ Among z (map entries_of tail)))
              cut (Among-iff env works.sorts tail chunks z))
          c,
    )
