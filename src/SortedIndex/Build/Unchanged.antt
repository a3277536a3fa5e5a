-- ===== src/SortedIndex/Build/Unchanged.antt =====
-- When recorded sources are unchanged: the comparisons of source records, and what they say of the
-- contents.
use in_memory_db.Base.{
  ℕ, zero, suc, ◌≡◌, refl, ap, ap₂, sym, ◌∙◌, List, [], ◌∷◌, ◌++◌, append-nil, map, length, drop,
  drop_all, Bool, true, false, ◌&&◌, leb, ◌==◌, ==_iff, bytes_equal, bytes_equal_sound,
  bytes_equal_refl, Bool-cases, some, inl, inr, arith,
}
use in_memory_db.SortedIndex.Format.Sources.{
  SourceStat, same_stat, same_stats, sources_match, incremental_eligible,
}
use in_memory_db.SortedIndex.Build.{SourceFile, BuildEnv}
use in_memory_db.SortedIndex.Build.Spill.{Stands}
use in_memory_db.SortedIndex.Build.State.{Described}

and_both : (a b : Bool) → (a && b) ≡ true → (a ≡ true) × (b ≡ true)
and_both true true h = (refl, refl)
and_both true false h = absurd (cc)
and_both false b h = absurd (cc)

same_stat_sound : (a b : SourceStat) → same_stat a b ≡ true → a ≡ b
unfolding same_stat
same_stat_sound a b h =
    let (path, more) =
      and_both (bytes_equal a.path b.path) ((a.size == b.size) && (a.mod_time == b.mod_time)) h in
    let (size, time) = and_both (a.size == b.size) (a.mod_time == b.mod_time) more in
    let p = bytes_equal_sound a.path b.path path in
    let n = (==_iff a.size b.size).0 size in
    let t = (==_iff a.mod_time b.mod_time).0 time in
    λ i. record { path = p i; size = n i; mod_time = t i }

-- The second list goes on where the first one ends.
pub same_stats_sound :
    (recorded current : List SourceStat)
    → same_stats recorded current ≡ true
    → recorded ++ drop (length recorded) current ≡ current
unfolding same_stats
same_stats_sound [] current h = refl
same_stats_sound (r ∷ recorded) [] h = absurd (cc)
same_stats_sound (r ∷ recorded) (c ∷ current) h =
    let (here, rest) = and_both (same_stat c r) (same_stats recorded current) h in
    ap₂ (λ x xs. x ∷ xs) (sym (same_stat_sound c r here)) (same_stats_sound recorded current rest)

pub sources_match_sound : (a b : List SourceStat) → sources_match a b ≡ true → a ≡ b
unfolding sources_match
sources_match_sound a b h =
    let (size, same) = and_both (length a == length b) (same_stats a b) h in
    let n = (==_iff (length a) (length b)).0 size in
    let rest : drop (length a) b ≡ [] = drop_all (length a) b (omega arith) in
    sym (append-nil a) ∙ (ap (λ t. a ++ t) (sym rest) ∙ same_stats_sound a b same)

pub incremental_eligible_sound :
    (recorded current new_srcs : List SourceStat)
    → incremental_eligible recorded current ≡ some new_srcs
    → (new_srcs ≡ drop (length recorded) current)
      × (recorded ++ drop (length recorded) current ≡ current)
unfolding incremental_eligible
incremental_eligible_sound recorded current new_srcs h =
    elim (Bool-cases (leb (length current) (length recorded))) [
      | inl few ↦ let h' = rw few at h in absurd (cc)
      | inr more ↦ elim (Bool-cases (same_stats recorded current)) [
        | inr differ ↦ let h' = rw (more, differ) at h in absurd (cc)
        | inl same ↦ let h' = rw (more, same) at h in (cc, same_stats_sound recorded current same)
      ]
    ]

pub same_stats_refl : (stats : List SourceStat) → same_stats stats stats ≡ true
unfolding same_stats same_stat
same_stats_refl [] = refl
same_stats_refl (s ∷ stats) =
    let size = (==_iff s.size s.size).1 refl in
    let time = (==_iff s.mod_time s.mod_time).1 refl in
    rw (bytes_equal_refl s.path, size, time) (same_stats_refl stats)

module _ (env : BuildEnv) where
  -- A source whose size and modification time are the recorded ones has its content unchanged.
  abbrev pub Trusted : List SourceStat → List (List ℕ) → Type 0
  Trusted [] [] = Unit
  Trusted [] (c ∷ old) = ⊥
  Trusted (r ∷ recorded) [] = ⊥
  Trusted (r ∷ recorded) (c ∷ old) =
      ((f : SourceFile)
        → env.source_file r.path ≡ some f
        → r.size ≡ length f.content
        → r.mod_time ≡ f.mod_time
        → f.content ≡ c)
      × Trusted recorded old

  pub Described-drop :
      (n : ℕ) (stats : List SourceStat) (contents : List (List ℕ))
      → Described env stats contents
      → Described env (drop n stats) (drop n contents)
  Described-drop zero stats contents d = d
  Described-drop (suc n) [] [] d = tt
  Described-drop (suc n) [] (c ∷ contents) d = absurd d
  Described-drop (suc n) (s ∷ stats) [] d = absurd d
  Described-drop (suc n) (s ∷ stats) (c ∷ contents) d = Described-drop n stats contents d.1

  pub Described-Stands :
      (stats : List SourceStat) (contents : List (List ℕ))
      → Described env stats contents
      → Stands env (map (λ (s : SourceStat). s.path) stats) contents
  Described-Stands [] [] d = tt
  Described-Stands [] (c ∷ contents) d = absurd d
  Described-Stands (s ∷ stats) [] d = absurd d
  Described-Stands (s ∷ stats) (c ∷ contents) ((f, found, same, _, _), d) =
      ((f, found, same), Described-Stands stats contents d)

  -- The contents of the recorded sources stand in front.
  pub Trusted-contents :
      (recorded rest : List SourceStat) (old contents : List (List ℕ))
      → Described env (recorded ++ rest) contents
      → Trusted recorded old
      → (old ++ drop (length recorded) contents ≡ contents) × (length recorded ≡ length old)
  Trusted-contents [] rest [] contents d t = (refl, refl)
  Trusted-contents [] rest (c ∷ old) contents d t = absurd t
  Trusted-contents (r ∷ recorded) rest [] contents d t = absurd t
  Trusted-contents (r ∷ recorded) rest (c ∷ old) [] d t = absurd d
  Trusted-contents (r ∷ recorded) rest (c ∷ old) (c' ∷ contents) ((f, found, same, size, time), d)
        (trust, t) =
      let (eq, n) = Trusted-contents recorded rest old contents d t in
      let kept = trust f found (size ∙ ap (λ t. length t) (sym same)) time in
      (ap₂ (λ x xs. x ∷ xs) (sym kept ∙ same) eq, omega arith)

  pub Trusted-same :
      (recorded : List SourceStat) (old contents : List (List ℕ))
      → Described env recorded contents
      → Trusted recorded old
      → old ≡ contents
  Trusted-same [] [] [] d t = refl
  Trusted-same [] old (c ∷ contents) d t = absurd d
  Trusted-same [] (c ∷ old) [] d t = absurd t
  Trusted-same (r ∷ recorded) old [] d t = absurd d
  Trusted-same (r ∷ recorded) [] (c ∷ contents) d t = absurd t
  Trusted-same (r ∷ recorded) (c ∷ old) (c' ∷ contents) ((f, found, same, size, time), d)
        (trust, t) =
      let kept = trust f found (size ∙ ap (λ t. length t) (sym same)) time in
      ap₂ (λ x xs. x ∷ xs) (sym kept ∙ same) (Trusted-same recorded old contents d t)
