-- ===== src/SortedIndex/Lookup/Prefixes.antt =====
-- What Prefix and All yield over an index whose files a merge wrote.
use in_memory_db.Base.{
  ℕ, zero, suc, ◌+◌, ◌<◌, ◌≡◌, refl, ap, sym, ◌∙◌, List, [], ◌∷◌, ◌++◌, map, length, true, false,
  Bool-cases, if◌then◌else◌, none, some, ok, ◌⊎◌, inl, inr, arith, subst,
}
use in_memory_db.Base.ByteOrder.{bytes_lt, has_prefix, has_prefix_below, has_prefix_behind}
use in_memory_db.Bytes.Reader.{write_many, All}
use in_memory_db.SortedIndex.Format.Entries.{
  SortEntry, Fits, write_sidx_entry, read_sidx_entry-write, read_sidx_entry-nil,
}
use in_memory_db.SortedIndex.Merge.Pending.{In}
use in_memory_db.SortedIndex.Merge.Winners.{StrictlyAscending}
use in_memory_db.SortedIndex.Merge.Files.{length-sidx_le}
use in_memory_db.SortedIndex.Lookup.{
  SortedIndex, floor_offset, source_line, match_pair, next_prefix_match, prefix_loop, prefix_all,
}
use in_memory_db.SortedIndex.Lookup.Floor.{floor_offset-Split}
use in_memory_db.SortedIndex.Lookup.Scan.{
  Serves, section_from-Split, StrictlyAscending-back, All-back,
}

-- The entries whose key has the prefix, in order.
unfoldable pub matching : List SortEntry → List ℕ → List SortEntry
matching [] prefix = []
matching (e ∷ es) prefix =
    let rest = matching es prefix in if has_prefix e.key prefix then e ∷ rest else rest

matching_none :
    (es : List SortEntry) (prefix : List ℕ)
    → ((z : SortEntry) → In z es → has_prefix z.key prefix ≡ false)
    → matching es prefix ≡ []
unfolding matching
matching_none [] prefix differs = refl
matching_none (e ∷ es) prefix differs =
    rw (differs e (inl refl)) (matching_none es prefix (λ z m. differs z (inr m)))

matching_below :
    (front back : List SortEntry) (prefix : List ℕ)
    → ((z : SortEntry) → In z front → bytes_lt z.key prefix ≡ true)
    → matching (front ++ back) prefix ≡ matching back prefix
unfolding matching
matching_below [] back prefix below = refl
matching_below (e ∷ front) back prefix below =
    rw (has_prefix_below e.key prefix (below e (inl refl)))
      (matching_below front back prefix (λ z m. below z (inr m)))

In-back : (z : SortEntry) (xs ys : List SortEntry) → In z ys → In z (xs ++ ys)
In-back z [] ys m = m
In-back z (x ∷ xs) ys m = inr (In-back z xs ys m)

module _ (si : SortedIndex) (prefix : List ℕ) (line : SortEntry → List ℕ) where
  abbrev Readable : List SortEntry → Type 0
  Readable es = (e : SortEntry) → In e es → source_line si e ≡ ok (line e)

  abbrev pair : SortEntry → List ℕ × List ℕ
  pair e = (e.key, line e)

  -- A match, with the entries behind it.
  record Match (es : List SortEntry) (fuel : ℕ) : Type 0 where
    entry : SortEntry
    rest : List SortEntry
    shorter : length rest < length es
    asc : StrictlyAscending rest
    fits : All Fits rest
    readable : Readable rest
    matched : matching es prefix ≡ entry ∷ matching rest prefix
    next_ :
        next_prefix_match fuel si prefix (write_many write_sidx_entry es)
        ≡ some (pair entry, write_many write_sidx_entry rest)

  next_prefix_match_lem :
      (es : List SortEntry) (fuel : ℕ)
      → length es < fuel
      → StrictlyAscending es
      → All Fits es
      → Readable es
      → ((matching es prefix ≡ [])
          × (next_prefix_match fuel si prefix (write_many write_sidx_entry es) ≡ none))
        ⊎ Match es fuel
  unfolding next_prefix_match matching write_many match_pair
  next_prefix_match_lem es zero enough asc fits can = absurd (omega arith)
  next_prefix_match_lem [] (suc fuel) enough asc fits can =
      inl (refl, rw (read_sidx_entry-nil, next_prefix_match) refl)
  next_prefix_match_lem (e ∷ es) (suc fuel) enough asc fits can =
      let read = read_sidx_entry-write e (write_many write_sidx_entry es) fits.0 in
      elim (Bool-cases (bytes_lt e.key prefix)) [
        | inl below ↦
            let differs = has_prefix_below e.key prefix below in
            elim (next_prefix_match_lem es fuel (omega arith) asc.1 fits.1 (λ z m. can z (inr m))) [
              | inl (gone, ends) ↦ inl (rw differs gone, rw (read, next_prefix_match, below) ends)
              | inr m ↦ inr (record {
                entry = m.entry;
                rest = m.rest;
                shorter = omega (arith, m.shorter);
                asc = m.asc;
                fits = m.fits;
                readable = m.readable;
                matched = rw differs m.matched;
                next_ = rw (read, next_prefix_match, below) m.next_;
              })
            ]
        | inr not_below ↦ elim (Bool-cases (has_prefix e.key prefix)) [
          | inl has_it ↦ inr (record {
            entry = e;
            rest = es;
            shorter = omega arith;
            asc = asc.1;
            fits = fits.1;
            readable = λ z m. can z (inr m);
            matched = rw has_it refl;
            next_ =
                rw (read, next_prefix_match, not_below, has_it, match_pair, can e (inl refl)) refl;
          })
          | inr differs ↦ inl (
            rw differs (
                matching_none es prefix
                  (λ z m. has_prefix_behind prefix e.key z.key not_below differs (asc.0 z m))),
            rw (read, next_prefix_match, not_below, differs) refl,
          )
        ]
      ]

  prefix_loop_lem :
      (fuel : ℕ) (es : List SortEntry)
      → length es < fuel
      → si.is_closed ≡ false
      → StrictlyAscending es
      → All Fits es
      → Readable es
      → prefix_loop fuel si prefix (write_many write_sidx_entry es) ≡ map pair (matching es prefix)
  unfolding prefix_loop
  prefix_loop_lem zero es enough opened asc fits can = absurd (omega arith)
  prefix_loop_lem (suc fuel) es enough opened asc fits can =
      elim (next_prefix_match_lem es (length (write_many write_sidx_entry es) + 1)
        (omega (arith, length-sidx_le es)) asc fits can) [
          | inl (gone, ends) ↦ simp (prefix_loop, opened) (rw (ends, gone) refl)
          | inr m ↦
              let short = m.shorter in
              let rest = prefix_loop_lem fuel m.rest (omega arith) opened m.asc m.fits m.readable in
              simp (prefix_loop, opened) (rw (m.next_, m.matched, rest) refl)
        ]

  -- Prefix on an open index over entries that strictly ascend by key and fit their widths, with
  -- a sparse directory of every so many of them, where the line of every entry can be read: it
  -- yields the keys and lines of exactly the entries whose key has the prefix, each once and in
  -- order.
  pub prefix_all-matching :
      (interval : ℕ) (ws : List SortEntry)
      → Serves interval ws si
      → si.is_closed ≡ false
      → ((e : SortEntry) → In e ws → source_line si e ≡ ok (line e))
      → prefix_all si prefix ≡ map (λ (e : SortEntry). (e.key, line e)) (matching ws prefix)
  unfolding prefix_all
  prefix_all-matching interval ws v opened can =
      let s = floor_offset-Split si ws interval prefix v.ascending v.start v.samples in
      let asc = StrictlyAscending-back s.front s.back (rw s.joined v.ascending) in
      let fits = All-back s.front s.back (rw s.joined v.fits) in
      let bytes = section_from-Split interval ws si prefix (floor_offset si prefix) v s in
      let back_only : matching ws prefix ≡ matching s.back prefix =
        ap (λ t. matching t prefix) (sym s.joined) ∙ matching_below s.front s.back prefix s.below in
      rw (bytes, back_only)
        (prefix_loop_lem (length (write_many write_sidx_entry s.back) + 1) s.back
          (omega (arith, length-sidx_le s.back)) opened asc fits
          (λ e m. can e (subst (In e) s.joined (In-back e s.front s.back m))))
