-- ===== src/SortedIndex/Build/LineAnswers.antt =====
-- The entry that a lookup finds reads as the last line of its key.
use in_memory_db.Base.{
  ℕ, zero, suc, ◌+◌, ◌%◌, ◌^◌, ◌≤◌, ◌<◌, ◌≡◌, refl, ap, sym, ◌∙◌, List, [], ◌∷◌, ◌++◌, append-nil,
  append_assoc, length, length-append, take, drop, drop-add, get_elem?, le→ltb, leb, false,
  Bool-cases, ◌==◌, Option, Option-cases, none, some, Result, ok, err, not_found, inl, inr, arith,
  bytes_equal,
}
use in_memory_db.FileIndex.{KeyFunc, read_line, line_key}
use in_memory_db.FileIndex.Rebuild.{length-read_line}
use in_memory_db.SortedIndex.Format.Entries.{SortEntry}
use in_memory_db.SortedIndex.Merge.Pending.{In}
use in_memory_db.SortedIndex.Lookup.{SortedIndex, source_line}
use in_memory_db.SortedIndex.Lookup.Scan.{found_line}
use in_memory_db.SortedIndex.Build.Spill.{line_entry, entries_in, all_entries}
use in_memory_db.SortedIndex.Build.Latest.{last_with}
use in_memory_db.SortedIndex.Build.Runs.{In-left, In-right}
use in_memory_db.SortedIndex.Build.Lines.{
  lines_of, all_lines, later, line_with, last_line, last_line-append, last_with-append,
  read_line-take, read_line-drop, read_line_le,
}

-- The answer to a lookup, if there is an entry or a line.
abbrev by_entry : SortedIndex → Option SortEntry → Option (Result (List ℕ))
by_entry si none = none
by_entry si (some e) = some (source_line si e)

abbrev by_line : Option (List ℕ) → Option (Result (List ℕ))
by_line none = none
by_line (some line) = some (ok line)

by_entry-later :
    (si : SortedIndex) (x y : Option SortEntry)
    → by_entry si (later x y) ≡ later (by_entry si x) (by_entry si y)
by_entry-later si none y = refl
by_entry-later si (some e) y = refl

by_line-later : (x y : Option (List ℕ)) → by_line (later x y) ≡ later (by_line x) (by_line y)
by_line-later none y = refl
by_line-later (some l) y = refl

module _ (key_func : KeyFunc) (si : SortedIndex) (key : List ℕ) where
  -- The entry of a line reads as the line.
  line_entry-answer :
      (content : List ℕ) (file_idx off : ℕ) (bs line : List ℕ)
      → get_elem? si.srcs file_idx ≡ some content
      → drop off content ≡ bs
      → take (length line) bs ≡ line
      → off + length line ≤ length content
      → length line < 2 ^ 31
      → by_entry si (last_with (line_entry key_func file_idx line off) key)
        ≡ by_line (line_with key_func line key)
  unfolding line_entry line_with last_with source_line
  line_entry-answer content file_idx off bs line at_ rest text inside short =
      elim (Bool-cases (length line == 0)) [
        | inl blank ↦ rw blank refl
        | inr full ↦ elim (Option-cases (line_key key_func line)) [
          | inl skipped ↦ rw (full, skipped) refl
          | inr (k, keyed) ↦ elim (Bool-cases (bytes_equal k key)) [
            | inr other ↦ rw (full, keyed, other) refl
            | inl same ↦
                let size : length line % 2 ^ 32 ≡ length line = omega arith in
                let brief : leb (2 ^ 31) (length line) ≡ false = ground arith in
                let fits = le→ltb (length content) (off + length line) inside in
                rw (full, keyed, same, source_line, at_, size, brief, full, fits, rest, text) refl
          ]
        ]
      ]

  entries_in-answer :
      (content : List ℕ) (file_idx : ℕ)
      → get_elem? si.srcs file_idx ≡ some content
      → (fuel off : ℕ) (bs : List ℕ) → drop off content ≡ bs
      → off + length bs ≤ length content
      → ((line : List ℕ) → In line (lines_of fuel bs) → length line < 2 ^ 31)
      → by_entry si (last_with (entries_in key_func fuel file_idx bs off) key)
        ≡ by_line (last_line key_func (lines_of fuel bs) key)
  unfolding entries_in lines_of last_line
  entries_in-answer content file_idx at_ zero off bs rest inside short = unfold last_with in refl
  entries_in-answer content file_idx at_ (suc fuel) off bs rest inside short =
      let line = (read_line bs).0 in
      let le = read_line_le bs in
      let here = line_entry key_func file_idx line off in
      let brief : length line < 2 ^ 31 = short line (inl refl) in
      let first =
        line_entry-answer content file_idx off bs line at_ rest (read_line-take bs) (omega arith)
          (omega arith) in
      elim (Bool-cases (read_line bs).1) [
        | inr last ↦ rw (last, append-nil here) first
        | inl more ↦
            let more_bs = (read_line bs).2 in
            let size = length-read_line bs more in
            let step : suc (length line) ≡ length line + 1 = omega arith in
            let place : off + suc (length line) ≡ off + length line + 1 = omega arith in
            let rest' : drop (off + length line + 1) content ≡ more_bs =
              ap (λ n. drop n content) (sym place)
              ∙ (sym (drop-add off (suc (length line)) content)
                  ∙ (ap (drop (suc (length line))) rest ∙ read_line-drop bs more)) in
            let tail = entries_in key_func fuel file_idx more_bs (off + length line + 1) in
            let short' = rw more at short in
            let ih =
              entries_in-answer content file_idx at_ fuel (off + length line + 1) more_bs rest'
                (omega arith) (λ l m. short' l (inr m)) in
            rw
              (
                more,
                last_with-append here tail key,
                by_entry-later si (last_with tail key) (last_with here key),
                by_line-later (last_line key_func (lines_of fuel more_bs) key)
                    (line_with key_func line key),
                ih,
                first,
              )
              refl
      ]

  -- The sources from position `base` on.
  abbrev Placed : ℕ → List (List ℕ) → Type 0
  Placed base [] = Unit
  Placed base (c ∷ contents) = (get_elem? si.srcs base ≡ some c) × Placed (base + 1) contents

  all_entries-answer :
      (base : ℕ) (contents : List (List ℕ))
      → Placed base contents
      → base + length contents ≤ 2 ^ 16
      → ((line : List ℕ) → In line (all_lines contents) → length line < 2 ^ 31)
      → by_entry si (last_with (all_entries key_func base contents) key)
        ≡ by_line (last_line key_func (all_lines contents) key)
  unfolding all_entries all_lines last_line
  all_entries-answer base [] placed few short = unfold last_with in refl
  all_entries-answer base (c ∷ contents) (at_, placed) few short =
      let idx : base % 2 ^ 16 ≡ base = omega arith in
      let here = entries_in key_func (length c + 1) base c 0 in
      let rest = all_entries key_func (base + 1) contents in
      let lines = lines_of (length c + 1) c in
      let first =
        entries_in-answer c base at_ (length c + 1) 0 c refl (omega arith)
          (λ l m. short l (In-left l lines (all_lines contents) m)) in
      let ih =
        all_entries-answer (base + 1) contents placed (omega arith)
          (λ l m. short l (In-right l lines (all_lines contents) m)) in
      rw
        (
          idx,
          last_with-append here rest key,
          last_line-append key_func lines (all_lines contents) key,
          by_entry-later si (last_with rest key) (last_with here key),
          by_line-later (last_line key_func (all_lines contents) key)
              (last_line key_func lines key),
          ih,
          first,
        )
        refl

get_elem?-append {ℓ} :
    {A : Type ℓ} (xs : List A) (y : A) (ys : List A) → get_elem? (xs ++ y ∷ ys) (length xs) ≡ some y
get_elem?-append [] y ys = refl
get_elem?-append (x ∷ xs) y ys = get_elem?-append xs y ys

srcs-Placed :
    (key_func : KeyFunc) (si : SortedIndex) (key : List ℕ) (before after : List (List ℕ))
    → si.srcs ≡ before ++ after
    → Placed key_func si key (length before) after
srcs-Placed key_func si key before [] eq = tt
srcs-Placed key_func si key before (c ∷ after) eq =
    let one : length (before ++ c ∷ []) ≡ length before + 1 = length-append before (c ∷ []) in
    (
      rw eq (get_elem?-append before c after),
      rw one at (
          srcs-Placed key_func si key (before ++ c ∷ []) after
            (eq ∙ sym (append_assoc before (c ∷ []) after))),
    )

-- The line, or the error of a missing key.
abbrev pub line_or_missing : Option (List ℕ) → Result (List ℕ)
line_or_missing none = err not_found
line_or_missing (some line) = ok line

found_line-answer :
    (si : SortedIndex) (e : Option SortEntry) (l : Option (List ℕ))
    → by_entry si e ≡ by_line l
    → found_line si e ≡ line_or_missing l
found_line-answer si none none h = refl
found_line-answer si none (some l) h = absurd (cc)
found_line-answer si (some e) none h = absurd (cc)
found_line-answer si (some e) (some l) h = cc

-- A lookup that gives the last entry of the key gives the last line of the key.
pub last_line-answer :
    (key_func : KeyFunc) (si : SortedIndex) (contents : List (List ℕ)) (key : List ℕ)
    → si.srcs ≡ contents
    → length contents ≤ 65535
    → ((line : List ℕ) → In line (all_lines contents) → length line < 2 ^ 31)
    → found_line si (last_with (all_entries key_func 0 contents) key)
      ≡ line_or_missing (last_line key_func (all_lines contents) key)
last_line-answer key_func si contents key srcs few short =
    found_line-answer si (last_with (all_entries key_func 0 contents) key)
      (last_line key_func (all_lines contents) key)
      (all_entries-answer key_func si key 0 contents (srcs-Placed key_func si key [] contents srcs)
        (omega arith) short)
