-- ===== src/SortedIndex/Build/Spill.antt =====
-- What the scan of the sources leaves in the run files.
use in_memory_db.Base.{
  ℕ, zero, suc, ◌+◌, ◌%◌, ◌^◌, ◌≤◌, ◌<◌, ◌≡◌, refl, ap, sym, ◌∙◌, List, [], ◌∷◌, ◌++◌, map,
  append_assoc, append-nil, length, length-append, Bool, true, false, Bool-cases, ◌&&◌, leb, ◌==◌,
  if◌then◌else◌, Option-cases, none, some, ok, inl, inr, ◌↔◌, arith,
}
use in_memory_db.Base.ByteOrder.{bytes_lt_asymm}
use in_memory_db.Bytes.Reader.{write_many, All}
use in_memory_db.FileIndex.{KeyFunc, read_line, line_key}
use in_memory_db.FileIndex.Rebuild.{length-read_line}
use in_memory_db.SortedIndex.Format.Entries.{SortEntry, write_run_entry}
use in_memory_db.SortedIndex.Merge.Pending.{
  In, StrictWeak, Ordered, Ascending, KeyLe-refl, KeyLe-trans,
}
use in_memory_db.SortedIndex.Build.{
  SourceFile, BuildEnv, Spilled, flush, run_less, add_entry, scan_line, scan_lines, scan_sources,
  spill_sorted_runs,
}

-- The entry of a line, if it has one.
unfoldable pub line_entry : KeyFunc → ℕ → List ℕ → ℕ → List SortEntry
line_entry key_func file_idx line off =
    if length line == 0 then [] else elim (line_key key_func line) [
      | none ↦ []
      | some key ↦
          record { key = key; file_idx = file_idx; src_off = off; len = length line % 2 ^ 32 } ∷ []
    ]

-- The entries of a source's lines, in the order of the file.
unfoldable pub entries_in : KeyFunc → ℕ → ℕ → List ℕ → ℕ → List SortEntry
unfolding line_entry
entries_in key_func zero file_idx bs off = []
entries_in key_func (suc fuel) file_idx bs off =
    let (line, terminated, rest) = read_line bs in
    line_entry key_func file_idx line off ++ (elim terminated [
      | true ↦ entries_in key_func fuel file_idx rest (off + length line + 1)
      | false ↦ []
    ])

-- The entries of all sources in turn.
unfoldable pub all_entries : KeyFunc → ℕ → List (List ℕ) → List SortEntry
unfolding entries_in
all_entries key_func file_idx [] = []
all_entries key_func file_idx (content ∷ contents) =
    entries_in key_func (length content + 1) (file_idx % 2 ^ 16) content 0
    ++ all_entries key_func (file_idx + 1) contents

abbrev pub concat : {A : Type 0} → List (List A) → List A
concat [] = []
concat (xs ∷ xss) = xs ++ concat xss

concat-append :
    {A : Type 0} (xss : List (List A)) (ys : List A) → concat (xss ++ ys ∷ []) ≡ concat xss ++ ys
concat-append [] ys = append-nil ys
concat-append (xs ∷ xss) ys =
    ap (λ t. xs ++ t) (concat-append xss ys) ∙ sym (append_assoc xs (concat xss) ys)

map-snoc :
    {A B : Type 0} (f : A → B) (xs : List A) (x : A) → map f (xs ++ x ∷ []) ≡ map f xs ++ f x ∷ []
map-snoc f [] x = refl
map-snoc f (y ∷ xs) x = ap (λ t. f y ∷ t) (map-snoc f xs x)

All-snoc :
    {A : Type 0} (P : A → Type 0) (xs : List A) (x : A) → All P xs → P x → All P (xs ++ x ∷ [])
All-snoc P [] x h k = (k, tt)
All-snoc P (y ∷ xs) x h k = (h.0, All-snoc P xs x h.1 k)

nil_of_length : (es : List SortEntry) → (length es == 0) ≡ true → es ≡ []
nil_of_length [] h = refl
nil_of_length (e ∷ es) h = absurd (ground arith)

and_false : (b : Bool) → (b && false) ≡ false
and_false true = refl
and_false false = refl

-- The sources exist, with these contents.
abbrev pub Stands : BuildEnv → List (List ℕ) → List (List ℕ) → Type 0
Stands env [] [] = Unit
Stands env [] (c ∷ contents) = ⊥
Stands env (p ∷ paths) [] = ⊥
Stands env (p ∷ paths) (c ∷ contents) =
    ((f : SourceFile) × (env.source_file p ≡ some f) × (f.content ≡ c)) × Stands env paths contents

-- What `sort.Slice` gives: the same entries, none less than one in front of it.
pub record Sorts (sort : (SortEntry → SortEntry → Bool) → List SortEntry → List SortEntry)
    : Type 0 where
  pub ordered :
      (less : SortEntry → SortEntry → Bool)
      → StrictWeak less
      → (es : List SortEntry) → Ordered less (sort less es)
  pub same :
      (less : SortEntry → SortEntry → Bool) (es : List SortEntry) (z : SortEntry)
      → In z (sort less es) ↔ In z es

-- The keys' order is one that a sort takes.
pub run_less-StrictWeak : StrictWeak run_less
run_less-StrictWeak = record {
  irrefl = λ a. KeyLe-refl a;
  asymm = λ a b. bytes_lt_asymm a.key b.key;
  trans = λ a b c. KeyLe-trans a b c;
}

module _ (env : BuildEnv) (cap : ℕ) where
  -- A run file holds a chunk, sorted.
  abbrev pub run_file : List SortEntry → List ℕ
  run_file chunk = write_many write_run_entry (env.sort_slice run_less chunk)

  abbrev pub Bounded : List SortEntry → Type 0
  Bounded chunk = length chunk ≤ cap

  -- What the run file of a chunk holds is ascending by key, and the chunk's entries.
  abbrev pub SortedRun : List SortEntry → Type 0
  SortedRun chunk =
      Ascending (env.sort_slice run_less chunk)
      × ((z : SortEntry) → In z (env.sort_slice run_less chunk) ↔ In z chunk)

  chunks_sorted : Sorts env.sort_slice → (chunks : List (List SortEntry)) → All SortedRun chunks
  chunks_sorted sorts [] = tt
  chunks_sorted sorts (c ∷ chunks) = (
    (sorts.ordered run_less run_less-StrictWeak c, λ z. sorts.same run_less c z),
    chunks_sorted sorts chunks,
  )

  -- The entries that have been seen, cut into chunks.
  pub record Cut (seen : List SortEntry) (st : Spilled) : Type 0 where
    pub chunks : List (List SortEntry)
    pub files : st.runs ≡ map run_file chunks
    pub joined : concat chunks ++ st.chunk ≡ seen
    pub number : st.scanned ≡ length seen
    pub bounded : All Bounded chunks
    pub short : length st.chunk < cap

  -- A chunk that is not yet cut off goes to a run file of its own.
  flush-Cut :
      (seen : List SortEntry) (st : Spilled) (chunks : List (List SortEntry))
      → st.runs ≡ map run_file chunks
      → concat chunks ++ st.chunk ≡ seen
      → st.scanned ≡ length seen
      → All Bounded chunks
      → length st.chunk ≤ cap
      → 0 < cap
      → (c : Cut seen (flush env st)) × (concat c.chunks ≡ seen)
  unfolding flush
  flush-Cut seen st chunks files joined number bounded fits pos =
      elim (Bool-cases (length st.chunk == 0)) [
        | inl none_left ↦
            let gone : st.chunk ≡ [] = nil_of_length st.chunk none_left in
            rw none_left (
              record {
                chunks = chunks;
                files = files;
                joined = joined;
                number = number;
                bounded = bounded;
                short = ground arith;
              },
              sym (append-nil (concat chunks)) ∙ (ap (λ t. concat chunks ++ t) (sym gone) ∙ joined),
            )
        | inr more ↦ rw more (
          record {
            chunks = chunks ++ st.chunk ∷ [];
            files = rw files (sym (map-snoc run_file chunks st.chunk));
            joined =
                append-nil (concat (chunks ++ st.chunk ∷ []))
                ∙ (concat-append chunks st.chunk ∙ joined);
            number = number;
            bounded = All-snoc Bounded chunks st.chunk bounded fits;
            short = pos;
          },
          concat-append chunks st.chunk ∙ joined,
        )
      ]

  add_entry-Cut :
      (seen : List SortEntry) (st : Spilled) (e : SortEntry)
      → Cut seen st
      → Cut (seen ++ e ∷ []) (add_entry env cap e st)
  unfolding add_entry
  add_entry-Cut seen st e c =
      let st' : Spilled = record st { chunk = st.chunk ++ e ∷ []; scanned = st.scanned + 1 } in
      let joined' : concat c.chunks ++ (st.chunk ++ e ∷ []) ≡ seen ++ e ∷ [] =
        sym (append_assoc (concat c.chunks) st.chunk (e ∷ [])) ∙ ap (λ t. t ++ e ∷ []) c.joined in
      let number' : st.scanned + 1 ≡ length (seen ++ e ∷ []) =
        omega (arith, c.number, length-append seen (e ∷ [])) in
      let size = length-append st.chunk (e ∷ []) in
      let short = c.short in
      elim (Bool-cases (leb cap (length st.chunk + 1))) [
        | inl full ↦
            rw full
              (flush-Cut (seen ++ e ∷ []) st' c.chunks c.files joined' number' c.bounded
                (omega arith) (omega arith)).0
        | inr room ↦ rw room (record {
          chunks = c.chunks;
          files = c.files;
          joined = joined';
          number = number';
          bounded = c.bounded;
          short = ground arith;
        })
      ]

  line_entry-Cut :
      (seen : List SortEntry) (st : Spilled) (file_idx : ℕ) (line : List ℕ) (off : ℕ)
      → Cut seen st
      → Cut
          (seen ++ line_entry env.key_func file_idx line off)
          (scan_line env cap file_idx line off st)
  unfolding scan_line line_entry
  line_entry-Cut seen st file_idx line off c =
      let same : Cut (seen ++ []) st = rw (append-nil seen) c in
      elim (Bool-cases (length line == 0)) [
        | inl blank ↦ rw blank same
        | inr text ↦ elim (Option-cases (line_key env.key_func line)) [
          | inl skipped ↦ rw (text, skipped) same
          | inr (key, keyed) ↦ rw (text, keyed) (add_entry-Cut seen st _ c)
        ]
      ]

  module _ (runs_on : (file_idx lines : ℕ) → env.scan_cancelled file_idx lines ≡ false) where
    scan_lines-Cut :
        (fuel file_idx : ℕ) (bs : List ℕ) (off lines : ℕ) (seen : List SortEntry) (st : Spilled)
        → length bs < fuel
        → Cut seen st
        → (st' : Spilled) × (scan_lines env fuel cap file_idx bs off lines st ≡ ok st')
          × Cut (seen ++ entries_in env.key_func fuel file_idx bs off) st'
    unfolding scan_lines entries_in
    scan_lines-Cut zero file_idx bs off lines seen st enough c = absurd (omega arith)
    scan_lines-Cut (suc fuel) file_idx bs off lines seen st enough c =
        let line = (read_line bs).0 in
        let here = line_entry env.key_func file_idx line off in
        let st₁ = scan_line env cap file_idx line off st in
        let c₁ = line_entry-Cut seen st file_idx line off c in
        let goes : ((lines + 1) % 100000 == 0) && false ≡ false =
          and_false ((lines + 1) % 100000 == 0) in
        elim (Bool-cases (read_line bs).1) [
          | inl more ↦
              let size = length-read_line bs more in
              let (st', run, c') =
                scan_lines-Cut fuel file_idx (read_line bs).2 (off + length line + 1) (lines + 1)
                  (seen ++ here) st₁ (omega arith) c₁ in
              (
                st',
                rw (runs_on file_idx (lines + 1), goes, more) run,
                rw
                    (
                      more,
                      ← append_assoc seen here (
                          entries_in env.key_func fuel file_idx (read_line bs).2
                            (off + length line + 1)),
                    )
                    c',
              )
          | inr last ↦ (
            st₁,
            rw (runs_on file_idx (lines + 1), goes, last) refl,
            rw (last, append-nil here) c₁,
          )
        ]

    scan_sources-Cut :
        (paths contents : List (List ℕ)) (file_idx : ℕ) (seen : List SortEntry) (st : Spilled)
        → Stands env paths contents
        → Cut seen st
        → (st' : Spilled) × (scan_sources env cap file_idx paths st ≡ ok st')
          × Cut (seen ++ all_entries env.key_func file_idx contents) st'
    unfolding scan_sources all_entries
    scan_sources-Cut [] [] file_idx seen st stands c = (st, refl, rw (append-nil seen) c)
    scan_sources-Cut [] (content ∷ contents) file_idx seen st stands c = absurd stands
    scan_sources-Cut (p ∷ paths) [] file_idx seen st stands c = absurd stands
    scan_sources-Cut (p ∷ paths) (content ∷ contents) file_idx seen st ((f, opened, same), stands)
          c =
        let es = entries_in env.key_func (length content + 1) (file_idx % 2 ^ 16) content 0 in
        let (st₁, run, c₁) =
          scan_lines-Cut (length content + 1) (file_idx % 2 ^ 16) content 0 0 seen st (omega arith)
            c in
        let (st', runs, c') =
          scan_sources-Cut paths contents (file_idx + 1) (seen ++ es) st₁ stands c₁ in
        (
          st',
          rw (opened, scan_sources, same, run) runs,
          rw (← append_assoc seen es (all_entries env.key_func (file_idx + 1) contents)) c',
        )

    -- With a sort that orders its items by any comparison that is a strict weak order and
    -- keeps them, the scan of existing sources with a positive chunk size, not cancelled: it
    -- succeeds, with a run file for each of some chunks of at most that many entries, which
    -- put together are the entries of all lines in the order of the sources; a run file holds
    -- the entries of its chunk, ascending by key; and the scan counts all entries.
    pub spill_sorted_runs_lem :
        Sorts env.sort_slice
        → (paths contents : List (List ℕ)) (base : ℕ) → Stands env paths contents
        → 0 < cap
        → (chunks : List (List SortEntry)) × (spill_sorted_runs env cap base paths
            ≡ ok (map run_file chunks, length (all_entries env.key_func base contents)))
          × (concat chunks ≡ all_entries env.key_func base contents)
          × All Bounded chunks
          × All SortedRun chunks
    unfolding spill_sorted_runs
    spill_sorted_runs_lem sorts paths contents base stands pos =
        let start : Cut [] (record { runs = []; chunk = []; scanned = 0 }) = record {
          chunks = [];
          files = refl;
          joined = refl;
          number = refl;
          bounded = tt;
          short = pos;
        } in
        let (st, run, c) = scan_sources-Cut paths contents base [] _ stands start in
        let short = c.short in
        let (done, cut) =
          flush-Cut (all_entries env.key_func base contents) st c.chunks c.files c.joined c.number
            c.bounded (omega arith) pos in
        (
          done.chunks,
          rw (run, done.files, done.number) refl,
          cut,
          done.bounded,
          chunks_sorted sorts done.chunks,
        )
