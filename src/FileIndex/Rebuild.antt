-- ===== src/FileIndex/Rebuild.antt =====
-- The rebuild scan, chunk by chunk: how it goes on over what is appended to a file.
use in_memory_db.Base.{
  ℕ, zero, suc, ◌+◌, ◌<◌, ◌≡◌, refl, ap, sym, ◌∙◌, List, [], ◌∷◌, ◌++◌, length, length-append, ◌==◌,
  Bool, true, false, not, Bool-cases, arith, inl, inr,
}
use in_memory_db.Base.ByteMap.{ByteMap}
use in_memory_db.FileIndex.{
  LineLoc, KeyFunc, newline, read_line, has_newline, index_line, scan_lines, rebuild,
}

-- A line that ends at its newline is read the same whatever follows.
read_line-append :
    (bs ys : List ℕ)
    → (read_line bs).1 ≡ true
    → read_line (bs ++ ys) ≡ ((read_line bs).0, true, (read_line bs).2 ++ ys)
unfolding read_line
read_line-append [] ys h = cc
read_line-append (b ∷ bs) ys h = ground (arith, read_line-append bs ys)

-- A file with no newline is one line.
read_line-open :
    (bs : List ℕ) → (read_line bs).1 ≡ false → ((read_line bs).0 ≡ bs) × ((read_line bs).2 ≡ [])
unfolding read_line
read_line-open [] h = (refl, refl)
read_line-open (b ∷ bs) h = ground (arith, read_line-open bs)

read_line-seal :
    (bs ys : List ℕ) → (read_line bs).1 ≡ false → read_line (bs ++ newline ∷ ys) ≡ (bs, true, ys)
unfolding read_line
read_line-seal [] ys h = refl
read_line-seal (b ∷ bs) ys h = ground (arith, read_line-seal bs ys)

has_newline-read_line : (bs : List ℕ) → has_newline bs ≡ false → (read_line bs).1 ≡ false
unfolding read_line has_newline
has_newline-read_line [] h = refl
has_newline-read_line (b ∷ bs) h = ground (arith, has_newline-read_line bs)

pub length-read_line :
    (bs : List ℕ)
    → (read_line bs).1 ≡ true
    → length bs ≡ length (read_line bs).0 + 1 + length (read_line bs).2
unfolding read_line
length-read_line [] h = cc
length-read_line (b ∷ bs) h = ground (arith, length-read_line bs)

nil_of_length : (bs : List ℕ) → length bs ≡ 0 → bs ≡ []
nil_of_length [] h = refl
nil_of_length (b ∷ bs) h = absurd (omega arith)

module _ (key_func : KeyFunc) where
  abbrev scan : ℕ → List ℕ → ℕ → ByteMap LineLoc → ByteMap LineLoc × ℕ × Bool
  scan = scan_lines key_func

  -- One round, by its two ends.
  scan_more :
      (f : ℕ) (bs : List ℕ) (off : ℕ) (idx : ByteMap LineLoc)
      → (read_line bs).1 ≡ true
      → scan (suc f) bs off idx
        ≡ scan f
            (read_line bs).2
            (off + length (read_line bs).0 + 1)
            (index_line key_func (read_line bs).0 off idx)
  unfolding scan_lines
  scan_more f bs off idx h = rw (h, scan_lines)

  scan_last :
      (f : ℕ) (bs : List ℕ) (off : ℕ) (idx : ByteMap LineLoc)
      → (read_line bs).1 ≡ false
      → scan (suc f) bs off idx
        ≡ (index_line key_func bs off idx, off + length bs, not (length bs == 0))
  unfolding scan_lines
  scan_last f bs off idx h = rw (h, scan_lines, (read_line-open bs h).0)

  scan_last_pos :
      (f : ℕ) (bs : List ℕ) (off : ℕ) (idx : ByteMap LineLoc)
      → 0 < f
      → (read_line bs).1 ≡ false
      → scan f bs off idx ≡ (index_line key_func bs off idx, off + length bs, not (length bs == 0))
  scan_last_pos zero bs off idx pos h = absurd (omega arith)
  scan_last_pos (suc f) bs off idx pos h = scan_last f bs off idx h

  scan_nil : (f : ℕ) (off : ℕ) (idx : ByteMap LineLoc) → scan (suc f) [] off idx ≡ (idx, off, false)
  unfolding scan_lines index_line
  scan_nil f off idx = ap (λ (k : ℕ). (idx, k, false)) (omega arith)

  -- Any two amounts of fuel above the number of bytes give the same scan of a file: the loop of
  -- the rebuild ends within as many rounds.
  scan_fuel :
      (f g : ℕ) (bs : List ℕ) (off : ℕ) (idx : ByteMap LineLoc)
      → length bs < f
      → length bs < g
      → scan f bs off idx ≡ scan g bs off idx
  scan_fuel zero g bs off idx hf hg = absurd (omega arith)
  scan_fuel (suc f) zero bs off idx hf hg = absurd (omega arith)
  scan_fuel (suc f) (suc g) bs off idx hf hg = elim (Bool-cases (read_line bs).1) [
    | inl t ↦
        let n = length-read_line bs t in
        scan_more f bs off idx t
        ∙ (scan_fuel f g (read_line bs).2 _ _ (omega arith) (omega arith)
            ∙ sym (scan_more g bs off idx t))
    | inr t ↦ scan_last f bs off idx t ∙ sym (scan_last g bs off idx t)
  ]

  -- The scan ends at the end of the file.
  pub scan_size :
      (f : ℕ) (bs : List ℕ) (off : ℕ) (idx : ByteMap LineLoc)
      → length bs < f
      → (scan f bs off idx).1 ≡ off + length bs
  scan_size zero bs off idx h = absurd (omega arith)
  scan_size (suc f) bs off idx h = elim (Bool-cases (read_line bs).1) [
    | inl t ↦
        let n = length-read_line bs t in
        rw (scan_more f bs off idx t) (
          omega (
            arith,
            scan_size f (read_line bs).2 (off + length (read_line bs).0 + 1)
                (index_line key_func (read_line bs).0 off idx) (omega arith),
          ))
    | inr t ↦ rw (scan_last f bs off idx t)
  ]

  -- Behind a file that ends in a newline, the scan goes on with what was appended.
  pub scan-append :
      (f : ℕ) (bs ys : List ℕ) (off : ℕ) (idx : ByteMap LineLoc)
      → length bs + length ys < f
      → (scan f bs off idx).2 ≡ false
      → scan f (bs ++ ys) off idx ≡ scan f ys (off + length bs) (scan f bs off idx).0
  scan-append zero bs ys off idx h u = absurd (omega arith)
  scan-append (suc f) bs ys off idx h u = elim (Bool-cases (read_line bs).1) [
    | inl t ↦
        let n = length-read_line bs t in
        let l = (read_line bs).0 in
        let r = (read_line bs).2 in
        let m = read_line-append bs ys t in
        let one = rw m at (scan_more f (bs ++ ys) off idx (rw m)) in
        let more = scan_more f bs off idx t in
        let u' : (scan f r (off + length l + 1) (index_line key_func l off idx)).2 ≡ false =
          rw more at u in
        let rest = scan-append f r ys (off + length l + 1) _ (omega arith) u' in
        let at_end : off + length l + 1 + length r ≡ off + length bs = omega arith in
        one ∙ (rest ∙ rw (at_end, more) (scan_fuel f (suc f) ys _ _ (omega arith) (omega arith)))
    | inr t ↦
        let none_left : bs ≡ [] =
          nil_of_length bs (ground (arith, rw (scan_last f bs off idx t) at u)) in
        let at_end : off + 0 ≡ off = omega arith in rw (none_left, at_end, scan_nil f off idx)
  ]

  -- A file whose last line lacks its newline goes on behind the newline that seals it.
  pub scan-seal :
      (f : ℕ) (bs ys : List ℕ) (off : ℕ) (idx : ByteMap LineLoc)
      → length bs + length ys + 1 < f
      → (scan f bs off idx).2 ≡ true
      → scan f (bs ++ newline ∷ ys) off idx ≡ scan f ys (off + length bs + 1) (scan f bs off idx).0
  scan-seal zero bs ys off idx h u = absurd (omega arith)
  scan-seal (suc f) bs ys off idx h u = elim (Bool-cases (read_line bs).1) [
    | inl t ↦
        let n = length-read_line bs t in
        let l = (read_line bs).0 in
        let r = (read_line bs).2 in
        let m = read_line-append bs (newline ∷ ys) t in
        let one = rw m at (scan_more f (bs ++ newline ∷ ys) off idx (rw m)) in
        let more = scan_more f bs off idx t in
        let u' : (scan f r (off + length l + 1) (index_line key_func l off idx)).2 ≡ true =
          rw more at u in
        let rest = scan-seal f r ys (off + length l + 1) _ (omega arith) u' in
        let at_end : off + length l + 1 + length r + 1 ≡ off + length bs + 1 = omega arith in
        one ∙ (rest ∙ rw (at_end, more) (scan_fuel f (suc f) ys _ _ (omega arith) (omega arith)))
    | inr t ↦
        let m = read_line-seal bs ys t in
        let one = rw m at (scan_more f (bs ++ newline ∷ ys) off idx (rw m)) in
        one ∙ rw (scan_last f bs off idx t) (scan_fuel f (suc f) ys _ _ (omega arith) (omega arith))
  ]

  -- A whole line is indexed at its offset.
  pub scan_line :
      (f : ℕ) (line : List ℕ) (off : ℕ) (idx : ByteMap LineLoc)
      → 1 < f
      → has_newline line ≡ false
      → scan f (line ++ newline ∷ []) off idx
        ≡ (index_line key_func line off idx, off + length line + 1, false)
  scan_line zero line off idx h clean = absurd (omega arith)
  scan_line (suc zero) line off idx h clean = absurd (omega arith)
  scan_line (suc (suc f)) line off idx h clean =
      let m = read_line-seal line [] (has_newline-read_line line clean) in
      let one = rw m at (scan_more (suc f) (line ++ newline ∷ []) off idx (rw m)) in
      one ∙ scan_nil f (off + length line + 1) (index_line key_func line off idx)

  -- The rebuild of a file that ends in a newline, or is empty, with one more terminated line
  -- behind it is the rebuild of the file with that line indexed at the file's length.
  pub rebuild_ended :
      (bs line : List ℕ)
      → (rebuild key_func bs).2 ≡ false
      → has_newline line ≡ false
      → rebuild key_func (bs ++ (line ++ newline ∷ [])) ≡ (
        index_line key_func line (length bs) (rebuild key_func bs).0,
        length bs + length line + 1,
        false,
      )
  unfolding rebuild
  rebuild_ended bs line u clean =
      let ys = line ++ newline ∷ [] in
      let size = length-append bs ys in
      let fuel = length (bs ++ ys) + 1 in
      let same = scan_fuel fuel (length bs + 1) bs 0 [] (omega arith) (omega arith) in
      let long : 1 < fuel = omega (arith, length-append line (newline ∷ [])) in
      let start : 0 + length bs ≡ length bs = omega arith in
      scan-append fuel bs ys 0 [] (omega arith) (rw same u)
      ∙ rw (same, start) (scan_line fuel line (length bs) _ long clean)

  -- One more line behind a file whose last line lacks its newline, which is added first.
  pub rebuild_sealed :
      (bs line : List ℕ)
      → (rebuild key_func bs).2 ≡ true
      → has_newline line ≡ false
      → rebuild key_func (bs ++ newline ∷ (line ++ newline ∷ [])) ≡ (
        index_line key_func line (length bs + 1) (rebuild key_func bs).0,
        length bs + 1 + length line + 1,
        false,
      )
  unfolding rebuild
  rebuild_sealed bs line u clean =
      let ys = line ++ newline ∷ [] in
      let size = length-append bs (newline ∷ ys) in
      let fuel = length (bs ++ newline ∷ ys) + 1 in
      let same = scan_fuel fuel (length bs + 1) bs 0 [] (omega arith) (omega arith) in
      let long : 1 < fuel = omega (arith, length-append line (newline ∷ [])) in
      let start : 0 + length bs + 1 ≡ length bs + 1 = omega arith in
      scan-seal fuel bs ys 0 [] (omega arith) (rw same u)
      ∙ rw (same, start) (scan_line fuel line (length bs + 1) _ long clean)

  -- A last line without its newline is indexed too.
  pub rebuild_torn :
      (bs line : List ℕ)
      → (rebuild key_func bs).2 ≡ false
      → has_newline line ≡ false
      → (rebuild key_func (bs ++ line)).0
        ≡ index_line key_func line (length bs) (rebuild key_func bs).0
  unfolding rebuild
  rebuild_torn bs line u clean =
      let size = length-append bs line in
      let fuel = length (bs ++ line) + 1 in
      let same = scan_fuel fuel (length bs + 1) bs 0 [] (omega arith) (omega arith) in
      let start : 0 + length bs ≡ length bs = omega arith in
      let tail =
        scan_last_pos fuel line (length bs) _ (omega arith) (has_newline-read_line line clean) in
      ap (λ r. r.0) (scan-append fuel bs line 0 [] (omega arith) (rw same u))
      ∙ rw (same, start) (ap (λ r. r.0) tail)
