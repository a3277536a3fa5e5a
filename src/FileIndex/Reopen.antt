-- ===== src/FileIndex/Reopen.antt =====
-- The index in memory against the file: what a later open rebuilds, and what a read returns.
use in_memory_db.Base.{
  take_all, ℕ, ◌+◌, ◌≤◌, ◌<◌, ◌≡◌, ◌≢◌, refl, ap, sym, ◌∙◌, List, [], ◌∷◌, ◌++◌, append_assoc,
  length, take, length-append, take-append, drop-append, ◌==◌, ltb, le→ltb, lt→ltb, message, Bool,
  true, false, Bool-cases, if◌then◌else◌, some, arith, inl, inr, ok, err,
}
use in_memory_db.Base.ByteMap.{ByteMap, lookup, insert, lookup-insert, lookup-insert_self}
use in_memory_db.FileIndex.{
  FileIndex, LineLoc, KeyFunc, newline, has_newline, line_key, index_line, rebuild, put_buffer,
  after_write, put, get, read_at, open_file_index,
}
use in_memory_db.FileIndex.Rebuild.{scan_size, rebuild_torn, rebuild_ended, rebuild_sealed}
use in_memory_db.FileIndex.Writes.{
  after_write_content, buffer, line_off, appended, length-buffer, put_lem,
}

length_sep : (b : Bool) → length (if b then newline ∷ [] else []) ≡ (if b then 1 else 0)
length_sep true = refl
length_sep false = refl

get-found :
    (fi : FileIndex) (key : List ℕ) (loc : LineLoc)
    → (length key == 0) ≡ false
    → fi.is_closed ≡ false
    → lookup key fi.idx ≡ some loc
    → get fi key ≡ read_at fi.content loc
unfolding get
get-found fi key loc full live found = rw (full, found) (simp live)

module _ (key_func : KeyFunc) where
  -- What a rebuild of the file would give is what the index in memory holds.
  pub record Synced (fi : FileIndex) : Type 0 where
    pub sized : fi.size ≡ length fi.content
    pub tail : fi.unterminated ≡ (rebuild key_func fi.content).2
    pub index : (k : List ℕ) → lookup k fi.idx ≡ lookup k (rebuild key_func fi.content).0

  pub open-Synced : (content : List ℕ) → Synced (open_file_index key_func content)
  unfolding open_file_index rebuild
  open-Synced content = record {
    sized = omega (arith, scan_size key_func (length content + 1) content 0 []);
    tail = refl;
    index = λ k. refl;
  }

  rebuild-append :
      (fi : FileIndex) (line : List ℕ)
      → Synced fi
      → has_newline line ≡ false
      → rebuild key_func (fi.content ++ buffer key_func fi line) ≡ (
        index_line key_func line (line_off key_func fi) (rebuild key_func fi.content).0,
        line_off key_func fi + length line + 1,
        false,
      )
  unfolding put_buffer
  rebuild-append fi line v clean = elim (Bool-cases (rebuild key_func fi.content).2) [
    | inl u ↦ rw (v.tail ∙ u, v.sized) (rebuild_sealed key_func fi.content line u clean)
    | inr u ↦
        let none_added : length fi.content + 0 ≡ length fi.content = omega arith in
        rw (v.tail ∙ u, v.sized, none_added) (rebuild_ended key_func fi.content line u clean)
  ]

  index_line-keyed :
      (line key : List ℕ) (off : ℕ) (idx : ByteMap LineLoc)
      → line_key key_func line ≡ some key
      → 0 < length line
      → index_line key_func line off idx ≡ insert key (record { off = off; len = length line }) idx
  unfolding index_line
  index_line-keyed line key off idx e pos = rw e (ground arith)

  -- A write of a non-empty line that succeeds, to a file index in step with its file, leaves it
  -- in step: its size, its unterminated flag and its index are those that a rebuild of the new
  -- file gives.
  pub put-Synced :
      (fi : FileIndex) (line : List ℕ) (n : ℕ)
      → Synced fi
      → 0 < length line
      → n ≤ length (buffer key_func fi line)
      → (put key_func fi line n).1 ≡ ok tt
      → Synced (put key_func fi line n).0
  put-Synced fi line n v pos short done =
      let (key, keyed, clean, _, after) = put_lem key_func fi line n v.sized short done in
      let again = rebuild-append fi line v clean in
      let shape : index_line key_func line (line_off key_func fi) (rebuild key_func fi.content).0
          ≡ insert key (record { off = line_off key_func fi; len = length line })
              (rebuild key_func fi.content).0 =
        index_line-keyed line key (line_off key_func fi) _ keyed pos in
      rw after (record {
        sized = omega (arith, length-append fi.content (buffer key_func fi line), v.sized);
        tail = rw again;
        index = λ k. rw (again, shape, lookup-insert, lookup-insert, v.index k);
      })

  get-open :
      (fi : FileIndex) (key : List ℕ)
      → Synced fi
      → fi.is_closed ≡ false
      → get (open_file_index key_func fi.content) key ≡ get fi key
  unfolding get open_file_index
  get-open fi key v live = rw (v.index key) (simp live)

  -- After a write of a non-empty line that succeeds, to a file index in step with its file,
  -- opening the file again gives for every key the same answer as the index in memory: the line
  -- that the key has, or an error if it has none.
  pub reopen-put :
      (fi : FileIndex) (line : List ℕ) (n : ℕ) (key : List ℕ)
      → Synced fi
      → 0 < length line
      → n ≤ length (buffer key_func fi line)
      → (put key_func fi line n).1 ≡ ok tt
      → get (open_file_index key_func (put key_func fi line n).0.content) key
        ≡ get (put key_func fi line n).0 key
  reopen-put fi line n key v pos short done =
      let (_, _, _, live, after) = put_lem key_func fi line n v.sized short done in
      get-open (put key_func fi line n).0 key (put-Synced fi line n v pos short done)
        (rw after live)

  line_key-nonempty :
      (line key : List ℕ) → line_key key_func line ≡ some key → (length key == 0) ≡ false
  unfolding line_key
  line_key-nonempty line key e = ground arith

  read_at-buffer :
      (fi : FileIndex) (line : List ℕ)
      → fi.size ≡ length fi.content
      → read_at
          (fi.content ++ buffer key_func fi line)
          (record { off = line_off key_func fi; len = length line })
        ≡ ok line
  unfolding read_at put_buffer
  read_at-buffer fi line s =
      let sep = if fi.unterminated then newline ∷ [] else [] in
      let front = fi.content ++ sep in
      let at_line : length front ≡ line_off key_func fi =
        omega (arith, length-append fi.content sep, length_sep fi.unterminated) in
      let split : fi.content ++ (sep ++ (line ++ newline ∷ [])) ≡ front ++ (line ++ newline ∷ []) =
        simp append_assoc in
      let inside : ltb (length (front ++ (line ++ newline ∷ [])))
            (line_off key_func fi + length line)
          ≡ false =
        le→ltb _ _ (
          omega (
            arith,
            length-append front (line ++ newline ∷ []),
            length-append line (newline ∷ []),
          )) in
      rw (
        split,
        inside,
        drop-append (line_off key_func fi) front (line ++ newline ∷ []) at_line,
        take-append (length line) line (newline ∷ []) refl,
      )

  -- After a write that succeeds, on a file index whose size is the length of its file, a line's
  -- key reads back as the line.
  pub get-put :
      (fi : FileIndex) (line : List ℕ) (n : ℕ) (key : List ℕ)
      → fi.size ≡ length fi.content
      → n ≤ length (buffer key_func fi line)
      → line_key key_func line ≡ some key
      → (put key_func fi line n).1 ≡ ok tt
      → get (put key_func fi line n).0 key ≡ ok line
  get-put fi line n key s short keyed done =
      let (key', keyed', _, live, after) = put_lem key_func fi line n s short done in
      let loc : LineLoc = record { off = line_off key_func fi; len = length line } in
      let found : lookup key (insert key' loc fi.idx) ≡ some loc =
        let same : key' ≡ key = cc in rw same (lookup-insert_self key loc fi.idx) in
      rw after (
        get-found (appended key_func fi line key') key loc (line_key-nonempty line key keyed) live
          found
        ∙ read_at-buffer fi line s)

  after_write_idx :
      (fi : FileIndex) (line : List ℕ) (n : ℕ)
      → (after_write key_func fi (buffer key_func fi line) n).idx ≡ fi.idx
  unfolding after_write
  after_write_idx fi line n = ground arith

  open-live : (content : List ℕ) → (open_file_index key_func content).is_closed ≡ false
  unfolding open_file_index
  open-live content = refl

  read_at-last :
      (bs line : List ℕ)
      → read_at
          (open_file_index key_func (bs ++ line)).content
          (record { off = length bs; len = length line })
        ≡ ok line
  unfolding read_at open_file_index
  read_at-last bs line =
      let inside : ltb (length (bs ++ line)) (length bs + length line) ≡ false =
        le→ltb _ _ (omega (arith, length-append bs line)) in
      rw (inside, drop-append (length bs) bs line refl, take_all (length line) line (omega arith))

  failed_put :
      (fi : FileIndex) (line key : List ℕ)
      → line_key key_func line ≡ some key
      → has_newline line ≡ false
      → fi.is_closed ≡ false
      → ltb (length line) (length (buffer key_func fi line)) ≡ true
      → put key_func fi line (length line) ≡ (
        after_write key_func fi (buffer key_func fi line) (length line),
        err (message "kv: append to file index"),
      )
  unfolding put
  failed_put fi line key keyed clean live less = rw (keyed, put, clean, less) (simp live)

  -- A write that stops one byte short, of a non-empty line with a key and without a newline, to
  -- an open file index that is in step with a file that ends in a newline or is empty: it
  -- returns an error and leaves the index as it was, and the next open of the file finds the
  -- line under its key.
  pub torn_newline :
      (fi : FileIndex) (line key : List ℕ)
      → Synced fi
      → fi.unterminated ≡ false
      → fi.is_closed ≡ false
      → line_key key_func line ≡ some key
      → has_newline line ≡ false
      → 0 < length line
      → let (fi', outcome) = put key_func fi line (length line) in
        (outcome ≢ ok tt)
        × (fi'.idx ≡ fi.idx)
        × (get (open_file_index key_func fi'.content) key ≡ ok line)
  torn_newline fi line key v ended live keyed clean pos =
      let size = length-buffer key_func fi line in
      let less : ltb (length line) (length (buffer key_func fi line)) ≡ true =
        lt→ltb _ _ (omega arith) in
      let after = failed_put fi line key keyed clean live less in
      let written =
        after_write_content key_func fi line (buffer key_func fi line) (length line) v.sized
          (omega arith) in
      let cut : take (length line) (buffer key_func fi line) ≡ line =
        unfold put_buffer in rw ended (take-append (length line) line (newline ∷ []) refl) in
      let torn = rebuild_torn key_func fi.content line (sym v.tail ∙ ended) clean in
      let keyed_at =
        index_line-keyed line key (length fi.content) (rebuild key_func fi.content).0 keyed pos in
      let content : (after_write key_func fi (buffer key_func fi line) (length line)).content
          ≡ fi.content ++ line =
        written ∙ ap (λ bs. fi.content ++ bs) cut in
      let loc : LineLoc = record { off = length fi.content; len = length line } in
      let found : lookup key (open_file_index key_func (fi.content ++ line)).idx ≡ some loc =
        unfold open_file_index in rw (torn, keyed_at) (lookup-insert_self key loc _) in
      rw after (
        λ e. cc,
        after_write_idx fi line (length line),
        rw content (
            get-found (open_file_index key_func (fi.content ++ line)) key loc
              (line_key-nonempty line key keyed) (open-live (fi.content ++ line)) found
            ∙ read_at-last fi.content line),
      )
