-- ===== src/FileIndex/Writes.antt =====
-- What a write does to the file and the index, on success and when it stops short.
use in_memory_db.Base.{
  take_all, drop_all, ℕ, zero, suc, ◌+◌, ◌≤◌, ◌≡◌, refl, sym, List, [], ◌∷◌, ◌++◌, append_assoc,
  append-nil, length, take, length-append, ◌==◌, ltb, ltb→le, true, false, Bool-cases, Option-cases,
  if◌then◌else◌, some, arith, inl, inr, ok,
}
use in_memory_db.Base.ByteMap.{insert}
use in_memory_db.FileIndex.{
  FileIndex, KeyFunc, newline, has_newline, ends_with_newline, line_key, put_buffer, after_write,
  put,
}

ends_with_newline-append : (xs : List ℕ) → ends_with_newline (xs ++ newline ∷ []) ≡ true
unfolding ends_with_newline
ends_with_newline-append [] = refl
ends_with_newline-append (x ∷ []) = refl
ends_with_newline-append (x ∷ y ∷ xs) = ends_with_newline-append (y ∷ xs)

module _ (key_func : KeyFunc) where
  abbrev pub buffer : FileIndex → List ℕ → List ℕ
  buffer = put_buffer key_func

  -- The offset that the line of a write gets.
  abbrev pub line_off : FileIndex → ℕ
  line_off fi = fi.size + (if fi.unterminated then 1 else 0)

  -- The state after a whole write to the end of the file.
  abbrev pub appended : FileIndex → List ℕ → List ℕ → FileIndex
  appended fi line key = record fi {
    content = fi.content ++ buffer fi line;
    size = fi.size + length (buffer fi line);
    unterminated = false;
    idx = insert key (record { off = line_off fi; len = length line }) fi.idx;
  }

  module _ (fi : FileIndex) (line : List ℕ) where
    buffer_ends : ends_with_newline (buffer fi line) ≡ true
    unfolding put_buffer
    buffer_ends =
        rw (← append_assoc (if fi.unterminated then newline ∷ [] else []) line (newline ∷ []))
          (ends_with_newline-append ((if fi.unterminated then newline ∷ [] else []) ++ line))

    pub length-buffer :
        length (buffer fi line) ≡ (if fi.unterminated then 1 else 0) + length line + 1
    unfolding put_buffer
    length-buffer = elim (Bool-cases fi.unterminated) [
      | inl u ↦ rw u (omega (arith, length-append line (newline ∷ [])))
      | inr u ↦ rw u (omega (arith, length-append line (newline ∷ [])))
    ]

    -- Writing the first `n` bytes of a buffer at the end of the file.
    pub after_write_content :
        (buf : List ℕ) (n : ℕ)
        → fi.size ≡ length fi.content
        → n ≤ length buf
        → (after_write key_func fi buf n).content ≡ fi.content ++ take n buf
    unfolding after_write
    after_write_content buf zero s h = sym (append-nil fi.content)
    after_write_content buf (suc n) s h =
        rw
          (
            take_all fi.size fi.content (omega arith),
            drop_all (fi.size + suc n) fi.content (omega arith),
            append-nil (take (suc n) buf),
          )
          (ground arith)

    whole :
        fi.size ≡ length fi.content
        → let buf = buffer fi line in
          after_write key_func fi buf (length buf) ≡ record fi {
            content = fi.content ++ buf;
            size = fi.size + length buf;
            unterminated = false;
          }
    unfolding after_write
    whole s =
        let buf = buffer fi line in
        let some_bytes : (length buf == 0) ≡ false = ground (arith, length-buffer) in
        rw (
          some_bytes,
          take_all fi.size fi.content (omega arith),
          take_all (length buf) buf (omega arith),
          drop_all (fi.size + length buf) fi.content (omega arith),
          append-nil buf,
          buffer_ends,
        )

    -- A write that succeeds had a line with a key and no newline, and an open index; it appends the
    -- line and points the key at it.
    pub put_lem :
        (n : ℕ)
        → fi.size ≡ length fi.content
        → n ≤ length (buffer fi line)
        → (put key_func fi line n).1 ≡ ok tt
        → (key : List ℕ) × (line_key key_func line ≡ some key)
          × (has_newline line ≡ false)
          × (fi.is_closed ≡ false)
          × ((put key_func fi line n).0 ≡ appended fi line key)
    unfolding put
    put_lem n s short done = elim (Option-cases (line_key key_func line)) [
      | inl e ↦ cc (rw (e, put) at done)
      | inr (key, e) ↦ elim (Bool-cases (has_newline line)) [
        | inl bad ↦ cc (rw (e, put, bad) at done)
        | inr clean ↦ elim (Bool-cases fi.is_closed) [
          | inl shut ↦ cc (rw (e, put, clean, shut) at done)
          | inr open_ ↦ elim (Bool-cases (ltb n (length (buffer fi line)))) [
            | inl less ↦ cc (rw (e, put, clean, less, open_) at done)
            | inr enough ↦
                let full : n ≡ length (buffer fi line) =
                  omega (arith, ltb→le n (length (buffer fi line)) enough) in
                (key, e, clean, open_, rw (e, put, clean, enough, full, whole s) (simp open_))
          ]
        ]
      ]
    ]
