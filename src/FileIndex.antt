-- ===== src/FileIndex.antt =====
-- internal/fileindex/fileindex.go: a line file and an index of it in memory.
pub mod Rebuild
pub mod Writes
pub mod Reopen
use in_memory_db.Base.{
  ℕ, zero, suc, ◌+◌, List, [], ◌∷◌, ◌++◌, length, take, drop, ◌==◌, leb, ltb, if◌then◌else◌, Bool,
  true, false, not, ◌&&◌, ◌||◌, Option, none, some, Result, ok, err, Error, ◌>>=◌, ◌>>◌, guard,
  is_some, message, closed, empty_key, not_found, no_line_key, invalid_line,
}
use in_memory_db.Base.ByteMap.{ByteMap, lookup, insert, remove}

-- `lineLoc`
pub record LineLoc : Type 0 where
  pub off : ℕ
  pub len : ℕ

-- `content` is the file; the code's `path` and `keyFunc` do not change.
pub record FileIndex : Type 0 where
  pub content : List ℕ
  pub size : ℕ
  pub unterminated : Bool
  pub idx : ByteMap LineLoc
  pub is_closed : Bool

abbrev pub newline : ℕ
newline = 10

-- `ReadBytes('\n')`: the line without its newline, whether there was one, and what follows.
unfoldable pub read_line : List ℕ → List ℕ × Bool × List ℕ
read_line [] = ([], false, [])
read_line (b ∷ bs) =
    let (line, terminated, rest) = read_line bs in
    if b == newline then ([], true, bs) else (b ∷ line, terminated, rest)

-- `bytes.IndexByte(line, '\n') >= 0`
unfoldable pub has_newline : List ℕ → Bool
has_newline [] = false
has_newline (b ∷ bs) = b == newline || has_newline bs

abbrev pub KeyFunc : Type 0
KeyFunc = List ℕ → Option (List ℕ)

-- `buf[n-1] == '\n'` for what was written
unfoldable pub ends_with_newline : List ℕ → Bool
ends_with_newline [] = false
ends_with_newline (b ∷ []) = b == newline
ends_with_newline (b ∷ c ∷ bs) = ends_with_newline (c ∷ bs)

module _ (key_func : KeyFunc) where
  -- The key of a line, if the line has one that is not empty.
  unfoldable pub line_key : List ℕ → Option (List ℕ)
  line_key line = elim (key_func line) [
    | none ↦ none
    | some key ↦ if length key == 0 then none else some key
  ]

  unfoldable pub index_line : List ℕ → ℕ → ByteMap LineLoc → ByteMap LineLoc
  index_line line off idx = if length line == 0 then idx else elim (line_key line) [
    | none ↦ idx
    | some key ↦ insert key (record { off = off; len = length line }) idx
  ]

  -- The loop of `rebuild`: the index, the offset reached, and whether the last line lacks its newline.
  unfoldable pub scan_lines : ℕ → List ℕ → ℕ → ByteMap LineLoc → ByteMap LineLoc × ℕ × Bool
  unfolding read_line
  scan_lines zero bs off idx = (idx, off, false)
  scan_lines (suc fuel) bs off idx =
      let (line, terminated, rest) = read_line bs in
      let idx' = index_line line off idx in
      elim terminated [
        | true ↦ scan_lines fuel rest (off + length line + 1) idx'
        | false ↦ (idx', off + length line, not (length line == 0))
      ]

  -- Each round takes a newline, or is the last one.
  unfoldable pub rebuild : List ℕ → ByteMap LineLoc × ℕ × Bool
  unfolding scan_lines
  rebuild content = scan_lines (length content + 1) content 0 []

  unfoldable pub open_file_index : List ℕ → FileIndex
  unfolding rebuild
  open_file_index content =
      let (idx, size, unterminated) = rebuild content in
      record {
        content = content;
        size = size;
        unterminated = unterminated;
        idx = idx;
        is_closed = false;
      }

  -- What Put writes at the end of the file.
  unfoldable pub put_buffer : FileIndex → List ℕ → List ℕ
  put_buffer fi line = (if fi.unterminated then newline ∷ [] else []) ++ (line ++ newline ∷ [])

  -- The state after `WriteAt` wrote the first `n` bytes of the buffer.
  unfoldable pub after_write : FileIndex → List ℕ → ℕ → FileIndex
  after_write fi buf n = if n == 0 then fi else record fi {
    content = take fi.size fi.content ++ (take n buf ++ drop (fi.size + n) fi.content);
    size = fi.size + n;
    unterminated = not (ends_with_newline (take n buf));
  }

  -- `n` is what `WriteAt` returns: the whole buffer, or less with an error.
  unfoldable pub put : FileIndex → List ℕ → ℕ → FileIndex × Result (Unit {0})
  put fi line n = elim (line_key line) [
    | none ↦ (fi, err no_line_key)
    | some key ↦
        let buf = put_buffer fi line in
        let fi' = after_write fi buf n in
        let line_off = fi.size + (if fi.unterminated then 1 else 0) in
        if has_newline line
        then (fi, err invalid_line)
        else if fi.is_closed
        then (fi, err closed)
        else if ltb n (length buf)
        then (fi', err (message "kv: append to file index"))
        else (
          record fi' { idx = insert key (record { off = line_off; len = length line }) fi'.idx },
          ok tt,
        )
  ]

-- `ReadAt` past the end of the file is an error.
unfoldable pub read_at : List ℕ → LineLoc → Result (List ℕ)
read_at content loc =
    if ltb (length content) (loc.off + loc.len)
    then err (message "kv: read file index line")
    else ok (take loc.len (drop loc.off content))

unfoldable pub get : FileIndex → List ℕ → Result (List ℕ)
unfolding read_at
get fi key = do
  guard (not (length key == 0)) empty_key
  guard (not fi.is_closed) closed
  elim (lookup key fi.idx) [ none ↦ err not_found | some loc ↦ read_at fi.content loc ]

unfoldable pub has : FileIndex → List ℕ → Result Bool
has fi key = do
  guard (not (length key == 0)) empty_key
  guard (not fi.is_closed) closed
  ok (is_some (lookup key fi.idx))

-- Only the index forgets the key; the file keeps its lines.
unfoldable pub delete : FileIndex → List ℕ → FileIndex × Result (Unit {0})
delete fi key =
    if length key == 0
    then (fi, err empty_key)
    else if fi.is_closed
    then (fi, err closed)
    else (record fi { idx = remove key fi.idx }, ok tt)

-- `len(fi.idx)`
unfoldable pub len : FileIndex → ℕ
len fi = length fi.idx

unfoldable pub sync : FileIndex → Result (Unit {0})
sync fi = guard (not fi.is_closed) closed

unfoldable pub close : FileIndex → FileIndex × Result (Unit {0})
close fi = if fi.is_closed then (fi, err closed) else (record fi { is_closed = true }, ok tt)
