-- ===== src/Tests/Files.antt =====
-- The line file at a concrete input: the key of a line is its first byte.
use in_memory_db.Base.{
  ℕ, ◌≤◌, ◌≡◌, ◌≢◌, refl, List, [], ◌∷◌, ◌++◌, length, false, none, some, ok, arith,
}
use in_memory_db.FileIndex.{
  FileIndex, KeyFunc, read_line, has_newline, line_key, index_line, scan_lines, rebuild,
  open_file_index, put_buffer, put, get,
}
use in_memory_db.FileIndex.Rebuild.{rebuild_ended}
use in_memory_db.FileIndex.Reopen.{
  Synced, open-Synced, put-Synced, reopen-put, get-put, torn_newline,
}

abbrev first_byte : KeyFunc
first_byte [] = none
first_byte (b ∷ bs) = some (b ∷ [])

-- "ab\n"
abbrev content : List ℕ
content = 97 ∷ 98 ∷ 10 ∷ []

abbrev file : FileIndex
file = open_file_index first_byte content

-- "cd"
abbrev line : List ℕ
line = 99 ∷ 100 ∷ []

whole_buffer : 3 ≤ length (put_buffer first_byte file line)
unfolding put_buffer open_file_index rebuild scan_lines read_line
whole_buffer = omega arith

written : (put first_byte file line 3).1 ≡ ok tt
unfolding put line_key has_newline put_buffer open_file_index rebuild scan_lines read_line
written = refl

synced : Synced first_byte file
synced = open-Synced first_byte content

put-Synced_example : Synced first_byte (put first_byte file line 3).0
put-Synced_example = put-Synced first_byte file line 3 synced (omega arith) whole_buffer written

reopen-put_example :
    get (open_file_index first_byte (put first_byte file line 3).0.content) (99 ∷ [])
    ≡ get (put first_byte file line 3).0 (99 ∷ [])
reopen-put_example =
    reopen-put first_byte file line 3 (99 ∷ []) synced (omega arith) whole_buffer written

has_key : line_key first_byte line ≡ some (99 ∷ [])
unfolding line_key
has_key = refl

clean : has_newline line ≡ false
unfolding has_newline
clean = refl

get-put_example : get (put first_byte file line 3).0 (99 ∷ []) ≡ ok line
get-put_example = get-put first_byte file line 3 (99 ∷ []) synced.sized whole_buffer has_key written

ended : file.unterminated ≡ false
unfolding open_file_index rebuild scan_lines read_line
ended = refl

live : file.is_closed ≡ false
unfolding open_file_index
live = refl

torn_newline_example :
    let (fi', outcome) = put first_byte file line 2 in
    (outcome ≢ ok tt)
    × (fi'.idx ≡ file.idx)
    × (get (open_file_index first_byte fi'.content) (99 ∷ []) ≡ ok line)
torn_newline_example =
    torn_newline first_byte file line (99 ∷ []) synced ended live has_key clean (omega arith)

rebuild_terminated : (rebuild first_byte content).2 ≡ false
unfolding rebuild scan_lines read_line
rebuild_terminated = refl

rebuild_ended_example :
    rebuild first_byte (content ++ (line ++ 10 ∷ []))
    ≡ (index_line first_byte line 3 (rebuild first_byte content).0, 6, false)
rebuild_ended_example = rebuild_ended first_byte content line rebuild_terminated clean
