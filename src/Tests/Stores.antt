-- ===== src/Tests/Stores.antt =====
-- A file index store at concrete inputs.
use in_memory_db.Base.{◌≤◌, ◌≡◌, refl, [], ◌∷◌, ◌++◌, length, drop, none, some, ok, arith}
use in_memory_db.FileIndex.{
  FileIndex, KeyFunc, line_key, put_buffer, open_file_index, rebuild, scan_lines, read_line,
  has_newline,
}
use in_memory_db.FileIndex
use in_memory_db.FileStore.{LineCodec}
use in_memory_db.FileStore
use in_memory_db.FileStore.Answers.{decoded_get-put}

abbrev first_byte : KeyFunc
first_byte [] = none
first_byte (b ∷ bs) = some (b ∷ [])

-- A line is its key and its value.
abbrev joined : LineCodec
joined = record { build = λ key value. key ++ value; value = λ line. some (drop 1 line) }

abbrev empty_file : FileIndex
empty_file = open_file_index first_byte []

line_keyed : line_key first_byte (99 ∷ 100 ∷ []) ≡ some (99 ∷ [])
unfolding line_key
line_keyed = refl

sized : empty_file.size ≡ length empty_file.content
unfolding open_file_index rebuild scan_lines read_line
sized = refl

short : 3 ≤ length (put_buffer first_byte empty_file (99 ∷ 100 ∷ []))
unfolding put_buffer open_file_index rebuild scan_lines read_line
short = omega arith

written : (FileStore.put first_byte joined empty_file (99 ∷ []) (100 ∷ []) 3).1 ≡ ok tt
unfolding FileStore.put FileIndex.put line_key has_newline put_buffer open_file_index rebuild
    scan_lines read_line
written = refl

decoded_get-put_example :
    FileStore.get joined
      (FileStore.put first_byte joined empty_file (99 ∷ []) (100 ∷ []) 3).0
      (99 ∷ [])
    ≡ ok (100 ∷ [])
decoded_get-put_example =
    decoded_get-put first_byte joined empty_file (99 ∷ []) (100 ∷ []) 3 sized short line_keyed refl
      written
