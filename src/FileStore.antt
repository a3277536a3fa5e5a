-- ===== src/FileStore.antt =====
-- filestore.go: a file index as a store of values, one line for each. A line codec is the
-- application's; the JSON codec rests on a JSON library.
pub mod Answers
use in_memory_db.Base.{ℕ, List, Bool, Option, none, some, Result, ok, err, ◌>>=◌, message}
use in_memory_db.FileIndex.{FileIndex, KeyFunc}
use in_memory_db.FileIndex

pub record LineCodec : Type 0 where
  pub build : List ℕ → List ℕ → List ℕ
  pub value : List ℕ → Option (List ℕ)

unfoldable pub decode_value : LineCodec → List ℕ → Option (List ℕ)
decode_value codec raw = codec.value raw

unfoldable pub get : LineCodec → FileIndex → List ℕ → Result (List ℕ)
get codec fi key = do
  line ← FileIndex.get fi key
  elim (codec.value line) [
    | none ↦ err (message "kv: line for key has no value field")
    | some value ↦ ok value
  ]

unfoldable pub has : FileIndex → List ℕ → Result Bool
has fi key = FileIndex.has fi key

-- `n` is the number of bytes that the write transfers.
unfoldable pub put :
    KeyFunc → LineCodec → FileIndex → List ℕ → List ℕ → ℕ → FileIndex × Result (Unit {0})
put key_func codec fi key value n = FileIndex.put key_func fi (codec.build key value) n

unfoldable pub delete : FileIndex → List ℕ → FileIndex × Result (Unit {0})
delete fi key = FileIndex.delete fi key
