-- ===== src/FileStore/Answers.antt =====
-- What a file index store returns after a write.
use in_memory_db.Base.{ℕ, ◌≤◌, ◌≡◌, refl, List, length, some, ok}
use in_memory_db.FileIndex.{FileIndex, KeyFunc, line_key, put_buffer}
use in_memory_db.FileIndex.Reopen
use in_memory_db.FileStore.{LineCodec, get, put}

-- A write of a key and a value to a file index store that succeeds, on a file index whose size is
-- the length of its file, with a codec whose line for them has that key and gives back that
-- value: the key then reads as the value.
pub decoded_get-put :
    (key_func : KeyFunc) (codec : LineCodec) (fi : FileIndex) (key value : List ℕ) (n : ℕ)
    → fi.size ≡ length fi.content
    → n ≤ length (put_buffer key_func fi (codec.build key value))
    → line_key key_func (codec.build key value) ≡ some key
    → codec.value (codec.build key value) ≡ some value
    → (put key_func codec fi key value n).1 ≡ ok tt
    → get codec (put key_func codec fi key value n).0 key ≡ ok value
unfolding get put
decoded_get-put key_func codec fi key value n size short keyed decoded done =
    rw (Reopen.get-put key_func fi (codec.build key value) n key size short keyed done, decoded)
      refl
