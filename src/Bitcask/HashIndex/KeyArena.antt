-- ===== src/Bitcask/HashIndex/KeyArena.antt =====
-- internal/bitcask/arena.go: the bytes of the keys in chunks, of which a slot keeps the place.
use in_memory_db.Base.{
  ℕ, ◌+◌, ◌-◌, ◌%◌, ◌^◌, List, [], ◌∷◌, ◌++◌, length, take, drop, replicate, get_elem?, set, max,
  ltb, ◌==◌, ◌||◌, if◌then◌else◌, some, none,
}

pub record Arena : Type 0 where
  pub chunk_size : ℕ
  pub chunks : List (List ℕ)
  pub used : ℕ

-- 16 MB
abbrev pub arena_chunk_size : ℕ
arena_chunk_size = 16777216

unfoldable pub new_arena : ℕ → Arena
new_arena size = record { chunk_size = size; chunks = []; used = 0 }

unfoldable pub chunk_at : List (List ℕ) → ℕ → List ℕ
chunk_at chunks i = elim (get_elem? chunks i) [ none ↦ [] | some c ↦ c ]

-- `copy(chunk[off:], key)`
unfoldable pub copy_at : List ℕ → ℕ → List ℕ → List ℕ
copy_at chunk off key = take off chunk ++ (key ++ drop (off + length key) chunk)

unfoldable pub add_chunk : Arena → ℕ → Arena
add_chunk a n = record a { chunks = a.chunks ++ replicate (max n a.chunk_size) 0 ∷ []; used = 0 }

-- The copy into the last chunk, and the place of the key: `uint16` and `uint32`.
unfoldable pub put_last : Arena → List ℕ → Arena × (ℕ × ℕ)
put_last a key =
    let i = length a.chunks - 1 in
    (
      record a {
        chunks = set a.chunks i (copy_at (chunk_at a.chunks i) a.used key);
        used = a.used + length key;
      },
      (i % 2 ^ 16, a.used % 2 ^ 32),
    )

unfoldable pub put : Arena → List ℕ → Arena × (ℕ × ℕ)
unfolding put_last add_chunk
put a key =
    let full = ltb (length (chunk_at a.chunks (length a.chunks - 1))) (a.used + length key) in
    if (length a.chunks == 0) || full
    then put_last (add_chunk a (length key)) key
    else put_last a key

-- The bytes at a place; what a slot says is in range.
unfoldable pub get : Arena → ℕ → ℕ → ℕ → List ℕ
get a i off n = take n (drop off (chunk_at a.chunks i))
