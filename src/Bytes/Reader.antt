-- ===== src/Bytes/Reader.antt =====
-- A stream of bytes and what is read from it: `io.ReadFull`, the fixed-width readers of
-- internal/kvtypes/binaryio.go, and a loop that reads a counted sequence of entries. A reader
-- returns its value with the bytes that are left.
use in_memory_db.Base.{
  ℕ, zero, suc, ◌^◌, ◌<◌, ◌≤◌, ◌≡◌, refl, ap, List, [], ◌∷◌, ◌++◌, append_assoc, arith, length,
  take, drop, take-append, drop-append, length-append, leb, if◌then◌else◌, Result, ok, err, ◌>>=◌,
  Error, eof, unexpected_eof, le→leb,
}
use in_memory_db.Bytes.Words.{
  put_uint16, put_uint32, put_uint64, uint16, uint32, uint64, uint16-put_uint16, uint32-put_uint32,
  uint64-put_uint64, length-put_uint16, length-put_uint32, length-put_uint64,
}

abbrev pub Reader {ℓ} : Type ℓ → Type ℓ
Reader A = List ℕ → Result (A × List ℕ)

-- `io.EOF` if nothing could be read, `io.ErrUnexpectedEOF` if something but not all.
abbrev pub short_read : List ℕ → Error
short_read [] = eof
short_read (b ∷ bs) = unexpected_eof

unfoldable pub read_full : ℕ → Reader (List ℕ)
read_full n bs = if leb n (length bs) then ok (take n bs, drop n bs) else err (short_read bs)

unfoldable pub read_uint16 : Reader ℕ
unfolding uint16 read_full
read_uint16 bs = do (b, rest) ← read_full 2 bs; ok (uint16 b, rest)

unfoldable pub read_uint32 : Reader ℕ
unfolding uint32 read_full
read_uint32 bs = do (b, rest) ← read_full 4 bs; ok (uint32 b, rest)

unfoldable pub read_uint64 : Reader ℕ
unfolding uint64 read_full
read_uint64 bs = do (b, rest) ← read_full 8 bs; ok (uint64 b, rest)

pub read_full-append :
    (n : ℕ) (xs rest : List ℕ) → length xs ≡ n → read_full n (xs ++ rest) ≡ ok (xs, rest)
unfolding read_full
read_full-append n xs rest h =
    let fits : n ≤ length (xs ++ rest) = omega (arith, length-append xs rest) in
    rw (le→leb n (length (xs ++ rest)) fits, take-append n xs rest h, drop-append n xs rest h)

pub read_uint16-put :
    (v : ℕ) (rest : List ℕ) → v < 2 ^ 16 → read_uint16 (put_uint16 v ++ rest) ≡ ok (v, rest)
unfolding read_uint16
read_uint16-put v rest h =
    rw (read_full-append 2 (put_uint16 v) rest (length-put_uint16 v))
      (ap (λ w. ok (w, rest)) (uint16-put_uint16 v h))

pub read_uint32-put :
    (v : ℕ) (rest : List ℕ) → v < 2 ^ 32 → read_uint32 (put_uint32 v ++ rest) ≡ ok (v, rest)
unfolding read_uint32
read_uint32-put v rest h =
    rw (read_full-append 4 (put_uint32 v) rest (length-put_uint32 v))
      (ap (λ w. ok (w, rest)) (uint32-put_uint32 v h))

pub read_uint64-put :
    (v : ℕ) (rest : List ℕ) → v < 2 ^ 64 → read_uint64 (put_uint64 v ++ rest) ≡ ok (v, rest)
unfolding read_uint64
read_uint64-put v rest h =
    rw (read_full-append 8 (put_uint64 v) rest (length-put_uint64 v))
      (ap (λ w. ok (w, rest)) (uint64-put_uint64 v h))

-- `for range count`
unfoldable pub read_many {ℓ} : {A : Type ℓ} → Reader A → ℕ → Reader (List A)
read_many read zero bs = ok ([], bs)
read_many read (suc n) bs = do
  (x, more) ← read bs
  (xs, rest) ← read_many read n more
  ok (x ∷ xs, rest)

-- The predicate holds for every entry of a list.
abbrev pub All {ℓ κ} : {A : Type ℓ} → (A → Type κ) → List A → Type κ
All P [] = Unit
All P (x ∷ xs) = P x × All P xs

-- A loop that writes one entry after the other.
unfoldable pub write_many {ℓ} : {A : Type ℓ} → (A → List ℕ) → List A → List ℕ
write_many write [] = []
write_many write (x ∷ xs) = write x ++ write_many write xs

-- What is written entry by entry is read back entry by entry.
pub read_many-write_many {ℓ κ} :
    {A : Type ℓ} (P : A → Type κ) (write : A → List ℕ) (read : Reader A)
    → ((x : A) (rest : List ℕ) → P x → read (write x ++ rest) ≡ ok (x, rest))
    → (xs : List A) (rest : List ℕ) → All P xs
    → read_many read (length xs) (write_many write xs ++ rest) ≡ ok (xs, rest)
unfolding read_many write_many
read_many-write_many P write read inverse [] rest h = refl
read_many-write_many P write read inverse (x ∷ xs) rest h = rw (
  append_assoc (write x) (write_many write xs) rest,
  inverse x (write_many write xs ++ rest) h.0,
  read_many-write_many P write read inverse xs rest h.1,
)
