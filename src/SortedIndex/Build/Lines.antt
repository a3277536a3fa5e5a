-- ===== src/SortedIndex/Build/Lines.antt =====
-- The lines of the sources, and the last line of a key.
use in_memory_db.Base.{
  ℕ, zero, suc, ◌+◌, ◌≤◌, ◌≡◌, refl, ap, sym, ◌∙◌, List, [], ◌∷◌, ◌++◌, length, take, drop, true,
  false, Bool-cases, ◌==◌, if◌then◌else◌, Option, Option-cases, none, some, inl, inr, arith,
  bytes_equal,
}
use in_memory_db.FileIndex.{KeyFunc, newline, read_line, line_key}
use in_memory_db.SortedIndex.Format.Entries.{SortEntry}
use in_memory_db.SortedIndex.Build.Latest.{last_with}

-- The lines of a file.
unfoldable pub lines_of : ℕ → List ℕ → List (List ℕ)
lines_of zero bs = []
lines_of (suc fuel) bs =
    let (line, terminated, rest) = read_line bs in
    line ∷ (elim terminated [ true ↦ lines_of fuel rest | false ↦ [] ])

-- The lines of all files in turn.
unfoldable pub all_lines : List (List ℕ) → List (List ℕ)
unfolding lines_of
all_lines [] = []
all_lines (content ∷ contents) = lines_of (length content + 1) content ++ all_lines contents

-- The second answer, unless the first one is there.
abbrev pub later {ℓ} : {A : Type ℓ} → Option A → Option A → Option A
later none o = o
later (some a) o = some a

-- The line, if the key is its key.
unfoldable pub line_with : KeyFunc → List ℕ → List ℕ → Option (List ℕ)
line_with key_func line key = if length line == 0 then none else elim (line_key key_func line) [
  | none ↦ none
  | some k ↦ if bytes_equal k key then some line else none
]

-- The last line of a key.
unfoldable pub last_line : KeyFunc → List (List ℕ) → List ℕ → Option (List ℕ)
unfolding line_with
last_line key_func [] key = none
last_line key_func (l ∷ ls) key = later (last_line key_func ls key) (line_with key_func l key)

later_assoc {ℓ} : {A : Type ℓ} (x y z : Option A) → later (later x y) z ≡ later x (later y z)
later_assoc none y z = refl
later_assoc (some a) y z = refl

later-none {ℓ} : {A : Type ℓ} (x : Option A) → later x none ≡ x
later-none none = refl
later-none (some a) = refl

pub last_line-append :
    (key_func : KeyFunc) (xs ys : List (List ℕ)) (key : List ℕ)
    → last_line key_func (xs ++ ys) key
      ≡ later (last_line key_func ys key) (last_line key_func xs key)
unfolding last_line
last_line-append key_func [] ys key = sym (later-none (last_line key_func ys key))
last_line-append key_func (x ∷ xs) ys key =
    rw (last_line-append key_func xs ys key) (
      later_assoc (last_line key_func ys key) (last_line key_func xs key)
        (line_with key_func x key))

last_with_cons :
    (e : SortEntry) (es : List SortEntry) (key : List ℕ)
    → last_with (e ∷ es) key
      ≡ later (last_with es key) (if bytes_equal e.key key then some e else none)
unfolding last_with
last_with_cons e es key = elim (Option-cases (last_with es key)) [
  | inl gone ↦ rw gone refl
  | inr (z, hit) ↦ rw hit refl
]

pub last_with-append :
    (xs ys : List SortEntry) (key : List ℕ)
    → last_with (xs ++ ys) key ≡ later (last_with ys key) (last_with xs key)
unfolding last_with
last_with-append [] ys key = sym (later-none (last_with ys key))
last_with-append (x ∷ xs) ys key =
    let one = if bytes_equal x.key key then some x else none in
    last_with_cons x (xs ++ ys) key
    ∙ (ap (λ t. later t one) (last_with-append xs ys key)
        ∙ (later_assoc (last_with ys key) (last_with xs key) one
            ∙ ap (later (last_with ys key)) (sym (last_with_cons x xs key))))

pub read_line-take : (bs : List ℕ) → take (length (read_line bs).0) bs ≡ (read_line bs).0
unfolding read_line
read_line-take [] = refl
read_line-take (b ∷ bs) = elim (Bool-cases (b == newline)) [
  | inl end_ ↦ rw end_ refl
  | inr more ↦ rw more (ap (λ t. b ∷ t) (read_line-take bs))
]

pub read_line-drop :
    (bs : List ℕ)
    → (read_line bs).1 ≡ true
    → drop (suc (length (read_line bs).0)) bs ≡ (read_line bs).2
unfolding read_line
read_line-drop [] h = absurd (cc)
read_line-drop (b ∷ bs) h = elim (Bool-cases (b == newline)) [
  | inl end_ ↦ rw end_ refl
  | inr more ↦ rw more (read_line-drop bs (rw more at h))
]

pub read_line_le : (bs : List ℕ) → length (read_line bs).0 ≤ length bs
unfolding read_line
read_line_le [] = omega arith
read_line_le (b ∷ bs) = ground (arith, read_line_le bs)
