-- ===== src/Bitcask/IndexSpec.antt =====
-- What the store asks of its index (internal/bitcask/index.go): a map from keys to locations, whose
-- operations keep a well-formedness of their own. `Room` is the space that one more key needs in the
-- index's key arena.
use in_memory_db.Base.{ℕ, List, length, ◌≡◌, Option, none, some, bytes_equal, if◌then◌else◌}

-- `location`
pub record Location : Type 0 where
  pub seg_id : ℕ
  pub val_offset : ℕ
  pub val_len : ℕ

pub record IndexSpec : Type 1 where
  pub Index : Type 0
  pub empty : Index
  pub get : Index → List ℕ → Option Location
  -- both return the location that the key had before
  pub put : Index → List ℕ → Location → Index × Option Location
  pub delete : Index → List ℕ → Index × Option Location
  -- the live entries, in the order of the slots, and their number
  pub entries : Index → List (List ℕ × Location)
  pub len : Index → ℕ
  pub Valid : Index → Type 0
  pub Room : Index → List ℕ → Type 0
  pub empty-Valid : Valid empty
  pub put-Valid : (i : Index) (k : List ℕ) (l : Location) → Valid i → Room i k → Valid (put i k l).0
  pub delete-Valid : (i : Index) (k : List ℕ) → Valid i → Valid (delete i k).0
  pub get-empty : (k : List ℕ) → get empty k ≡ none
  pub get-put :
      (i : Index) (k q : List ℕ) (l : Location)
      → Valid i
      → Room i k
      → get (put i k l).0 q ≡ (if bytes_equal k q then some l else get i q)
  pub put-prev :
      (i : Index) (k : List ℕ) (l : Location) → Valid i → Room i k → (put i k l).1 ≡ get i k
  pub get-delete :
      (i : Index) (k q : List ℕ)
      → Valid i
      → get (delete i k).0 q ≡ (if bytes_equal k q then none else get i q)
  pub delete-prev : (i : Index) (k : List ℕ) → Valid i → (delete i k).1 ≡ get i k
  pub len-entries : (i : Index) → Valid i → len i ≡ length (entries i)
