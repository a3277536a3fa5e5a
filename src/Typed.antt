-- ===== src/Typed.antt =====
-- store.go and typed.go: typed buckets over any store. The store and the codec are interfaces; a
-- store's state is passed on from call to call.
use in_memory_db.Base.{
  ℕ, zero, suc, List, [], ◌∷◌, ◌++◌, drop, Bool, true, false, if◌then◌else◌, is_some, Option, none,
  some, Result, ok, err, ◌>>=◌, Error, message,
}
use in_memory_db.Iterator.{Iterator}
use in_memory_db.Iterator

-- The operations of `Store`, but for Iterator, whose keys and reader are arguments below.
pub record Store (S : Type 0) : Type 0 where
  pub get : S → List ℕ → Result (List ℕ)
  pub has : S → List ℕ → Result Bool
  pub put : S → List ℕ → List ℕ → S × Result (Unit {0})
  pub delete : S → List ℕ → S × Result (Unit {0})
  pub decode_value : List ℕ → Option (List ℕ)

pub record Codec (T : Type 0) : Type 0 where
  pub encode : T → Result (List ℕ)
  pub decode : List ℕ → Result T

pub record Bucket (T : Type 0) : Type 0 where
  pub prefix : List ℕ
  pub codec : Codec T

module _ {T : Type 0} where
  unfoldable pub full_key : Bucket T → List ℕ → List ℕ
  full_key b key = b.prefix ++ key

  module _ {S : Type 0} (store : Store S) where
    unfoldable pub put : Bucket T → S → List ℕ → T → S × Result (Unit {0})
    unfolding full_key
    put b s key value = elim (b.codec.encode value) [
      | err e ↦ (s, err e)
      | ok raw ↦ store.put s (full_key b key) raw
    ]

    unfoldable pub get : Bucket T → S → List ℕ → Result T
    unfolding full_key
    get b s key = do raw ← store.get s (full_key b key); b.codec.decode raw

    unfoldable pub delete : Bucket T → S → List ℕ → S × Result (Unit {0})
    unfolding full_key
    delete b s key = store.delete s (full_key b key)

    unfoldable pub has : Bucket T → S → List ℕ → Result Bool
    unfolding full_key
    has b s key = store.has s (full_key b key)

-- `BucketIterator`; its value is none before the first one.
pub record BucketIterator (T : Type 0) : Type 0 where
  pub it : Iterator
  pub key : List ℕ
  pub val : Option T
  pub failed : Option Error

module _ {T : Type 0} (codec : Codec T) (decode_value : List ℕ → Option (List ℕ))
    (prefix_len : ℕ) where
  -- What Next does with the pair that the store's iterator stands on.
  unfoldable pub decode_current : BucketIterator T → Iterator → BucketIterator T × Bool
  decode_current bi it' = elim (decode_value it'.cur_val) [
    | none ↦ (record bi { it = it'; failed = some (message "kv: no value for key") }, false)
    | some raw ↦ elim (codec.decode raw) [
      | err e ↦ (record bi { it = it'; failed = some (message "kv: decode value for key") }, false)
      | ok v ↦ (record bi { it = it'; key = drop prefix_len it'.cur_key; val = some v }, true)
    ]
  ]

  -- `read` is how the store's iterator reads a key.
  unfoldable pub next : (List ℕ → Result (List ℕ)) → BucketIterator T → BucketIterator T × Bool
  unfolding decode_current
  next read bi =
      let (it', more) = Iterator.next read bi.it in
      let found = decode_current bi it' in
      if is_some bi.failed
      then (bi, false)
      else if more
      then found
      else (record bi { it = it'; failed = it'.failed }, false)

  -- The pairs that All yields, with fuel above the number of keys.
  unfoldable pub all : ℕ → (List ℕ → Result (List ℕ)) → BucketIterator T → List (List ℕ × Option T)
  unfolding next
  all zero read bi = []
  all (suc fuel) read bi =
      let (bi', more) = next read bi in
      let rest = all fuel read bi' in if more then (bi'.key, bi'.val) ∷ rest else []
