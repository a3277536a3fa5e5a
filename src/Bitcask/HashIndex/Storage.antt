-- ===== src/Bitcask/HashIndex/Storage.antt =====
-- The keys in the arena stay readable when another key is put there.
use in_memory_db.Base.{
  ℕ, zero, suc, ◌+◌, ◌-◌, ◌%◌, ◌^◌, ◌≤◌, ◌<◌, ◌≡◌, refl, ap, ap₂, sym, ◌∙◌, List, [], ◌∷◌, ◌++◌,
  length, length-append, length-take, length-drop, length-replicate, take, drop, take-append,
  drop-append, slice-append, take-drop, replicate, get_elem?, set, max, ltb, Bool-cases, ◌==◌, ◌||◌,
  some, inl, inr, ◌⊎◌, arith, subst,
}
use in_memory_db.Bitcask.HashIndex.KeyArena.{
  Arena, chunk_at, copy_at, add_chunk, put_last, put, get,
}

-- The last chunk has the bytes in use, and every chunk's offsets are 32 bits wide.
pub record Sound (a : Arena) : Type 0 where
  pub narrow : a.chunk_size < 2 ^ 32
  pub shape :
      (a.chunks ≡ [])
      ⊎ ((front : List (List ℕ)) × (last : List ℕ) × (a.chunks ≡ front ++ last ∷ [])
          × (a.used ≤ length last)
          × (length last < 2 ^ 32))

-- A place of the arena that is in use.
pub record Stored (a : Arena) (i off n : ℕ) : Type 0 where
  pub exists : i < length a.chunks
  pub inside : off + n ≤ length (chunk_at a.chunks i)
  pub in_use : suc i ≡ length a.chunks → off + n ≤ a.used

get_last :
    (front : List (List ℕ)) (c : List ℕ) → get_elem? (front ++ c ∷ []) (length front) ≡ some c
get_last [] c = refl
get_last (x ∷ front) c = get_last front c

get_front :
    (front : List (List ℕ)) (c d : List ℕ) (i : ℕ)
    → i < length front
    → get_elem? (front ++ c ∷ []) i ≡ get_elem? (front ++ d ∷ []) i
get_front [] c d i h = absurd (omega arith)
get_front (x ∷ front) c d zero h = refl
get_front (x ∷ front) c d (suc i) h = get_front front c d i (omega arith)

get_before :
    (front : List (List ℕ)) (c : List ℕ) (i : ℕ)
    → i < length front
    → get_elem? (front ++ c ∷ []) i ≡ get_elem? front i
get_before [] c i h = absurd (omega arith)
get_before (x ∷ front) c zero h = refl
get_before (x ∷ front) c (suc i) h = get_before front c i (omega arith)

set_last :
    (front : List (List ℕ)) (c d : List ℕ)
    → set (front ++ c ∷ []) (length front) d ≡ front ++ d ∷ []
set_last [] c d = refl
set_last (x ∷ front) c d = ap (λ t. x ∷ t) (set_last front c d)

module _ (c : List ℕ) (off : ℕ) (key : List ℕ) (room : off + length key ≤ length c) where
  pub length-copy_at : length (copy_at c off key) ≡ length c
  unfolding copy_at
  length-copy_at =
      let rest = drop (off + length key) c in
      omega (
        arith,
        length-append (take off c) (key ++ rest),
        length-append key rest,
        length-take off c (omega arith),
        length-drop (off + length key) c,
      )

  pub copy_at-reads : take (length key) (drop off (copy_at c off key)) ≡ key
  unfolding copy_at
  copy_at-reads =
      ap (take (length key)) (
        drop-append off (take off c) (key ++ drop (off + length key) c)
          (length-take off c (omega arith)))
      ∙ take-append (length key) key (drop (off + length key) c) refl

  pub copy_at-keeps :
      (o n : ℕ) → o + n ≤ off → take n (drop o (copy_at c off key)) ≡ take n (drop o c)
  unfolding copy_at
  copy_at-keeps o n h =
      let front = take off c in
      let size = length-take off c (omega arith) in
      slice-append o n front (key ++ drop (off + length key) c) (omega arith)
      ∙ (sym (slice-append o n front (drop off c) (omega arith))
          ∙ ap (λ t. take n (drop o t)) (take-drop off c))

mod_small : (x : ℕ) → x < 2 ^ 16 → x % 2 ^ 16 ≡ x
mod_small x h = omega arith

count_a' :
    (a : Arena) (front : List (List ℕ)) (last : List ℕ)
    → a.chunks ≡ front ++ last ∷ []
    → length a.chunks ≡ length front + 1
count_a' a front last is = ap length is ∙ length-append front (last ∷ [])

chunk_at-last : (front : List (List ℕ)) (c : List ℕ) → chunk_at (front ++ c ∷ []) (length front) ≡ c
unfolding chunk_at
chunk_at-last front c = rw (chunk_at, get_last front c) refl

chunk_at-front :
    (front : List (List ℕ)) (c d : List ℕ) (i : ℕ)
    → i < length front
    → chunk_at (front ++ c ∷ []) i ≡ chunk_at (front ++ d ∷ []) i
unfolding chunk_at
chunk_at-front front c d i lt = rw (chunk_at, get_front front c d i lt) refl

chunk_at-before :
    (front : List (List ℕ)) (c : List ℕ) (i : ℕ)
    → i < length front
    → chunk_at (front ++ c ∷ []) i ≡ chunk_at front i
unfolding chunk_at
chunk_at-before front c i lt = rw (chunk_at, get_before front c i lt) refl

last_chunk :
    (a : Arena) (front : List (List ℕ)) (last : List ℕ)
    → a.chunks ≡ front ++ last ∷ []
    → chunk_at a.chunks (length a.chunks - 1) ≡ last
last_chunk a front last is =
    let eq : length a.chunks - 1 ≡ length front = omega (arith, count_a' a front last is) in
    ap (chunk_at a.chunks) eq
    ∙ (ap (λ cs. chunk_at cs (length front)) is ∙ chunk_at-last front last)

-- What is stored stays, and reads the same.
pub record Keeps (a b : Arena) : Type 0 where
  pub stays : (i off n : ℕ) → Stored a i off n → Stored b i off n
  pub reads : (i off n : ℕ) → Stored a i off n → get b i off n ≡ get a i off n

Keeps-trans : (a b c : Arena) → Keeps a b → Keeps b c → Keeps a c
Keeps-trans a b c f g = record {
  stays = λ i off n s. g.stays i off n (f.stays i off n s);
  reads = λ i off n s. g.reads i off n (f.stays i off n s) ∙ f.reads i off n s;
}

add_chunk-Keeps : (a : Arena) (n : ℕ) → Keeps a (add_chunk a n)
unfolding add_chunk get
add_chunk-Keeps a n = record {
  stays = λ i off m s.
      let lt = s.exists in
      let size = length-append a.chunks (replicate (max n a.chunk_size) 0 ∷ []) in
      record {
        exists = omega arith;
        inside =
            let fits = s.inside in
            subst (λ c. off + m ≤ length c)
              (sym (chunk_at-before a.chunks (replicate (max n a.chunk_size) 0) i lt)) fits;
        in_use = λ last. absurd (omega arith);
      };
  reads = λ i off m s.
      ap (λ c. take m (drop off c))
        (chunk_at-before a.chunks (replicate (max n a.chunk_size) 0) i s.exists);
}

module _ (a : Arena) (front : List (List ℕ)) (last : List ℕ) (key : List ℕ)
    (is : a.chunks ≡ front ++ last ∷ []) (room : a.used + length key ≤ length last)
    (few : length front < 2 ^ 16) (narrow : length last < 2 ^ 32)
    (small : a.chunk_size < 2 ^ 32) where
  abbrev pub after : Arena
  after = record a { chunks = front ++ copy_at last a.used key ∷ []; used = a.used + length key }

  count_a : length a.chunks ≡ length front + 1
  count_a = ap length is ∙ length-append front (last ∷ [])

  count_b : length (front ++ copy_at last a.used key ∷ []) ≡ length front + 1
  count_b = length-append front (copy_at last a.used key ∷ [])

  last_idx : length a.chunks - 1 ≡ length front
  last_idx = omega (arith, count_a)

  last_a : chunk_at a.chunks (length front) ≡ last
  last_a = ap (λ cs. chunk_at cs (length front)) is ∙ chunk_at-last front last

  last_b : chunk_at after.chunks (length front) ≡ copy_at last a.used key
  last_b = chunk_at-last front (copy_at last a.used key)

  front_same : (i : ℕ) → i < length front → chunk_at after.chunks i ≡ chunk_at a.chunks i
  front_same i lt =
      chunk_at-front front (copy_at last a.used key) last i lt ∙ ap (λ cs. chunk_at cs i) (sym is)

  pub put_last_lem : put_last a key ≡ (after, (length front, a.used))
  unfolding put_last
  put_last_lem =
      let chunks' : set a.chunks (length a.chunks - 1)
            (copy_at (chunk_at a.chunks (length a.chunks - 1)) a.used key)
          ≡ front ++ copy_at last a.used key ∷ [] =
        ap (λ c. set a.chunks (length a.chunks - 1) (copy_at c a.used key))
          (last_chunk a front last is)
        ∙ (ap (λ k. set a.chunks k (copy_at last a.used key)) last_idx
            ∙ (ap (λ cs. set cs (length front) (copy_at last a.used key)) is
                ∙ set_last front last (copy_at last a.used key))) in
      let idx : (length a.chunks - 1) % 2 ^ 16 ≡ length front = omega (arith, count_a) in
      let off : a.used % 2 ^ 32 ≡ a.used = omega arith in
      ap₂
        (λ (cs : List (List ℕ)) (w : ℕ × ℕ).
          (record a { chunks = cs; used = a.used + length key }, w))
        chunks' (ap₂ (λ (x : ℕ) (y : ℕ). (x, y)) idx off)

  pub after-Sound : Sound after
  after-Sound = record {
    narrow = small;
    shape = inr (
      front,
      copy_at last a.used key,
      refl,
      omega (arith, length-copy_at last a.used key room),
      omega (arith, length-copy_at last a.used key room),
    );
  }

  pub after-Stored : Stored after (length front) a.used (length key)
  after-Stored = record {
    exists = omega (arith, count_b);
    inside =
        subst (λ c. a.used + length key ≤ length c) (sym last_b)
          (omega (arith, length-copy_at last a.used key room));
    in_use = λ e. omega arith;
  }

  pub after-reads : get after (length front) a.used (length key) ≡ key
  unfolding get
  after-reads =
      ap (λ c. take (length key) (drop a.used c)) last_b ∙ copy_at-reads last a.used key room

  pub after-Keeps : Keeps a after
  unfolding get
  after-Keeps = record {
    stays = λ i off n s.
        let lt = s.exists in
        elim (Bool-cases (ltb i (length front))) [
          | inl before ↦
              let less : i < length front = ground arith in
              record {
                exists = omega (arith, count_b);
                inside = subst (λ c. off + n ≤ length c) (sym (front_same i less)) s.inside;
                in_use = λ e. absurd (omega (arith, count_b));
              }
          | inr here ↦
              let eq : i ≡ length front = ground (arith, count_a) in
              let used_up = s.in_use (omega (arith, count_a)) in
              record {
                exists = omega (arith, count_b);
                inside =
                    subst (λ c. off + n ≤ length c) (sym (ap (chunk_at after.chunks) eq ∙ last_b))
                      (omega (arith, length-copy_at last a.used key room));
                in_use = λ e. omega arith;
              }
        ];
    reads = λ i off n s.
        let lt = s.exists in
        elim (Bool-cases (ltb i (length front))) [
          | inl before ↦
              let less : i < length front = ground arith in
              ap (λ c. take n (drop off c)) (front_same i less)
          | inr here ↦
              let eq : i ≡ length front = ground (arith, count_a) in
              let used_up = s.in_use (omega (arith, count_a)) in
              ap (λ c. take n (drop off c)) (ap (chunk_at after.chunks) eq ∙ last_b)
              ∙ (copy_at-keeps last a.used key room off n used_up
                  ∙ ap (λ c. take n (drop off c)) (sym (ap (chunk_at a.chunks) eq ∙ last_a)))
        ];
  }

-- What a put of a key does.
pub record PutDone (a b : Arena) (key : List ℕ) (i off : ℕ) : Type 0 where
  pub sound : Sound b
  pub keeps : Keeps a b
  pub stored : Stored b i off (length key)
  pub reads : get b i off (length key) ≡ key

put_last-Done :
    (a : Arena) (front : List (List ℕ)) (last key : List ℕ)
    → a.chunks ≡ front ++ last ∷ []
    → a.used + length key ≤ length last
    → length front < 2 ^ 16
    → length last < 2 ^ 32
    → a.chunk_size < 2 ^ 32
    → PutDone a (put_last a key).0 key (put_last a key).1.0 (put_last a key).1.1
put_last-Done a front last key is room few narrow small =
    subst (λ (p : Arena × (ℕ × ℕ)). PutDone a p.0 key p.1.0 p.1.1)
      (sym (put_last_lem a front last key is room few narrow small))
      (record {
        sound = after-Sound a front last key is room few narrow small;
        keeps = after-Keeps a front last key is room few narrow small;
        stored = after-Stored a front last key is room few narrow small;
        reads = after-reads a front last key is room few narrow small;
      })

put_fresh-Done :
    (a : Arena) (key : List ℕ)
    → Sound a
    → length key < 2 ^ 16
    → length a.chunks < 2 ^ 16
    → let p = put_last (add_chunk a (length key)) key in PutDone a p.0 key p.1.0 p.1.1
unfolding add_chunk
put_fresh-Done a key s short few =
    let b = add_chunk a (length key) in
    let chunk : List ℕ = replicate (max (length key) a.chunk_size) 0 in
    let size = length-replicate {A = ℕ} (max (length key) a.chunk_size) 0 in
    let narrow = s.narrow in
    let d = put_last-Done b a.chunks chunk key refl (omega arith) few (omega arith) narrow in
    record {
      sound = d.sound;
      keeps = Keeps-trans a b (put_last b key).0 (add_chunk-Keeps a (length key)) d.keeps;
      stored = d.stored;
      reads = d.reads;
    }

-- A put of a key shorter than 2^16 in an arena of fewer than 2^16 chunks.
pub put-Done :
    (a : Arena) (key : List ℕ)
    → Sound a
    → length key < 2 ^ 16
    → length a.chunks < 2 ^ 16
    → PutDone a (put a key).0 key (put a key).1.0 (put a key).1.1
unfolding put
put-Done a key s short few =
    let full_ = ltb (length (chunk_at a.chunks (length a.chunks - 1))) (a.used + length key) in
    let goal = λ (p : Arena × (ℕ × ℕ)). PutDone a p.0 key p.1.0 p.1.1 in
    elim (Bool-cases ((length a.chunks == 0) || full_)) [
      | inl fresh ↦ rw fresh (put_fresh-Done a key s short few)
      | inr fits ↦ rw fits (elim s.shape [
        | inl none_yet ↦ let nil : length a.chunks ≡ 0 = ap length none_yet in absurd (ground arith)
        | inr (front, last, is, used, narrow) ↦
            let size = count_a' a front last is in
            let at_last : length (chunk_at a.chunks (length a.chunks - 1)) ≡ length last =
              ap length (last_chunk a front last is) in
            put_last-Done a front last key is (ground arith) (omega arith) narrow s.narrow
      ])
    ]
