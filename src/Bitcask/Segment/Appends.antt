-- ===== src/Bitcask/Segment/Appends.antt =====
-- What an append and a finalize leave readable, and what they add.
use in_memory_db.Base.{
  ℕ, ◌+◌, ◌^◌, ◌≤◌, ◌<◌, ◌≡◌, refl, ap, sym, ◌∙◌, List, ◌++◌, length, take, drop, length-append,
  length-take, length-drop, take-append, drop-append, drop-add, slice-append, slice-take, take-take,
  length-replicate, le→ltb, ◌==◌, Bool-cases, inl, inr, ok, arith,
}
use in_memory_db.Bitcask.Segment.{
  Segment, create_segment, remaining, overwrite, append, read_at, finalize,
}

-- The mapping holds the bytes in use, is as long as the capacity says, and its offsets are `uint32`.
pub record IsSized (s : Segment) : Type 0 where
  pub used : s.size ≤ length s.bytes
  pub mapped : s.capacity ≡ length s.bytes
  pub addressable : length s.bytes < 2 ^ 32

-- What could be read of the bytes in use can be read, and is the same.
pub record Extends (s t : Segment) : Type 0 where
  pub same_id : t.id ≡ s.id
  pub grows : s.size ≤ t.size
  pub reads : (off n : ℕ) → off + n ≤ s.size → read_at t off n ≡ read_at s off n

pub Extends-refl : (s : Segment) → Extends s s
Extends-refl s = record { same_id = refl; grows = omega arith; reads = λ off n h. refl }

pub Extends-trans : {s t u : Segment} → Extends s t → Extends t u → Extends s u
Extends-trans e f = record {
  same_id = f.same_id ∙ e.same_id;
  grows = omega (arith, e.grows, f.grows);
  reads = λ off n h. f.reads off n (omega (arith, e.grows)) ∙ e.reads off n h;
}

pub create_segment-IsSized :
    (id capacity : ℕ) → capacity < 2 ^ 32 → IsSized (create_segment id capacity)
unfolding create_segment
create_segment-IsSized id capacity h = record {
  used = omega arith;
  mapped = sym (length-replicate capacity 0);
  addressable = omega (arith, length-replicate {A = ℕ} capacity 0);
}

-- A read within the mapping.
pub read_at_lem :
    (s : Segment) (off n : ℕ)
    → off + n ≤ length s.bytes
    → read_at s off n ≡ ok (take n (drop off s.bytes))
unfolding read_at
read_at_lem s off n h = rw (le→ltb (length s.bytes) (off + n) h)

-- Two segments with the same front.
same_front :
    (s t : Segment)
    → IsSized s
    → t.id ≡ s.id
    → s.size ≤ t.size
    → s.size ≤ length t.bytes
    → take s.size t.bytes ≡ take s.size s.bytes
    → Extends s t
same_front s t v same more long front = record {
  same_id = same;
  grows = more;
  reads = λ off n h.
      read_at_lem t off n (omega arith)
      ∙ (ap ok (
            sym (slice-take off n s.size t.bytes h long)
            ∙ (ap (λ bs. take n (drop off bs)) front ∙ slice-take off n s.size s.bytes h v.used))
          ∙ sym (read_at_lem s off n (omega (arith, v.used))));
}

module _ (s : Segment) (v : IsSized s) where
  pub finalize-IsSized : IsSized (finalize s)
  unfolding finalize
  finalize-IsSized = ground (arith, length-take s.size s.bytes v.used, v.used, v.addressable)

  pub finalize-Extends : Extends s (finalize s)
  unfolding finalize
  finalize-Extends = elim (Bool-cases (s.size == s.capacity)) [
    | inl e ↦ rw e (Extends-refl s)
    | inr e ↦ rw e (
        same_front s _ v refl (omega arith) (omega (arith, length-take s.size s.bytes v.used))
          (take-take s.size s.size s.bytes (omega arith)))
  ]

  module _ (rec : List ℕ) (room : length rec ≤ remaining s) where
    abbrev pub after_append : Segment
    after_append = record s { bytes = overwrite s.bytes s.size rec; size = s.size + length rec }

    fits : s.size + length rec ≤ length s.bytes
    unfolding remaining
    fits = omega (arith, v.used, v.mapped, room)

    pub append_lem : append s rec ≡ ok (s.size, after_append)
    unfolding append
    append_lem = rw (le→ltb (length s.bytes) (s.size + length rec) fits)

    length-overwrite : length (overwrite s.bytes s.size rec) ≡ length s.bytes
    unfolding overwrite
    length-overwrite =
        let rest = drop (s.size + length rec) s.bytes in
        omega (
          arith,
          fits,
          length-append (take s.size s.bytes) (rec ++ rest),
          length-append rec rest,
          length-take s.size s.bytes v.used,
          length-drop (s.size + length rec) s.bytes,
        )

    pub after_append-IsSized : IsSized after_append
    after_append-IsSized = record {
      used = omega (arith, fits, length-overwrite);
      mapped = v.mapped ∙ sym length-overwrite;
      addressable = omega (arith, length-overwrite, v.addressable);
    }

    pub append-Extends : Extends s after_append
    unfolding overwrite
    append-Extends =
        same_front s after_append v refl (omega arith)
          (omega (arith, v.used, after_append-IsSized.used))
          (take-append s.size (take s.size s.bytes) (rec ++ drop (s.size + length rec) s.bytes)
            (length-take s.size s.bytes v.used))

    -- The record that was appended can be read, whole or in part.
    pub append-reads :
        (o n : ℕ)
        → o + n ≤ length rec
        → read_at after_append (s.size + o) n ≡ ok (take n (drop o rec))
    unfolding overwrite
    append-reads o n h =
        let front = take s.size s.bytes in
        let rest = drop (s.size + length rec) s.bytes in
        let inside : s.size + o + n ≤ length (overwrite s.bytes s.size rec) =
          omega (arith, fits, length-overwrite) in
        read_at_lem after_append (s.size + o) n inside
        ∙ rw
            (
              ← drop-add s.size o (front ++ (rec ++ rest)),
              drop-append s.size front (rec ++ rest) (length-take s.size s.bytes v.used),
            )
            (ap ok (slice-append o n rec rest h))
