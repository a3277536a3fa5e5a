-- ===== src/Bitcask/HashIndex/Cycle.antt =====
-- The probes of a table whose size is a power of two come by every slot.
use in_memory_db.Base.{
  ℕ, zero, suc, ◌+◌, ◌-◌, ◌*◌, ◌/◌, ◌%◌, ◌^◌, ◌≤◌, ◌<◌, ◌≡◌, refl, ap, ◌∙◌, min, bit_and, List,
  length, ltb, Bool-cases, inl, inr, arith,
}
use Prim.Native.Nat.{digits, bit_and-bitwise}
use in_memory_db.Bitcask.HashIndex.{Slot, next_slot}
use in_memory_db.Bitcask.HashIndex.Targets.{walk}

abbrev both : ℕ → ℕ → ℕ → ℕ
both k a b = digits (λ x. zero) min k a b

pub pow-suc : (n : ℕ) → 2 ^ suc n ≡ 2 * 2 ^ n
pow-suc n = omega arith

pub pow_pos : (n : ℕ) → 0 < 2 ^ n
pow_pos zero = omega arith
pow_pos (suc n) = omega (arith, pow_pos n, pow-suc n)

both-nil : (k a : ℕ) → both k a 0 ≡ 0
both-nil zero a = refl
both-nil (suc k) zero = refl
both-nil (suc k) (suc a) = omega (arith, both-nil k (suc a / 2))

mask_half : (n : ℕ) → ((2 ^ suc n - 1) / 2 ≡ 2 ^ n - 1) × ((2 ^ suc n - 1) % 2 ≡ 1)
mask_half n = (omega (arith, pow_pos n, pow-suc n), omega (arith, pow_pos n, pow-suc n))

both-mask :
    (n k a : ℕ)
    → both (suc k) (suc a) (2 ^ suc n - 1) ≡ both k (suc a / 2) (2 ^ n - 1) * 2 + suc a % 2
both-mask n k a = rw ((mask_half n).0, (mask_half n).1) (omega arith)

both_lt : (n k a : ℕ) → both k a (2 ^ n - 1) < 2 ^ n
both_lt n zero a = pow_pos n
both_lt n (suc k) zero = pow_pos n
both_lt zero (suc k) (suc a) = omega (arith, both-nil (suc k) (suc a))
both_lt (suc n) (suc k) (suc a) = omega (arith, both-mask n k a, both_lt n k (suc a / 2), pow-suc n)

both_small : (n k a : ℕ) → a ≤ k → a < 2 ^ n → both k a (2 ^ n - 1) ≡ a
both_small n zero a le lt = omega arith
both_small n (suc k) zero le lt = refl
both_small zero (suc k) (suc a) le lt = absurd (omega arith)
both_small (suc n) (suc k) (suc a) le lt =
    omega
      (arith, both-mask n k a, both_small n k (suc a / 2) (omega arith) (omega (arith, pow-suc n)))

both_top : (n k a : ℕ) → a ≡ 2 ^ n → both k a (2 ^ n - 1) ≡ 0
both_top n zero a e = refl
both_top n (suc k) zero e = refl
both_top zero (suc k) (suc a) e = both-nil (suc k) (suc a)
both_top (suc n) (suc k) (suc a) e =
    omega (arith, both-mask n k a, both_top n k (suc a / 2) (omega (arith, pow-suc n)), pow-suc n)

module _ (slots : List Slot) (n : ℕ) (wide : length slots ≡ 2 ^ n) where
  pub masked : (x : ℕ) → bit_and x (length slots - 1) < length slots
  masked x = rw (wide, bit_and-bitwise x (2 ^ n - 1)) (both_lt n x x)

  pub next_slot_lt : (i : ℕ) → next_slot slots i < length slots
  unfolding next_slot
  next_slot_lt i = masked (i + 1)

  next_slot_step : (i : ℕ) → i + 1 < length slots → next_slot slots i ≡ i + 1
  unfolding next_slot
  next_slot_step i lt =
      rw (wide, bit_and-bitwise (i + 1) (2 ^ n - 1))
        (both_small n (i + 1) (i + 1) (omega arith) (omega (arith, wide)))

  next_slot_last : (i : ℕ) → i + 1 ≡ length slots → next_slot slots i ≡ 0
  unfolding next_slot
  next_slot_last i e =
      rw (wide, bit_and-bitwise (i + 1) (2 ^ n - 1)) (both_top n (i + 1) (i + 1) (e ∙ wide))

  walk_on : (m i : ℕ) → i + m < length slots → walk slots m i ≡ i + m
  unfolding walk
  walk_on zero i lt = omega arith
  walk_on (suc m) i lt =
      ap (walk slots m) (next_slot_step i (omega arith))
      ∙ (walk_on m (i + 1) (omega arith) ∙ omega arith)

  walk_round :
      (m c i j : ℕ)
      → i + m + 1 ≡ length slots
      → j < length slots
      → c ≡ m + j
      → walk slots (suc c) i ≡ j
  unfolding walk
  walk_round zero c i j e lt is =
      ap (walk slots c) (next_slot_last i (omega arith)) ∙ (walk_on c 0 (omega arith) ∙ omega arith)
  walk_round (suc m) zero i j e lt is = absurd (omega arith)
  walk_round (suc m) (suc c) i j e lt is =
      ap (walk slots (suc c)) (next_slot_step i (omega arith))
      ∙ walk_round m c (i + 1) j (omega arith) lt (omega arith)

  -- From any slot, every slot is met within as many probes as there are slots.
  pub walk_meets :
      (i j : ℕ)
      → i < length slots
      → j < length slots
      → (m : ℕ) × (m < length slots) × (walk slots m i ≡ j)
  walk_meets i j hi hj = elim (Bool-cases (ltb j i)) [
    | inl before ↦
        let lt : j < i = ground arith in
        let d = length slots - i - 1 in
        (suc (d + j), omega arith, walk_round d (d + j) i j (omega arith) hj refl)
    | inr after ↦
        let le : i ≤ j = ground arith in
        (j - i, omega arith, walk_on (j - i) i (omega arith) ∙ omega arith)
  ]
