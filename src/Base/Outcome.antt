-- ===== src/Base/Outcome.antt =====
-- Go's `(value, error)` pairs. The sentinel errors of internal/kvtypes/errors.go are constructors;
-- an error made by `fmt.Errorf` without a sentinel is its text.
use Prim.Native.String.{String}
use mathlib.Core.Bool.{Bool, true, false}

pub data Error : Type 0 where
  not_found closed corrupt empty_key key_too_large no_line_key invalid_line : Error
  -- `io.EOF` and `io.ErrUnexpectedEOF`
  eof unexpected_eof : Error
  message : String → Error

pub data Result {ℓ} (V : Type ℓ) : Type ℓ where
  err : Error → Result V
  ok : V → Result V

-- `if !test { return failure }`
abbrev pub guard : Bool → Error → Result (Unit {0})
guard false failure = err failure
guard true failure = ok tt

infixl 5 ◌>>=◌ ◌>>◌
abbrev pub ◌>>=◌ {ℓ κ} : {V : Type ℓ} {W : Type κ} → Result V → (V → Result W) → Result W
err failure >>= next = err failure
ok v >>= next = next v

abbrev pub ◌>>◌ {ℓ} : {W : Type ℓ} → Result (Unit {0}) → Result W → Result W
first >> then_ = first >>= λ _. then_
