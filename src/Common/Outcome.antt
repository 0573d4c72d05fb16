-- ===== src/Common/Outcome.antt =====
-- Code that can fail: a thrown exception, a violated assertion, an access outside an object.
use mathlib.Core.Bool.{Bool, true, false}

pub data Error : Type 0 where
  runtime_error out_of_range logic_error : Error
  -- `BOOST_ASSERT`, which calls `abort`.
  aborted : Error
  -- Undefined behaviour: a read or a write outside an array, or through an end iterator.
  fault : Error

-- How a call ends: with an error, or with its value.
pub data Result {ℓ} (Value : Type ℓ) : Type ℓ where
  err : Error → Result Value
  ok : Value → Result Value

-- A test that the code makes before it goes on.
abbrev pub guard : Bool → Error → Result (Unit {0})
guard passed failing = elim passed [ false ↦ err failing | true ↦ ok tt ]

infixl 5 ◌>>=◌
abbrev pub ◌>>=◌ {ℓ κ} :
    {Value : Type ℓ} {Next : Type κ} → Result Value → (Value → Result Next) → Result Next
err failing >>= continue = err failing
ok v >>= continue = continue v

infixl 5 ◌>>◌
abbrev pub ◌>>◌ {κ} :
    {Next : Type κ} (first : Result (Unit {0})) (second : Result Next) → Result Next
first >> second = first >>= λ passed. second
