-- ===== src/Prelude/Errors.antt =====
-- Exceptions as values: the classes that the program raises, with the code that each carries.
use Prim.Native.Nat.{ℕ}
use Prim.Native.String.{String}
use mathlib.Core.Path.{◌≡◌, refl}
use mathlib.Core.Bool.{Bool, true, false}
use mathlib.Core.List.{List}
use mathlib.Core.Logic.{◌⊎◌, inl, inr}

pub data Error : Type 0 where
  -- `ValueError(code)` and `PermissionError(code)`
  value_error permission_error : String → Error
  -- `IdempotencyKeyCollision(collision_kind=…)`
  collision : String → Error
  -- A payload that its model refuses (`pydantic.ValidationError`).
  validation_error : String → Error
  -- `FleetProposalError(reason_code)`
  proposal_error : String → Error
  -- A commit that the database refuses: a primary key or a unique index, or a missing parent row.
  already_exists parent_missing : String → Error
  -- `HTTPException(status, code)`, the exception of a route
  http_error : ℕ → String → Error
  -- `LookupError(code)`
  lookup_error : String → Error
  -- `HTTPException(status, {"code": code, "missing": missing})`
  http_missing : ℕ → String → List String → Error
  -- `KmsApprovalError(code)` and `AuthorityConfigurationError(code)`
  kms_error configuration_error : String → Error

pub data Result {ℓ} (A : Type ℓ) : Type ℓ where
  err : Error → Result A
  ok : A → Result A

-- `if test: raise e`, and `if not test: raise e`. Both compute wherever they stand.
abbrev pub raise_if : Bool → Error → Result (Unit {0})
raise_if false e = ok tt
raise_if true e = err e

abbrev pub guard : Bool → Error → Result (Unit {0})
guard false e = err e
guard true e = ok tt

-- One statement after another: an exception ends the block.
infixl 5 ◌>>=◌ ◌>>◌
abbrev pub ◌>>=◌ {κ ℓ} : {X : Type κ} {Y : Type ℓ} → Result X → (X → Result Y) → Result Y
err raised >>= next = err raised
ok value >>= next = next value

abbrev pub ◌>>◌ {ℓ} : {Y : Type ℓ} → Result (Unit {0}) → Result Y → Result Y
check >> next = check >>= λ u. next

pub ok-injective {ℓ} : {A : Type ℓ} {a b : A} → ok a ≡ ok b → a ≡ b
ok-injective h = cc

-- Inversion of a successful block, step by step.
pub guard-ok : (b : Bool) (e : Error) → guard b e ≡ ok tt → b ≡ true
guard-ok true e h = refl
guard-ok false e h = cc

pub raise_if-ok : (b : Bool) (e : Error) → raise_if b e ≡ ok tt → b ≡ false
raise_if-ok true e h = cc
raise_if-ok false e h = refl

-- An error is no success.
pub err-ok {ℓ κ} :
    {A : Type ℓ} {B : Type κ} {e : Error} {a : A} → ◌≡◌ {A = Result A} (err e) (ok a) → B
err-ok h = cc

pub >>=-ok {κ ℓ} :
    {X : Type κ} {Y : Type ℓ} (first : Result X) (next : X → Result Y) {y : Y}
    → first >>= next ≡ ok y
    → (x : X) × (first ≡ ok x) × (next x ≡ ok y)
>>=-ok (err raised) next h = cc
>>=-ok (ok x) next h = (x, refl, h)

-- A guard at the head of a block that succeeds has passed.
pub guard_passed {ℓ} :
    {B : Type ℓ} (t : Bool) (e : Error) (k : Result B) {b : B}
    → (guard t e >> k) ≡ ok b
    → (t ≡ true) × (k ≡ ok b)
guard_passed true e k h = (refl, h)
guard_passed false e k h = cc

pub raise_if_passed {ℓ} :
    {B : Type ℓ} (t : Bool) (e : Error) (k : Result B) {b : B}
    → (raise_if t e >> k) ≡ ok b
    → (t ≡ false) × (k ≡ ok b)
raise_if_passed true e k h = cc
raise_if_passed false e k h = (refl, h)

pub Result-cases {ℓ} :
    {A : Type ℓ} (m : Result A) → ((a : A) × (m ≡ ok a)) ⊎ ((e : Error) × (m ≡ err e))
Result-cases (ok a) = inl (a, refl)
Result-cases (err e) = inr (e, refl)
