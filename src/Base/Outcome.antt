-- ===== src/Base/Outcome.antt =====
-- Go errors as values, and the outcome of a fallible call: a value, an error, or a panic.
use Prim.Native.Nat.{ℕ}
use Prim.Native.String.{String}
use go_nat.Base.Int.{ℤ}
use mathlib.Core.Path.{◌≡◌, refl}
use mathlib.Core.Logic.{◌⊎◌, inl, inr}
use mathlib.Core.Bool.{Bool, true, false, ◌||◌}
use mathlib.Core.List.{List}
use mathlib.Core.Option.{Option, none, some}

-- The package-level error variables: the first six are those of package nat, the rest of package pcp.
pub data Sentinel : Type 0 where
  err_no_external_address err_no_internal_address err_no_nat_found : Sentinel
  err_pinhole_rolled_back err_pinhole_left_open err_no_device_host : Sentinel
  pcp_err_no_nat_found pcp_err_no_internal_address : Sentinel
  pcp_err_pinhole_rolled_back pcp_err_pinhole_left_open : Sentinel

-- `plain s` is the text s, `format s ns` what Sprintf prints for s with the numbers ns, and
-- `format_int s z` the same with one signed number. Operands that are no numbers are left out.
pub data Text : Type 0 where
  plain : String → Text
  format : String → List ℕ → Text
  format_int : String → ℤ → Text

pub data Error : Type 0 where
  -- an error variable
  sentinel : Sentinel → Error
  -- errors.New or fmt.Errorf with no wrapped error
  message : Text → Error
  -- *pcp.Error, with its code and message
  pcp_error : ℕ → Text → Error
  -- context.Canceled and context.DeadlineExceeded
  canceled deadline_exceeded : Error
  -- an error of the operating system or of a library
  foreign : ℕ → Error
  -- fmt.Errorf("prefix: %w", err)
  wrap : String → Error → Error
  -- an error that wraps two: fmt.Errorf with two %w (the text between them), errors.Join
  join : Error → String → Error → Error
  -- fmt.Errorf("%w: %v", err, cause): the cause is printed and not wrapped
  with_cause : Error → Error → Error

-- One sentinel equals another.
abbrev pub same : Sentinel → Sentinel → Bool
same err_no_external_address err_no_external_address = true
same err_no_internal_address err_no_internal_address = true
same err_no_nat_found err_no_nat_found = true
same err_pinhole_rolled_back err_pinhole_rolled_back = true
same err_pinhole_left_open err_pinhole_left_open = true
same err_no_device_host err_no_device_host = true
same pcp_err_no_nat_found pcp_err_no_nat_found = true
same pcp_err_no_internal_address pcp_err_no_internal_address = true
same pcp_err_pinhole_rolled_back pcp_err_pinhole_rolled_back = true
same pcp_err_pinhole_left_open pcp_err_pinhole_left_open = true
same _ _ = false

-- errors.Is(err, target) for a sentinel target.
abbrev pub error_is : Error → Sentinel → Bool
error_is (sentinel s) t = same s t
error_is (message x) t = false
error_is (pcp_error c x) t = false
error_is canceled t = false
error_is deadline_exceeded t = false
error_is (foreign n) t = false
error_is (wrap p e) t = error_is e t
error_is (join e s f) t = error_is e t || error_is f t
error_is (with_cause e c) t = error_is e t

-- Go's (value, error) pair; `panic` is a run-time panic, such as an index out of range.
pub data Outcome {ℓ} (A : Type ℓ) : Type ℓ where
  ok : A → Outcome A
  err : Error → Outcome A
  panic : Outcome A

infixl 5 ◌>>=◌ ◌>>◌
abbrev pub ◌>>=◌ {ℓ κ} : {A : Type ℓ} {B : Type κ} → Outcome A → (A → Outcome B) → Outcome B
panic >>= next = panic
err failure >>= next = err failure
ok result >>= next = next result

abbrev pub ◌>>◌ {ℓ} : {B : Type ℓ} → Outcome (Unit {0}) → Outcome B → Outcome B
first >> second = first >>= λ done. second

-- `if failed { return nil, e }`
abbrev pub fail_if : Bool → Error → Outcome (Unit {0})
fail_if true e = err e
fail_if false e = ok tt

-- An error of an earlier call goes on under a prefix.
abbrev pub with_prefix {ℓ} : {A : Type ℓ} → String → Outcome A → Outcome A
with_prefix p (ok a) = ok a
with_prefix p (err e) = err (wrap p e)
with_prefix p panic = panic

abbrev pub map_ok {ℓ κ} : {A : Type ℓ} {B : Type κ} → (A → B) → Outcome A → Outcome B
map_ok f (ok a) = ok (f a)
map_ok f (err e) = err e
map_ok f panic = panic

-- The error half of Go's pair: nil is `none`.
abbrev pub error_of {ℓ} : {A : Type ℓ} → Outcome A → Option Error
error_of (ok a) = none
error_of (err e) = some e
error_of panic = none

-- A chain that succeeds has a first call that succeeds.
pub >>=-eq-ok {ℓ κ} :
    {B : Type ℓ} {C : Type κ} (call : Outcome B) (next : B → Outcome C) {c : C}
    → (call >>= next) ≡ ok c
    → (b : B) × (call ≡ ok b) × (next b ≡ ok c)
>>=-eq-ok panic next done = cc
>>=-eq-ok (err failure) next done = cc
>>=-eq-ok (ok result) next done = (result, refl, done)

pub Outcome-cases {ℓ} :
    {A : Type ℓ} (m : Outcome A)
    → ((a : A) × (m ≡ ok a)) ⊎ ((e : Error) × (m ≡ err e)) ⊎ (m ≡ panic)
Outcome-cases (ok a) = inl (a, refl)
Outcome-cases (err e) = inr (inl (e, refl))
Outcome-cases panic = inr (inr refl)

pub with_prefix-eq-ok {ℓ} :
    {A : Type ℓ} (p : String) (m : Outcome A) {a : A} → with_prefix p m ≡ ok a → m ≡ ok a
with_prefix-eq-ok p (ok a) h = h
with_prefix-eq-ok p (err e) h = cc
with_prefix-eq-ok p panic h = cc
