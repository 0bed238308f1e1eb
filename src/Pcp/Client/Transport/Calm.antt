-- ===== src/Pcp/Client/Transport/Calm.antt =====
-- pcp/client.go: one attempt of a request does not panic, where what it reads does not.
use go_nat.Base.{ℕ, refl, ◌≢◌, inl, inr, Bool, true, false, Option, some, none, String, List, arith}
use go_nat.Base.Tests.{Bool-cases}
use go_nat.Base.Int.{ℤ, is_positive}
use go_nat.Base.Outcome.{Error, Outcome, ok, err, panic, ◌>>=◌, with_prefix, fail_if}
use go_nat.Base.Bytes.{Bytes}
use go_nat.Pcp.Client.State.{Client}
use go_nat.Pcp.Client.Transport.{
  Attempt, Round, UdpAddr, check, nil_and, accept_datagram, converse, within_deadline, send_once,
  next_attempt, last_attempt,
}

pub >>=-ne-panic {ℓ κ} :
    {A : Type ℓ} {B : Type κ} (m : Outcome A) (f : A → Outcome B)
    → m ≢ panic
    → ((a : A) → f a ≢ panic)
    → (m >>= f) ≢ panic
>>=-ne-panic (ok a) f h k = k a
>>=-ne-panic (err e) f h k = λ p. cc
>>=-ne-panic panic f h k = λ p. h refl

pub ok-ne-panic {ℓ} : {A : Type ℓ} (a : A) → ok a ≢ panic
ok-ne-panic a = λ p. cc

pub with_prefix-ne-panic {ℓ} :
    {A : Type ℓ} (s : String) (m : Outcome A) → m ≢ panic → with_prefix s m ≢ panic
with_prefix-ne-panic s (ok a) h = λ p. cc
with_prefix-ne-panic s (err e) h = λ p. cc
with_prefix-ne-panic s panic h = λ p. h refl

pub fail_if-ne-panic : (b : Bool) (e : Error) → fail_if b e ≢ panic
fail_if-ne-panic true e = λ p. cc
fail_if-ne-panic false e = λ p. cc

check-ne-panic : (o : Option Error) → check o ≢ panic
check-ne-panic none = λ p. cc
check-ne-panic (some e) = λ p. cc

nil_and-ne-panic : (o : Option Error) → nil_and o ≢ panic
nil_and-ne-panic none = λ p. cc
nil_and-ne-panic (some e) = λ p. cc

accept_datagram-ne-panic :
    (a : Attempt) (addr : UdpAddr) (r : Outcome (Bytes × Bytes))
    → r ≢ panic
    → accept_datagram a addr r ≢ panic
unfolding accept_datagram
accept_datagram-ne-panic a addr (ok (datagram, from)) h = λ p. ground arith
accept_datagram-ne-panic a addr (err e) h = λ p. ground arith
accept_datagram-ne-panic a addr panic h = λ p. h refl

module _ (a : Attempt)
    (calm : (addr : UdpAddr) (req : Bytes) (t : ℤ) → a.read addr req t ≢ panic) where
  converse-ne-panic : (addr : UdpAddr) (req : Bytes) (t : ℤ) → converse a addr req t ≢ panic
  unfolding converse
  converse-ne-panic addr req t =
      >>=-ne-panic _ _ (with_prefix-ne-panic _ _ (check-ne-panic (a.set_deadline t))) λ _.
        >>=-ne-panic _ _ (with_prefix-ne-panic _ _ (check-ne-panic (a.write addr req)))
          λ _. accept_datagram-ne-panic a addr _ (calm addr req t)

  within_deadline-ne-panic :
      (c : Client) (addr : UdpAddr) (req : Bytes) (left : Option ℤ)
      → within_deadline c a addr req left ≢ panic
  unfolding within_deadline
  within_deadline-ne-panic c addr req none = converse-ne-panic addr req _
  within_deadline-ne-panic c addr req (some left) = elim (Bool-cases (is_positive left)) [
    | inl p ↦ rw p (converse-ne-panic addr req _)
    | inr p ↦ rw p (nil_and-ne-panic a.ctx_at_deadline)
  ]

  pub send_once-ne-panic :
      (c : Client) (addr : UdpAddr) (req : Bytes) → send_once c a addr req ≢ panic
  unfolding send_once
  send_once-ne-panic c addr req = >>=-ne-panic _ _ (check-ne-panic a.ctx_at_start) λ _.
      >>=-ne-panic _ _ (with_prefix-ne-panic _ _ (check-ne-panic a.listen))
        λ _. within_deadline-ne-panic c addr req a.remaining

pub next_attempt-ne-panic :
    (o : Outcome Bytes) (r : Round) (w : ℕ) (rest : Outcome Bytes × List ℕ)
    → o ≢ panic
    → rest.0 ≢ panic
    → (next_attempt o r w rest).0 ≢ panic
unfolding next_attempt
next_attempt-ne-panic (ok x) r w rest h k = λ p. cc
next_attempt-ne-panic panic r w rest h k = λ p. h refl
next_attempt-ne-panic (err e) r w rest h k = λ p. ground arith

pub last_attempt-ne-panic : (o : Outcome Bytes) (r : Round) → o ≢ panic → last_attempt o r ≢ panic
unfolding last_attempt
last_attempt-ne-panic (ok x) r h = λ p. cc
last_attempt-ne-panic panic r h = λ p. h refl
last_attempt-ne-panic (err e) r h = λ p. ground arith
