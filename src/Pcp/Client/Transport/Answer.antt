-- ===== src/Pcp/Client/Transport/Answer.antt =====
-- How the retry loop of sendRequest ends: with the first attempt that succeeds, with the context's
-- error, or after the fourth failure.
use go_nat.Base.{
  ℕ, zero, suc, ◌+◌, ◌*◌, ◌≤◌, ◌≡◌, refl, ap, ◌∙◌, inl, inr, true, some, none, List, arith,
}
use Prim.Native.Nat.{min}
use go_nat.Base.Tests.{Option-cases}
use go_nat.Base.Outcome.{Error, Outcome, ok, err, panic}
use go_nat.Base.Bytes.{Bytes}
use go_nat.Addr.{is_valid}
use go_nat.Pcp.Client.State.{Client}
use go_nat.Pcp.Client.Transport.{
  Round, UdpAddr, send_once, retry_delay_with_jitter, next_attempt, last_attempt, send_loop,
  send_request, server_addr, gave_up, max_retry_delay,
}

module _ (c : Client) (rounds : ℕ → Round) (addr : UdpAddr) (req : Bytes) where
  -- Attempt k failed, and neither then nor in the wait behind it was the context done.
  pub record Retried (k : ℕ) : Type 0 where
    pub error : Error
    pub failed : send_once c (rounds k).attempt addr req ≡ err error
    pub going : (rounds k).ctx_after ≡ none
    pub waited : (rounds k).ctx_in_wait ≡ none

  -- Attempts i, …, i + n - 1.
  abbrev pub RetriedFrom : ℕ → ℕ → Type 0
  RetriedFrom i zero = Unit {0}
  RetriedFrom i (suc n) = Retried i × RetriedFrom (suc i) n

  -- How an error came about at attempt k, where `last` is the number of the last attempt.
  pub data Fails (last k : ℕ) (e : Error) : Type 0 where
    cancelled : (rounds k).ctx_after ≡ some e → Fails last k e
    cancelled_in_wait : (rounds k).ctx_in_wait ≡ some e → Fails last k e
    exhausted :
        (x : Error)
        → k ≡ last
        → send_once c (rounds k).attempt addr req ≡ err x
        → e ≡ gave_up x
        → Fails last k e

  send_loop_step :
      (left i delay : ℕ)
      → Retried i
      → (send_loop c rounds addr req (suc left) i delay).0
        ≡ (send_loop c rounds addr req left (suc i) (min (delay * 2) max_retry_delay)).0
  unfolding send_loop next_attempt
  send_loop_step left i delay r = rw (r.failed, next_attempt, r.going, r.waited) refl

  send_loop_hit :
      (left i delay : ℕ) (resp : Bytes)
      → send_once c (rounds i).attempt addr req ≡ ok resp
      → (send_loop c rounds addr req left i delay).0 ≡ ok resp
  unfolding send_loop next_attempt last_attempt
  send_loop_hit zero i delay resp e = rw (e, last_attempt) refl
  send_loop_hit (suc left) i delay resp e = rw (e, next_attempt) refl

  send_loop-first :
      (n left i k delay : ℕ) (resp : Bytes)
      → n ≤ left
      → RetriedFrom i n
      → i + n ≡ k
      → send_once c (rounds k).attempt addr req ≡ ok resp
      → (send_loop c rounds addr req left i delay).0 ≡ ok resp
  send_loop-first zero left i k delay resp h r s e =
      send_loop_hit left i delay resp
        (ap (λ j. send_once c (rounds j).attempt addr req) (let p : i ≡ k = omega arith in p) ∙ e)
  send_loop-first (suc n) zero i k delay resp h r s e = absurd (omega arith)
  send_loop-first (suc n) (suc left) i k delay resp h r s e =
      send_loop_step left i delay r.0
      ∙ send_loop-first n left (suc i) k (min (delay * 2) max_retry_delay) resp (omega arith) r.1
          (omega arith) e

  -- The failure stands at attempt k, and all attempts from i up to it were retried.
  abbrev pub FailsFrom : ℕ → ℕ → Error → Type 0
  FailsFrom i last e =
      (n : ℕ) × (k : ℕ) × (i + n ≡ k) × (k ≤ last) × RetriedFrom i n × Fails last k e

  FailsFrom-step :
      (i last : ℕ) (e : Error) → Retried i → FailsFrom (suc i) last e → FailsFrom i last e
  FailsFrom-step i last e r (n, k, s, le, rs, f) = (suc n, k, omega arith, le, (r, rs), f)

  last_attempt-err :
      (i last : ℕ) (e : Error) (o : Outcome Bytes)
      → i ≡ last
      → send_once c (rounds i).attempt addr req ≡ o
      → last_attempt o (rounds i) ≡ err e
      → FailsFrom i last e
  unfolding last_attempt
  last_attempt-err i last e (ok resp) s p h = absurd (ground arith)
  last_attempt-err i last e panic s p h = absurd (ground arith)
  last_attempt-err i last e (err x) s p h = elim (Option-cases (rounds i).ctx_after) [
    | inl a ↦ (0, i, omega arith, omega arith, tt, exhausted x s p (ground arith))
    | inr (y, a) ↦ (0, i, omega arith, omega arith, tt, cancelled (ground arith))
  ]

  next_attempt-err :
      (i last w : ℕ) (e : Error) (o : Outcome Bytes) (rest : Outcome Bytes × List ℕ)
      → i ≤ last
      → send_once c (rounds i).attempt addr req ≡ o
      → (rest.0 ≡ err e → FailsFrom (suc i) last e)
      → (next_attempt o (rounds i) w rest).0 ≡ err e
      → FailsFrom i last e
  unfolding next_attempt
  next_attempt-err i last w e (ok resp) rest s p ih h = absurd (ground arith)
  next_attempt-err i last w e panic rest s p ih h = absurd (ground arith)
  next_attempt-err i last w e (err x) rest s p ih h = elim (Option-cases (rounds i).ctx_after) [
    | inr (y, a) ↦ (0, i, omega arith, s, tt, cancelled (ground arith))
    | inl a ↦ elim (Option-cases (rounds i).ctx_in_wait) [
      | inr (y, b) ↦ (0, i, omega arith, s, tt, cancelled_in_wait (ground arith))
      | inl b ↦
          FailsFrom-step i last e (record { error = x; failed = p; going = a; waited = b })
            (ih (ground arith))
    ]
  ]

  send_loop-err :
      (left i last delay : ℕ) (e : Error)
      → i + left ≡ last
      → (send_loop c rounds addr req left i delay).0 ≡ err e
      → FailsFrom i last e
  unfolding send_loop
  send_loop-err zero i last delay e s h = last_attempt-err i last e _ (omega arith) refl h
  send_loop-err (suc left) i last delay e s h =
      next_attempt-err i last (retry_delay_with_jitter delay (rounds i).jitter) e _ _ (omega arith)
        refl (send_loop-err left (suc i) last (min (delay * 2) max_retry_delay) e (omega arith)) h

module _ (c : Client) (rounds : ℕ → Round) (req : Bytes) (gated : is_valid c.gateway ≡ true) where
  -- The first of the four attempts that succeeds gives the answer of sendRequest.
  pub send_request-first :
      (n : ℕ) (resp : Bytes)
      → n ≤ 3
      → RetriedFrom c rounds (server_addr c) req 0 n
      → send_once c (rounds n).attempt (server_addr c) req ≡ ok resp
      → (send_request c rounds req).0 ≡ ok resp
  unfolding send_request
  send_request-first n resp h r e =
      rw gated (send_loop-first c rounds (server_addr c) req n 3 0 n _ resp h r (omega arith) e)

  -- An error of sendRequest is the context's, seen behind an attempt or in a wait, or it wraps that
  -- of the fourth attempt; all attempts before it had failed and were retried.
  pub send_request-err :
      (e : Error)
      → (send_request c rounds req).0 ≡ err e
      → FailsFrom c rounds (server_addr c) req 0 3 e
  unfolding send_request
  send_request-err e h =
      send_loop-err c rounds (server_addr c) req 3 0 3 _ e (omega arith) (rw gated at h)
