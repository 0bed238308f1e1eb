-- ===== src/Pcp/Client/Transport/Retry.antt =====
-- The retry loop of sendRequest: how often it tries, how long it waits, and how it ends.
use go_nat.Base.{ℕ, zero, suc, ◌+◌, ◌*◌, ◌≤◌, ◌<◌, inl, inr, List, [], ◌∷◌, arith}
use Prim.Native.Nat.{min}
use go_nat.Base.Tests.{Bool-cases}
use go_nat.Base.Lists.{length}
use go_nat.Base.Outcome.{Outcome, ok, err, panic}
use go_nat.Base.Bytes.{Bytes}
use go_nat.Addr.{is_valid}
use go_nat.Pcp.Client.State.{Client, second}
use go_nat.Pcp.Client.Transport.{
  Round, UdpAddr, retry_delay_with_jitter, next_attempt, send_loop, send_request, server_addr,
  max_retry_delay,
}

-- The jitter byte moves a delay by a tenth at most, either way.
pub retry_delay_with_jitter_bounds :
    (d b : ℕ)
    → b < 256
    → (9 * d ≤ 10 * retry_delay_with_jitter d b + 9) × (10 * retry_delay_with_jitter d b ≤ 11 * d)
unfolding retry_delay_with_jitter
retry_delay_with_jitter_bounds d b h = (grind arith, grind arith)

-- Each wait is its nominal delay with a tenth's jitter (and less than a nanosecond of rounding), and
-- the nominal delay doubles up to a limit.
abbrev pub Backoff : ℕ → List ℕ → Type 0
Backoff d [] = Unit {0}
Backoff d (w ∷ ws) =
    (9 * d ≤ 10 * w + 9) × (10 * w ≤ 11 * d) × Backoff (min (d * 2) max_retry_delay) ws

next_attempt-Backoff :
    (o : Outcome Bytes) (r : Round) (d w n : ℕ) (rest : Outcome Bytes × List ℕ)
    → (9 * d ≤ 10 * w + 9) × (10 * w ≤ 11 * d)
    → Backoff (min (d * 2) max_retry_delay) rest.1 × (length rest.1 ≤ n)
    → Backoff d (next_attempt o r w rest).1 × (length (next_attempt o r w rest).1 ≤ suc n)
unfolding next_attempt
next_attempt-Backoff (ok resp) r d w n rest b h = ground arith
next_attempt-Backoff panic r d w n rest b h = ground arith
next_attempt-Backoff (err e) r d w n rest b h = ground arith

module _ (c : Client) (rounds : ℕ → Round) (addr : UdpAddr) (req : Bytes) where
  send_loop-Backoff :
      (left i delay : ℕ)
      → ((k : ℕ) → (rounds k).jitter < 256)
      → Backoff delay (send_loop c rounds addr req left i delay).1
        × (length (send_loop c rounds addr req left i delay).1 ≤ left)
  unfolding send_loop
  send_loop-Backoff zero i delay h = (tt, omega arith)
  send_loop-Backoff (suc left) i delay h =
      next_attempt-Backoff _ (rounds i) delay _ left _
        (retry_delay_with_jitter_bounds delay (rounds i).jitter (h i))
        (send_loop-Backoff left (suc i) (min (delay * 2) max_retry_delay) h)

-- sendRequest waits three times at most, first for three seconds and then for twice as long each
-- time, each wait within a tenth of that.
pub send_request-Backoff :
    (c : Client) (rounds : ℕ → Round) (req : Bytes)
    → ((k : ℕ) → (rounds k).jitter < 256)
    → Backoff (3 * second) (send_request c rounds req).1
      × (length (send_request c rounds req).1 ≤ 3)
unfolding send_request
send_request-Backoff c rounds req h = elim (Bool-cases (is_valid c.gateway)) [
  | inl v ↦ rw v (send_loop-Backoff c rounds (server_addr c) req 3 0 (3 * second) h)
  | inr v ↦ rw v (tt, omega arith)
]
