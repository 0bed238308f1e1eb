-- ===== src/Pcp/Client/Transport.antt =====
-- pcp/client.go: sendRequest and sendOnce. What the context, the socket and the clock answer is an
-- argument, one `Round` for each attempt.
pub mod Once
pub mod Datagram
pub mod Retry
pub mod Answer
pub mod Calm
use go_nat.Base.{
  ℕ, zero, suc, ◌+◌, ◌*◌, ◌/◌, ◌-◌, Bool, true, false, not, Option, some, none, String, List, [],
  ◌∷◌, arith,
}
use Prim.Native.Nat.{min}
use go_nat.Base.Tests.{◌==◌, if◌then◌else◌}
use go_nat.Base.Lists.{take}
use go_nat.Base.Int.{ℤ, is_positive, less}
use go_nat.Base.Outcome.{
  Error, message, plain, wrap, Outcome, ok, err, panic, ◌>>=◌, ◌>>◌, with_prefix,
}
use go_nat.Base.Bytes.{Bytes}
use go_nat.Addr.{is_valid, as_slice, zone_of, ip_equal}
use go_nat.Pcp.Protocol.{port}
use go_nat.Pcp.Client.State.{Client, second, default_timeout}

abbrev pub response_buffer_size : ℕ
response_buffer_size = 128

abbrev pub initial_retry_delay : ℕ
initial_retry_delay = 3 * second

abbrev pub max_retry_delay : ℕ
max_retry_delay = 1024 * second

abbrev pub max_retries : ℕ
max_retries = 4

-- net.UDPAddr
pub record UdpAddr : Type 0 where
  pub ip : Bytes
  pub port : ℕ
  pub zone : String

-- What one call of sendOnce meets: `none` is a nil error.
pub record Attempt : Type 0 where
  -- ctx.Err() at the start, where the deadline has passed, and after a failed read
  pub ctx_at_start : Option Error
  pub ctx_at_deadline : Option Error
  pub ctx_at_read : Option Error
  pub listen : Option Error
  -- time.Until(deadline), where the context has a deadline
  pub remaining : Option ℤ
  pub set_deadline : ℤ → Option Error
  pub write : UdpAddr → Bytes → Option Error
  -- the datagram and the address it came from, within the given time
  pub read : UdpAddr → Bytes → ℤ → Outcome (Bytes × Bytes)

pub record Round : Type 0 where
  pub attempt : Attempt
  -- ctx.Err() after a failed attempt
  pub ctx_after : Option Error
  -- ctx.Err() where ctx.Done() fires during the wait
  pub ctx_in_wait : Option Error
  -- the random byte of the jitter; 0 where reading it fails
  pub jitter : ℕ

abbrev pub check : Option Error → Outcome (Unit {0})
check none = ok tt
check (some e) = err e

-- `return nil, ctx.Err()`: where the context reports no error, both results are nil.
abbrev pub nil_and : Option Error → Outcome Bytes
nil_and none = ok []
nil_and (some e) = err e

unfoldable pub own_timeout : Client → ℤ
own_timeout c = if is_positive c.timeout then c.timeout else default_timeout

-- What ReadFromUDP returned, by sendOnce's last tests: `resp[:n]` is what fits the buffer.
unfoldable pub accept_datagram : Attempt → UdpAddr → Outcome (Bytes × Bytes) → Outcome Bytes
accept_datagram a addr (err e) = elim a.ctx_at_read [ some x ↦ err x | none ↦ err (wrap "read" e) ]
accept_datagram a addr panic = panic
accept_datagram a addr (ok (datagram, from)) =
    if ip_equal from addr.ip
    then ok (take response_buffer_size datagram)
    else err (message (plain "response from unexpected source %s (expected %s)"))

-- From SetDeadline to the end.
unfoldable pub converse : Attempt → UdpAddr → Bytes → ℤ → Outcome Bytes
converse a addr req timeout = do
  with_prefix "set deadline" (check (a.set_deadline timeout))
  with_prefix "write" (check (a.write addr req))
  accept_datagram a addr (a.read addr req timeout)

-- The context's deadline shortens the timeout.
unfoldable pub within_deadline : Client → Attempt → UdpAddr → Bytes → Option ℤ → Outcome Bytes
within_deadline c a addr req none = converse a addr req (own_timeout c)
within_deadline c a addr req (some left) =
    if not (is_positive left)
    then nil_and a.ctx_at_deadline
    else converse a addr req (if less left (own_timeout c) then left else own_timeout c)

unfoldable pub send_once : Client → Attempt → UdpAddr → Bytes → Outcome Bytes
send_once c a addr req = do
  check a.ctx_at_start
  with_prefix "listen" (check a.listen)
  within_deadline c a addr req a.remaining

-- d * (1 + jitter) for a jitter of (b / 255) * 0.2 - 0.1, over the rationals in place of float64.
unfoldable pub retry_delay_with_jitter : ℕ → ℕ → ℕ
retry_delay_with_jitter d b = d * (2295 + 2 * b) / 2550

abbrev pub gave_up : Error → Error
gave_up e = wrap "PCP request failed after 4 retries" e

abbrev pub add_wait {ℓ} : {A : Type ℓ} → ℕ → A × List ℕ → A × List ℕ
add_wait w (a, ws) = (a, w ∷ ws)

-- What follows an attempt that was not the last one, given the wait and the attempts behind it.
unfoldable pub next_attempt :
    Outcome Bytes → Round → ℕ → Outcome Bytes × List ℕ → Outcome Bytes × List ℕ
next_attempt (ok resp) round wait rest = (ok resp, [])
next_attempt panic round wait rest = (panic, [])
next_attempt (err e) round wait rest = elim round.ctx_after [
  | some x ↦ (err x, [])
  | none ↦ elim round.ctx_in_wait [ some x ↦ (err x, wait ∷ []) | none ↦ add_wait wait rest ]
]

-- The last attempt, where the loop breaks.
unfoldable pub last_attempt : Outcome Bytes → Round → Outcome Bytes
last_attempt (ok resp) round = ok resp
last_attempt panic round = panic
last_attempt (err e) round = elim round.ctx_after [ some x ↦ err x | none ↦ err (gave_up e) ]

-- Attempt number `i`, with `left` attempts behind it; with the outcome come the waits.
unfoldable pub send_loop :
    Client → (ℕ → Round) → UdpAddr → Bytes → ℕ → ℕ → ℕ → Outcome Bytes × List ℕ
send_loop c rounds addr req zero i delay =
    (last_attempt (send_once c (rounds i).attempt addr req) (rounds i), [])
send_loop c rounds addr req (suc left) i delay =
    next_attempt (send_once c (rounds i).attempt addr req) (rounds i)
      (retry_delay_with_jitter delay (rounds i).jitter)
      (send_loop c rounds addr req left (suc i) (min (delay * 2) max_retry_delay))

abbrev pub server_addr : Client → UdpAddr
server_addr c = record { ip = as_slice c.gateway; port = port; zone = zone_of c.gateway }

unfoldable pub send_request : Client → (ℕ → Round) → Bytes → Outcome Bytes × List ℕ
send_request c rounds req =
    if not (is_valid c.gateway)
    then (err (message (plain "gateway IP not set")), [])
    else send_loop c rounds (server_addr c) req (max_retries - 1) 0 initial_retry_delay
