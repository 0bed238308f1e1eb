-- ===== src/Pcp/Client/Transport/Datagram.antt =====
-- What sendRequest returns was read by one of its attempts.
use go_nat.Base.{ℕ, zero, suc, ◌*◌, ◌≡◌, refl, inl, inr, List, arith}
use Prim.Native.Nat.{min}
use go_nat.Base.Tests.{Bool-cases}
use go_nat.Base.Lists.{All}
use go_nat.Base.Int.{ℤ}
use go_nat.Base.Outcome.{Outcome, ok, err, panic}
use go_nat.Base.Bytes.{Bytes, IsByte}
use go_nat.Addr.{is_valid}
use go_nat.Pcp.Client.State.{Client}
use go_nat.Pcp.Client.Transport.{
  Round, UdpAddr, send_once, next_attempt, last_attempt, send_loop, send_request, server_addr,
  response_buffer_size, max_retry_delay,
}
use go_nat.Pcp.Client.Transport.Once.{send_once-ok}
use go_nat.Pcp.Protocol.Ranges.{All-take}

-- A socket gives bytes.
abbrev pub GivesBytes : (ℕ → Round) → Type 0
GivesBytes rounds =
    (k : ℕ) (addr : UdpAddr) (req : Bytes) (t : ℤ) (datagram source : Bytes)
    → (rounds k).attempt.read addr req t ≡ ok (datagram, source)
    → All IsByte datagram

module _ (c : Client) (rounds : ℕ → Round) (addr : UdpAddr) (req : Bytes) where
  -- Some attempt has returned `resp`.
  abbrev Returned : Bytes → Type 0
  Returned resp = (k : ℕ) × (send_once c (rounds k).attempt addr req ≡ ok resp)

  next_attempt-Returned :
      (i w : ℕ) (resp : Bytes) (o : Outcome Bytes) (rest : Outcome Bytes × List ℕ)
      → send_once c (rounds i).attempt addr req ≡ o
      → (rest.0 ≡ ok resp → Returned resp)
      → (next_attempt o (rounds i) w rest).0 ≡ ok resp
      → Returned resp
  unfolding next_attempt
  next_attempt-Returned i w resp (ok r) rest e later h = (i, ground (arith, e, h))
  next_attempt-Returned i w resp (err x) rest e later h = later (ground (arith, h))
  next_attempt-Returned i w resp panic rest e later h = absurd (ground (arith, h))

  last_attempt-Returned :
      (i : ℕ) (resp : Bytes) (o : Outcome Bytes)
      → send_once c (rounds i).attempt addr req ≡ o
      → last_attempt o (rounds i) ≡ ok resp
      → Returned resp
  unfolding last_attempt
  last_attempt-Returned i resp (ok r) e h = (i, ground (arith, e, h))
  last_attempt-Returned i resp (err x) e h = absurd (ground (arith, h))
  last_attempt-Returned i resp panic e h = absurd (ground (arith, h))

  send_loop-Returned :
      (left i delay : ℕ) (resp : Bytes)
      → (send_loop c rounds addr req left i delay).0 ≡ ok resp
      → Returned resp
  unfolding send_loop
  send_loop-Returned zero i delay resp h = last_attempt-Returned i resp _ refl h
  send_loop-Returned (suc left) i delay resp h =
      next_attempt-Returned i _ resp _ _ refl
        (send_loop-Returned left (suc i) (min (delay * 2) max_retry_delay) resp) h

-- A response consists of bytes, where the sockets give bytes.
pub send_request-IsByte :
    (c : Client) (rounds : ℕ → Round) (req resp : Bytes)
    → GivesBytes rounds
    → (send_request c rounds req).0 ≡ ok resp
    → All IsByte resp
unfolding send_request
send_request-IsByte c rounds req resp bytes h = elim (Bool-cases (is_valid c.gateway)) [
  | inl v ↦
      let (k, e) = send_loop-Returned c rounds (server_addr c) req 3 0 _ resp (rw v at h) in
      elim (send_once-ok c (rounds k).attempt (server_addr c) req resp e) [
        | inl f ↦ rw f.cut (
            All-take response_buffer_size f.datagram
              (bytes k (server_addr c) req f.timeout f.datagram f.source f.received))
        | inr (past, none_read) ↦ rw none_read tt
      ]
  | inr v ↦ absurd (ground (arith, rw v at h))
]
