-- ===== src/Pcp/Client/Transport/Once.antt =====
-- What one attempt of sendOnce can hand to the parsers.
use go_nat.Base.{◌≡◌, refl, ◌⊎◌, inl, inr, true, false, Option, some, none, [], arith}
use go_nat.Base.Tests.{Bool-cases, Option-cases}
use go_nat.Base.Lists.{take}
use go_nat.Base.Int.{ℤ, is_positive}
use go_nat.Base.Outcome.{Outcome, ok, err, panic, >>=-eq-ok, with_prefix}
use go_nat.Base.Bytes.{Bytes}
use go_nat.Addr.{ip_equal}
use go_nat.Pcp.Client.State.{Client}
use go_nat.Pcp.Client.Transport.{
  Attempt, UdpAddr, check, accept_datagram, converse, within_deadline, send_once,
  response_buffer_size,
}

-- The bytes are the front of a datagram, at most 128 of them, that came from the address asked.
pub record FromServer (a : Attempt) (addr : UdpAddr) (req : Bytes) (resp : Bytes) : Type 0 where
  pub timeout : ℤ
  pub datagram : Bytes
  pub source : Bytes
  pub received : a.read addr req timeout ≡ ok (datagram, source)
  pub trusted : ip_equal source addr.ip ≡ true
  pub cut : resp ≡ take response_buffer_size datagram

-- The context's deadline has passed, and the context reports no error yet.
pub record PastDeadline (a : Attempt) : Type 0 where
  pub left : ℤ
  pub limited : a.remaining ≡ some left
  pub over : is_positive left ≡ false
  pub silent : a.ctx_at_deadline ≡ none

accept_datagram-ok :
    (a : Attempt) (addr : UdpAddr) (req : Bytes) (timeout : ℤ) (resp : Bytes)
    (r : Outcome (Bytes × Bytes))
    → a.read addr req timeout ≡ r
    → accept_datagram a addr r ≡ ok resp
    → FromServer a addr req resp
unfolding accept_datagram
accept_datagram-ok a addr req timeout resp (ok (datagram, from)) e h =
    elim (Bool-cases (ip_equal from addr.ip)) [
      | inl t ↦ record {
        timeout = timeout;
        datagram = datagram;
        source = from;
        received = e;
        trusted = t;
        cut = ground arith;
      }
      | inr t ↦ absurd (ground arith)
    ]
accept_datagram-ok a addr req timeout resp (err x) e h = absurd (ground arith)
accept_datagram-ok a addr req timeout resp panic e h = absurd (ground arith)

converse-ok :
    (a : Attempt) (addr : UdpAddr) (req : Bytes) (timeout : ℤ) (resp : Bytes)
    → converse a addr req timeout ≡ ok resp
    → FromServer a addr req resp
unfolding converse
converse-ok a addr req timeout resp h =
    let (_, _, h') = >>=-eq-ok (with_prefix "set deadline" (check (a.set_deadline timeout))) _ h in
    let (_, _, h'') = >>=-eq-ok (with_prefix "write" (check (a.write addr req))) _ h' in
    accept_datagram-ok a addr req timeout resp (a.read addr req timeout) refl h''

within_deadline-ok :
    (c : Client) (a : Attempt) (addr : UdpAddr) (req resp : Bytes) (left : Option ℤ)
    → a.remaining ≡ left
    → within_deadline c a addr req left ≡ ok resp
    → FromServer a addr req resp ⊎ (PastDeadline a × (resp ≡ []))
unfolding within_deadline
within_deadline-ok c a addr req resp none e h = inl (converse-ok a addr req _ resp h)
within_deadline-ok c a addr req resp (some left) e h = elim (Bool-cases (is_positive left)) [
  | inl p ↦ inl (converse-ok a addr req _ resp (rw p at h))
  | inr p ↦ elim (Option-cases a.ctx_at_deadline) [
    | inl s ↦ inr (record { left = left; limited = e; over = p; silent = s }, ground arith)
    | inr (x, s) ↦ absurd (ground arith)
  ]
]

-- An attempt that succeeds has the front of a datagram from the server asked, whatever others send;
-- the one exception is a context whose deadline has passed while it reports no error, where the
-- attempt succeeds with no bytes.
pub send_once-ok :
    (c : Client) (a : Attempt) (addr : UdpAddr) (req resp : Bytes)
    → send_once c a addr req ≡ ok resp
    → FromServer a addr req resp ⊎ (PastDeadline a × (resp ≡ []))
unfolding send_once
send_once-ok c a addr req resp h =
    let (_, _, h') = >>=-eq-ok (check a.ctx_at_start) _ h in
    let (_, _, h'') = >>=-eq-ok (with_prefix "listen" (check a.listen)) _ h' in
    within_deadline-ok c a addr req resp a.remaining refl h''
