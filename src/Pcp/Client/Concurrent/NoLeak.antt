-- ===== src/Pcp/Client/Concurrent/NoLeak.antt =====
-- What concurrent callers of one client can rely on.
use go_nat.Base.{ℕ, ◌≡◌, refl, subst, inl, inr, true, some, none}
use go_nat.Base.Tests.{Option-cases}
use go_nat.Base.Bytes.{Bytes}
use go_nat.Base.Assoc.{lookup}
use go_nat.Pcp.Client.State.{Client, MappingKey, mapping_key_eq}
use go_nat.Base.Bytes.{bytes_eq_refl}
use go_nat.Pcp.Protocol.{MapResponse}
use go_nat.Pcp.Client.Mapping.{MapCall}
use go_nat.Pcp.Client.Concurrent.{idle, sent, answered, authorized, System, Reach, here, next}
use go_nat.Pcp.Client.Concurrent.Invariant.{held, Relies, Inv}
use go_nat.Pcp.Client.Concurrent.Steps.{Step-Inv}

-- No operation has begun, and the server holds no mapping of this client.
abbrev pub start : Client → System
start c = record { client = c; table = λ k. none; task = λ i. idle }

pub start-Inv : (c : Client) → Inv (start c)
start-Inv c = record {
  exclusive = λ i j k p q. cc;
  taken = λ i k p. cc;
  relies = λ i. tt;
  known = λ k n p. cc;
}

pub Reach-Inv : {s t : System} → Inv s → Reach s t → Inv t
Reach-Inv h here = h
Reach-Inv h (next r st) = Step-Inv (Reach-Inv h r) st

-- However the operations on one client are interleaved, two of them are never inside the lock of the
-- same mapping.
pub mutual_exclusion :
    (c : Client) {s : System}
    → Reach (start c) s
    → (i j : ℕ) (k : MappingKey) → held (s.task i) ≡ some k
    → held (s.task j) ≡ some k
    → i ≡ j
mutual_exclusion c r = (Reach-Inv (start-Inv c) r).exclusive

-- The server carries out a request that has been sent.
pub Inv-authorized :
    {s : System}
    → Inv s
    → (i : ℕ) (call : MapCall) (nonce : Bytes) → s.task i ≡ sent call nonce
    → authorized nonce (s.table call.key) ≡ true
Inv-authorized {s} inv i call nonce e =
    let (stored, only) = subst (Relies s.client s.table) e (inv.relies i) in
    elim (Option-cases (s.table call.key)) [
      | inl y ↦ rw y refl
      | inr (n, y) ↦ rw (y, only n (inv.known call.key n y)) (bytes_eq_refl nonce)
    ]

-- However the operations on one client are interleaved, and whichever answers are lost, the client
-- has stored the nonce of every mapping that the server holds for it, so that it can delete them
-- all; the server never refuses a request of the client for its nonce; and when the client has
-- accepted the answer to a delete and is about to forget the nonce, the server holds no such
-- mapping.
pub no_leak :
    (c : Client) {s : System}
    → Reach (start c) s
    → ((k : MappingKey) (n : Bytes) → s.table k ≡ some n → lookup k s.client.nonces ≡ some n)
      × ((i : ℕ) (call : MapCall) (nonce : Bytes)
          → s.task i ≡ sent call nonce
          → authorized nonce (s.table call.key) ≡ true)
      × ((i : ℕ) (call : MapCall) (nonce : Bytes) (m : MapResponse)
          → s.task i ≡ answered call nonce m
          → call.lifetime_sec ≡ 0
          → s.table call.key ≡ none)
no_leak c {s} r =
    let inv = Reach-Inv (start-Inv c) r in
    (
      inv.known,
      Inv-authorized inv,
      λ i call nonce m e. (subst (Relies s.client s.table) e (inv.relies i)).1,
    )
