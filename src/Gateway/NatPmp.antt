-- ===== src/Gateway/NatPmp.antt =====
-- natpmp.go: the mappings of natpmpNAT and the cache of their external ports. The gateway, with the
-- client of go-nat-pmp before it, is a record of calls over its state.
pub mod Ports
pub mod Discovery
mod Examples
use go_nat.Base.{
  ℕ, zero, suc, ◌≡◌, ◌↔◌, Bool, true, false, ◌&&◌, Option, some, none, String, List, [], ◌∷◌, arith,
}
use go_nat.Base.Tests.{ltb, ◌==◌, if◌then◌else◌}
use go_nat.Base.Int.{ℤ, pos, negsuc, quot}
use go_nat.Base.Outcome.{Error, Outcome, ok, err, panic}
use go_nat.Base.Bytes.{Bytes}
use go_nat.Base.Assoc.{Eq, lookup, insert, delete}
use go_nat.Pcp.Client.State.{second}
use go_nat.Gateway.Upnp.{random_port}

abbrev pub same_port : ℤ → ℤ → Bool
same_port (pos m) (pos n) = m == n
same_port (negsuc m) (negsuc n) = m == n
same_port (pos m) (negsuc n) = false
same_port (negsuc m) (pos n) = false

pub same_port_iff : (a b : ℤ) → (same_port a b ≡ true) ↔ (a ≡ b)
same_port_iff (pos m) (pos n) = ground arith
same_port_iff (negsuc m) (negsuc n) = ground arith
same_port_iff (pos m) (negsuc n) = ground arith
same_port_iff (negsuc m) (pos n) = ground arith

instance abbrev pub port_eq : Eq ℤ
port_eq = record { beq = same_port; beq_iff = same_port_iff }

-- natpmp.Client: AddPortMapping for a protocol, an internal port, an external port and a lifetime in
-- seconds. Its result is not used.
pub record NatPmpClient (D : Type 0) : Type 0 where
  pub add_port_mapping : String → ℤ → ℕ → ℤ → D → D × Outcome (Unit {0})

pub record NatPmp (D : Type 0) : Type 0 where
  pub device : D
  pub gateway : Bytes
  pub ports : List (ℤ × ℕ)

-- `n.ports[internalPort]`, which is 0 for a missing key.
abbrev pub cached_port : ℤ → List (ℤ × ℕ) → ℕ
cached_port internal_port ports = elim (lookup internal_port ports) [ some port ↦ port | none ↦ 0 ]

module _ {D : Type 0} where
  abbrev pub keep_port : ℤ → ℕ → NatPmp D → D → NatPmp D
  keep_port internal_port external n d = record n {
    device = d;
    ports = insert internal_port external n.ports;
  }

  -- What follows a request for an external port: it is cached, or the caller goes on with `retry`.
  abbrev pub after_ask :
      NatPmp D
      → ℤ
      → ℕ
      → (Error → NatPmp D → NatPmp D × Outcome ℕ)
      → D × Outcome (Unit {0})
      → NatPmp D × Outcome ℕ
  after_ask n internal_port external retry (d, ok _) =
      (keep_port internal_port external n d, ok external)
  after_ask n internal_port external retry (d, err e) = retry e (record n { device = d })
  after_ask n internal_port external retry (d, panic) = (record n { device = d }, panic)

  unfoldable pub delete_port_mapping : String → ℤ → NatPmp D → NatPmp D × Outcome (Unit {0})
  delete_port_mapping protocol internal_port n =
      (record n { ports = delete internal_port n.ports }, ok tt)

  module _ (client : NatPmpClient D) where
    -- The loop over random ports; `last` is the error of the attempt before.
    unfoldable pub try_random :
        String → ℤ → ℤ → (ℕ → ℕ) → ℕ → ℕ → Option Error → NatPmp D → NatPmp D × Outcome ℕ
    try_random protocol internal_port seconds draws zero turn none n = (n, ok 0)
    try_random protocol internal_port seconds draws zero turn (some e) n = (n, err e)
    try_random protocol internal_port seconds draws (suc left) turn last n =
        let external = random_port (draws turn) in
        after_ask n internal_port external
          (λ e n'. try_random protocol internal_port seconds draws left (suc turn) (some e) n')
          (client.add_port_mapping protocol internal_port external seconds n.device)

    unfoldable pub add_port_mapping : String → ℤ → ℤ → (ℕ → ℕ) → NatPmp D → NatPmp D × Outcome ℕ
    add_port_mapping protocol internal_port timeout draws n =
        let seconds = quot timeout second in
        let external = cached_port internal_port n.ports in
        if ltb 0 external
        then after_ask n internal_port external
            (λ e n'. try_random protocol internal_port seconds draws 3 0 (some e) n')
            (client.add_port_mapping protocol internal_port external seconds n.device)
        else try_random protocol internal_port seconds draws 3 0 none n
