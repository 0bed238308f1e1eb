-- ===== src/Gateway/PcpIpv6.antt =====
-- pcp_ipv6.go: natWithPCPIPv6, a NAT with best-effort IPv6 pinholes beside it. Both are behind
-- interfaces, the NAT of any protocol and the client of package pcp, and they are two objects: what
-- the goroutine for IPv6 does is independent of the NAT's call.
pub mod BestEffort
pub mod Health
pub mod DualStack
mod Examples
use go_nat.Base.{ℕ, ◌*◌, Bool, true, false, ◌||◌, ◌++◌, Option, some, none, String, arith}
use Prim.Native.String.{◌++◌ as text_append}
use go_nat.Base.Int.{ℤ}
use go_nat.Base.Outcome.{
  Error, sentinel, wrap, join, err_pinhole_rolled_back, err_pinhole_left_open, Outcome, ok, err,
  panic,
}
use go_nat.Context.{Context, with_timeout, without_cancel}
use go_nat.Pcp.Protocol.{MapResponse}
use go_nat.Pcp.Client.State.{second}

abbrev pub pinhole_timeout : ℕ
pinhole_timeout = 5 * second

-- The interface pcpIPv6Client, over the state `C` of the client.
pub record PcpIpv6Client (C : Type 0) : Type 0 where
  pub add_port_mapping : Context → String → ℤ → ℤ → C → C × Outcome MapResponse
  pub delete_port_mapping : Context → String → ℤ → C → C × Outcome (Unit {0})
  pub announce : Context → C → C × Outcome ℕ
  pub epoch_state_lost : C → C × Bool

-- What is used of the interface NAT, over the state `N`. The last field is the method of a
-- HealthChecker, for a NAT that is one.
pub record NatMethods (N : Type 0) : Type 0 where
  pub nat_type : N → String
  pub add_port_mapping : Context → String → ℤ → String → ℤ → N → N × Outcome ℕ
  pub delete_port_mapping : Context → String → ℤ → N → N × Outcome (Unit {0})
  pub check_server_health : Option (Context → N → N × Outcome (ℕ × Bool))

pub record NatWithPcpIpv6 (N C : Type 0) : Type 0 where
  pub nat : N
  pub pcp6 : C
  pub pinhole_err : Option Error

abbrev pub new_nat_with_pcp_ipv6 : {N C : Type 0} → N → C → NatWithPcpIpv6 N C
new_nat_with_pcp_ipv6 ipv4 pcp6 = record { nat = ipv4; pcp6 = pcp6; pinhole_err = none }

abbrev pub wrap_pinhole_err : Option Error → Option Error
wrap_pinhole_err none = none
wrap_pinhole_err (some e) = some (wrap "pcp ipv6" e)

-- The pinhole's error after a rollback.
abbrev pub rolled_back : Outcome (Unit {0}) → Outcome Error
rolled_back (ok _) = ok (sentinel err_pinhole_rolled_back)
rolled_back (err e) = ok (join (sentinel err_pinhole_left_open) ": " e)
rolled_back panic = panic

-- What CheckServerHealth answers, of a NAT that is a HealthChecker and of the IPv6 server.
abbrev pub combine_health : Outcome (ℕ × Bool) → Outcome (ℕ × Bool) → Outcome (ℕ × Bool)
combine_health (ok (epoch, restarted)) (ok (epoch6, restarted6)) =
    ok (epoch, restarted || restarted6)
combine_health (ok (epoch, restarted)) (err e6) = ok (epoch, restarted || false)
combine_health (err e) (ok (epoch6, restarted6)) = ok (epoch6, restarted6)
combine_health (err e) (err e6) = err (join e "; " (wrap "pcp ipv6" e6))
combine_health panic r6 = panic
combine_health (ok p) panic = panic
combine_health (err e) panic = panic

-- The same of the IPv6 server alone.
abbrev pub health_of_pcp6 : Outcome (ℕ × Bool) → Outcome (ℕ × Bool)
health_of_pcp6 (ok p) = ok p
health_of_pcp6 (err e6) = err (wrap "pcp ipv6" e6)
health_of_pcp6 panic = panic

module _ {C : Type 0} (pcp6 : PcpIpv6Client C) where
  -- rollbackPinhole: detached from the caller's context, and bounded.
  unfoldable pub rollback_pinhole : Context → String → ℤ → C → C × Outcome (Unit {0})
  rollback_pinhole ctx protocol internal_port c6 =
      pcp6.delete_port_mapping (with_timeout pinhole_timeout (without_cancel ctx)) protocol
        internal_port c6

  -- Announce to the IPv6 server, and EpochStateLost where it answers.
  unfoldable pub announced : Context → C → C × Outcome (ℕ × Bool)
  announced ctx c6 =
      let (c6', r6) = pcp6.announce ctx c6 in
      elim r6 [
        | ok epoch6 ↦ let (c6'', lost) = pcp6.epoch_state_lost c6' in (c6'', ok (epoch6, lost))
        | err e6 ↦ (c6', err e6)
        | panic ↦ (c6', panic)
      ]

module _ {N C : Type 0} where
  unfoldable pub set_ipv6_pinhole_error : Option Error → NatWithPcpIpv6 N C → NatWithPcpIpv6 N C
  set_ipv6_pinhole_error e n = record n { pinhole_err = wrap_pinhole_err e }

  abbrev pub type_of : NatMethods N → NatWithPcpIpv6 N C → String
  type_of nat n = text_append (nat.nat_type n.nat) "+PCPv6"

  abbrev pub after_rollback :
      NatWithPcpIpv6 N C → Error → C × Outcome (Unit {0}) → NatWithPcpIpv6 N C × Outcome ℕ
  after_rollback n e (c6, d) = elim (rolled_back d) [
    | ok e6 ↦ (set_ipv6_pinhole_error (some e6) (record n { pcp6 = c6 }), err e)
    | err x ↦ (n, panic)
    | panic ↦ (n, panic)
  ]

  abbrev pub finish_delete :
      NatWithPcpIpv6 N C
      → Outcome (Unit {0})
      → Outcome (Unit {0})
      → NatWithPcpIpv6 N C × Outcome (Unit {0})
  finish_delete n panic r = (n, panic)
  finish_delete n (ok _) panic = (n, panic)
  finish_delete n (err e6) panic = (n, panic)
  finish_delete n (ok _) (ok _) = (set_ipv6_pinhole_error none n, ok tt)
  finish_delete n (ok _) (err e) = (set_ipv6_pinhole_error none n, err e)
  finish_delete n (err e6) (ok _) = (set_ipv6_pinhole_error (some e6) n, ok tt)
  finish_delete n (err e6) (err e) = (set_ipv6_pinhole_error (some e6) n, err e)

  module _ (nat : NatMethods N) (pcp6 : PcpIpv6Client C) where
    -- AddPortMapping behind both calls, given the outcome of the pinhole and of the NAT's mapping.
    unfoldable pub finish_add :
        Context
        → String
        → ℤ
        → NatWithPcpIpv6 N C
        → Outcome MapResponse
        → Outcome ℕ
        → NatWithPcpIpv6 N C × Outcome ℕ
    finish_add ctx protocol internal_port n (ok m6) (ok port) =
        (set_ipv6_pinhole_error none n, ok port)
    finish_add ctx protocol internal_port n (err e6) (ok port) =
        (set_ipv6_pinhole_error (some e6) n, ok port)
    finish_add ctx protocol internal_port n (ok m6) (err e) =
        after_rollback n e (rollback_pinhole pcp6 ctx protocol internal_port n.pcp6)
    finish_add ctx protocol internal_port n (err e6) (err e) =
        (set_ipv6_pinhole_error (some e6) n, err e)
    finish_add ctx protocol internal_port n panic r = (n, panic)
    finish_add ctx protocol internal_port n (ok m6) panic = (n, panic)
    finish_add ctx protocol internal_port n (err e6) panic = (n, panic)

    unfoldable pub add_port_mapping :
        Context → String → ℤ → String → ℤ → NatWithPcpIpv6 N C → NatWithPcpIpv6 N C × Outcome ℕ
    add_port_mapping ctx protocol internal_port description timeout n =
        let (c6, r6) =
          pcp6.add_port_mapping (with_timeout pinhole_timeout ctx) protocol internal_port timeout
            n.pcp6 in
        let (m, r) = nat.add_port_mapping ctx protocol internal_port description timeout n.nat in
        finish_add ctx protocol internal_port (record n { nat = m; pcp6 = c6 }) r6 r

    unfoldable pub delete_port_mapping :
        Context → String → ℤ → NatWithPcpIpv6 N C → NatWithPcpIpv6 N C × Outcome (Unit {0})
    delete_port_mapping ctx protocol internal_port n =
        let (c6, r6) =
          pcp6.delete_port_mapping (with_timeout pinhole_timeout ctx) protocol internal_port
            n.pcp6 in
        let (m, r) = nat.delete_port_mapping ctx protocol internal_port n.nat in
        finish_delete (record n { nat = m; pcp6 = c6 }) r6 r

    unfoldable pub check_with :
        Option (Context → N → N × Outcome (ℕ × Bool))
        → Context
        → NatWithPcpIpv6 N C
        → NatWithPcpIpv6 N C × Outcome (ℕ × Bool)
    check_with none ctx n =
        let (c6, r6) = announced pcp6 (with_timeout pinhole_timeout ctx) n.pcp6 in
        (record n { pcp6 = c6 }, health_of_pcp6 r6)
    check_with (some check) ctx n =
        let (c6, r6) = announced pcp6 (with_timeout pinhole_timeout ctx) n.pcp6 in
        let (m, r) = check ctx n.nat in (record n { nat = m; pcp6 = c6 }, combine_health r r6)

    -- CheckServerHealth
    unfoldable pub check_server_health :
        Context → NatWithPcpIpv6 N C → NatWithPcpIpv6 N C × Outcome (ℕ × Bool)
    check_server_health ctx n = check_with nat.check_server_health ctx n
