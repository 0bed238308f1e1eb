-- ===== src/Gateway/PcpIpv6/BestEffort.antt =====
-- The pinhole never changes what the NAT's own call answers, over any NAT and any client.
use go_nat.Base.{ℕ, ◌≡◌, refl, ◌≢◌, Option, some, none, String}
use go_nat.Base.Int.{ℤ}
use go_nat.Base.Outcome.{
  Error, sentinel, wrap, join, err_pinhole_rolled_back, err_pinhole_left_open, Outcome, ok, err,
  panic, error_of,
}
use go_nat.Context.{Context, with_timeout, without_cancel}
use go_nat.Pcp.Protocol.{MapResponse}
use go_nat.Gateway.PcpIpv6.{
  PcpIpv6Client, NatMethods, NatWithPcpIpv6, pinhole_timeout, after_rollback, finish_add,
  add_port_mapping, rollback_pinhole, set_ipv6_pinhole_error, wrap_pinhole_err, finish_delete,
  delete_port_mapping,
}

-- What IPv6PinholeError says behind a rollback.
abbrev pub rollback_report : Outcome (Unit {0}) → Option Error
rollback_report (ok _) = some (wrap "pcp ipv6" (sentinel err_pinhole_rolled_back))
rollback_report (err e) = some (wrap "pcp ipv6" (join (sentinel err_pinhole_left_open) ": " e))
rollback_report panic = none

-- What IPv6PinholeError is after AddPortMapping: the pinhole's own error, or nil where both were made,
-- or the report of the rollback `d` of a pinhole whose mapping failed.
abbrev pub pinhole_report : Outcome MapResponse → Outcome ℕ → Outcome (Unit {0}) → Option Error
pinhole_report (err e6) r d = some (wrap "pcp ipv6" e6)
pinhole_report (ok m6) (ok port) d = none
pinhole_report (ok m6) (err e) d = rollback_report d
pinhole_report (ok m6) panic d = none
pinhole_report panic r d = none

-- The calls of the client return.
pub record Returns {C : Type 0} (pcp6 : PcpIpv6Client C) : Type 0 where
  pub add_returns :
      (ctx : Context) (protocol : String) (i timeout : ℤ) (c : C)
      → (pcp6.add_port_mapping ctx protocol i timeout c).1 ≢ panic
  pub delete_returns :
      (ctx : Context) (protocol : String) (i : ℤ) (c : C)
      → (pcp6.delete_port_mapping ctx protocol i c).1 ≢ panic

module _ {N C : Type 0} where
  after_rollback_lem :
      (n : NatWithPcpIpv6 N C) (e : Error) (p : C × Outcome (Unit {0}))
      → p.1 ≢ panic
      → let (n', r) = after_rollback n e p in
        (r ≡ err e) × (n'.pinhole_err ≡ rollback_report p.1) × (n'.nat ≡ n.nat) × (n'.pcp6 ≡ p.0)
  unfolding set_ipv6_pinhole_error
  after_rollback_lem n e (c6, ok u) h = (refl, refl, refl, refl)
  after_rollback_lem n e (c6, err x) h = (refl, refl, refl, refl)
  after_rollback_lem n e (c6, panic) h = absurd (h refl)

  finish_delete_lem :
      (n : NatWithPcpIpv6 N C) (r6 r : Outcome (Unit {0}))
      → r6 ≢ panic
      → r ≢ panic
      → let (n', r') = finish_delete n r6 r in
        (r' ≡ r)
        × (n'.nat ≡ n.nat)
        × (n'.pcp6 ≡ n.pcp6)
        × (n'.pinhole_err ≡ wrap_pinhole_err (error_of r6))
  unfolding set_ipv6_pinhole_error
  finish_delete_lem n panic r h k = absurd (h refl)
  finish_delete_lem n (ok _) panic h k = absurd (k refl)
  finish_delete_lem n (err e6) panic h k = absurd (k refl)
  finish_delete_lem n (ok _) (ok _) h k = (refl, refl, refl, refl)
  finish_delete_lem n (ok _) (err e) h k = (refl, refl, refl, refl)
  finish_delete_lem n (err e6) (ok _) h k = (refl, refl, refl, refl)
  finish_delete_lem n (err e6) (err e) h k = (refl, refl, refl, refl)

module _ {N C : Type 0} (nat : NatMethods N) (pcp6 : PcpIpv6Client C) (returns : Returns pcp6) where
  finish_add_lem :
      (ctx : Context) (protocol : String) (i : ℤ) (n : NatWithPcpIpv6 N C)
      (r6 : Outcome MapResponse) (r : Outcome ℕ)
      → r6 ≢ panic
      → r ≢ panic
      → let (n', r') = finish_add nat pcp6 ctx protocol i n r6 r in
        (r' ≡ r)
        × (n'.nat ≡ n.nat)
        × (n'.pinhole_err ≡ pinhole_report r6 r (rollback_pinhole pcp6 ctx protocol i n.pcp6).1)
  unfolding finish_add set_ipv6_pinhole_error rollback_pinhole
  finish_add_lem ctx protocol i n (ok m6) (ok port) h k = (refl, refl, refl)
  finish_add_lem ctx protocol i n (err e6) (ok port) h k = (refl, refl, refl)
  finish_add_lem ctx protocol i n (ok m6) (err e) h k =
      let (a, b, c, d) = after_rollback_lem n e (rollback_pinhole pcp6 ctx protocol i n.pcp6) (
        returns.delete_returns (with_timeout pinhole_timeout (without_cancel ctx)) protocol i
          n.pcp6) in
      (a, c, b)
  finish_add_lem ctx protocol i n (err e6) (err e) h k = (refl, refl, refl)
  finish_add_lem ctx protocol i n panic r h k = absurd (h refl)
  finish_add_lem ctx protocol i n (ok m6) panic h k = absurd (k refl)
  finish_add_lem ctx protocol i n (err e6) panic h k = absurd (k refl)

  -- AddPortMapping answers what the NAT's own call answers and leaves the NAT as that call left it, and
  -- IPv6PinholeError is the pinhole's error, or nil where both were made, or what became of the
  -- pinhole whose mapping failed: rolled back on a context without the caller's deadline, or left open
  -- with the reason. The NAT may be of any protocol; its call and those of the IPv6 client return.
  pub add_port_mapping-best_effort :
      (ctx : Context) (protocol : String) (i : ℤ) (description : String) (timeout : ℤ)
      (n : NatWithPcpIpv6 N C)
      → (nat.add_port_mapping ctx protocol i description timeout n.nat).1 ≢ panic
      → let (c6, r6) =
          pcp6.add_port_mapping (with_timeout pinhole_timeout ctx) protocol i timeout n.pcp6 in
        let (m, r) = nat.add_port_mapping ctx protocol i description timeout n.nat in
        let (n', r') = add_port_mapping nat pcp6 ctx protocol i description timeout n in
        (r' ≡ r)
        × (n'.nat ≡ m)
        × (n'.pinhole_err
            ≡ pinhole_report r6 r
                (pcp6.delete_port_mapping
                  (with_timeout pinhole_timeout (without_cancel ctx))
                  protocol
                  i
                  c6).1)
  unfolding add_port_mapping rollback_pinhole
  add_port_mapping-best_effort ctx protocol i description timeout n k =
      finish_add_lem ctx protocol i _ _ _
        (returns.add_returns (with_timeout pinhole_timeout ctx) protocol i timeout n.pcp6) k

  -- DeletePortMapping answers what the NAT's own call answers and leaves the NAT as that call left it,
  -- and IPv6PinholeError is what deleting the pinhole answered. The calls return.
  pub delete_port_mapping-best_effort :
      (ctx : Context) (protocol : String) (i : ℤ) (n : NatWithPcpIpv6 N C)
      → (nat.delete_port_mapping ctx protocol i n.nat).1 ≢ panic
      → let (c6, r6) =
          pcp6.delete_port_mapping (with_timeout pinhole_timeout ctx) protocol i n.pcp6 in
        let (m, r) = nat.delete_port_mapping ctx protocol i n.nat in
        let (n', r') = delete_port_mapping nat pcp6 ctx protocol i n in
        (r' ≡ r) × (n'.nat ≡ m) × (n'.pcp6 ≡ c6) × (n'.pinhole_err ≡ wrap_pinhole_err (error_of r6))
  unfolding delete_port_mapping
  delete_port_mapping-best_effort ctx protocol i n k =
      finish_delete_lem _ _ _
        (returns.delete_returns (with_timeout pinhole_timeout ctx) protocol i n.pcp6) k
