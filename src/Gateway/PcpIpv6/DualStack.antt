-- ===== src/Gateway/PcpIpv6/DualStack.antt =====
-- natWithPCPIPv6 around the IPv4 NAT of package pcp does what that package's own dual-stack NAT does.
pub mod History
use go_nat.Base.{◌≡◌, refl, ◌⊎◌, inl, inr, Option, some, none, String}
use go_nat.Base.Int.{ℤ}
use go_nat.Base.Outcome.{
  Error, sentinel, wrap, join, err_pinhole_rolled_back, err_pinhole_left_open,
  pcp_err_pinhole_rolled_back, pcp_err_pinhole_left_open, Outcome, ok, err, panic, Outcome-cases,
  with_prefix,
}
use go_nat.Context.{Context}
use go_nat.Pcp.Protocol.{MapResponse}
use go_nat.Pcp.Client.State.{Client}
use go_nat.Pcp.Client.Epoch.{epoch_state_lost_of}
use go_nat.Pcp.Client.Mapping
use go_nat.Pcp.Nat
use go_nat.Pcp.Nat.Delete
use go_nat.Pcp.Nat.Servers
use go_nat.Pcp.Nat.{World, Nat}
use go_nat.Pcp.Nat.Add.{mapped}
use go_nat.Gateway.PcpIpv6.{
  PcpIpv6Client, NatMethods, NatWithPcpIpv6, after_rollback, finish_add, add_port_mapping,
  rollback_pinhole, set_ipv6_pinhole_error, finish_delete, delete_port_mapping,
}

-- *pcp.Client as a pcpIPv6Client.
abbrev pub pcp_client : World → PcpIpv6Client Client
pcp_client w = record {
  add_port_mapping =
      λ ctx protocol i timeout c. Mapping.add_port_mapping (w ctx) protocol i timeout c;
  delete_port_mapping = λ ctx protocol i c. Mapping.delete_port_mapping (w ctx) protocol i c;
  announce = λ ctx c. Mapping.announce (w ctx) c;
  epoch_state_lost = epoch_state_lost_of;
}

-- *pcp.NAT as a NAT that is a HealthChecker.
abbrev pub pcp_nat : World → World → NatMethods Nat
pcp_nat w4 w6 = record {
  nat_type = Nat.nat_type;
  add_port_mapping =
      λ ctx protocol i description timeout n. Nat.add_mapping w4 w6 ctx protocol i timeout n;
  delete_port_mapping = λ ctx protocol i n. Delete.delete_mapping w4 w6 ctx protocol i n;
  check_server_health = some (λ ctx n. Servers.check_server_health w4 w6 ctx n);
}

-- One NAT of package pcp with both clients, and the same clients as a NAT with IPv6 pinholes.
abbrev pub pcp_dual_stack : Client → Client → Option Error → Nat
pcp_dual_stack c c6 e = record { client = some c; client6 = some c6; pinhole_err = e }

abbrev pub with_pinholes : Client → Client → Option Error → NatWithPcpIpv6 Nat Client
with_pinholes c c6 e = record {
  nat = record { client = some c; client6 = none; pinhole_err = none };
  pcp6 = c6;
  pinhole_err = e;
}

-- The same report: equal, or built on the two packages' sentinels of one meaning.
abbrev pub SameReport : Option Error → Option Error → Type 0
SameReport e e' =
    (e ≡ e')
    ⊎ ((e ≡ some (wrap "pcp ipv6" (sentinel err_pinhole_rolled_back)))
        × (e' ≡ some (wrap "pcp ipv6" (sentinel pcp_err_pinhole_rolled_back))))
    ⊎ ((x : Error) × (e ≡ some (wrap "pcp ipv6" (join (sentinel err_pinhole_left_open) ": " x)))
        × (e' ≡ some (wrap "pcp ipv6" (join (sentinel pcp_err_pinhole_left_open) ": " x))))

-- The two NATs hold the same clients, and make the same report.
abbrev pub SameNat : NatWithPcpIpv6 Nat Client → Nat → Type 0
SameNat n d =
    (c : Client) × (c6 : Client) × (e : Option Error) × (e' : Option Error) × (n
      ≡ with_pinholes c c6 e)
    × (d ≡ pcp_dual_stack c c6 e')
    × SameReport e e'

-- The NAT of package pcp with the IPv4 client alone.
abbrev pub single : Client → Nat
single c = record { client = some c; client6 = none; pinhole_err = none }

module _ (w4 w6 : World) (ctx : Context) (protocol : String) (i : ℤ) where
  module _ (c c6 : Client) (e e' : Option Error) (same : SameReport e e') where
    after_rollback_same :
        (x : Error) (p : Client × Outcome (Unit {0}))
        → let (n, r) = after_rollback (with_pinholes c c6 e) (wrap "add mapping" x) p in
          let (d, r') = Nat.after_rollback (pcp_dual_stack c c6 e') x p in (r ≡ r') × SameNat n d
    unfolding set_ipv6_pinhole_error Nat.set_pinhole_err
    after_rollback_same x (c6', ok u) = (refl, (c, c6', _, _, refl, refl, inr (inl (refl, refl))))
    after_rollback_same x (c6', err y) =
        (refl, (c, c6', _, _, refl, refl, inr (inr (y, refl, refl))))
    after_rollback_same x (c6', panic) = (refl, (c, c6, e, e', refl, refl, same))

    finish_add_same :
        (r6 r : Outcome MapResponse)
        → let (n, q) =
            finish_add
              (pcp_nat w4 w6)
              (pcp_client w6)
              ctx
              protocol
              i
              (with_pinholes c c6 e)
              r6
              (mapped r) in
          let (d, q') = Nat.finish_add w6 ctx protocol i c6 (pcp_dual_stack c c6 e') r6 r in
          (q ≡ q') × SameNat n d
    unfolding finish_add Nat.finish_add set_ipv6_pinhole_error Nat.set_pinhole_err rollback_pinhole
        Nat.rollback_pinhole
    finish_add_same (ok m6) (ok m) = (refl, (c, c6, _, _, refl, refl, inl refl))
    finish_add_same (err e6) (ok m) = (refl, (c, c6, _, _, refl, refl, inl refl))
    finish_add_same (ok m6) (err x) =
        after_rollback_same x (rollback_pinhole (pcp_client w6) ctx protocol i c6)
    finish_add_same (err e6) (err x) = (refl, (c, c6, _, _, refl, refl, inl refl))
    finish_add_same panic r = (refl, (c, c6, e, e', refl, refl, same))
    finish_add_same (ok m6) panic = (refl, (c, c6, e, e', refl, refl, same))
    finish_add_same (err e6) panic = (refl, (c, c6, e, e', refl, refl, same))

    finish_delete_same :
        (r6 r : Outcome (Unit {0}))
        → let (n, q) = finish_delete (with_pinholes c c6 e) r6 (with_prefix "delete mapping" r) in
          let (d, q') = Delete.finish_delete (pcp_dual_stack c c6 e') r6 r in (q ≡ q') × SameNat n d
    unfolding set_ipv6_pinhole_error Nat.set_pinhole_err
    finish_delete_same panic r = (refl, (c, c6, e, e', refl, refl, same))
    finish_delete_same (ok _) panic = (refl, (c, c6, e, e', refl, refl, same))
    finish_delete_same (err e6) panic = (refl, (c, c6, e, e', refl, refl, same))
    finish_delete_same (ok _) (ok _) = (refl, (c, c6, _, _, refl, refl, inl refl))
    finish_delete_same (ok _) (err x) = (refl, (c, c6, _, _, refl, refl, inl refl))
    finish_delete_same (err e6) (ok _) = (refl, (c, c6, _, _, refl, refl, inl refl))
    finish_delete_same (err e6) (err x) = (refl, (c, c6, _, _, refl, refl, inl refl))

  single-add_mapping :
      (timeout : ℤ) (c : Client)
      → let (c', r) = Mapping.add_port_mapping (w4 ctx) protocol i timeout c in
        Nat.add_mapping w4 w6 ctx protocol i timeout (single c) ≡ (single c', mapped r)
  unfolding Nat.add_mapping Nat.add_with_client Nat.set_pinhole_err
  single-add_mapping timeout c =
      elim (Outcome-cases (Mapping.add_port_mapping (w4 ctx) protocol i timeout c).1) [
        | inl (m, h) ↦ rw (Nat.add_mapping, Nat.add_with_client, h) refl
        | inr (inl (e, h)) ↦ rw (Nat.add_mapping, Nat.add_with_client, h) refl
        | inr (inr h) ↦ rw (Nat.add_mapping, Nat.add_with_client, h) refl
      ]

  -- Over the same clients, in the same worlds, AddPortMapping of natWithPCPIPv6 around the IPv4 NAT
  -- answers what AddPortMapping of the dual-stack NAT answers, and leaves the same.
  pub add_port_mapping-dual_stack :
      (description : String) (timeout : ℤ) (c c6 : Client) (e e' : Option Error)
      → SameReport e e'
      → let (n, r) =
          add_port_mapping
            (pcp_nat w4 w6)
            (pcp_client w6)
            ctx
            protocol
            i
            description
            timeout
            (with_pinholes c c6 e) in
        let (d, r') = Nat.add_mapping w4 w6 ctx protocol i timeout (pcp_dual_stack c c6 e') in
        (r ≡ r') × SameNat n d
  unfolding add_port_mapping Nat.add_mapping Nat.add_with_client
  add_port_mapping-dual_stack description timeout c c6 e e' same =
      rw (single-add_mapping timeout c) (finish_add_same _ _ e e' same _ _)

  single-delete_mapping :
      (c : Client)
      → let (c', r) = Mapping.delete_port_mapping (w4 ctx) protocol i c in
        Delete.delete_mapping w4 w6 ctx protocol i (single c)
        ≡ (single c', with_prefix "delete mapping" r)
  unfolding Delete.delete_mapping Delete.delete_with_client Nat.set_pinhole_err
  single-delete_mapping c =
      elim (Outcome-cases (Mapping.delete_port_mapping (w4 ctx) protocol i c).1) [
        | inl (m, h) ↦ rw (Delete.delete_mapping, Delete.delete_with_client, h) refl
        | inr (inl (e, h)) ↦ rw (Delete.delete_mapping, Delete.delete_with_client, h) refl
        | inr (inr h) ↦ rw (Delete.delete_mapping, Delete.delete_with_client, h) refl
      ]

  -- The same of DeletePortMapping.
  pub delete_port_mapping-dual_stack :
      (c c6 : Client) (e e' : Option Error)
      → SameReport e e'
      → let (n, r) =
          delete_port_mapping
            (pcp_nat w4 w6)
            (pcp_client w6)
            ctx
            protocol
            i
            (with_pinholes c c6 e) in
        let (d, r') = Delete.delete_mapping w4 w6 ctx protocol i (pcp_dual_stack c c6 e') in
        (r ≡ r') × SameNat n d
  unfolding delete_port_mapping Delete.delete_mapping Delete.delete_with_client
  delete_port_mapping-dual_stack c c6 e e' same =
      rw (single-delete_mapping c) (finish_delete_same _ _ e e' same _ _)
