-- ===== src/Gateway/NatPmp/Discovery.antt =====
-- natpmp.go: the discovery of a NAT-PMP gateway and the address queries of natpmpNAT. The client of
-- go-nat-pmp, the interfaces of the host and the routing table are arguments.
use go_nat.Base.{ℕ, Bool, Option, some, none, String, List, [], ◌∷◌, ◌++◌}
use go_nat.Base.Tests.{if◌then◌else◌}
use go_nat.Base.Outcome.{sentinel, err_no_internal_address, Outcome, ok, err, panic, map_ok}
use go_nat.Base.Bytes.{Bytes}
use go_nat.Addr.{v4_in_v6_prefix}
use go_nat.Pcp.Discoverer.{Platform}
use go_nat.Gateway.DefaultGateway.{get_default_gateway}
use go_nat.Gateway.NatPmp.{NatPmp}

-- net.IPNet: the address of an interface, and which addresses its network contains.
pub record IpNet : Type 0 where
  pub ip : Bytes
  pub contains : Bytes → Bool

-- net.Addr of an interface, of which only *net.IPNet matters.
pub data InterfaceAddr : Type 0 where
  ip_net : IpNet → InterfaceAddr
  other_addr : InterfaceAddr

-- The first network of an interface that contains the gateway.
abbrev pub address_toward : Bytes → List InterfaceAddr → Option Bytes
address_toward gateway [] = none
address_toward gateway (other_addr ∷ addrs) = address_toward gateway addrs
address_toward gateway (ip_net x ∷ addrs) =
    if x.contains gateway then some x.ip else address_toward gateway addrs

-- The loop over the interfaces; an element is what iface.Addrs() gives.
unfoldable pub internal_address_in : Bytes → List (Outcome (List InterfaceAddr)) → Outcome Bytes
internal_address_in gateway [] = err (sentinel err_no_internal_address)
internal_address_in gateway (panic ∷ ifaces) = panic
internal_address_in gateway (err e ∷ ifaces) = err e
internal_address_in gateway (ok addrs ∷ ifaces) = elim (address_toward gateway addrs) [
  | some ip ↦ ok ip
  | none ↦ internal_address_in gateway ifaces
]

-- What the select statement of discoverNATPMP finds: the client's channel, or ctx.Done().
pub data PmpEvent : Type 0 where
  probed done_first : PmpEvent

module _ {D : Type 0} where
  -- discoverNATPMPWithAddr: the client in the state that the query for the external address leaves it
  -- in, where that was answered. The channel has room for it.
  abbrev pub probe : {A : Type 0} → D × Outcome A → Outcome (List D)
  probe (d, ok _) = ok (d ∷ [])
  probe (d, err e) = ok []
  probe (d, panic) = panic

  -- The NATs that are sent; `query` is natpmp.NewClient and its GetExternalAddress.
  abbrev pub discovered : PmpEvent → Bytes → Outcome (List D) → Outcome (List (NatPmp D))
  discovered done_first ip clients = ok []
  discovered probed ip (ok []) = ok []
  discovered probed ip (ok (d ∷ _)) = ok (record { device = d; gateway = ip; ports = [] } ∷ [])
  discovered probed ip (err e) = err e
  discovered probed ip panic = panic

  -- `none` is a nil channel.
  unfoldable pub discover_nat_pmp :
      {A : Type 0}
      → Platform
      → (Bytes → D × Outcome A)
      → PmpEvent
      → Option (Outcome (List (NatPmp D)))
  discover_nat_pmp p query event = elim (get_default_gateway p) [
    | ok ip ↦ some (discovered event ip (probe (query ip)))
    | err e ↦ none
    | panic ↦ some panic
  ]

  unfoldable pub get_device_address : NatPmp D → Outcome Bytes
  get_device_address n = ok n.gateway

  unfoldable pub get_internal_address :
      Outcome (List (Outcome (List InterfaceAddr))) → NatPmp D → Outcome Bytes
  get_internal_address (ok ifaces) n = internal_address_in n.gateway ifaces
  get_internal_address (err e) n = err e
  get_internal_address panic n = panic

  -- net.IPv4 of the four bytes of the answer, in 16 bytes.
  unfoldable pub get_external_address :
      (D → D × Outcome (ℕ × ℕ × ℕ × ℕ)) → NatPmp D → NatPmp D × Outcome Bytes
  get_external_address query n =
      let (d, answer) = query n.device in
      (
        record n { device = d },
        map_ok (λ q. v4_in_v6_prefix ++ (q.0 ∷ q.1 ∷ q.2 ∷ q.3 ∷ [])) answer,
      )

  abbrev pub nat_type : NatPmp D → String
  nat_type n = "NAT-PMP"
