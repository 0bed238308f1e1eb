-- ===== src/Gateway/Upnp/Multicast.antt =====
-- upnp.go: discoverUPNP_IG1, discoverUPNP_IG2 and discoverUPNP_GenIGDev, which search by multicast.
-- What goupnp and go-ssdp find is an argument; a result is the list of the NATs that are sent.
pub mod Offers
mod Examples
use go_nat.Base.{ℕ, suc, Bool, true, false, Option, some, none, String, List, [], ◌∷◌, ◌++◌}
use go_nat.Base.Tests.{if◌then◌else◌, is_some}
use go_nat.Base.Outcome.{Error, Outcome, ok, err, panic, ◌>>=◌}
use text.Mathlib.Text.{find?}
use go_nat.Gateway.Upnp.{UpnpNat, new_upnp_nat}
use go_nat.Gateway.Upnp.Service.{
  ServiceType, wan_ip_connection2, wan_ip_connection1, wan_ppp_connection1, other_service, Service,
  RootDevice,
}

-- goupnp.MaybeRootDevice: Root is nil where the description could not be read.
pub record Device (S : Type 0) : Type 0 where
  pub root : Option (RootDevice S)

-- What the visit of a service finds: whether ctx.Err() is set, and whether the select statement sends
-- the NAT, or finds that the context is done.
pub record Turn : Type 0 where
  pub ctx_done : Bool
  pub sends : Bool

-- The cases of the switch in discoverUPNP_IG1, with the NAT's type.
abbrev pub ig1_name : ServiceType → Option String
ig1_name wan_ip_connection1 = some "UPNP (IG1-IP1)"
ig1_name wan_ppp_connection1 = some "UPNP (IG1-PPP1)"
ig1_name wan_ip_connection2 = none
ig1_name (other_service s) = none

abbrev pub ig2_name : ServiceType → Option String
ig2_name wan_ip_connection1 = some "UPNP (IG2-IP1)"
ig2_name wan_ip_connection2 = some "UPNP (IG2-IP2)"
ig2_name wan_ppp_connection1 = some "UPNP (IG2-PPP1)"
ig2_name (other_service s) = none

module _ {S : Type 0} where
  abbrev pub nat_of : String → RootDevice S → Service S → UpnpNat S
  nat_of typ root srv = new_upnp_nat srv.service_client typ root.host root.host_port

  -- `if err == nil && isNat`, with the select statement.
  abbrev pub offer : Turn → UpnpNat S → Outcome Bool → Outcome (List (UpnpNat S))
  offer turn gateway (ok true) = ok (if turn.sends then gateway ∷ [] else [])
  offer turn gateway (ok false) = ok []
  offer turn gateway (err e) = ok []
  offer turn gateway panic = panic

  module _ (name : ServiceType → Option String) (turns : ℕ → ℕ → Turn) where
    -- The function that VisitServices calls for a service.
    unfoldable pub visit : Turn → RootDevice S → Service S → Outcome (List (UpnpNat S))
    visit turn root srv = if turn.ctx_done then ok [] else elim (name srv.service_type) [
      | none ↦ ok []
      | some typ ↦ offer turn (nat_of typ root srv) srv.is_nat
    ]

    -- `turns d i` is the turn of service `i` of device `d`.
    unfoldable pub visit_services :
        ℕ → RootDevice S → ℕ → List (Service S) → Outcome (List (UpnpNat S))
    visit_services d root i [] = ok []
    visit_services d root i (srv ∷ srvs) = do
      found ← visit (turns d i) root srv
      later ← visit_services d root (suc i) srvs
      ok (found ++ later)

    unfoldable pub visit_devices : ℕ → List (Device S) → Outcome (List (UpnpNat S))
    visit_devices d [] = ok []
    visit_devices d (dev ∷ devs) = elim dev.root [
      | none ↦ visit_devices (suc d) devs
      | some root ↦ visit_services d root 0 root.services >>= λ found.
          visit_devices (suc d) devs >>= λ later. ok (found ++ later)
    ]

    -- `found` is what DiscoverDevicesCtx gives.
    unfoldable pub discover_devices : Outcome (List (Device S)) → Outcome (List (UpnpNat S))
    discover_devices (ok devs) = visit_devices 0 devs
    discover_devices (err e) = ok []
    discover_devices panic = panic

  unfoldable pub discover_ig1 :
      (ℕ → ℕ → Turn) → Outcome (List (Device S)) → Outcome (List (UpnpNat S))
  discover_ig1 turns found = discover_devices ig1_name turns found

  unfoldable pub discover_ig2 :
      (ℕ → ℕ → Turn) → Outcome (List (Device S)) → Outcome (List (UpnpNat S))
  discover_ig2 turns found = discover_devices ig2_name turns found

-- An answer to the search of go-ssdp.
pub record SsdpService : Type 0 where
  pub service_type : String
  pub location : String

-- strings.Contains
abbrev pub contains : String → String → Bool
contains s t = is_some (find? s t)

-- `F` is the state of the network and `fetch` is natFromUPNPLocation; `sends` tells whether the select
-- statement sends the NAT.
module _ {F G : Type 0} (fetch : String → F → F × Outcome G) (sends : Bool) where
  abbrev pub after_location : (F → F × Outcome (List G)) → F × Outcome G → F × Outcome (List G)
  after_location next (f, ok g) = (f, ok (if sends then g ∷ [] else []))
  after_location next (f, err e) = next f
  after_location next (f, panic) = (f, panic)

  unfoldable pub try_services : List SsdpService → F → F × Outcome (List G)
  try_services [] f = (f, ok [])
  try_services (s ∷ ss) f = elim (contains s.service_type "InternetGatewayDevice") [
    | true ↦ after_location (λ f'. try_services ss f') (fetch s.location f)
    | false ↦ try_services ss f
  ]

  unfoldable pub discover_generic : Outcome (List SsdpService) → F → F × Outcome (List G)
  discover_generic (ok services) f = try_services services f
  discover_generic (err e) f = (f, ok [])
  discover_generic panic f = (f, panic)
