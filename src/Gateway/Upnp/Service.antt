-- ===== src/Gateway/Upnp/Service.antt =====
-- upnp.go: natFromUPNPLocation and natFromUPNPService, which pick the WAN connection service of a
-- device. The device's description and the status of its services come from goupnp.
pub mod Preferred
use Prim.Native.String.{◌++◌ as text_append}
use go_nat.Base.{ℕ, Bool, true, false, not, String, List, [], ◌∷◌}
use go_nat.Base.Tests.{ltb, leb, if◌then◌else◌}
use go_nat.Base.Outcome.{
  Error, message, plain, Outcome, ok, err, panic, ◌>>=◌, ◌>>◌, fail_if, with_prefix,
}
use go_nat.Gateway.Upnp.{UpnpNat, new_upnp_nat}

-- The service types that the code names, and any other.
pub data ServiceType : Type 0 where
  wan_ip_connection2 wan_ip_connection1 wan_ppp_connection1 : ServiceType
  other_service : String → ServiceType

-- upnpServiceRank; a missing key has rank 0.
abbrev pub rank_of : ServiceType → ℕ
rank_of wan_ip_connection2 = 3
rank_of wan_ip_connection1 = 2
rank_of wan_ppp_connection1 = 1
rank_of (other_service s) = 0

-- A service `S` of the device, with the NAT status that the device reports for it.
pub record Service (S : Type 0) : Type 0 where
  pub service_client : S
  pub service_type : ServiceType
  pub is_nat : Outcome Bool

-- goupnp.RootDevice: the services in the order of VisitServices, and URLBase.
pub record RootDevice (S : Type 0) : Type 0 where
  pub services : List (Service S)
  pub host : String
  pub host_port : String

-- The short name of a service in the type of the NAT.
abbrev pub service_name : ServiceType → Outcome String
service_name wan_ip_connection2 = ok "IP2"
service_name wan_ip_connection1 = ok "IP1"
service_name wan_ppp_connection1 = ok "PPP1"
service_name (other_service s) = err (message (plain "unsupported service type %s"))

abbrev pub nat_type_of : String → String → String
nat_type_of discovery service =
    text_append "UPnP " (text_append discovery (text_append " (" (text_append service ")")))

module _ {S : Type 0} where
  unfoldable pub nat_from_service : String → RootDevice S → Service S → Outcome (UpnpNat S)
  nat_from_service discovery root srv = do
    name ← service_name srv.service_type
    enabled ← with_prefix "get NAT status" srv.is_nat
    fail_if (not enabled) (message (plain "gateway reports NAT disabled"))
    ok (new_upnp_nat srv.service_client (nat_type_of discovery name) root.host root.host_port)

  abbrev pub rank : Service S → ℕ
  rank srv = rank_of srv.service_type

  -- The services that VisitServices collects.
  abbrev pub ranked : List (Service S) → List (Service S)
  ranked [] = []
  ranked (srv ∷ srvs) = if ltb 0 (rank srv) then srv ∷ ranked srvs else ranked srvs

  -- sort.SliceStable by falling rank: a service goes before those that come later and rank no higher.
  abbrev pub place : Service S → List (Service S) → List (Service S)
  place srv [] = srv ∷ []
  place srv (t ∷ ts) = if leb (rank t) (rank srv) then srv ∷ t ∷ ts else t ∷ place srv ts

  abbrev pub by_rank : List (Service S) → List (Service S)
  by_rank [] = []
  by_rank (srv ∷ srvs) = place srv (by_rank srvs)

  -- The loop over the sorted services: the first that yields a NAT.
  abbrev pub first_usable : String → RootDevice S → List (Service S) → Outcome (UpnpNat S)
  first_usable discovery root [] =
      err (message (plain "no usable WAN connection service in device at %s"))
  first_usable discovery root (srv ∷ srvs) = elim (nat_from_service discovery root srv) [
    | ok gateway ↦ ok gateway
    | err e ↦ first_usable discovery root srvs
    | panic ↦ panic
  ]

  unfoldable pub nat_from_services : String → RootDevice S → Outcome (UpnpNat S)
  nat_from_services discovery root = first_usable discovery root (by_rank (ranked root.services))

  -- natFromUPNPLocation; `fetch` is url.Parse and goupnp.DeviceByURLCtx, each with its prefix.
  unfoldable pub nat_from_location :
      {U : Type 0}
      → (String → Outcome U)
      → (U → Outcome (RootDevice S))
      → String
      → String
      → Outcome (UpnpNat S)
  nat_from_location parse fetch location discovery = do
    loc ← with_prefix "parse location" (parse location)
    root ← with_prefix "fetch device description" (fetch loc)
    nat_from_services discovery root
