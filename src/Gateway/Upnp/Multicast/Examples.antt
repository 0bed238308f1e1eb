-- ===== src/Gateway/Upnp/Multicast/Examples.antt =====
-- The multicast discovery of UPnP on a network with two devices.
use go_nat.Base.{ℕ, ◌≡◌, refl, true, false, some, none, List, [], ◌∷◌}
use go_nat.Base.Outcome.{foreign, ok, err}
use go_nat.Gateway.Upnp.Service.{
  wan_ip_connection1, wan_ip_connection2, wan_ppp_connection1, RootDevice,
}
use go_nat.Gateway.Upnp.Multicast.{
  Device, Turn, ig1_name, nat_of, discover_devices, visit, visit_services, visit_devices,
  discover_generic, try_services,
}
use go_nat.Gateway.Upnp.Multicast.Offers.{GivesFrom, IsOpen, discover_devices_offers}

abbrev router : RootDevice ℕ
router = record {
  services =
      record { service_client = 1; service_type = wan_ip_connection2; is_nat = ok true }
      ∷ record { service_client = 2; service_type = wan_ip_connection1; is_nat = ok true }
      ∷ record { service_client = 3; service_type = wan_ppp_connection1; is_nat = err (foreign 1) }
      ∷ [];
  host = "192.168.1.1";
  host_port = "";
}

-- The description of the second device could not be read.
abbrev devices : List (Device ℕ)
devices = record { root = some router } ∷ record { root = none } ∷ []

-- The context ends before the second service is visited.
abbrev turns : ℕ → ℕ → Turn
turns d ℕ.zero = record { ctx_done = false; sends = true }
turns d (ℕ.suc i) = record { ctx_done = true; sends = true }

discover_devices_offers_example :
    GivesFrom
      ((d i : ℕ) → IsOpen (turns d i))
      (nat_of "UPNP (IG1-IP1)" router
          (record { service_client = 2; service_type = wan_ip_connection1; is_nat = ok true })
        ∷ [])
      (discover_devices ig1_name turns (ok devices))
discover_devices_offers_example =
    discover_devices_offers ig1_name turns devices
      (((λ p. cc), ((λ p. cc), ((λ p. cc), tt))), (tt, tt))

cut_off : discover_devices ig1_name turns (ok devices) ≡ ok []
unfolding discover_devices visit_devices visit_services visit
cut_off = refl

-- The first device is no gateway, and the description of the second yields a NAT.
generic :
    discover_generic {F = ℕ}
      (λ l f. (f, ok l))
      true
      (ok (
        record { service_type = "upnp:rootdevice"; location = "a" }
        ∷ record {
          service_type = "urn:schemas-upnp-org:device:InternetGatewayDevice:1";
          location = "b";
        }
        ∷ []))
      7
    ≡ (7, ok ("b" ∷ []))
unfolding discover_generic try_services
generic = refl
