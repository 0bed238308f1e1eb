-- ===== src/Gateway/Upnp/Examples.antt =====
-- The theorems on UPnP at a concrete device.
use go_nat.Base.{ℕ, suc, ◌≡◌, refl, true, false, some, [], ◌∷◌, arith}
use go_nat.Base.Tests.{◌==◌, if◌then◌else◌}
use go_nat.Base.Int.{pos}
use go_nat.Base.Outcome.{foreign, ok, err}
use go_nat.Base.Bytes.{Bytes}
use go_nat.Context.{caller}
use go_nat.Gateway.Upnp.{
  UpnpClient, upnp_key_eq, UpnpNat, UpnpCall, Dial, prepare, new_upnp_nat, map_protocol,
  device_host_port, internal_address, add_port_mapping, locked_add, try_random, random_port,
}
use go_nat.Gateway.Upnp.Service.{
  RootDevice, wan_ip_connection1, wan_ip_connection2, wan_ppp_connection1, other_service, ranked,
  nat_from_service, nat_from_services,
}
use go_nat.Gateway.Upnp.Service.Preferred.{best, chosen, Returns, nat_from_services-best}

-- A device that counts its requests, and whose port 12000 is taken.
abbrev device : UpnpClient ℕ
device = record {
  add_port_mapping = λ ctx external proto internal ip description seconds d.
      (suc d, if external == 12000 then err (foreign 718) else ok tt);
  delete_port_mapping = λ ctx external proto d. (suc d, ok tt);
}

abbrev local_ip : Bytes
local_ip = 192 ∷ 168 ∷ 1 ∷ 2 ∷ []

abbrev dial : Dial
dial ctx host = ok (some local_ip)

abbrev gateway : UpnpNat ℕ
gateway = record {
  device = 0;
  typ = "UPnP unicast (IP1)";
  host = "192.168.1.1";
  host_port = "";
  ports = [];
}

-- The first draw hits the port that is taken.
abbrev draws : ℕ → ℕ
draws ℕ.zero = 2000
draws (ℕ.suc k) = 3000

abbrev request : UpnpCall
request = record { key = record { protocol = "UDP"; port = 5000 }; ip = local_ip; seconds = 7200 }

second_port :
    (add_port_mapping device dial caller "udp" (pos 5000) "web" (pos 7200000000000) draws gateway).1
    ≡ ok 13000
unfolding add_port_mapping prepare map_protocol internal_address device_host_port locked_add
    try_random random_port
second_port = refl

abbrev mapped : UpnpNat ℕ
mapped = record gateway { ports = (record { protocol = "UDP"; port = 5000 }, 13000) ∷ [] }

-- The best service of this device has its NAT switched off.
abbrev root : RootDevice ℕ
root = record {
  services =
      record { service_client = 1; service_type = wan_ppp_connection1; is_nat = ok true }
      ∷ record { service_client = 2; service_type = other_service "Layer3"; is_nat = ok true }
      ∷ record { service_client = 3; service_type = wan_ip_connection2; is_nat = ok false }
      ∷ record { service_client = 4; service_type = wan_ip_connection1; is_nat = ok true }
      ∷ record { service_client = 5; service_type = wan_ip_connection1; is_nat = ok true }
      ∷ [];
  host = "192.168.1.1";
  host_port = "5000";
}

root-Returns : Returns "unicast" root root.services
unfolding nat_from_service
root-Returns = (
  λ p. ground arith,
  (λ p. ground arith, (λ p. ground arith, (λ p. ground arith, (λ p. ground arith, tt)))),
)

nat_from_services-best_example :
    nat_from_services "unicast" root
    ≡ chosen "unicast" root (best "unicast" root (ranked root.services))
nat_from_services-best_example = nat_from_services-best "unicast" root root-Returns

fourth_service :
    nat_from_services "unicast" root ≡ ok (new_upnp_nat 4 "UPnP unicast (IP1)" "192.168.1.1" "5000")
unfolding nat_from_services nat_from_service
fourth_service = refl
