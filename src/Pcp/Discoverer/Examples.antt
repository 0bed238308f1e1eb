-- ===== src/Pcp/Discoverer/Examples.antt =====
-- The theorems on discovery at concrete routing tables.
use go_nat.Base.{◌≡◌, ◌≢◌, refl, true, some, none, ◌∷◌}
use go_nat.Base.Lists.{replicate}
use go_nat.Base.Outcome.{foreign, ok, err, panic}
use go_nat.Base.Bytes.{Bytes, put, put_slice}
use go_nat.Pcp.Protocol.{build_announce_request, addr_to_16, parse_response}
use go_nat.Pcp.Client.State.{new_client_with_timeout, new_client, set_local_ip, get_local_ip}
use go_nat.Pcp.Client.Epoch.{update_epoch}
use go_nat.Pcp.Client.Transport.{
  own_timeout, accept_datagram, converse, within_deadline, send_once, next_attempt, last_attempt,
  send_loop, send_request,
}
use go_nat.Pcp.Client.Mapping.{announce_exchange, announce}
use go_nat.Pcp.Client.Examples.{env_lost, env_server}
use go_nat.Pcp.Nat.{Nat}
use go_nat.Pcp.Discoverer.{
  Platform, Route, is_link_local_unicast, discover_v6, client_for, discover_pcp_ipv4,
  discover_pcp_ipv6, both_stacks, discover_pcp,
}
use go_nat.Pcp.Discoverer.Found.{Discovered, discover_pcp-clients}

abbrev link_local : Bytes
link_local = 0xfe ∷ 0x80 ∷ replicate 14 1

abbrev global : Bytes
global = 0x20 ∷ 0x01 ∷ replicate 14 2

abbrev route : Route
route = record { iface = some "eth0"; gateway = some link_local; local_ip = some global }

abbrev platform : Platform
platform = record { is_linux = true; new_router = ok tt; route = λ dst. ok route }

found_v6 : discover_v6 platform none ≡ ok (link_local, global, "eth0")
unfolding discover_v6 is_link_local_unicast
found_v6 = refl

-- No IPv4 gateway, and an IPv6 one whose server answers.
abbrev six_only : Nat
six_only = record {
  client = none;
  client6 = some (announce env_server (client_for (link_local, global, "eth0"))).0;
  pinhole_err = none;
}

discovered :
    discover_pcp env_lost env_server (err (foreign 2)) (ok (link_local, global, "eth0"))
    ≡ ok six_only
unfolding discover_pcp discover_pcp_ipv4 discover_pcp_ipv6 both_stacks client_for new_client
    new_client_with_timeout set_local_ip announce announce_exchange get_local_ip send_request
    send_loop next_attempt last_attempt send_once within_deadline converse accept_datagram
    own_timeout build_announce_request put put_slice addr_to_16 parse_response update_epoch
discovered = refl

ipv4_failed : discover_pcp_ipv4 env_lost (err (foreign 2)) ≢ panic
unfolding discover_pcp_ipv4
ipv4_failed p = cc

ipv6_found :
    discover_pcp_ipv6 env_server (ok (link_local, global, "eth0"))
    ≡ ok (announce env_server (client_for (link_local, global, "eth0"))).0
unfolding discover_pcp_ipv6 client_for new_client new_client_with_timeout set_local_ip announce
    announce_exchange get_local_ip send_request send_loop next_attempt last_attempt send_once
    within_deadline converse accept_datagram own_timeout build_announce_request put put_slice
    addr_to_16 parse_response update_epoch
ipv6_found = refl

discover_pcp-clients_example :
    Discovered
      (discover_pcp_ipv4 env_lost (err (foreign 2)))
      (discover_pcp_ipv6 env_server (ok (link_local, global, "eth0")))
      (discover_pcp env_lost env_server (err (foreign 2)) (ok (link_local, global, "eth0")))
discover_pcp-clients_example =
    discover_pcp-clients env_lost env_server (err (foreign 2)) (ok (link_local, global, "eth0"))
      ipv4_failed (λ p. cc (ipv6_found, p))
