-- ===== src/Pcp/Discoverer.antt =====
-- pcp/gateway_discoverer.go and the discovery functions of pcp/nat.go. The routing table
-- (go-netroute) is a parameter.
pub mod Found
mod Examples
use go_nat.Base.{
  ℕ, Bool, true, false, ◌&&◌, ◌||◌, not, Option, some, none, String, str_eq, List, [], ◌∷◌, ◌++◌,
  bit_and, arith,
}
use go_nat.Base.Tests.{◌==◌, if◌then◌else◌, is_some}
use go_nat.Base.Lists.{length, get_or, take, drop, replicate}
use go_nat.Base.Outcome.{
  Error, sentinel, wrap, join, pcp_err_no_nat_found, pcp_err_no_internal_address, Outcome, ok, err,
  panic, ◌>>=◌, ◌>>◌, with_prefix,
}
use go_nat.Base.Bytes.{Bytes, bytes_eq}
use go_nat.Addr.{v4_in_v6_prefix, with_zone}
use go_nat.Pcp.Client.State.{Client, new_client, set_local_ip}
use go_nat.Pcp.Client.Mapping.{Env, announce}
use go_nat.Pcp.Client.Transport.{check}
use go_nat.Pcp.Nat.{Nat}

-- What routing.Router.Route answers: the interface's name, the gateway, and the local address, each
-- of which may be nil.
pub record Route : Type 0 where
  pub iface : Option String
  pub gateway : Option Bytes
  pub local_ip : Option Bytes

-- The platform: the operating system and netroute.New with the router's Route.
pub record Platform : Type 0 where
  pub is_linux : Bool
  pub new_router : Outcome (Unit {0})
  pub route : Bytes → Outcome Route

-- net.IPv4(0, 0, 0, 1) and net.IPv4zero, in their 16-byte form.
unfoldable pub default_route_probe4 : Bool → Bytes
default_route_probe4 linux =
    if linux
    then v4_in_v6_prefix ++ (0 ∷ 0 ∷ 0 ∷ 1 ∷ [])
    else v4_in_v6_prefix ++ (0 ∷ 0 ∷ 0 ∷ 0 ∷ [])

unfoldable pub default_route_probe6 : Bool → Bytes
default_route_probe6 linux =
    if linux
    then 0 ∷ 0 ∷ 0 ∷ 0 ∷ 0 ∷ 0 ∷ 0 ∷ 0 ∷ 0 ∷ 0 ∷ 0 ∷ 0 ∷ 0 ∷ 0 ∷ 0 ∷ 2 ∷ []
    else replicate 16 0

-- net.IP.IsLinkLocalUnicast: 169.254/16, in either form, and fe80::/10.
abbrev pub is_link_local4 : Bytes → Bool
is_link_local4 b = get_or b 0 0 == 169 && get_or b 1 0 == 254

unfoldable pub is_link_local_unicast : Bytes → Bool
is_link_local_unicast b =
    if length b == 4
    then is_link_local4 b
    else if length b == 16
    then (if bytes_eq (take 12 b) v4_in_v6_prefix
        then is_link_local4 (drop 12 b)
        else get_or b 0 0 == 0xfe && bit_and (get_or b 1 0) 0xc0 == 0x80)
    else false

-- `if gateway == nil { … }; if localIP == nil { … }`
abbrev pub both_present : Route → Outcome (Bytes × Bytes)
both_present r = elim r.gateway [
  | none ↦ err (sentinel pcp_err_no_nat_found)
  | some g ↦ elim r.local_ip [
    | none ↦ err (sentinel pcp_err_no_internal_address)
    | some l ↦ ok (g, l)
  ]
]

-- defaultGatewayDiscoverer.Discover, where ctx.Err() is `cancelled`.
unfoldable pub discover : Platform → Option Error → Outcome (Bytes × Bytes)
discover p cancelled = do
  check cancelled
  p.new_router
  r ← p.route (default_route_probe4 p.is_linux)
  both_present r

abbrev pub zone_for : Route → Bytes → String
zone_for r gateway =
    if is_link_local_unicast gateway then elim r.iface [ some name ↦ name | none ↦ "" ] else ""

abbrev pub with_zone_for : Route → Bytes × Bytes → Bytes × Bytes × String
with_zone_for r (gateway, local_ip) = (gateway, local_ip, zone_for r gateway)

-- defaultGatewayDiscoverer.DiscoverV6
unfoldable pub discover_v6 : Platform → Option Error → Outcome (Bytes × Bytes × String)
discover_v6 p cancelled = do
  check cancelled
  p.new_router
  r ← p.route (default_route_probe6 p.is_linux)
  found ← both_present r
  ok (with_zone_for r found)

-- A client that answered the announcement, or the announcement's error.
abbrev pub announced_client : String → Client × Outcome ℕ → Outcome Client
announced_client prefix (c, ok epoch) = ok c
announced_client prefix (c, err e) = err (wrap prefix e)
announced_client prefix (c, panic) = panic

-- The gateway and the local address as a client, with the zone of a link-local gateway.
unfoldable pub client_for : Bytes × Bytes × String → Client
client_for (gateway, local_ip, zone) =
    let c = new_client gateway in
    set_local_ip local_ip
      (if not (str_eq zone "") then record c { gateway = with_zone zone c.gateway } else c)

-- discoverPCPIPv4 on what Discover found; the result is the NAT's only client.
unfoldable pub discover_pcp_ipv4 : Env → Outcome (Bytes × Bytes) → Outcome Client
discover_pcp_ipv4 env found = do
  (gateway, local_ip) ← with_prefix "get default gateway" found
  announced_client "PCP announce" (announce env (set_local_ip local_ip (new_client gateway)))

-- discoverPCPIPv6 on what DiscoverV6 found.
unfoldable pub discover_pcp_ipv6 : Env → Outcome (Bytes × Bytes × String) → Outcome Client
discover_pcp_ipv6 env found = do
  place ← with_prefix "get default IPv6 gateway" found
  announced_client "PCP IPv6 announce" (announce env (client_for place))

-- discoverPCP: the two discoveries run side by side, and one of them is enough.
unfoldable pub both_stacks : Outcome Client → Outcome Client → Outcome Nat
both_stacks (ok c) (ok c6) = ok (record { client = some c; client6 = some c6; pinhole_err = none })
both_stacks (ok c) (err e6) = ok (record { client = some c; client6 = none; pinhole_err = none })
both_stacks (err e) (ok c6) = ok (record { client = none; client6 = some c6; pinhole_err = none })
both_stacks (err e) (err e6) = err (join e "\n" e6)
both_stacks panic r = panic
both_stacks (ok c) panic = panic
both_stacks (err e) panic = panic

unfoldable pub discover_pcp :
    Env → Env → Outcome (Bytes × Bytes) → Outcome (Bytes × Bytes × String) → Outcome Nat
discover_pcp env env6 found found6 =
    both_stacks (discover_pcp_ipv4 env found) (discover_pcp_ipv6 env6 found6)
