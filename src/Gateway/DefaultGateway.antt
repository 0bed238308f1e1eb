-- ===== src/Gateway/DefaultGateway.antt =====
-- gateway.go: the default IPv4 gateway. The routing table (go-netroute) is the platform's.
use go_nat.Base.{Bool, Option, some, none, [], ◌∷◌, ◌++◌}
use go_nat.Base.Tests.{if◌then◌else◌}
use go_nat.Base.Outcome.{sentinel, err_no_nat_found, Outcome, ok, err, ◌>>=◌, ◌>>◌}
use go_nat.Base.Bytes.{Bytes}
use go_nat.Addr.{v4_in_v6_prefix}
use go_nat.Pcp.Discoverer.{Platform}

-- defaultRouteProbe4: net.IPv4(0, 0, 0, 1) or net.IPv4zero, in 16 bytes.
unfoldable pub default_route_probe : Bool → Bytes
default_route_probe linux =
    if linux
    then v4_in_v6_prefix ++ (0 ∷ 0 ∷ 0 ∷ 1 ∷ [])
    else v4_in_v6_prefix ++ (0 ∷ 0 ∷ 0 ∷ 0 ∷ [])

-- `if ip == nil`
abbrev pub gateway_ip_of : Option Bytes → Outcome Bytes
gateway_ip_of none = err (sentinel err_no_nat_found)
gateway_ip_of (some ip) = ok ip

unfoldable pub get_default_gateway : Platform → Outcome Bytes
get_default_gateway p = do
  p.new_router
  r ← p.route (default_route_probe p.is_linux)
  gateway_ip_of r.gateway
