-- ===== src/Gateway/Upnp/Unicast/Examples.antt =====
-- The theorem on unicast discovery where a rogue host answers the search too.
use go_nat.Base.{ℕ, ◌≡◌, refl, Option, some, none, String, List, [], ◌∷◌, str_eq}
use go_nat.Base.Tests.{if◌then◌else◌}
use go_nat.Base.Lists.{All}
use go_nat.Base.Outcome.{Error, foreign, Outcome, ok, err}
use go_nat.Addr.{Addr, v4}
use go_nat.Gateway.Upnp.Unicast.{
  SsdpResponse, AddrParser, location_has_addr, try_locations, try_targets, discover_unicast,
}
use go_nat.Gateway.Upnp.Unicast.Guard.{
  recording, NamesAddr, Distinct, Answered, discover_unicast-Sound,
}

abbrev gateway_addr : Addr
gateway_addr = v4 (192 ∷ 168 ∷ 1 ∷ 1 ∷ [])

-- Three URLs, as a parser reads them.
abbrev parser : AddrParser
parser = record {
  hostname = λ l.
      if str_eq l "http://192.168.1.1/igd.xml"
      then some "192.168.1.1"
      else if str_eq l "http://192.168.1.66/igd.xml"
      then some "192.168.1.66"
      else none;
  parse_addr = λ h.
      if str_eq h "192.168.1.1"
      then some gateway_addr
      else if str_eq h "192.168.1.66"
      then some (v4 (192 ∷ 168 ∷ 1 ∷ 66 ∷ []))
      else none;
}

-- A rogue host, a refusal, and the gateway, which answers twice.
abbrev search : String → Outcome (List SsdpResponse)
search target = ok (
    record { status_code = 200; location = "http://192.168.1.66/igd.xml" }
    ∷ record { status_code = 404; location = "http://192.168.1.1/igd.xml" }
    ∷ record { status_code = 200; location = "http://192.168.1.1/igd.xml" }
    ∷ record { status_code = 200; location = "http://192.168.1.1/igd.xml" }
    ∷ [])

abbrev never : String → Option Error
never target = none

-- Every host would give a NAT, but for the gateway.
abbrev answer : String → Outcome ℕ
answer l = if str_eq l "http://192.168.1.1/igd.xml" then err (foreign 1) else ok 66

discover_unicast-Sound_example :
    let (log, r) = discover_unicast parser (recording answer) never search gateway_addr [] in
    All (NamesAddr parser gateway_addr) log × Distinct log × Answered answer log r
discover_unicast-Sound_example = discover_unicast-Sound parser answer never search gateway_addr

asks_gateway_once :
    (discover_unicast parser (recording answer) never search gateway_addr []).0
    ≡ "http://192.168.1.1/igd.xml" ∷ []
unfolding discover_unicast try_targets try_locations location_has_addr
asks_gateway_once = refl
