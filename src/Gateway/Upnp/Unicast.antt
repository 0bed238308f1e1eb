-- ===== src/Gateway/Upnp/Unicast.antt =====
-- upnp.go: discoverUPNPUnicast, searchUPNPUnicast and locationHasAddr. The answers to a search, the
-- parsers of the standard library and the fetch of a description are arguments.
pub mod Guard
mod Examples
use go_nat.Base.{
  ℕ, Bool, true, false, not, ◌&&◌, ◌||◌, Option, some, none, String, List, [], ◌∷◌, str_eq,
}
use go_nat.Base.Tests.{◌==◌, if◌then◌else◌}
use go_nat.Base.Outcome.{Error, message, plain, Outcome, ok, err, panic, map_ok}
use go_nat.Base.Bytes.{bytes_eq}
use go_nat.Addr.{Addr, invalid, v4, v6, unmap, is_valid, addr_from_slice}
use go_nat.Pcp.Discoverer.{Platform}
use go_nat.Gateway.DefaultGateway.{get_default_gateway}

-- upnpUnicastSearchTargets, in their order.
abbrev pub search_targets : List String
search_targets =
    "urn:schemas-upnp-org:device:InternetGatewayDevice:2"
    ∷ "urn:schemas-upnp-org:device:InternetGatewayDevice:1" ∷ "ssdp:all" ∷ []

-- An answer to the search: the status code and the Location header, empty where there is none.
pub record SsdpResponse : Type 0 where
  pub status_code : ℕ
  pub location : String

abbrev pub has_location : SsdpResponse → Bool
has_location r = r.status_code == 200 && not (str_eq r.location "")

-- searchUPNPUnicast, given what client.Do returns.
abbrev pub locations_of : List SsdpResponse → List String
locations_of [] = []
locations_of (r ∷ rs) = if has_location r then r.location ∷ locations_of rs else locations_of rs

-- The host name of a URL and the address that a host name spells; `none` where parsing fails.
pub record AddrParser : Type 0 where
  pub hostname : String → Option String
  pub parse_addr : String → Option Addr

-- `==` on netip.Addr
abbrev pub same_addr : Addr → Addr → Bool
same_addr invalid invalid = true
same_addr (v4 a) (v4 b) = bytes_eq a b
same_addr (v6 a y) (v6 b z) = bytes_eq a b && str_eq y z
same_addr a b = false

unfoldable pub location_has_addr : AddrParser → String → Addr → Bool
location_has_addr p location addr = elim (p.hostname location) [
  | none ↦ false
  | some host ↦ elim (p.parse_addr host) [
    | none ↦ false
    | some found ↦ same_addr (unmap found) (unmap addr)
  ]
]

-- `checked[location]`
abbrev pub mem : String → List String → Bool
mem l [] = false
mem l (x ∷ xs) = str_eq x l || mem l xs

-- Where the loop over the locations of one search stands: the locations checked, the network, and the
-- result where it has returned.
pub record Tried (F G : Type 0) : Type 0 where
  pub checked : List String
  pub network : F
  pub result : Option (Outcome G)

-- `F` is the state of the network and `fetch` is natFromUPNPLocation.
module _ {F G : Type 0} where
  -- What follows a fetch: its NAT, or the `next` location.
  abbrev pub after_fetch : List String → (F → Tried F G) → F × Outcome G → Tried F G
  after_fetch checked next (f, ok g) = record {
    checked = checked;
    network = f;
    result = some (ok g);
  }
  after_fetch checked next (f, err e) = next f
  after_fetch checked next (f, panic) = record {
    checked = checked;
    network = f;
    result = some panic;
  }

  -- What follows the locations of one target: the result, or the next target.
  abbrev pub after_locations : Option (Outcome G) → F → F × Outcome G → F × Outcome G
  after_locations none f next = next
  after_locations (some r) f next = (f, r)

  module _ (named : String → Bool) (fetch : String → F → F × Outcome G) where
    unfoldable pub try_locations : List String → List String → F → Tried F G
    try_locations [] checked f = record { checked = checked; network = f; result = none }
    try_locations (l ∷ ls) checked f = elim (mem l checked) [
      | true ↦ try_locations ls checked f
      | false ↦ elim (named l) [
        | true ↦ after_fetch (l ∷ checked) (λ f'. try_locations ls (l ∷ checked) f') (fetch l f)
        | false ↦ try_locations ls (l ∷ checked) f
      ]
    ]

    -- The loop over the targets; `ctx_err` is what ctx.Err() says when a target's turn comes, and
    -- `search` what client.Do returns for it.
    unfoldable pub try_targets :
        (String → Option Error)
        → (String → Outcome (List SsdpResponse))
        → List String
        → List String
        → F
        → F × Outcome G
    try_targets ctx_err search [] checked f =
        (f, err (message (plain "no UPnP gateway found at %s")))
    try_targets ctx_err search (t ∷ ts) checked f = elim (ctx_err t) [
      | some e ↦ (f, err e)
      | none ↦ elim (search t) [
        | ok rs ↦
            let tried = try_locations (locations_of rs) checked f in
            after_locations tried.result tried.network
              (try_targets ctx_err search ts tried.checked tried.network)
        | err e ↦ try_targets ctx_err search ts checked f
        | panic ↦ (f, panic)
      ]
    ]

  -- discoverUPNPUnicast, once the SSDP client is there.
  unfoldable pub discover_unicast :
      AddrParser
      → (String → F → F × Outcome G)
      → (String → Option Error)
      → (String → Outcome (List SsdpResponse))
      → Addr
      → F
      → F × Outcome G
  discover_unicast p fetch ctx_err search addr f =
      try_targets (λ l. location_has_addr p l addr) fetch ctx_err search search_targets [] f

  -- What follows discoverUPNPUnicast in discoverUPNPUnicastWithAddr; `sends` tells whether the select
  -- statement sends the NAT, or finds that the context is done.
  abbrev pub sent_gateway : Bool → F × Outcome G → F × Outcome (List G)
  sent_gateway sends (f, ok g) = (f, ok (if sends then g ∷ [] else []))
  sent_gateway sends (f, err e) = (f, ok [])
  sent_gateway sends (f, panic) = (f, panic)

  abbrev pub at_address :
      (Addr → F → F × Outcome (List G)) → Addr → F → Option (F × Outcome (List G))
  at_address discover addr f = if is_valid addr then some (discover (unmap addr) f) else none

  -- discoverUPNP_Unicast; `none` is a nil channel. `new_client` is httpu.NewHTTPUClient.
  unfoldable pub discover_upnp_unicast :
      Platform
      → Outcome (Unit {0})
      → AddrParser
      → (String → F → F × Outcome G)
      → (String → Option Error)
      → (String → Outcome (List SsdpResponse))
      → Bool
      → F
      → Option (F × Outcome (List G))
  discover_upnp_unicast platform new_client p fetch ctx_err search sends f =
      elim (get_default_gateway platform) [
        | err e ↦ none
        | panic ↦ some (f, panic)
        | ok gateway ↦
            at_address
              (λ addr g. elim new_client [
                | ok _ ↦ sent_gateway sends (discover_unicast p fetch ctx_err search addr g)
                | err e ↦ (g, ok [])
                | panic ↦ (g, panic)
              ])
              (addr_from_slice gateway) f
      ]
