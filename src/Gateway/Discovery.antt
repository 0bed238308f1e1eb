-- ===== src/Gateway/Discovery.antt =====
-- nat.go: DiscoverNATs, discoverFallbackNATs and DiscoverGateway, which put the probes together. `G`
-- are the NATs of all protocols.
pub mod Feeding
pub mod Linked
pub mod Found
pub mod Preferred
mod Examples
use go_nat.Base.{◌≡◌, Bool, true, false, Option, some, none, List, [], ◌∷◌, ◌++◌}
use go_nat.Base.Tests.{if◌then◌else◌}
use go_nat.Base.Outcome.{Error, Outcome, ok, err, panic}
use go_nat.Base.Bytes.{Bytes}
use go_nat.Addr.{is_valid, addr_from_slice}
use go_nat.Pcp.Discoverer.{Platform}
use go_nat.Gateway.DefaultGateway.{get_default_gateway}
use go_nat.Context.{Context, with_cancel}
use go_nat.Gateway.Probes.{discover_pcp_v4, discover_pcp_v6}
use go_nat.Gateway.Merge.{Channel, Source, Merge, At, Send, Feed, Own, Deliver, merge_nats}
use go_nat.Gateway.Selection.{Event, select_gateway}

-- Whether discoverNATPMP returns a channel that is not nil.
abbrev pub has_gateway : Outcome Bytes → Bool
has_gateway (ok ip) = true
has_gateway (err e) = false
has_gateway panic = false

-- The same for discoverUPNP_Unicast, which also wants an address of 4 or 16 bytes.
abbrev pub has_gateway_addr : Outcome Bytes → Bool
has_gateway_addr (ok ip) = is_valid (addr_from_slice ip)
has_gateway_addr (err e) = false
has_gateway_addr panic = false

module _ {G : Type 0} where
  -- A channel of a probe, before it sends anything, or nil.
  abbrev pub opened : Bool → Option (Channel G)
  opened true = some (record { buffer = []; closed = false })
  opened false = none

  -- The five sources in the order of the call: UPnP IG1, IG2, unicast, GenIGDev, and NAT-PMP.
  unfoldable pub discover_fallback_nats : Platform → Merge G
  discover_fallback_nats p =
      let gateway = get_default_gateway p in
      merge_nats (
        opened true
        ∷ opened true
        ∷ opened (has_gateway_addr gateway)
        ∷ opened true
        ∷ opened (has_gateway gateway)
        ∷ [])

-- DiscoverNATs: the channel that discoverFallbackNATs returns, with the goroutines behind it, and the
-- merge that reads it beside the channel of discoverPCP.
pub record NatDiscovery (G : Type 0) : Type 0 where
  pub fallbacks : Merge G
  pub merged : Merge G

-- DiscoverGateway: what discoverPCPv4 and discoverPCPv6 send, the merged fallbacks, and what selectGateway
-- returns on the events that it meets.
pub record GatewayDiscovery (G C : Type 0) : Type 0 where
  pub pcp4s : Outcome (List G)
  pub pcp6s : Outcome (List C)
  pub fallbacks : Merge G
  pub result : List (Event G C) → Option (Outcome G)

module _ {G : Type 0} where
  unfoldable pub discover_nats : Platform → NatDiscovery G
  discover_nats p = record {
    fallbacks = discover_fallback_nats p;
    merged = merge_nats (opened true ∷ opened true ∷ []);
  }

  -- A value stands in its channel until it is received, and the closing of the fallbacks is seen at any
  -- time after it: so every order of the unbuffered channels is one of these, and the two merges share
  -- one context.
  pub data Moves (d : NatDiscovery G) : NatDiscovery G → Type 0 where
    -- a UPnP or NAT-PMP probe sends or ends
    fallback_feeds :
        {ss : List (Source G)}
        → At Feed d.fallbacks.sources ss
        → Moves d (record d { fallbacks = record d.fallbacks { sources = ss } })
    fallback_moves : {m : Merge G} → Own d.fallbacks m → Moves d (record d { fallbacks = m })
    -- the merged fallbacks hand a NAT to the goroutine of DiscoverNATs that reads them
    hands_over :
        (nat : G) {ss : List (Source G)} {s : Source G} {rest : List (Source G)}
        → At (Send nat) d.fallbacks.sources ss
        → d.merged.sources ≡ s ∷ rest
        → s.closed ≡ false
        → Moves d (record {
          fallbacks = record d.fallbacks { sources = ss; out = d.fallbacks.out ++ (nat ∷ []) };
          merged = record d.merged {
            sources =
                record s { buffer = s.buffer ++ (nat ∷ []); sent = s.sent ++ (nat ∷ []) } ∷ rest;
          };
        })
    fallbacks_end :
        {s : Source G} {rest : List (Source G)}
        → d.fallbacks.out_closed ≡ true
        → d.merged.sources ≡ s ∷ rest
        → s.closed ≡ false
        → Moves d
            (record d { merged = record d.merged { sources = record s { closed = true } ∷ rest } })
    -- the PCP probe sends or ends
    pcp_feeds :
        {s : Source G} {rest ts : List (Source G)}
        → d.merged.sources ≡ s ∷ rest
        → At Feed rest ts
        → Moves d (record d { merged = record d.merged { sources = s ∷ ts } })
    merged_moves : {m : Merge G} → Own d.merged m → Moves d (record d { merged = m })
    merged_delivers : {m : Merge G} → Deliver d.merged m → Moves d (record d { merged = m })
    cancels : Moves d (record {
      fallbacks = record d.fallbacks { cancelled = true };
      merged = record d.merged { cancelled = true };
    })

  pub data Runs (d : NatDiscovery G) : NatDiscovery G → Type 0 where
    begun : Runs d d
    more : {e f : NatDiscovery G} → Runs d e → Moves e f → Runs d f

  -- `v4` and `v6` are pcp.DiscoverPCPIPv4 and pcp.DiscoverPCPIPv6, `with_pcp6` is newNATWithPCPIPv6, and
  -- `ctx_err` is ctx.Err() where selectGateway returns.
  unfoldable pub discover_gateway :
      {C : Type 0}
      → Platform
      → (Context → Outcome G)
      → (Context → Outcome C)
      → (G → C → G)
      → Context
      → Option Error
      → GatewayDiscovery G C
  discover_gateway p v4 v6 with_pcp6 ctx ctx_err =
      let probing = with_cancel ctx in
      record {
        pcp4s = discover_pcp_v4 v4 probing;
        pcp6s = discover_pcp_v6 v6 probing;
        fallbacks = discover_fallback_nats p;
        result = λ events. select_gateway with_pcp6 ctx_err events;
      }
