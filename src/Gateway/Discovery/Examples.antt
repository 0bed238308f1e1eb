-- ===== src/Gateway/Discovery/Examples.antt =====
-- DiscoverNATs and DiscoverGateway on a network with one UPnP gateway and no route.
use mathlib.Core.List.{Perm}
use go_nat.Base.{ℕ, ◌+◌, ◌≡◌, ◌++◌, refl, Bool, true, false, Option, some, none, List, [], ◌∷◌, map}
use go_nat.Base.Outcome.{foreign, Outcome, ok, err}
use go_nat.Pcp.Discoverer.{Platform}
use go_nat.Gateway.DefaultGateway.{get_default_gateway}
use go_nat.Gateway.Merge.{
  Source, receiving, returned, Merge, first, later, receive, see_closed, send, publish, close,
  forward, close_out, deliver, feed, own, delivers, outside, Reach, here, next, start_forwarders,
  merge_nats,
}
use go_nat.Gateway.Merge.Once.{all_of, sent_of}
use go_nat.Gateway.Selection.{
  Receive, from_pcp4, from_pcp6, from_fallback, received, receive as receive_one, wait, handle,
  gateway_of, explain, add_pinholes, select_gateway,
}
use go_nat.Gateway.Selection.Order.{
  no_more, pcp4_next, pcp6_next, fallback_next, fallback_closed, preferred,
}
use go_nat.Gateway.Discovery.{
  discover_fallback_nats, NatDiscovery, GatewayDiscovery, discover_nats, discover_gateway,
  fallback_feeds, fallback_moves, hands_over, fallbacks_end, pcp_feeds, merged_moves,
  merged_delivers, Runs, begun, more,
}
use go_nat.Gateway.Discovery.Feeding.{Sent, sends}
use go_nat.Gateway.Probes.{probe, discover_pcp_v4, discover_pcp_v6}
use go_nat.Context.{Context, caller}
use go_nat.Gateway.Discovery.Found.{discover_nats_once}
use go_nat.Gateway.Discovery.Preferred.{FirstFound, discover_gateway-preferred}

abbrev platform : Platform
platform = record { is_linux = true; new_router = err (foreign 1); route = λ dst. err (foreign 2) }

-- The first probe finds gateway 1, and all three end.
unfoldable fallbacks : (m : Merge ℕ) × Reach (discover_fallback_nats platform) m
unfolding discover_fallback_nats merge_nats start_forwarders get_default_gateway
fallbacks =
    let a = next here (outside (feed (first (publish 1 refl)))) in
    let b = next a (outside (feed (first (close refl)))) in
    let c = next b (outside (feed (later (first (close refl))))) in
    let d = next c (outside (feed (later (later (first (close refl)))))) in
    let e = next d (own (forward (first (receive 1 [] refl refl)))) in
    let f = next e (delivers (deliver 1 (first (send refl)))) in
    let g = next f (own (forward (first (see_closed refl refl refl)))) in
    let h = next g (own (forward (later (first (see_closed refl refl refl))))) in
    let i = next h (own (forward (later (later (first (see_closed refl refl refl)))))) in
    (_, next i (own (close_out (refl, (refl, (refl, tt))) refl)))

-- The same in DiscoverNATs, whose PCP probe finds gateway 2: the second goes out first.
abbrev at_end : List ℕ → Source ℕ
at_end nats = record {
  buffer = [];
  closed = true;
  forwarder = returned;
  sent = nats;
  passed = nats;
}

abbrev fresh : Source ℕ
fresh = record { buffer = []; closed = false; forwarder = receiving; sent = []; passed = [] }

abbrev ended : List ℕ → Bool → List ℕ → Source ℕ
ended buffer closed passed = record {
  buffer = buffer;
  closed = closed;
  forwarder = receiving;
  sent = 1 ∷ [];
  passed = passed;
}

abbrev merging : List (Source ℕ) → List ℕ → Bool → Merge ℕ
merging sources out out_closed = record {
  sources = sources;
  out = out;
  out_closed = out_closed;
  cancelled = false;
}

abbrev discovering : List (Source ℕ) → Bool → List (Source ℕ) → List ℕ → NatDiscovery ℕ
discovering probes probes_closed sources out = record {
  fallbacks = merging probes (1 ∷ []) probes_closed;
  merged = merging sources out false;
}

abbrev silent : Source ℕ
silent = record { buffer = []; closed = true; forwarder = receiving; sent = []; passed = [] }

-- The fallback is handed over, and the other probes have ended.
handed_over : Runs (discover_nats platform) (
    discovering
      (ended [] true (1 ∷ []) ∷ silent ∷ silent ∷ [])
      false
      (ended (1 ∷ []) false [] ∷ fresh ∷ [])
      [])
unfolding discover_nats discover_fallback_nats merge_nats start_forwarders get_default_gateway
handed_over =
    let a = more begun (fallback_feeds (first (publish 1 refl))) in
    let b = more a (fallback_feeds (first (close refl))) in
    let c = more b (fallback_feeds (later (first (close refl)))) in
    let d = more c (fallback_feeds (later (later (first (close refl))))) in
    let e = more d (fallback_moves (forward (first (receive 1 [] refl refl)))) in
    more e (hands_over 1 (first (send refl)) refl refl)

fallbacks_closed : Runs (discover_nats platform) (
    discovering
      (at_end (1 ∷ []) ∷ at_end [] ∷ at_end [] ∷ [])
      true
      (ended (1 ∷ []) true [] ∷ fresh ∷ [])
      [])
fallbacks_closed =
    let g = more handed_over (fallback_moves (forward (first (see_closed refl refl refl)))) in
    let h = more g (fallback_moves (forward (later (first (see_closed refl refl refl))))) in
    let i = more h (fallback_moves (forward (later (later (first (see_closed refl refl refl)))))) in
    let j = more i (fallback_moves (close_out (refl, (refl, (refl, tt))) refl)) in
    more j (fallbacks_end refl refl refl)

pcp_delivered : Runs (discover_nats platform) (
    discovering
      (at_end (1 ∷ []) ∷ at_end [] ∷ at_end [] ∷ [])
      true
      (ended (1 ∷ []) true [] ∷ record silent { sent = 2 ∷ []; passed = 2 ∷ [] } ∷ [])
      (2 ∷ []))
pcp_delivered =
    let l = more fallbacks_closed (pcp_feeds refl (first (publish 2 refl))) in
    let m = more l (pcp_feeds refl (first (close refl))) in
    let n = more m (merged_moves (forward (later (first (receive 2 [] refl refl))))) in
    more n (merged_delivers (deliver 2 (later (first (send refl)))))

abbrev finished : NatDiscovery ℕ
finished = record {
  fallbacks = merging (at_end (1 ∷ []) ∷ at_end [] ∷ at_end [] ∷ []) (1 ∷ []) true;
  merged = merging (at_end (1 ∷ []) ∷ at_end (2 ∷ []) ∷ []) (2 ∷ 1 ∷ []) true;
}

finished-Runs : Runs (discover_nats platform) finished
finished-Runs =
    let q = more pcp_delivered (merged_moves (forward (first (receive 1 [] refl refl)))) in
    let r = more q (merged_delivers (deliver 1 (first (send refl)))) in
    let s = more r (merged_moves (forward (first (see_closed refl refl refl)))) in
    let t = more s (merged_moves (forward (later (first (see_closed refl refl refl))))) in
    more t (merged_moves (close_out (refl, (refl, tt)) refl))

discover_nats_once_example :
    (f : Sent ℕ) × (pcp : List ℕ) × (sent_of finished.fallbacks
      ≡ sends (get_default_gateway platform) f)
    × (sent_of finished.merged ≡ (1 ∷ []) ∷ pcp ∷ [])
    × Perm (2 ∷ 1 ∷ []) (all_of (sends (get_default_gateway platform) f) ++ pcp)
discover_nats_once_example = discover_nats_once platform finished-Runs refl refl

abbrev with_client : ℕ → ℕ → ℕ
with_client gateway client = gateway + client

-- The one fallback and the IPv6 client come in, and no PCP gateway.
abbrev receives : List (Receive ℕ ℕ)
receives = from_fallback (some 1) ∷ from_pcp6 (some 60) ∷ from_fallback none ∷ from_pcp4 none ∷ []

-- No PCP server for IPv4, and client 60 for IPv6.
abbrev no_pcp4 : Context → Outcome ℕ
no_pcp4 ctx = err (foreign 3)

abbrev pcp6 : Context → Outcome ℕ
pcp6 ctx = ok 60

abbrev discovery : GatewayDiscovery ℕ ℕ
discovery = discover_gateway platform no_pcp4 pcp6 with_client caller none

fallback_with_client : discovery.result (map received receives) ≡ some (ok 61)
unfolding discover_gateway select_gateway wait handle receive_one gateway_of explain add_pinholes
fallback_with_client = refl

discover_gateway-preferred_example :
    (f : Sent ℕ) × (o : Option ℕ) × (sent_of fallbacks.0 ≡ sends (get_default_gateway platform) f)
    × FirstFound (sends (get_default_gateway platform) f) o
    × (ok 61 ≡ preferred with_client none none (some 60) o)
unfolding fallbacks discover_gateway discover_pcp_v4 discover_pcp_v6 probe
discover_gateway-preferred_example =
    discover_gateway-preferred platform no_pcp4 pcp6 with_client caller none receives fallbacks.1
      refl refl (fallback_next (pcp6_next (fallback_closed (pcp4_next no_more))))
      fallback_with_client
