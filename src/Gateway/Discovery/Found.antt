-- ===== src/Gateway/Discovery/Found.antt =====
-- What DiscoverNATs gives.
use mathlib.Core.List.{Perm, append-nil}
use mathlib.Core.List.Perm
use go_nat.Base.{◌≡◌, sym, subst, ◌∙◌, ap, inl, inr, true, false, List, [], ◌∷◌, ◌++◌, map}
use go_nat.Base.Lists.{All}
use go_nat.Pcp.Discoverer.{Platform}
use go_nat.Gateway.DefaultGateway.{get_default_gateway}
use go_nat.Gateway.Merge.{Source, Merge}
use go_nat.Gateway.Merge.Sources.{Forwards}
use go_nat.Gateway.Merge.Complete.{merge_nats_complete}
use go_nat.Gateway.Merge.Once.{all_of, sent_of, merge_nats_once}
use go_nat.Gateway.Discovery.{opened, discover_fallback_nats, NatDiscovery, discover_nats, Runs}
use go_nat.Gateway.Discovery.Feeding.{Sent, sends, discover_fallback_nats-sends}
use go_nat.Gateway.Discovery.Linked.{Fed, Linked, discover_nats-Linked}

module _ {G : Type 0} where
  -- The outer merge reads the fallbacks and the PCP probe, and nothing else.
  two_sources :
      (f : Merge G) (ss : List (Source G))
      → Forwards (opened true ∷ opened true ∷ []) ss
      → Fed f ss
      → (pcp : List G) × (map (λ s. s.sent) ss ≡ f.out ∷ pcp ∷ [])
  two_sources f [] h fed = absurd h
  two_sources f (s ∷ []) (x, h) fed = absurd h
  two_sources f (s ∷ t ∷ []) h (e, c) = (t.sent, ap (λ xs. xs ∷ t.sent ∷ []) e)
  two_sources f (s ∷ t ∷ u ∷ ss) (x, (y, h)) fed = absurd h

  fallbacks_closed :
      (f : Merge G) (ss : List (Source G))
      → Fed f ss
      → All (λ s. (s.closed ≡ true) × (s.sent ≡ s.passed)) ss
      → f.out_closed ≡ true
  fallbacks_closed f [] fed h = absurd fed
  fallbacks_closed f (s ∷ ss) (e, c) ((closed, passed), h) = c closed

  outer_ended :
      (p : Platform) {d : NatDiscovery G}
      → Linked p d
      → d.merged.out_closed ≡ true
      → d.merged.cancelled ≡ false
      → d.fallbacks.out_closed ≡ true
  outer_ended p {d} l c live =
      let (forwards, woven, prefixes, ended, silent) = merge_nats_complete _ l.outer in
      elim (ended c) [
        | inl done ↦ cc
        | inr all ↦ fallbacks_closed d.fallbacks d.merged.sources l.fed all
      ]

  outer_sources :
      (p : Platform) {d : NatDiscovery G}
      → Linked p d
      → (pcp : List G) × (sent_of d.merged ≡ d.fallbacks.out ∷ pcp ∷ [])
  outer_sources p {d} l =
      let (forwards, woven, prefixes, ended, silent) = merge_nats_complete _ l.outer in
      two_sources d.fallbacks d.merged.sources forwards l.fed

  -- Where the channel of DiscoverNATs is closed and the context is not done, its reader has received
  -- every NAT that a probe has sent, each as often as it was sent, and nothing else. The probes are UPnP
  -- for IG1, for IG2 and generic, NAT-PMP where the default gateway is known, unicast UPnP where that is
  -- an IPv4 or an IPv6 address, and PCP.
  pub discover_nats_once :
      (p : Platform) {d : NatDiscovery G}
      → Runs (discover_nats p) d
      → d.merged.out_closed ≡ true
      → d.merged.cancelled ≡ false
      → (f : Sent G) × (pcp : List G) × (sent_of d.fallbacks ≡ sends (get_default_gateway p) f)
        × (sent_of d.merged ≡ d.fallbacks.out ∷ pcp ∷ [])
        × Perm d.merged.out (all_of (sends (get_default_gateway p) f) ++ pcp)
  unfolding discover_fallback_nats
  discover_nats_once p {d} r c live =
      let l = discover_nats-Linked p r in
      let (f, started) = discover_fallback_nats-sends p l.inner in
      let (pcp, fed) = outer_sources p l in
      let inner = merge_nats_once _ l.inner (outer_ended p l c live) (l.one_context ∙ live) in
      (
        f,
        pcp,
        started,
        fed,
        Perm.trans
            (subst (λ xss. Perm d.merged.out (all_of xss)) fed (merge_nats_once _ l.outer c live))
            (subst
              (λ xs. Perm (d.fallbacks.out ++ xs) (all_of (sends (get_default_gateway p) f) ++ pcp))
              (sym (append-nil pcp))
              (Perm.append_right pcp
                (subst (λ xss. Perm d.fallbacks.out (all_of xss)) started inner))),
      )
