-- ===== src/Gateway/Discovery/Linked.antt =====
-- nat.go: the two merges of DiscoverNATs, one of which reads the other.
use go_nat.Base.{◌≡◌, refl, sym, subst, ◌∙◌, ap, Bool, true, List, [], ◌∷◌, ◌++◌}
use go_nat.Pcp.Discoverer.{Platform}
use go_nat.Gateway.Merge.{
  Source, Merge, At, first, later, Forward, receive, see_closed, stop_receiving, stop_sending, Send,
  send, Feed, publish, close, Own, forward, close_out, Deliver, deliver, feed, cancel, own,
  delivers, outside, Reach, here, next, start_forwarders, merge_nats,
}
use go_nat.Gateway.Discovery.{
  opened, discover_fallback_nats, NatDiscovery, discover_nats, Moves, fallback_feeds,
  fallback_moves, hands_over, fallbacks_end, pcp_feeds, merged_moves, merged_delivers, cancels,
  Runs, begun, more,
}

module _ {G : Type 0} where
  -- The first source has sent what the fallbacks gave, and is closed only after them.
  abbrev pub Fed : Merge G → List (Source G) → Type 0
  Fed f [] = ⊥
  Fed f (s ∷ ss) = (s.sent ≡ f.out) × (s.closed ≡ true → f.out_closed ≡ true)

  pub record Linked (p : Platform) (d : NatDiscovery G) : Type 0 where
    pub inner : Reach (discover_fallback_nats p) d.fallbacks
    pub outer : Reach (merge_nats (opened true ∷ opened true ∷ [])) d.merged
    pub fed : Fed d.fallbacks d.merged.sources
    pub one_context : d.fallbacks.cancelled ≡ d.merged.cancelled

  abbrev Quiet : Source G → Source G → Type 0
  Quiet s t = (t.sent ≡ s.sent) × (t.closed ≡ s.closed)

  Forward-Quiet : (done : Bool) (s t : Source G) → Forward done s t → Quiet s t
  Forward-Quiet done s _ (receive nat rest e b) = (refl, refl)
  Forward-Quiet done s _ (see_closed e b c) = (refl, refl)
  Forward-Quiet done s _ (stop_receiving e d) = (refl, refl)
  Forward-Quiet done s _ (stop_sending nat e d) = (refl, refl)

  Send-Quiet : (nat : G) (s t : Source G) → Send nat s t → Quiet s t
  Send-Quiet nat s _ (send e) = (refl, refl)

  At-Fed :
      {R : Source G → Source G → Type 0} (f : Merge G) {ss ts : List (Source G)}
      → ((s t : Source G) → R s t → Quiet s t)
      → At R ss ts
      → Fed f ss
      → Fed f ts
  At-Fed f quiet (first {x} {y} r) (e, c) =
      let (sent, closed) = quiet x y r in (sent ∙ e, λ h. c (sym closed ∙ h))
  At-Fed f quiet (later at) h = h

  -- The fallbacks take a step that gives nothing.
  Fed-after :
      (f g : Merge G) (ss : List (Source G))
      → g.out ≡ f.out
      → (f.out_closed ≡ true → g.out_closed ≡ true)
      → Fed f ss
      → Fed g ss
  Fed-after f g [] e c h = h
  Fed-after f g (s ∷ ss) e c (sent, closed) = (sent ∙ sym e, λ h. c (closed h))

  Own-out : {m n : Merge G} → Own m n → n.out ≡ m.out
  Own-out (forward at) = refl
  Own-out (close_out all o) = refl

  Own-closed : {m n : Merge G} → Own m n → m.out_closed ≡ true → n.out_closed ≡ true
  Own-closed (forward at) h = h
  Own-closed (close_out all o) h = refl

  Own-cancelled : {m n : Merge G} → Own m n → n.cancelled ≡ m.cancelled
  Own-cancelled (forward at) = refl
  Own-cancelled (close_out all o) = refl

  Own-Fed : (f : Merge G) {m n : Merge G} → Own m n → Fed f m.sources → Fed f n.sources
  Own-Fed f {m} (forward at) h = At-Fed f (Forward-Quiet m.cancelled) at h
  Own-Fed f (close_out all o) h = h

  Deliver-Fed : (f : Merge G) {m n : Merge G} → Deliver m n → Fed f m.sources → Fed f n.sources
  Deliver-Fed f (deliver nat at) h = At-Fed f (Send-Quiet nat) at h

  Deliver-cancelled : {m n : Merge G} → Deliver m n → n.cancelled ≡ m.cancelled
  Deliver-cancelled (deliver nat at) = refl

  -- A feed of the merge, where its sources are known.
  fed_at : {ws xs ys : List (Source G)} → ws ≡ xs → At Feed xs ys → At Feed ws ys
  fed_at {ws} {xs} {ys} e at = subst (λ zs. At Feed zs ys) (sym e) at

  Moves-Linked : {p : Platform} {d e : NatDiscovery G} → Linked p d → Moves d e → Linked p e
  Moves-Linked {p} {d} l (fallback_feeds {ss = ss} at) = record {
    inner = next l.inner (outside (feed at));
    outer = l.outer;
    fed =
        Fed-after d.fallbacks (record d.fallbacks { sources = ss }) d.merged.sources refl (λ h. h)
          l.fed;
    one_context = l.one_context;
  }
  Moves-Linked {p} {d} l (fallback_moves {m = m} o) = record {
    inner = next l.inner (own o);
    outer = l.outer;
    fed = Fed-after d.fallbacks m d.merged.sources (Own-out o) (Own-closed o) l.fed;
    one_context = Own-cancelled o ∙ l.one_context;
  }
  Moves-Linked {p} {d} l (hands_over nat {rest = rest} at e c) =
      let (sent, closed) = subst (Fed d.fallbacks) e l.fed in
      record {
        inner = next l.inner (delivers (deliver nat at));
        outer = next l.outer (outside (feed (fed_at e (first (publish nat c)))));
        fed = (ap (λ xs. xs ++ (nat ∷ [])) sent, closed);
        one_context = l.one_context;
      }
  Moves-Linked {p} {d} l (fallbacks_end ended e c) =
      let (sent, closed) = subst (Fed d.fallbacks) e l.fed in
      record {
        inner = l.inner;
        outer = next l.outer (outside (feed (fed_at e (first (close c)))));
        fed = (sent, λ h. ended);
        one_context = l.one_context;
      }
  Moves-Linked {p} {d} l (pcp_feeds e at) = record {
    inner = l.inner;
    outer = next l.outer (outside (feed (fed_at e (later at))));
    fed = subst (Fed d.fallbacks) e l.fed;
    one_context = l.one_context;
  }
  Moves-Linked {p} {d} l (merged_moves o) = record {
    inner = l.inner;
    outer = next l.outer (own o);
    fed = Own-Fed d.fallbacks o l.fed;
    one_context = l.one_context ∙ sym (Own-cancelled o);
  }
  Moves-Linked {p} {d} l (merged_delivers v) = record {
    inner = l.inner;
    outer = next l.outer (delivers v);
    fed = Deliver-Fed d.fallbacks v l.fed;
    one_context = l.one_context ∙ sym (Deliver-cancelled v);
  }
  Moves-Linked {p} {d} l cancels = record {
    inner = next l.inner (outside cancel);
    outer = next l.outer (outside cancel);
    fed =
        Fed-after d.fallbacks (record d.fallbacks { cancelled = true }) d.merged.sources refl
          (λ h. h) l.fed;
    one_context = refl;
  }

  begin-Linked : (p : Platform) → Linked p (discover_nats p)
  unfolding discover_nats discover_fallback_nats merge_nats start_forwarders
  begin-Linked p = record { inner = here; outer = here; fed = (refl, λ h. h); one_context = refl }

  Runs-Linked : {p : Platform} {d e : NatDiscovery G} → Linked p d → Runs d e → Linked p e
  Runs-Linked l begun = l
  Runs-Linked l (more r m) = Moves-Linked (Runs-Linked l r) m

  -- At every point of DiscoverNATs, what the outer merge was sent by its first source is what the inner
  -- one gave, and both run as mergeNATs does.
  pub discover_nats-Linked :
      (p : Platform) {d : NatDiscovery G} → Runs (discover_nats p) d → Linked p d
  discover_nats-Linked p r = Runs-Linked (begin-Linked p) r
