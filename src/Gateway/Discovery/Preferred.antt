-- ===== src/Gateway/Discovery/Preferred.antt =====
-- nat.go: DiscoverGateway, where its fallbacks come out of mergeNATs.
use go_nat.Base.{
  ◌≡◌, refl, ap, ◌∙◌, subst, ◌⊎◌, inl, inr, true, false, Option, some, none, List, [], ◌∷◌, ◌++◌,
  map, arith,
}
use go_nat.Base.Lists.{All}
use go_nat.Base.Outcome.{Error, Outcome, ok, err, panic}
use go_nat.Pcp.Discoverer.{Platform}
use go_nat.Gateway.Merge.{Merge, At, first, later, Reach}
use go_nat.Gateway.Merge.Interleave.{Interleaves, nothing, one_more}
use go_nat.Gateway.Merge.Complete.{merge_nats_complete}
use go_nat.Gateway.Merge.Once.{sent_of, passed-sent}
use go_nat.Gateway.Selection.{Receive, received}
use go_nat.Gateway.Selection.Order
use go_nat.Gateway.Selection.Order.{FromSources, preferred, select_gateway-preferred}
use go_nat.Gateway.Discovery.{discover_fallback_nats, discover_gateway}
use go_nat.Gateway.Discovery.Feeding.{Sent, sends, discover_fallback_nats-sends}
use go_nat.Gateway.DefaultGateway.{get_default_gateway}
use go_nat.Gateway.Probes.{pcp_probe_timeout, found, probe, discover_pcp_v4, discover_pcp_v6}
use go_nat.Context.{Context, with_timeout, with_cancel}

-- One of the lists begins with `a`.
abbrev pub Begins : {A : Type 0} → A → List (List A) → Type 0
Begins a [] = ⊥
Begins a (xs ∷ xss) = (Order.first xs ≡ some a) ⊎ Begins a xss

-- What may come first from the lists: an element that is the first of its own list, or nothing where
-- all of them are empty.
abbrev pub FirstFound : {A : Type 0} → List (List A) → Option A → Type 0
FirstFound xss none = All (λ xs. xs ≡ []) xss
FirstFound xss (some a) = Begins a xss

module _ {A : Type 0} where
  first-append :
      (a x : A) (xs : List A) → Order.first xs ≡ some x → Order.first (xs ++ (a ∷ [])) ≡ some x
  first-append a x [] h = absurd (ground arith)
  first-append a x (y ∷ xs) h = h

  At-Begins :
      (a x : A) {xss yss : List (List A)}
      → At (λ xs ys. ys ≡ xs ++ (a ∷ [])) xss yss
      → Begins x xss
      → Begins x yss
  At-Begins a x (first {x = xs} e) (inl h) = inl (rw e (first-append a x xs h))
  At-Begins a x (first e) (inr h) = inr h
  At-Begins a x (later at) (inl h) = inl h
  At-Begins a x (later at) (inr h) = inr (At-Begins a x at h)

  empty-Begins :
      (a : A) {xss yss : List (List A)}
      → At (λ xs ys. ys ≡ xs ++ (a ∷ [])) xss yss
      → All (λ xs. xs ≡ []) xss
      → Begins a yss
  empty-Begins a (first e) (h, hs) = inl (rw (e, h) refl)
  empty-Begins a (later at) (h, hs) = inr (empty-Begins a at hs)

  append-FirstFound :
      (a : A) (out : List A) {xss yss : List (List A)}
      → At (λ xs ys. ys ≡ xs ++ (a ∷ [])) xss yss
      → FirstFound xss (Order.first out)
      → FirstFound yss (Order.first (out ++ (a ∷ [])))
  append-FirstFound a [] at h = empty-Begins a at h
  append-FirstFound a (x ∷ out) at h = At-Begins a x at h

  Interleaves-FirstFound :
      {xss : List (List A)} {out : List A} → Interleaves xss out → FirstFound xss (Order.first out)
  Interleaves-FirstFound (nothing h) = h
  Interleaves-FirstFound (one_more {out = out} a woven at) =
      append-FirstFound a out at (Interleaves-FirstFound woven)

-- What a probe of the given result finds, and what a channel gives first.
abbrev pub value_of : {A : Type 0} → Outcome A → Option A
value_of (ok a) = some a
value_of (err e) = none
value_of panic = none

abbrev pub first_sent : {A : Type 0} → Outcome (List A) → Option A
first_sent (ok xs) = Order.first xs
first_sent (err e) = none
first_sent panic = none

first_sent-found : {A : Type 0} (o : Outcome A) → first_sent (found o) ≡ value_of o
first_sent-found (ok a) = refl
first_sent-found (err e) = refl
first_sent-found panic = refl

-- The context on which DiscoverGateway makes pcp look for a server.
abbrev pub probing : Context → Context
probing ctx = with_timeout pcp_probe_timeout (with_cancel ctx)

-- Where the fallback probes of DiscoverGateway have ended with the context not done, every order in
-- which it receives makes it return the gateway of pcp.DiscoverPCPIPv4, or else a gateway that a
-- fallback probe sent first, and with it the client of pcp.DiscoverPCPIPv6 where there is one; it
-- returns an error only where there is no PCP gateway and no fallback probe has sent any. The fallback
-- probes are UPnP for IG1, for IG2 and generic, NAT-PMP where the default gateway is known, and unicast
-- UPnP where that is an IPv4 or an IPv6 address; PCP is asked under its two seconds.
pub discover_gateway-preferred :
    {G C : Type 0} (p : Platform) (v4 : Context → Outcome G) (v6 : Context → Outcome C)
    (w : G → C → G) (ctx : Context) (cause : Option Error) (rs : List (Receive G C)) {m : Merge G}
    {result : Outcome G}
    → let d = discover_gateway p v4 v6 w ctx cause in
      Reach d.fallbacks m
      → m.out_closed ≡ true
      → m.cancelled ≡ false
      → FromSources (first_sent d.pcp4s) (first_sent d.pcp6s) m.out rs
      → d.result (map received rs) ≡ some result
      → (f : Sent G) × (o : Option G) × (sent_of m ≡ sends (get_default_gateway p) f)
        × FirstFound (sends (get_default_gateway p) f) o
        × (result ≡ preferred w cause (value_of (v4 (probing ctx))) (value_of (v6 (probing ctx))) o)
unfolding discover_gateway discover_fallback_nats discover_pcp_v4 discover_pcp_v6 probe
discover_gateway-preferred p v4 v6 w ctx cause rs {m} r c live src h =
    let (forwards, woven, prefixes, ended, silent) = merge_nats_complete _ r in
    let (f, started) = discover_fallback_nats-sends p r in
    elim (ended c) [
      | inl done ↦ cc
      | inr all ↦ (
        f,
        Order.first m.out,
        started,
        subst (λ xss. FirstFound xss (Order.first m.out)) (passed-sent m.sources all ∙ started)
            (Interleaves-FirstFound woven),
        select_gateway-preferred w cause _ _ m.out rs src h
            ∙ ap
                (λ a.
                  preferred w cause a (first_sent (found (v6 (probing ctx)))) (Order.first m.out))
                (first_sent-found (v4 (probing ctx)))
            ∙ ap (λ b. preferred w cause (value_of (v4 (probing ctx))) b (Order.first m.out))
                (first_sent-found (v6 (probing ctx))),
      )
    ]
