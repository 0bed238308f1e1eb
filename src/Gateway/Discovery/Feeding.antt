-- ===== src/Gateway/Discovery/Feeding.antt =====
-- nat.go: which probes feed the merge of discoverFallbackNATs.
use go_nat.Base.{◌≡◌, refl, ◌∙◌, ap, Bool, true, false, ◌||◌, inl, inr, Option, List, [], ◌∷◌, map}
use go_nat.Base.Tests.{◌==◌, Bool-cases}
use go_nat.Base.Lists.{length}
use go_nat.Base.Outcome.{Outcome, ok, err, panic}
use go_nat.Base.Bytes.{Bytes}
use go_nat.Pcp.Discoverer.{Platform}
use go_nat.Gateway.DefaultGateway.{get_default_gateway}
use go_nat.Gateway.Merge.{Channel, Source, Merge, Reach}
use go_nat.Gateway.Merge.Sources.{Forwards}
use go_nat.Gateway.Merge.Once.{sent_of}
use go_nat.Gateway.Merge.Complete.{merge_nats_complete}
use go_nat.Gateway.Discovery.{opened, has_gateway, has_gateway_addr, discover_fallback_nats}

-- What each of the five probes has sent.
pub record Sent (G : Type 0) : Type 0 where
  pub upnp_ig1 : List G
  pub upnp_ig2 : List G
  pub upnp_unicast : List G
  pub upnp_generic : List G
  pub nat_pmp : List G

-- The unicast search starts where the default gateway is known and is an IPv4 or an IPv6 address.
abbrev pub has_address : Outcome Bytes → Bool
has_address (ok ip) = length ip == 4 || length ip == 16
has_address (err e) = false
has_address panic = false

-- NAT-PMP starts where the default gateway is known.
abbrev pub is_known : Outcome Bytes → Bool
is_known (ok ip) = true
is_known (err e) = false
is_known panic = false

abbrev pub with_probe : {G : Type 0} → Bool → List G → List (List G) → List (List G)
with_probe true xs xss = xs ∷ xss
with_probe false xs xss = xss

-- What the probes that start have sent, in the order of the call.
abbrev pub sends : {G : Type 0} → Outcome Bytes → Sent G → List (List G)
sends gateway f =
    f.upnp_ig1
    ∷ f.upnp_ig2
    ∷ with_probe (has_address gateway) f.upnp_unicast
        (f.upnp_generic ∷ with_probe (is_known gateway) f.nat_pmp [])

has_gateway_addr-has_address : (g : Outcome Bytes) → has_gateway_addr g ≡ has_address g
has_gateway_addr-has_address (ok ip) = elim (Bool-cases (length ip == 4)) [
  | inl e ↦ rw e refl
  | inr e ↦ rw e (elim (Bool-cases (length ip == 16)) [ inl f ↦ rw f refl | inr f ↦ rw f refl ])
]
has_gateway_addr-has_address (err e) = refl
has_gateway_addr-has_address panic = refl

has_gateway-is_known : (g : Outcome Bytes) → has_gateway g ≡ is_known g
has_gateway-is_known (ok ip) = refl
has_gateway-is_known (err e) = refl
has_gateway-is_known panic = refl

module _ {G : Type 0} where
  -- The first goroutine, where the first channel is not nil.
  Taken : Bool → List (Option (Channel G)) → List (Source G) → Type 0
  Taken b cs ss =
      (xs : List G) × (rest : List (Source G)) × (map (λ s. s.sent) ss
        ≡ with_probe b xs (map (λ s. s.sent) rest))
      × Forwards cs rest

  Forwards-opened :
      (b : Bool) (cs : List (Option (Channel G))) (ss : List (Source G))
      → Forwards (opened b ∷ cs) ss
      → Taken b cs ss
  unfolding Taken
  Forwards-opened true cs (s ∷ ss) (p, h) = (s.sent, ss, refl, h)
  Forwards-opened true cs [] h = absurd h
  Forwards-opened false cs ss h = ([], ss, refl, h)

  Forwards-none : (ss : List (Source G)) → Forwards [] ss → ss ≡ []
  Forwards-none [] h = refl
  Forwards-none (s ∷ ss) h = absurd h

  Forwards-sends :
      (a b : Bool) (ss : List (Source G))
      → Forwards (opened true ∷ opened true ∷ opened a ∷ opened true ∷ opened b ∷ []) ss
      → (f : Sent G) × (map (λ s. s.sent) ss
          ≡ f.upnp_ig1
            ∷ f.upnp_ig2
            ∷ with_probe a f.upnp_unicast (f.upnp_generic ∷ with_probe b f.nat_pmp []))
  unfolding Taken
  Forwards-sends a b ss h =
      let (x1, s1, e1, h1) =
        Forwards-opened true (opened true ∷ opened a ∷ opened true ∷ opened b ∷ []) ss h in
      let (x2, s2, e2, h2) = Forwards-opened true (opened a ∷ opened true ∷ opened b ∷ []) s1 h1 in
      let (x3, s3, e3, h3) = Forwards-opened a (opened true ∷ opened b ∷ []) s2 h2 in
      let (x4, s4, e4, h4) = Forwards-opened true (opened b ∷ []) s3 h3 in
      let (x5, s5, e5, h5) = Forwards-opened b [] s4 h4 in
      (
        record { upnp_ig1 = x1; upnp_ig2 = x2; upnp_unicast = x3; upnp_generic = x4; nat_pmp = x5 },
        e1
            ∙ ap (λ t. x1 ∷ t)
                (e2
                  ∙ ap (λ t. x2 ∷ t)
                      (e3
                        ∙ ap (with_probe a x3) (
                            e4
                            ∙ ap (λ t. x4 ∷ t)
                                (e5
                                  ∙ ap (λ t. with_probe b x5 (map (λ s. s.sent) t))
                                      (Forwards-none s5 h5))))),
      )

  -- There is a source for each probe that starts, and no other.
  pub discover_fallback_nats-sends :
      (p : Platform) {m : Merge G}
      → Reach (discover_fallback_nats p) m
      → (f : Sent G) × (sent_of m ≡ sends (get_default_gateway p) f)
  unfolding discover_fallback_nats
  discover_fallback_nats-sends p {m} r =
      let (forwards, woven, prefixes, ended, silent) = merge_nats_complete _ r in
      let (f, e) = Forwards-sends _ _ m.sources forwards in
      (
        f,
        e
            ∙ ap
                (λ a.
                  f.upnp_ig1
                  ∷ f.upnp_ig2
                  ∷ with_probe a f.upnp_unicast (
                      f.upnp_generic
                      ∷ with_probe (has_gateway (get_default_gateway p)) f.nat_pmp []))
                (has_gateway_addr-has_address (get_default_gateway p))
            ∙ ap
                (λ b.
                  f.upnp_ig1
                  ∷ f.upnp_ig2
                  ∷ with_probe (has_address (get_default_gateway p)) f.upnp_unicast
                      (f.upnp_generic ∷ with_probe b f.nat_pmp []))
                (has_gateway-is_known (get_default_gateway p)),
      )
