-- ===== src/Gateway/Selection/Order.antt =====
-- The gateway that selectGateway returns depends on what the probes find and not on their order.
use go_nat.Base.{
  ◌≡◌, refl, sym, Bool, true, false, Option, some, none, List, [], ◌∷◌, map, not, ◌||◌, ◌∙◌, ◌⊎◌,
  inl, inr, arith,
}
use go_nat.Base.Tests.{if◌then◌else◌, is_some}
use go_nat.Base.Outcome.{Error, sentinel, join, err_no_nat_found, Outcome, ok, err}
use go_nat.Gateway.Selection.{
  Receive, from_pcp4, from_pcp6, from_fallback, received, Search, receive, settled, handle, wait,
  start, add_pinholes, gateway_of, explain, select_gateway,
}

abbrev pub first {ℓ} : {A : Type ℓ} → List A → Option A
first [] = none
first (x ∷ xs) = some x

-- A channel that is still read has given nothing; one that is not has given what its source holds.
abbrev Given {ℓ} : {A : Type ℓ} → Option A → Bool → Option A → Type ℓ
Given source true kept = kept ≡ none
Given source false kept = kept ≡ source

-- The fallbacks: nothing was read yet, the first was kept, or there was none at all.
abbrev FirstKept {ℓ} : {A : Type ℓ} → List A → List A → Bool → Option A → Type ℓ
FirstKept {A = A} all left still_open kept =
    ((kept ≡ none) × (still_open ≡ true) × (left ≡ all))
    ⊎ ((g : A) × (kept ≡ some g) × (first all ≡ some g))
    ⊎ ((kept ≡ none) × (still_open ≡ false) × (all ≡ []))

returned {ℓ} :
    {A : Type ℓ} (b : Bool) (a : A) {r : A}
    → (if b then some a else none) ≡ some r
    → (b ≡ true) × (a ≡ r)
returned true a h = (refl, ground arith)
returned false a h = absurd (ground arith)

module _ {G C : Type 0} where
  -- The receives of a run in which the PCP probes give `p4` and `p6`, and the fallback channel gives
  -- the listed gateways and is then closed. They come in any order.
  pub data FromSources (p4 : Option G) (p6 : Option C) : List G → List (Receive G C) → Type 0 where
    no_more : {fs : List G} → FromSources p4 p6 fs []
    pcp4_next :
        {fs : List G} {rs : List (Receive G C)}
        → FromSources p4 p6 fs rs
        → FromSources p4 p6 fs (from_pcp4 p4 ∷ rs)
    pcp6_next :
        {fs : List G} {rs : List (Receive G C)}
        → FromSources p4 p6 fs rs
        → FromSources p4 p6 fs (from_pcp6 p6 ∷ rs)
    fallback_next :
        {g : G} {fs : List G} {rs : List (Receive G C)}
        → FromSources p4 p6 fs rs
        → FromSources p4 p6 (g ∷ fs) (from_fallback (some g) ∷ rs)
    fallback_closed :
        {rs : List (Receive G C)}
        → FromSources p4 p6 [] rs
        → FromSources p4 p6 [] (from_fallback none ∷ rs)

  -- What selectGateway is to return: the PCP gateway, or else the first fallback, with the IPv6 client.
  abbrev pub preferred : (G → C → G) → Option Error → Option G → Option C → Option G → Outcome G
  preferred with_pcp6 cause (some g) p6 f = ok (add_pinholes with_pcp6 p6 g)
  preferred with_pcp6 cause none p6 (some g) = ok (add_pinholes with_pcp6 p6 g)
  preferred with_pcp6 none none p6 none = err (sentinel err_no_nat_found)
  preferred with_pcp6 (some e) none p6 none = err (join (sentinel err_no_nat_found) ": " e)

  -- A search by its parts.
  abbrev search : Bool → Bool → Bool → Option G → Option C → Option G → Search G C
  search b4 b6 b k4 k6 k = record {
    pcp4s = b4;
    pcp6s = b6;
    fallbacks = b;
    found = record { pcp4 = k4; pcp6 = k6; fallback = k };
  }

  abbrev Progress : Option G → Option C → List G → List G → Search G C → Type 0
  Progress p4 p6 all left s =
      Given p4 s.pcp4s s.found.pcp4
      × Given p6 s.pcp6s s.found.pcp6
      × FirstKept all left s.fallbacks s.found.fallback

  receive4-Progress :
      (p4 : Option G) (p6 : Option C) (all left : List G) (b4 b6 b : Bool) (k4 : Option G)
      (k6 : Option C) (k : Option G)
      → Progress p4 p6 all left (search b4 b6 b k4 k6 k)
      → Progress p4 p6 all left (receive (from_pcp4 p4) (search b4 b6 b k4 k6 k))
  unfolding receive
  receive4-Progress none p6 all left true b6 b k4 k6 k (g4, g6, h) = (g4, g6, h)
  receive4-Progress (some g) p6 all left true b6 b k4 k6 k (g4, g6, h) = (refl, g6, h)
  receive4-Progress p4 p6 all left false b6 b k4 k6 k h = h

  receive6-Progress :
      (p4 : Option G) (p6 : Option C) (all left : List G) (b4 b6 b : Bool) (k4 : Option G)
      (k6 : Option C) (k : Option G)
      → Progress p4 p6 all left (search b4 b6 b k4 k6 k)
      → Progress p4 p6 all left (receive (from_pcp6 p6) (search b4 b6 b k4 k6 k))
  unfolding receive
  receive6-Progress p4 none all left b4 true b k4 k6 k (g4, g6, h) = (g4, g6, h)
  receive6-Progress p4 (some c) all left b4 true b k4 k6 k (g4, g6, h) = (g4, refl, h)
  receive6-Progress p4 p6 all left b4 false b k4 k6 k h = h

  fallback-Progress :
      (p4 : Option G) (p6 : Option C) (all : List G) (g : G) (left : List G) (b4 b6 b : Bool)
      (k4 : Option G) (k6 : Option C) (k : Option G)
      → Progress p4 p6 all (g ∷ left) (search b4 b6 b k4 k6 k)
      → Progress p4 p6 all left (receive (from_fallback (some g)) (search b4 b6 b k4 k6 k))
  unfolding receive
  fallback-Progress p4 p6 all g left b4 b6 true k4 k6 none (g4, g6, inl (e, o, t)) =
      (g4, g6, inr (inl (g, refl, (ground arith))))
  fallback-Progress p4 p6 all g left b4 b6 true k4 k6 none (g4, g6, inr (inl (g', e, t))) =
      absurd (ground arith)
  fallback-Progress p4 p6 all g left b4 b6 true k4 k6 none (g4, g6, inr (inr (e, o, t))) =
      absurd (ground arith)
  fallback-Progress p4 p6 all g left b4 b6 true k4 k6 (some g') (g4, g6, inl (e, o, t)) =
      absurd (ground arith)
  fallback-Progress p4 p6 all g left b4 b6 true k4 k6 (some g') (g4, g6, inr h) = (g4, g6, inr h)
  fallback-Progress p4 p6 all g left b4 b6 false k4 k6 k (g4, g6, inl (e, o, t)) =
      absurd (ground arith)
  fallback-Progress p4 p6 all g left b4 b6 false k4 k6 k (g4, g6, inr h) = (g4, g6, inr h)

  closed-Progress :
      (p4 : Option G) (p6 : Option C) (all : List G) (b4 b6 b : Bool) (k4 : Option G)
      (k6 : Option C) (k : Option G)
      → Progress p4 p6 all [] (search b4 b6 b k4 k6 k)
      → Progress p4 p6 all [] (receive (from_fallback none) (search b4 b6 b k4 k6 k))
  unfolding receive
  closed-Progress p4 p6 all b4 b6 true k4 k6 k (g4, g6, inl (e, o, t)) =
      (g4, g6, inr (inr (e, refl, sym t)))
  closed-Progress p4 p6 all b4 b6 true k4 k6 k (g4, g6, inr (inl h)) = (g4, g6, inr (inl h))
  closed-Progress p4 p6 all b4 b6 true k4 k6 k (g4, g6, inr (inr (e, o, t))) =
      (g4, g6, inr (inr (e, refl, t)))
  closed-Progress p4 p6 all b4 b6 false k4 k6 k h = h

  either-Progress :
      (p4 : Option G) (p6 : Option C) (all : List G) (b : Bool) (s t : Search G C)
      → (left : List G) × Progress p4 p6 all left s
      → (left : List G) × Progress p4 p6 all left t
      → (left : List G) × Progress p4 p6 all left (if b then s else t)
  either-Progress p4 p6 all true s t h k = h
  either-Progress p4 p6 all false s t h k = k

  wait-Progress :
      (p4 : Option G) (p6 : Option C) (all left : List G) (rs : List (Receive G C)) (s : Search G C)
      → FromSources p4 p6 left rs
      → Progress p4 p6 all left s
      → (left' : List G) × Progress p4 p6 all left' (wait (map received rs) s)
  unfolding wait handle
  wait-Progress p4 p6 all left rs s no_more h = (left, h)
  wait-Progress p4 p6 all left (r ∷ rs) s (pcp4_next src) h =
      either-Progress p4 p6 all (settled s) s _ (left, h)
        (wait-Progress p4 p6 all left rs _ src (
          receive4-Progress p4 p6 all left s.pcp4s s.pcp6s s.fallbacks s.found.pcp4 s.found.pcp6
            s.found.fallback h))
  wait-Progress p4 p6 all left (r ∷ rs) s (pcp6_next src) h =
      either-Progress p4 p6 all (settled s) s _ (left, h)
        (wait-Progress p4 p6 all left rs _ src (
          receive6-Progress p4 p6 all left s.pcp4s s.pcp6s s.fallbacks s.found.pcp4 s.found.pcp6
            s.found.fallback h))
  wait-Progress p4 p6 all (g ∷ left) (r ∷ rs) s (fallback_next src) h =
      either-Progress p4 p6 all (settled s) s _ (g ∷ left, h)
        (wait-Progress p4 p6 all left rs _ src (
          fallback-Progress p4 p6 all g left s.pcp4s s.pcp6s s.fallbacks s.found.pcp4 s.found.pcp6
            s.found.fallback h))
  wait-Progress p4 p6 all [] (r ∷ rs) s (fallback_closed src) h =
      either-Progress p4 p6 all (settled s) s _ ([], h)
        (wait-Progress p4 p6 all [] rs _ src (
          closed-Progress p4 p6 all s.pcp4s s.pcp6s s.fallbacks s.found.pcp4 s.found.pcp6
            s.found.fallback h))

  pub explain-preferred :
      (w : G → C → G) (cause : Option Error) (p4 : Option G) (p6 : Option C) (f : Option G)
      → explain cause (gateway_of w (record { pcp4 = p4; pcp6 = p6; fallback = f }))
        ≡ preferred w cause p4 p6 f
  unfolding gateway_of explain
  explain-preferred w none (some g) p6 f = refl
  explain-preferred w (some e) (some g) p6 f = refl
  explain-preferred w none none p6 (some g) = refl
  explain-preferred w (some e) none p6 (some g) = refl
  explain-preferred w none none p6 none = refl
  explain-preferred w (some e) none p6 none = refl

  -- A fallback matters only where there is no PCP gateway.
  preferred-first :
      (w : G → C → G) (cause : Option Error) (p4 : Option G) (p6 : Option C) (all left : List G)
      (b : Bool) (k : Option G)
      → FirstKept all left b k
      → (is_some p4 || is_some k || not b) ≡ true
      → preferred w cause p4 p6 k ≡ preferred w cause p4 p6 (first all)
  preferred-first w cause (some g) p6 all left b k h t = refl
  preferred-first w cause none p6 all left b k (inl (e, o, l)) t = absurd (ground arith)
  preferred-first w cause none p6 all left b k (inr (inl (g, e, f))) t = rw (e, f) refl
  preferred-first w cause none p6 all left b k (inr (inr (e, o, l))) t = rw (e, l) refl

  settled-preferred :
      (w : G → C → G) (cause : Option Error) (p4 : Option G) (p6 : Option C) (all left : List G)
      (b4 b6 b : Bool) (k4 : Option G) (k6 : Option C) (k : Option G)
      → Progress p4 p6 all left (search b4 b6 b k4 k6 k)
      → settled (search b4 b6 b k4 k6 k) ≡ true
      → explain cause (gateway_of w (record { pcp4 = k4; pcp6 = k6; fallback = k }))
        ≡ preferred w cause p4 p6 (first all)
  settled-preferred w cause p4 p6 all left true b6 b k4 k6 k h t = absurd (ground arith)
  settled-preferred w cause p4 p6 all left false true b k4 k6 k h t = absurd (ground arith)
  settled-preferred w cause p4 p6 all left false false b k4 k6 k (g4, g6, h) t =
      explain-preferred w cause k4 k6 k
      ∙ rw (sym g4, sym g6) (preferred-first w cause k4 k6 all left b k h t)

  -- Where the PCP probes end with `p4` and `p6` and the fallback probes offer the gateways of `all`,
  -- every order of the receives that lets selectGateway return makes it return the same: the PCP
  -- gateway, or else the first fallback, with the IPv6 client where there is one, or else an error
  -- that wraps ErrNoNATFound and the context's.
  pub select_gateway-preferred :
      (w : G → C → G) (cause : Option Error) (p4 : Option G) (p6 : Option C) (all : List G)
      (rs : List (Receive G C)) {result : Outcome G}
      → FromSources p4 p6 all rs
      → select_gateway w cause (map received rs) ≡ some result
      → result ≡ preferred w cause p4 p6 (first all)
  unfolding select_gateway
  select_gateway-preferred w cause p4 p6 all rs src h =
      let end = wait (map received rs) start in
      let (left, progress) =
        wait-Progress p4 p6 all all rs start src (refl, refl, inl (refl, refl, refl)) in
      let (t, e) = returned (settled end) _ h in
      sym e
      ∙ settled-preferred w cause p4 p6 all left end.pcp4s end.pcp6s end.fallbacks end.found.pcp4
          end.found.pcp6 end.found.fallback progress t
