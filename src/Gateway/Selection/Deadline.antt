-- ===== src/Gateway/Selection/Deadline.antt =====
-- What selectGateway returns where its context ends before the probes do.
use go_nat.Base.{
  ◌≡◌, refl, sym, ap, Bool, true, false, Option, some, none, List, [], ◌∷◌, ◌++◌, map, not, ◌&&◌,
  ◌∙◌, inl, inr, arith,
}
use go_nat.Base.Tests.{is_some, Option-cases, Bool-cases}
use go_nat.Base.Outcome.{Error}
use go_nat.Gateway.Selection.{
  Receive, from_pcp4, from_pcp6, from_fallback, received, ctx_done, Search, receive, settled, drain,
  handle, wait, start, select_gateway,
}
use go_nat.Gateway.Selection.Order.{preferred, explain-preferred}

abbrev pub or_else {ℓ} : {A : Type ℓ} → Option (Option A) → Option A → Option A
or_else none later = later
or_else (some v) later = v

-- One of the three channels: what a receive gives from it (`none` for another channel), whether its
-- first value is still to come, and what was kept. A first value is kept, and nothing replaces it.
record Channel (G C A : Type 0) : Type 0 where
  value : Receive G C → Option (Option A)
  reading : Search G C → Bool
  kept : Search G C → Option A
  other :
      (r : Receive G C) (s : Search G C)
      → value r ≡ none
      → (kept (receive r s) ≡ kept s) × (reading (receive r s) ≡ reading s)
  reads :
      (r : Receive G C) (s : Search G C) (v : Option A)
      → value r ≡ some v
      → reading s ≡ true
      → kept s ≡ none
      → (kept (receive r s) ≡ v) × (reading (receive r s) ≡ false)
  keeps :
      (r : Receive G C) (s : Search G C) (v : Option A)
      → value r ≡ some v
      → reading s ≡ false
      → (kept (receive r s) ≡ kept s) × (reading (receive r s) ≡ false)

module _ {G C : Type 0} where
  abbrev receive_all : List (Receive G C) → Search G C → Search G C
  receive_all [] s = s
  receive_all (r ∷ rs) s = receive_all rs (receive r s)

  -- The value that was read first.
  abbrev pub first_value :
      {A : Type 0} → (Receive G C → Option (Option A)) → List (Receive G C) → Option A
  first_value value [] = none
  first_value value (r ∷ rs) = or_else (value r) (first_value value rs)

  abbrev pub value4 : Receive G C → Option (Option G)
  value4 (from_pcp4 v) = some v
  value4 (from_pcp6 v) = none
  value4 (from_fallback v) = none

  abbrev pub value6 : Receive G C → Option (Option C)
  value6 (from_pcp4 v) = none
  value6 (from_pcp6 v) = some v
  value6 (from_fallback v) = none

  abbrev pub value_fallback : Receive G C → Option (Option G)
  value_fallback (from_pcp4 v) = none
  value_fallback (from_pcp6 v) = none
  value_fallback (from_fallback v) = some v

  module _ {A : Type 0} (ch : Channel G C A) where
    kept_after :
        (rs : List (Receive G C)) (s : Search G C)
        → ch.reading s ≡ false
        → ch.kept (receive_all rs s) ≡ ch.kept s
    kept_after [] s t = refl
    kept_after (r ∷ rs) s t = elim (Option-cases (ch.value r)) [
      | inl n ↦ let (e, b) = ch.other r s n in kept_after rs (receive r s) (b ∙ t) ∙ e
      | inr (v, y) ↦ let (e, b) = ch.keeps r s v y t in kept_after rs (receive r s) b ∙ e
    ]

    kept_first :
        (rs : List (Receive G C)) (s : Search G C)
        → ch.reading s ≡ true
        → ch.kept s ≡ none
        → ch.kept (receive_all rs s) ≡ first_value ch.value rs
    kept_first [] s t h = h
    kept_first (r ∷ rs) s t h = elim (Option-cases (ch.value r)) [
      | inl n ↦ let (e, b) = ch.other r s n in rw n (kept_first rs (receive r s) (b ∙ t) (e ∙ h))
      | inr (v, y) ↦ let (e, b) = ch.reads r s v y t h in rw y (kept_after rs (receive r s) b ∙ e)
    ]

  pcp4_channel : Channel G C G
  unfolding receive
  pcp4_channel = record {
    value = value4;
    reading = λ s. s.pcp4s;
    kept = λ s. s.found.pcp4;
    other = λ r s n. (ground arith, ground arith);
    reads = λ r s v y t h. (ground arith, ground arith);
    keeps = λ r s v y t. (ground arith, ground arith);
  }

  pcp6_channel : Channel G C C
  unfolding receive
  pcp6_channel = record {
    value = value6;
    reading = λ s. s.pcp6s;
    kept = λ s. s.found.pcp6;
    other = λ r s n. (ground arith, ground arith);
    reads = λ r s v y t h. (ground arith, ground arith);
    keeps = λ r s v y t. (ground arith, ground arith);
  }

  fallback_channel : Channel G C G
  unfolding receive
  fallback_channel = record {
    value = value_fallback;
    reading = λ s. s.fallbacks && not (is_some s.found.fallback);
    kept = λ s. s.found.fallback;
    other = λ r s n. (ground arith, ground arith);
    reads = λ r s v y t h. (ground arith, ground arith);
    keeps = λ r s v y t. (ground arith, ground arith);
  }

  receive_all-append :
      (rs ds : List (Receive G C)) (s : Search G C)
      → receive_all (rs ++ ds) s ≡ receive_all ds (receive_all rs s)
  receive_all-append [] ds s = refl
  receive_all-append (r ∷ rs) ds s = receive_all-append rs ds (receive r s)

  drain_lem :
      (ds : List (Receive G C)) (s : Search G C)
      → ((drain ds s).found ≡ (receive_all ds s).found) × (settled (drain ds s) ≡ true)
  unfolding drain
  drain_lem [] s = (refl, ground arith)
  drain_lem (r ∷ ds) s = drain_lem ds (receive r s)

  -- A loop that has not settled has read everything.
  wait-ctx_done :
      (rs ds : List (Receive G C)) (s : Search G C)
      → settled (wait (map received rs) s) ≡ false
      → wait (map received rs ++ (ctx_done ds ∷ [])) s ≡ drain ds (receive_all rs s)
  unfolding wait handle
  wait-ctx_done [] ds s h = rw h refl
  wait-ctx_done (r ∷ rs) ds s h = elim (Bool-cases (settled s)) [
    | inl t ↦ absurd (ground arith)
    | inr f ↦ rw f (wait-ctx_done rs ds (receive r s) (ground arith))
  ]

  -- Where the context is done before selectGateway has settled, it returns at once, with the best of
  -- what was read by then, the results included that could be read without waiting: the PCP gateway,
  -- or else the first fallback, with the IPv6 client, or else an error that wraps ErrNoNATFound and
  -- the context's.
  pub select_gateway-deadline :
      (w : G → C → G) (cause : Option Error) (rs ds : List (Receive G C))
      → settled (wait (map received rs) (start {G = G} {C = C})) ≡ false
      → select_gateway w cause (map received rs ++ (ctx_done ds ∷ []))
        ≡ some (
            preferred w cause
              (first_value value4 (rs ++ ds))
              (first_value value6 (rs ++ ds))
              (first_value value_fallback (rs ++ ds)))
  unfolding select_gateway pcp4_channel pcp6_channel fallback_channel
  select_gateway-deadline w cause rs ds h =
      let (e, t) = drain_lem ds (receive_all rs start) in
      let e' = e ∙ ap (λ s. s.found) (sym (receive_all-append rs ds start)) in
      let found = (receive_all (rs ++ ds) start).found in
      let h4 = kept_first pcp4_channel (rs ++ ds) start refl refl in
      let h6 = kept_first pcp6_channel (rs ++ ds) start refl refl in
      let hf = kept_first fallback_channel (rs ++ ds) start refl refl in
      rw (wait-ctx_done rs ds start h, t, e')
        (ap some
          (explain-preferred w cause found.pcp4 found.pcp6 found.fallback ∙ rw (h4, h6, hf) refl))
