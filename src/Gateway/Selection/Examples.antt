-- ===== src/Gateway/Selection/Examples.antt =====
-- The theorems on the selection at concrete events; gateways and clients are numbers.
use go_nat.Base.{ℕ, ◌+◌, ◌*◌, ◌≡◌, refl, some, none, List, [], ◌∷◌, ◌++◌, map}
use go_nat.Base.Outcome.{deadline_exceeded, sentinel, join, err_no_nat_found, ok, err}
use go_nat.Gateway.Selection.{
  Receive, from_pcp4, from_pcp6, from_fallback, received, ctx_done, receive, drain, handle, wait,
  add_pinholes, gateway_of, explain, select_gateway,
}
use go_nat.Gateway.Selection.Order.{
  no_more, pcp4_next, pcp6_next, fallback_next, preferred, first, select_gateway-preferred,
}
use go_nat.Gateway.Selection.Deadline.{
  first_value, value4, value6, value_fallback, select_gateway-deadline,
}

abbrev with_pcp6 : ℕ → ℕ → ℕ
with_pcp6 gateway client = gateway * 100 + client

-- No PCP gateway for IPv4, a client for IPv6, and two fallbacks.
abbrev late_fallbacks : List (Receive ℕ ℕ)
late_fallbacks =
    from_pcp4 none ∷ from_pcp6 (some 6) ∷ from_fallback (some 7) ∷ from_fallback (some 8) ∷ []

returns_first : select_gateway with_pcp6 none (map received late_fallbacks) ≡ some (ok 706)
unfolding select_gateway wait handle receive gateway_of explain add_pinholes
returns_first = refl

select_gateway-preferred_example :
    ok 706 ≡ preferred with_pcp6 none none (some 6) (first (7 ∷ 8 ∷ []))
select_gateway-preferred_example =
    select_gateway-preferred with_pcp6 none none (some 6) (7 ∷ 8 ∷ []) late_fallbacks
      (pcp4_next (pcp6_next (fallback_next (fallback_next no_more)))) returns_first

-- A fallback came, and the PCP gateway is readable when the context ends.
abbrev before : List (Receive ℕ ℕ)
before = from_fallback (some 7) ∷ from_pcp6 none ∷ []

abbrev readable : List (Receive ℕ ℕ)
readable = from_pcp4 (some 4) ∷ []

select_gateway-deadline_example :
    select_gateway with_pcp6
      (some deadline_exceeded)
      (map received before ++ (ctx_done readable ∷ []))
    ≡ some (
        preferred with_pcp6
          (some deadline_exceeded)
          (first_value value4 (before ++ readable))
          (first_value value6 (before ++ readable))
          (first_value value_fallback (before ++ readable)))
unfolding wait handle receive
select_gateway-deadline_example =
    select_gateway-deadline with_pcp6 (some deadline_exceeded) before readable refl

keeps_pcp4 :
    select_gateway with_pcp6
      (some deadline_exceeded)
      (map received before ++ (ctx_done readable ∷ []))
    ≡ some (ok 4)
unfolding select_gateway wait handle receive drain gateway_of explain add_pinholes
keeps_pcp4 = refl

finds_nothing :
    select_gateway {G = ℕ} {C = ℕ} with_pcp6 (some deadline_exceeded) (ctx_done [] ∷ [])
    ≡ some (err (join (sentinel err_no_nat_found) ": " deadline_exceeded))
unfolding select_gateway wait handle receive drain gateway_of explain
finds_nothing = refl
