-- ===== src/Pcp/Discoverer/Found.antt =====
-- What discovery can return: the addresses of the routing table, and at least one client.
use go_nat.Base.{◌≡◌, ◌≢◌, refl, ◌↔◌, ◌⊎◌, inl, inr, true, false, Option, some, none, String, arith}
use go_nat.Base.Outcome.{Error, Outcome, ok, err, panic, >>=-eq-ok}
use go_nat.Base.Bytes.{Bytes}
use go_nat.Pcp.Client.State.{Client}
use go_nat.Pcp.Client.Mapping.{Env}
use go_nat.Pcp.Client.Transport.{check}
use go_nat.Pcp.Nat.{Nat}
use go_nat.Pcp.Discoverer.{
  Platform, Route, default_route_probe6, is_link_local_unicast, both_present, discover_v6,
  both_stacks, discover_pcp, discover_pcp_ipv4, discover_pcp_ipv6,
}

both_present-ok :
    (r : Route) (g l : Bytes)
    → both_present r ≡ ok (g, l)
    → (r.gateway ≡ some g) × (r.local_ip ≡ some l)
both_present-ok r g l h = ground arith

-- DiscoverV6 returns the gateway and the local address that the routing table names for the probe,
-- and a zone only for a link-local gateway, where it is the name of the route's interface.
pub discover_v6-ok :
    (p : Platform) (cancelled : Option Error) (g l : Bytes) (zone : String)
    → discover_v6 p cancelled ≡ ok (g, l, zone)
    → (cancelled ≡ none)
      × ((r : Route) × (p.route (default_route_probe6 p.is_linux) ≡ ok r)
          × (r.gateway ≡ some g)
          × (r.local_ip ≡ some l)
          × ((is_link_local_unicast g ≡ false → zone ≡ "")
              × ((name : String)
                  → is_link_local_unicast g ≡ true
                  → r.iface ≡ some name
                  → zone ≡ name)))
unfolding discover_v6
discover_v6-ok p cancelled g l zone h =
    let (_, hc, h') = >>=-eq-ok (check cancelled) _ h in
    let (_, _, h'') = >>=-eq-ok p.new_router _ h' in
    let (r, hr, h3) = >>=-eq-ok (p.route (default_route_probe6 p.is_linux)) _ h'' in
    let (f, hf, h4) = >>=-eq-ok (both_present r) _ h3 in
    let (hg, hl) = both_present-ok r f.0 f.1 hf in
    (
      ground arith,
      (r, hr, ground arith, ground arith, (λ t. ground arith, λ name t e. ground arith)),
    )

both_stacks-clients :
    (r r6 : Outcome Client) (n : Nat)
    → both_stacks r r6 ≡ ok n
    → (((c : Client) × (n.client ≡ some c)) ⊎ ((c : Client) × (n.client6 ≡ some c)))
      × ((c : Client) → (n.client ≡ some c) ↔ (r ≡ ok c))
      × ((c : Client) → (n.client6 ≡ some c) ↔ (r6 ≡ ok c))
unfolding both_stacks
both_stacks-clients (ok c) (ok d) n h = (
  inl (c, ground arith),
  λ x. (λ p. ground arith, λ p. ground arith),
  λ x. (λ p. ground arith, λ p. ground arith),
)
both_stacks-clients (ok c) (err f) n h = (
  inl (c, ground arith),
  λ x. (λ p. ground arith, λ p. ground arith),
  λ x. (λ p. ground arith, λ p. ground arith),
)
both_stacks-clients (err e) (ok d) n h = (
  inr (d, ground arith),
  λ x. (λ p. ground arith, λ p. ground arith),
  λ x. (λ p. ground arith, λ p. ground arith),
)
both_stacks-clients (err e) (err f) n h = absurd (ground arith)
both_stacks-clients panic r6 n h = absurd (ground arith)
both_stacks-clients (ok c) panic n h = absurd (ground arith)
both_stacks-clients (err e) panic n h = absurd (ground arith)

-- What DiscoverPCP comes to: a NAT with exactly the clients whose servers answered, and at least one
-- of them, or an error where both stacks failed.
abbrev pub Discovered : Outcome Client → Outcome Client → Outcome Nat → Type 0
Discovered r r6 o =
    ((n : Nat) × (o ≡ ok n)
      × (((c : Client) × (n.client ≡ some c)) ⊎ ((c : Client) × (n.client6 ≡ some c)))
      × ((c : Client) → (n.client ≡ some c) ↔ (r ≡ ok c))
      × ((c : Client) → (n.client6 ≡ some c) ↔ (r6 ≡ ok c)))
    ⊎ (((e : Error) × (o ≡ err e)) × ((e : Error) × (r ≡ err e)) × ((e : Error) × (r6 ≡ err e)))

both_stacks-Discovered :
    (r r6 : Outcome Client) → r ≢ panic → r6 ≢ panic → Discovered r r6 (both_stacks r r6)
unfolding both_stacks
both_stacks-Discovered (ok c) (ok d) h k =
    let (one, four, six) = both_stacks-clients (ok c) (ok d) _ refl in inl (_, refl, one, four, six)
both_stacks-Discovered (ok c) (err f) h k =
    let (one, four, six) = both_stacks-clients (ok c) (err f) _ refl in
    inl (_, refl, one, four, six)
both_stacks-Discovered (err e) (ok d) h k =
    let (one, four, six) = both_stacks-clients (err e) (ok d) _ refl in
    inl (_, refl, one, four, six)
both_stacks-Discovered (err e) (err f) h k = inr ((_, refl), (e, refl), (f, refl))
both_stacks-Discovered panic r6 h k = absurd (h refl)
both_stacks-Discovered (ok c) panic h k = absurd (k refl)
both_stacks-Discovered (err e) panic h k = absurd (k refl)

-- Where both stacks return, DiscoverPCP fails only where both of them fail; otherwise its NAT has
-- exactly the clients whose servers answered, so it never lacks both.
pub discover_pcp-clients :
    (env env6 : Env) (found : Outcome (Bytes × Bytes)) (found6 : Outcome (Bytes × Bytes × String))
    → discover_pcp_ipv4 env found ≢ panic
    → discover_pcp_ipv6 env6 found6 ≢ panic
    → Discovered
        (discover_pcp_ipv4 env found)
        (discover_pcp_ipv6 env6 found6)
        (discover_pcp env env6 found found6)
unfolding discover_pcp
discover_pcp-clients env env6 found found6 h k =
    both_stacks-Discovered (discover_pcp_ipv4 env found) (discover_pcp_ipv6 env6 found6) h k
