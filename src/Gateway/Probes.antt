-- ===== src/Gateway/Probes.antt =====
-- pcp.go: the probes for PCP, each of which sends what it finds to a channel with room for it.
use Prim.Native.Nat.{ℕ, ◌*◌}
use go_nat.Base.{List, [], ◌∷◌}
use go_nat.Base.Outcome.{Outcome, ok, err, panic}
use go_nat.Context.{Context, with_timeout}
use go_nat.Pcp.Client.State.{second}

abbrev pub pcp_probe_timeout : ℕ
pcp_probe_timeout = 2 * second

-- `if err == nil`
abbrev pub found {ℓ} : {A : Type ℓ} → Outcome A → Outcome (List A)
found (ok gateway) = ok (gateway ∷ [])
found (err e) = ok []
found panic = panic

-- What a probe sends, on a context that ends after two seconds.
unfoldable pub probe {ℓ} : {A : Type ℓ} → (Context → Outcome A) → Context → Outcome (List A)
probe discover ctx = found (discover (with_timeout pcp_probe_timeout ctx))

-- The arguments are pcp.DiscoverPCP and pcp.DiscoverPCPIPv4, whose *pcp.NAT goes out as a NAT, and
-- pcp.DiscoverPCPIPv6, whose *pcp.Client goes out as a pcpIPv6Client.
unfoldable pub discover_pcp_nat : {G : Type 0} → (Context → Outcome G) → Context → Outcome (List G)
discover_pcp_nat discover ctx = probe discover ctx

unfoldable pub discover_pcp_v4 : {G : Type 0} → (Context → Outcome G) → Context → Outcome (List G)
discover_pcp_v4 discover ctx = probe discover ctx

unfoldable pub discover_pcp_v6 : {C : Type 0} → (Context → Outcome C) → Context → Outcome (List C)
discover_pcp_v6 discover ctx = probe discover ctx
