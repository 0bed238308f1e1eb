-- ===== src/Gateway/Selection.antt =====
-- nat.go: selectGateway and gatewaySelection. The results of the three probes reach the loop as a
-- sequence of receives, in whatever order the scheduler picks.
pub mod Order
pub mod Deadline
mod Examples
use go_nat.Base.{Bool, true, false, not, ◌&&◌, ◌||◌, Option, some, none, List, [], ◌∷◌}
use go_nat.Base.Tests.{if◌then◌else◌, is_some}
use go_nat.Base.Outcome.{Error, sentinel, join, err_no_nat_found, Outcome, ok, err, panic}

-- `G` are the gateways and `C` the PCP clients for IPv6; `none` is nil.
pub record GatewaySelection (G C : Type 0) : Type 0 where
  pub pcp4 : Option G
  pub pcp6 : Option C
  pub fallback : Option G

-- One receive of the select statement. `none` is what a closed channel gives.
pub data Receive (G C : Type 0) : Type 0 where
  from_pcp4 : Option G → Receive G C
  from_pcp6 : Option C → Receive G C
  from_fallback : Option G → Receive G C

-- What the select statement of the loop chooses: a receive, or that the context is done. Then comes
-- with it what can be read without waiting, before `default` is taken.
pub data Event (G C : Type 0) : Type 0 where
  received : Receive G C → Event G C
  ctx_done : List (Receive G C) → Event G C

-- The local variables of selectGateway: whether each channel is not nil, and what was found.
pub record Search (G C : Type 0) : Type 0 where
  pub pcp4s : Bool
  pub pcp6s : Bool
  pub fallbacks : Bool
  pub found : GatewaySelection G C

-- The error that the caller gets, by what ctx.Err() says at the end.
unfoldable pub explain {ℓ} : {G : Type ℓ} → Option Error → Outcome G → Outcome G
explain (some cause) (err e) = err (join e ": " cause)
explain none (err e) = err e
explain ctx_err (ok gateway) = ok gateway
explain ctx_err panic = panic

module _ {G C : Type 0} where
  abbrev pub keep_pcp4 : Option G → GatewaySelection G C → GatewaySelection G C
  keep_pcp4 none s = s
  keep_pcp4 (some gateway) s = record s { pcp4 = some gateway }

  abbrev pub keep_pcp6 : Option C → GatewaySelection G C → GatewaySelection G C
  keep_pcp6 none s = s
  keep_pcp6 (some client) s = record s { pcp6 = some client }

  abbrev pub keep_fallback : Option G → GatewaySelection G C → GatewaySelection G C
  keep_fallback none s = s
  keep_fallback (some gateway) s =
      if is_some s.fallback then s else record s { fallback = some gateway }

  -- A receive from a nil channel never happens, so that it changes nothing here.
  unfoldable pub receive : Receive G C → Search G C → Search G C
  receive (from_pcp4 r) s =
      if s.pcp4s then record s { pcp4s = false; found = keep_pcp4 r s.found } else s
  receive (from_pcp6 r) s =
      if s.pcp6s then record s { pcp6s = false; found = keep_pcp6 r s.found } else s
  receive (from_fallback r) s =
      if s.fallbacks then record s { fallbacks = is_some r; found = keep_fallback r s.found } else s

  abbrev pub settled : Search G C → Bool
  settled s =
      not s.pcp4s
      && not s.pcp6s
      && (is_some s.found.pcp4 || is_some s.found.fallback || not s.fallbacks)

  -- The inner loop, which ends with all channels nil: either each was read, or `default` sets them so.
  unfoldable pub drain : List (Receive G C) → Search G C → Search G C
  drain [] s = record s { pcp4s = false; pcp6s = false; fallbacks = false }
  drain (r ∷ rs) s = drain rs (receive r s)

  unfoldable pub handle : Event G C → Search G C → Search G C
  handle (received r) s = receive r s
  handle (ctx_done ready) s = drain ready s

  -- The outer loop over the events that the select statements choose.
  unfoldable pub wait : List (Event G C) → Search G C → Search G C
  wait [] s = s
  wait (e ∷ es) s = let rest = wait es (handle e s) in if settled s then s else rest

  abbrev pub start : Search G C
  start = record {
    pcp4s = true;
    pcp6s = true;
    fallbacks = true;
    found = record { pcp4 = none; pcp6 = none; fallback = none };
  }

  -- gatewaySelection.gateway; `with_pcp6` is newNATWithPCPIPv6.
  unfoldable pub add_pinholes : (G → C → G) → Option C → G → G
  add_pinholes with_pcp6 none gateway = gateway
  add_pinholes with_pcp6 (some client) gateway = with_pcp6 gateway client

  unfoldable pub gateway_of : (G → C → G) → GatewaySelection G C → Outcome G
  gateway_of with_pcp6 s = elim s.pcp4 [
    | some gateway ↦ ok (add_pinholes with_pcp6 s.pcp6 gateway)
    | none ↦ elim s.fallback [
      | some gateway ↦ ok (add_pinholes with_pcp6 s.pcp6 gateway)
      | none ↦ err (sentinel err_no_nat_found)
    ]
  ]

  -- `none` where the events end before the loop does: it still waits.
  unfoldable pub select_gateway : (G → C → G) → Option Error → List (Event G C) → Option (Outcome G)
  select_gateway with_pcp6 ctx_err es =
      let end = wait es start in
      if settled end then some (explain ctx_err (gateway_of with_pcp6 end.found)) else none
