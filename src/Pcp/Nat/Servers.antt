-- ===== src/Pcp/Nat/Servers.antt =====
-- pcp/nat.go: CheckServerHealth, which announces to both servers.
use go_nat.Base.{ℕ, Bool, false, ◌||◌, Option, some, none}
use go_nat.Base.Outcome.{wrap, join, Outcome, ok, err, panic, with_prefix}
use go_nat.Context.{Context, with_timeout}
use go_nat.Pcp.Client.State.{Client}
use go_nat.Pcp.Client.Epoch.{epoch_state_lost_of}
use go_nat.Pcp.Client.Mapping.{Env, announce}
use go_nat.Pcp.Nat.{World, Nat, pinhole_timeout, primary, set_primary}

-- Announce, and where it succeeds EpochStateLost, which clears the flag.
unfoldable pub announced : Env → Client → Client × Outcome (ℕ × Bool)
announced env c =
    let (c', r) = announce env c in
    elim r [
      | ok epoch ↦ let (c'', lost) = epoch_state_lost_of c' in (c'', ok (epoch, lost))
      | err e ↦ (c', err e)
      | panic ↦ (c', panic)
    ]

-- What CheckServerHealth makes of the answers of the two servers, the primary one first.
abbrev pub combine_health : Outcome (ℕ × Bool) → Outcome (ℕ × Bool) → Outcome (ℕ × Bool)
combine_health (ok (epoch, restarted)) (ok (epoch6, restarted6)) =
    ok (epoch, restarted || restarted6)
combine_health (ok (epoch, restarted)) (err e6) = ok (epoch, restarted || false)
combine_health (err e) (ok (epoch6, restarted6)) = ok (epoch6, restarted6)
combine_health (err e) (err e6) = err (wrap "announce" (join e "; pcp ipv6: " e6))
combine_health panic r = panic
combine_health (ok p) panic = panic
combine_health (err e) panic = panic

-- Both clients, which are announced to concurrently.
abbrev pub dual_stack : Nat → Option (Client × Client)
dual_stack n = elim n.client [
  | none ↦ none
  | some c ↦ elim n.client6 [ none ↦ none | some c6 ↦ some (c, c6) ]
]

unfoldable pub check_both :
    World → World → Context → Nat → Client × Client → Nat × Outcome (ℕ × Bool)
check_both w4 w6 ctx n (c, c6) =
    let (c6', r6) = announced (w6 (with_timeout pinhole_timeout ctx)) c6 in
    let (c', r) = announced (w4 ctx) c in
    (record n { client = some c'; client6 = some c6' }, combine_health r r6)

unfoldable pub check_one : World → Context → Nat → Nat × Outcome (ℕ × Bool)
check_one w ctx n = elim (primary n) [
  | ok c ↦ let (c', r) = announced (w ctx) c in (set_primary n c', with_prefix "announce" r)
  | err e ↦ (n, err e)
  | panic ↦ (n, panic)
]

-- NAT.CheckServerHealth; without an IPv4 client the primary is the IPv6 one, on its own world.
unfoldable pub check_server_health : World → World → Context → Nat → Nat × Outcome (ℕ × Bool)
check_server_health w4 w6 ctx n = elim (dual_stack n) [
  | some both ↦ check_both w4 w6 ctx n both
  | none ↦ check_one (elim n.client [ some c ↦ w4 | none ↦ w6 ]) ctx n
]
