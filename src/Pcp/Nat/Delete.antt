-- ===== src/Pcp/Nat/Delete.antt =====
-- pcp/nat.go: DeletePortMapping, with and without an IPv6 client.
use go_nat.Base.{Option, some, none, String}
use go_nat.Base.Int.{ℤ}
use go_nat.Base.Outcome.{wrap, Outcome, ok, err, panic, with_prefix}
use go_nat.Context.{Context, with_timeout}
use go_nat.Pcp.Client.State.{Client}
use go_nat.Pcp.Client.Mapping.{delete_port_mapping}
use go_nat.Pcp.Nat.{World, Nat, pinhole_timeout, set_pinhole_err, nil_client_request, finish_single}

abbrev pub finish_delete : Nat → Outcome (Unit {0}) → Outcome (Unit {0}) → Nat × Outcome (Unit {0})
finish_delete n panic r = (n, panic)
finish_delete n (ok _) panic = (n, panic)
finish_delete n (err e6) panic = (n, panic)
finish_delete n (ok _) (ok _) = (set_pinhole_err none n, ok tt)
finish_delete n (err e6) (ok _) = (set_pinhole_err (some e6) n, ok tt)
finish_delete n (ok _) (err e) = (set_pinhole_err none n, err (wrap "delete mapping" e))
finish_delete n (err e6) (err e) = (set_pinhole_err (some e6) n, err (wrap "delete mapping" e))

unfoldable pub delete_with_client :
    World → World → Context → String → ℤ → Nat → Client → Option Client → Nat × Outcome (Unit {0})
delete_with_client w4 w6 ctx protocol internal_port n c none =
    let (c', r) = delete_port_mapping (w4 ctx) protocol internal_port c in
    finish_delete (record n { client = some c' }) (ok tt) r
delete_with_client w4 w6 ctx protocol internal_port n c (some c6) =
    let (c6', r6) =
      delete_port_mapping (w6 (with_timeout pinhole_timeout ctx)) protocol internal_port c6 in
    let (c', r) = delete_port_mapping (w4 ctx) protocol internal_port c in
    finish_delete (record n { client = some c'; client6 = some c6' }) r6 r

unfoldable pub delete_without_client :
    World → Context → String → ℤ → Nat → Option Client → Nat × Outcome (Unit {0})
delete_without_client w6 ctx protocol internal_port n none =
    finish_single "delete mapping" n
      (with_prefix "delete mapping" (nil_client_request internal_port))
delete_without_client w6 ctx protocol internal_port n (some c6) =
    let (c6', r6) = delete_port_mapping (w6 ctx) protocol internal_port c6 in
    finish_single "delete mapping" (record n { client6 = some c6' }) r6

-- NAT.DeletePortMapping
unfoldable pub delete_mapping :
    World → World → Context → String → ℤ → Nat → Nat × Outcome (Unit {0})
delete_mapping w4 w6 ctx protocol internal_port n = elim n.client [
  | none ↦ delete_without_client w6 ctx protocol internal_port n n.client6
  | some c ↦ delete_with_client w4 w6 ctx protocol internal_port n c n.client6
]
