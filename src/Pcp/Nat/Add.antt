-- ===== src/Pcp/Nat/Add.antt =====
-- AddPortMapping and DeletePortMapping of the dual-stack NAT: the pinhole is best effort, and its
-- error is the report of what became of it.
use go_nat.Base.{ℕ, ◌≡◌, refl, ◌≢◌, ◌↔◌, Option, some, none, String, arith}
use go_nat.Base.Int.{ℤ}
use go_nat.Base.Outcome.{
  Error, sentinel, wrap, join, pcp_err_pinhole_rolled_back, pcp_err_pinhole_left_open, Outcome, ok,
  err, panic, error_of, map_ok, with_prefix,
}
use go_nat.Context.{Context, with_timeout, without_cancel}
use go_nat.Pcp.Protocol.{MapResponse}
use go_nat.Pcp.Client.State.{Client}
use go_nat.Pcp.Client.Mapping.{add_port_mapping, delete_port_mapping}
use go_nat.Pcp.Client.Mapping.Calm.{IsCalm, add_port_mapping-ne-panic, delete_port_mapping-ne-panic}
use go_nat.Pcp.Nat.{
  World, Nat, pinhole_timeout, external_port_of, add_mapping, add_with_client, finish_add,
  after_rollback, rollback_pinhole, set_pinhole_err, ipv6_pinhole_error, wrap_pinhole,
}
use go_nat.Pcp.Nat.Delete.{delete_mapping, delete_with_client, finish_delete}

-- The environment of every operation of a client returns.
abbrev pub CalmWorld : World → Type 0
CalmWorld w = (ctx : Context) → IsCalm (w ctx)

-- What AddPortMapping answers where the IPv4 mapping ended with `r`.
abbrev pub mapped : Outcome MapResponse → Outcome ℕ
mapped r = with_prefix "add mapping" (map_ok external_port_of r)

after_rollback-mapped :
    (n : Nat) (e : Error) (p : Client × Outcome (Unit {0}))
    → p.1 ≢ panic
    → (after_rollback n e p).1 ≡ err (wrap "add mapping" e)
after_rollback-mapped n e (c6, ok u) h = refl
after_rollback-mapped n e (c6, err x) h = refl
after_rollback-mapped n e (c6, panic) h = absurd (h refl)

after_rollback-report :
    (n : Nat) (e : Error) (p : Client × Outcome (Unit {0}))
    → p.1 ≢ panic
    → (after_rollback n e p).0.pinhole_err ≢ none
unfolding set_pinhole_err
after_rollback-report n e (c6, ok u) h = λ q. ground arith
after_rollback-report n e (c6, err x) h = λ q. ground arith
after_rollback-report n e (c6, panic) h = absurd (h refl)

-- The report of a rollback: closed again, or left open with the reason.
abbrev pub rollback_report : Outcome (Unit {0}) → Option Error
rollback_report (ok _) = some (wrap "pcp ipv6" (sentinel pcp_err_pinhole_rolled_back))
rollback_report (err x) = some (wrap "pcp ipv6" (join (sentinel pcp_err_pinhole_left_open) ": " x))
rollback_report panic = none

after_rollback-client6 :
    (n : Nat) (e : Error) (p : Client × Outcome (Unit {0}))
    → p.1 ≢ panic
    → ((after_rollback n e p).0.pinhole_err ≡ rollback_report p.1)
      × ((after_rollback n e p).0.client6 ≡ some p.0)
unfolding set_pinhole_err
after_rollback-client6 n e (c6, ok u) h = (refl, refl)
after_rollback-client6 n e (c6, err x) h = (refl, refl)
after_rollback-client6 n e (c6, panic) h = absurd (h refl)

module _ (w6 : World) (ctx : Context) (protocol : String) (i : ℤ) (c6 : Client) (n : Nat) where
  finish_add-mapped :
      (r6 r : Outcome MapResponse)
      → r6 ≢ panic
      → r ≢ panic
      → (rollback_pinhole w6 ctx protocol i c6).1 ≢ panic
      → (finish_add w6 ctx protocol i c6 n r6 r).1 ≡ mapped r
  unfolding finish_add
  finish_add-mapped (ok m6) (ok m) h k l = refl
  finish_add-mapped (err e6) (ok m) h k l = refl
  finish_add-mapped (ok m6) (err e) h k l = after_rollback-mapped n e _ l
  finish_add-mapped (err e6) (err e) h k l = refl
  finish_add-mapped panic r h k l = absurd (h refl)
  finish_add-mapped (ok m6) panic h k l = absurd (k refl)
  finish_add-mapped (err e6) panic h k l = absurd (k refl)

  -- The report is empty only if both mappings were made.
  finish_add-report :
      (r6 r : Outcome MapResponse)
      → r6 ≢ panic
      → r ≢ panic
      → (rollback_pinhole w6 ctx protocol i c6).1 ≢ panic
      → ((finish_add w6 ctx protocol i c6 n r6 r).0.pinhole_err ≡ none)
        ↔ (((m6 : MapResponse) × (r6 ≡ ok m6)) × ((m : MapResponse) × (r ≡ ok m)))
  unfolding finish_add set_pinhole_err
  finish_add-report (ok m6) (ok m) h k l = (λ _. ((m6, refl), (m, refl)), λ _. refl)
  finish_add-report (err e6) (ok m) h k l = (λ p. absurd (ground arith), λ p. absurd (ground arith))
  finish_add-report (ok m6) (err e) h k l =
      (λ p. absurd (after_rollback-report n e _ l p), λ p. absurd (ground arith))
  finish_add-report (err e6) (err e) h k l =
      (λ p. absurd (ground arith), λ p. absurd (ground arith))
  finish_add-report panic r h k l = absurd (h refl)
  finish_add-report (ok m6) panic h k l = absurd (k refl)
  finish_add-report (err e6) panic h k l = absurd (k refl)

finish_delete_lem :
    (n : Nat) (r6 r : Outcome (Unit {0}))
    → r6 ≢ panic
    → r ≢ panic
    → ((finish_delete n r6 r).1 ≡ with_prefix "delete mapping" r)
      × ((finish_delete n r6 r).0.pinhole_err ≡ wrap_pinhole (error_of r6))
unfolding set_pinhole_err
finish_delete_lem n (ok u) (ok v) h k = (refl, refl)
finish_delete_lem n (ok u) (err e) h k = (refl, refl)
finish_delete_lem n (err e6) (ok v) h k = (refl, refl)
finish_delete_lem n (err e6) (err e) h k = (refl, refl)
finish_delete_lem n panic r h k = absurd (h refl)
finish_delete_lem n (ok u) panic h k = absurd (k refl)
finish_delete_lem n (err e6) panic h k = absurd (k refl)

-- The two calls that AddPortMapping makes side by side, the pinhole's under its own timeout, and the
-- delete that takes the pinhole back.
abbrev pub pinhole : World → Context → String → ℤ → ℤ → Client → Client × Outcome MapResponse
pinhole w6 ctx protocol i timeout c6 =
    add_port_mapping (w6 (with_timeout pinhole_timeout ctx)) protocol i timeout c6

abbrev pub ipv4 : World → Context → String → ℤ → ℤ → Client → Client × Outcome MapResponse
ipv4 w4 ctx protocol i timeout c = add_port_mapping (w4 ctx) protocol i timeout c

abbrev pub rollback : World → Context → String → ℤ → ℤ → Client → Client × Outcome (Unit {0})
rollback w6 ctx protocol i timeout c6 =
    delete_port_mapping (w6 (with_timeout pinhole_timeout (without_cancel ctx))) protocol i
      (pinhole w6 ctx protocol i timeout c6).0

module _ (w4 w6 : World) (ctx : Context) (protocol : String) (i timeout : ℤ) (n : Nat)
    (c c6 : Client) (calm4 : CalmWorld w4) (calm6 : CalmWorld w6) (has4 : n.client ≡ some c)
    (has6 : n.client6 ≡ some c6) where
  rollback-ne-panic : (rollback w6 ctx protocol i timeout c6).1 ≢ panic
  rollback-ne-panic =
      delete_port_mapping-ne-panic (w6 (with_timeout pinhole_timeout (without_cancel ctx)))
        (calm6 (with_timeout pinhole_timeout (without_cancel ctx))) protocol i
        (pinhole w6 ctx protocol i timeout c6).0

  pinhole-ne-panic : (pinhole w6 ctx protocol i timeout c6).1 ≢ panic
  pinhole-ne-panic =
      add_port_mapping-ne-panic (w6 (with_timeout pinhole_timeout ctx))
        (calm6 (with_timeout pinhole_timeout ctx)) protocol i timeout c6

  ipv4-ne-panic : (ipv4 w4 ctx protocol i timeout c).1 ≢ panic
  ipv4-ne-panic = add_port_mapping-ne-panic (w4 ctx) (calm4 ctx) protocol i timeout c

  add_mapping_split :
      add_mapping w4 w6 ctx protocol i timeout n
      ≡ finish_add w6 ctx protocol i
          (pinhole w6 ctx protocol i timeout c6).0
          (record n {
            client = some (ipv4 w4 ctx protocol i timeout c).0;
            client6 = some (pinhole w6 ctx protocol i timeout c6).0;
          })
          (pinhole w6 ctx protocol i timeout c6).1
          (ipv4 w4 ctx protocol i timeout c).1
  unfolding add_mapping add_with_client
  add_mapping_split = rw (has4, has6, add_with_client) refl

  -- With both clients, AddPortMapping answers what the IPv4 mapping answers, whatever the IPv6 server
  -- does, and IPv6PinholeError is nil exactly where both the mapping and the pinhole were made.
  pub add_mapping-best_effort :
      ((add_mapping w4 w6 ctx protocol i timeout n).1 ≡ mapped (ipv4 w4 ctx protocol i timeout c).1)
      × ((ipv6_pinhole_error (add_mapping w4 w6 ctx protocol i timeout n).0 ≡ none) ↔ (
          ((m6 : MapResponse) × ((pinhole w6 ctx protocol i timeout c6).1 ≡ ok m6))
          × ((m : MapResponse) × ((ipv4 w4 ctx protocol i timeout c).1 ≡ ok m))))
  unfolding ipv6_pinhole_error rollback_pinhole
  add_mapping-best_effort = rw add_mapping_split (
    finish_add-mapped w6 ctx protocol i (pinhole w6 ctx protocol i timeout c6).0 _
        (pinhole w6 ctx protocol i timeout c6).1 (ipv4 w4 ctx protocol i timeout c).1
        pinhole-ne-panic ipv4-ne-panic rollback-ne-panic,
    finish_add-report w6 ctx protocol i (pinhole w6 ctx protocol i timeout c6).0 _
        (pinhole w6 ctx protocol i timeout c6).1 (ipv4 w4 ctx protocol i timeout c).1
        pinhole-ne-panic ipv4-ne-panic rollback-ne-panic,
  )

  -- A pinhole that was opened beside a failed IPv4 mapping is deleted again, on context.WithoutCancel
  -- of the caller's context under the pinhole's own timeout; the IPv6 client is the one behind that delete, and the report
  -- says whether the pinhole was closed or is left open.
  pub add_mapping-rollback :
      (m6 : MapResponse) (e : Error)
      → (pinhole w6 ctx protocol i timeout c6).1 ≡ ok m6
      → (ipv4 w4 ctx protocol i timeout c).1 ≡ err e
      → let n' = (add_mapping w4 w6 ctx protocol i timeout n).0 in
        (n'.client6 ≡ some (rollback w6 ctx protocol i timeout c6).0)
        × (ipv6_pinhole_error n' ≡ rollback_report (rollback w6 ctx protocol i timeout c6).1)
  unfolding ipv6_pinhole_error finish_add rollback_pinhole
  add_mapping-rollback m6 e p q =
      let (report, left) =
        after_rollback-client6 n' e (rollback w6 ctx protocol i timeout c6) rollback-ne-panic in
      rw (add_mapping_split, p, q, finish_add) (left, report)
    where
      n' : Nat
      n' = record n {
        client = some (ipv4 w4 ctx protocol i timeout c).0;
        client6 = some (pinhole w6 ctx protocol i timeout c6).0;
      }

  -- With both clients, DeletePortMapping answers what deleting the IPv4 mapping answers, and
  -- IPv6PinholeError is what deleting the pinhole answered.
  pub delete_mapping-best_effort :
      let r6 = delete_port_mapping (w6 (with_timeout pinhole_timeout ctx)) protocol i c6 in
      let r = delete_port_mapping (w4 ctx) protocol i c in
      let done = delete_mapping w4 w6 ctx protocol i n in
      (done.1 ≡ with_prefix "delete mapping" r.1)
      × (ipv6_pinhole_error done.0 ≡ wrap_pinhole (error_of r6.1))
  unfolding ipv6_pinhole_error delete_mapping delete_with_client
  delete_mapping-best_effort =
      rw (has4, has6, delete_with_client)
        (finish_delete_lem _ _ _
          (delete_port_mapping-ne-panic (w6 (with_timeout pinhole_timeout ctx))
            (calm6 (with_timeout pinhole_timeout ctx)) protocol i c6)
          (delete_port_mapping-ne-panic (w4 ctx) (calm4 ctx) protocol i c))
