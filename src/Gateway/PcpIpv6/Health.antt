-- ===== src/Gateway/PcpIpv6/Health.antt =====
-- CheckServerHealth of natWithPCPIPv6: what it reports of the two servers.
use go_nat.Base.{ℕ, ◌≡◌, refl, ◌≢◌, ◌↔◌, ◌⊎◌, inl, inr, Bool, true, false, some, none, arith}
use go_nat.Base.Iff.{both_iff, either_iff, iff_trans}
use go_nat.Base.Outcome.{Error, Outcome, ok, err, panic, Outcome-cases}
use go_nat.Context.{Context, with_timeout}
use go_nat.Gateway.PcpIpv6.{
  PcpIpv6Client, NatMethods, NatWithPcpIpv6, pinhole_timeout, announced, check_with,
  check_server_health, combine_health, health_of_pcp6,
}

abbrev pub Fails : Outcome (ℕ × Bool) → Type 0
Fails r = (e : Error) × (r ≡ err e)

-- A health check that reports a restart.
abbrev pub Restarted : Outcome (ℕ × Bool) → Type 0
Restarted r = (epoch : ℕ) × (r ≡ ok (epoch, true))

combine_health-Fails :
    (r r6 : Outcome (ℕ × Bool))
    → r ≢ panic
    → r6 ≢ panic
    → Fails (combine_health r r6) ↔ (Fails r × Fails r6)
combine_health-Fails (ok (p, b)) (ok (p6, b6)) h k =
    (λ (e, q). absurd (ground arith), λ ((e, q), s). absurd (ground arith))
combine_health-Fails (ok (p, b)) (err e6) h k =
    (λ (e, q). absurd (ground arith), λ ((e, q), s). absurd (ground arith))
combine_health-Fails (err e) (ok (p6, b6)) h k =
    (λ (e, q). absurd (ground arith), λ (s, (e, q)). absurd (ground arith))
combine_health-Fails (err e) (err e6) h k = (λ q. ((e, refl), (e6, refl)), λ q. (_, refl))
combine_health-Fails panic r6 h k = absurd (h refl)
combine_health-Fails (ok (p, b)) panic h k = absurd (k refl)
combine_health-Fails (err e) panic h k = absurd (k refl)

combine_health-Restarted :
    (r r6 : Outcome (ℕ × Bool))
    → r ≢ panic
    → r6 ≢ panic
    → Restarted (combine_health r r6) ↔ (Restarted r ⊎ Restarted r6)
combine_health-Restarted (ok (p, true)) (ok (p6, b6)) h k = (λ q. inl (p, refl), λ q. (p, refl))
combine_health-Restarted (ok (p, false)) (ok (p6, true)) h k = (λ q. inr (p6, refl), λ q. (p, refl))
combine_health-Restarted (ok (p, false)) (ok (p6, false)) h k =
    (λ q. absurd (ground arith), λ q. absurd (ground arith))
combine_health-Restarted (ok (p, true)) (err e6) h k = (λ q. inl (p, refl), λ q. (p, refl))
combine_health-Restarted (ok (p, false)) (err e6) h k =
    (λ q. absurd (ground arith), λ q. absurd (ground arith))
combine_health-Restarted (err e) (ok (p6, true)) h k = (λ q. inr (p6, refl), λ q. (p6, refl))
combine_health-Restarted (err e) (ok (p6, false)) h k =
    (λ q. absurd (ground arith), λ q. absurd (ground arith))
combine_health-Restarted (err e) (err e6) h k =
    (λ q. absurd (ground arith), λ q. absurd (ground arith))
combine_health-Restarted panic r6 h k = absurd (h refl)
combine_health-Restarted (ok (p, b)) panic h k = absurd (k refl)
combine_health-Restarted (err e) panic h k = absurd (k refl)

-- The answer of the IPv6 server, under its own timeout.
abbrev pub health6 :
    {N C : Type 0} → PcpIpv6Client C → Context → NatWithPcpIpv6 N C → Outcome (ℕ × Bool)
health6 pcp6 ctx n = (announced pcp6 (with_timeout pinhole_timeout ctx) n.pcp6).1

-- The announcement, under its own timeout.
abbrev pub announcement6 :
    {N C : Type 0} → PcpIpv6Client C → Context → NatWithPcpIpv6 N C → C × Outcome ℕ
announcement6 pcp6 ctx n = pcp6.announce (with_timeout pinhole_timeout ctx) n.pcp6

-- The IPv6 server answered the announcement, and EpochStateLost of its client says so then.
abbrev pub Lost6 : {C : Type 0} → PcpIpv6Client C → C × Outcome ℕ → Type 0
Lost6 pcp6 (c6, r) = (epoch : ℕ) × (r ≡ ok epoch) × ((pcp6.epoch_state_lost c6).1 ≡ true)

module _ {C : Type 0} (pcp6 : PcpIpv6Client C) (ctx : Context) (c6 : C) where
  announced-Fails :
      Fails (announced pcp6 ctx c6).1 ↔ ((e : Error) × ((pcp6.announce ctx c6).1 ≡ err e))
  unfolding announced
  announced-Fails = elim (Outcome-cases (pcp6.announce ctx c6).1) [
    | inl (epoch, e) ↦ rw (announced, e) (λ p. absurd (ground arith), λ p. absurd (ground arith))
    | inr (inl (x, e)) ↦ rw (announced, e) (λ p. (x, refl), λ p. (x, refl))
    | inr (inr e) ↦ rw (announced, e) (λ p. absurd (ground arith), λ p. absurd (ground arith))
  ]

  announced-Restarted : Restarted (announced pcp6 ctx c6).1 ↔ Lost6 pcp6 (pcp6.announce ctx c6)
  unfolding announced
  announced-Restarted = elim (Outcome-cases (pcp6.announce ctx c6).1) [
    | inl (epoch, e) ↦
        rw (announced, e)
          (λ (k, p). (epoch, refl, ground arith), λ (k, p, q). (epoch, ground arith))
    | inr (inl (x, e)) ↦ rw (announced, e) (λ p. absurd (ground arith), λ p. absurd (ground arith))
    | inr (inr e) ↦ rw (announced, e) (λ p. absurd (ground arith), λ p. absurd (ground arith))
  ]

  announced-ne-panic : (pcp6.announce ctx c6).1 ≢ panic → (announced pcp6 ctx c6).1 ≢ panic
  unfolding announced
  announced-ne-panic h = elim (Outcome-cases (pcp6.announce ctx c6).1) [
    | inl (epoch, e) ↦ rw (announced, e) (λ p. cc)
    | inr (inl (x, e)) ↦ rw (announced, e) (λ p. cc)
    | inr (inr e) ↦ absurd (h e)
  ]

module _ {N C : Type 0} (nat : NatMethods N) (pcp6 : PcpIpv6Client C) (ctx : Context)
    (n : NatWithPcpIpv6 N C) where
  -- With a NAT that is a HealthChecker, CheckServerHealth fails only where both it and the IPv6 server
  -- fail, and reports a restart exactly where the NAT's own check reports one or the IPv6 server has
  -- answered and EpochStateLost of its client, asked after that answer, is true; both calls return.
  pub check_server_health-both :
      (check : Context → N → N × Outcome (ℕ × Bool))
      → nat.check_server_health ≡ some check
      → (check ctx n.nat).1 ≢ panic
      → (announcement6 pcp6 ctx n).1 ≢ panic
      → let r = (check_server_health nat pcp6 ctx n).1 in
        (Fails r
          ↔ (Fails (check ctx n.nat).1 × ((e : Error) × ((announcement6 pcp6 ctx n).1 ≡ err e))))
        × (Restarted r ↔ (Restarted (check ctx n.nat).1 ⊎ Lost6 pcp6 (announcement6 pcp6 ctx n)))
  unfolding check_server_health check_with
  check_server_health-both check has h k = rw has (
    iff_trans (combine_health-Fails _ _ h (announced-ne-panic pcp6 _ n.pcp6 k))
        (both_iff (λ p. p, λ p. p) (announced-Fails pcp6 _ n.pcp6)),
    iff_trans (combine_health-Restarted _ _ h (announced-ne-panic pcp6 _ n.pcp6 k))
        (either_iff (λ p. p, λ p. p) (announced-Restarted pcp6 _ n.pcp6)),
  )

  -- With a NAT that is none, as UPnP and NAT-PMP are, the answer is the IPv6 server's alone, the epoch
  -- included, and the NAT is not touched.
  pub check_server_health-pcp6 :
      nat.check_server_health ≡ none
      → let (n', r) = check_server_health nat pcp6 ctx n in
        (n'.nat ≡ n.nat)
        × (n'.pinhole_err ≡ n.pinhole_err)
        × (n'.pcp6 ≡ (announced pcp6 (with_timeout pinhole_timeout ctx) n.pcp6).0)
        × (r ≡ health_of_pcp6 (health6 pcp6 ctx n))
  unfolding check_server_health check_with
  check_server_health-pcp6 has = rw has (refl, refl, refl, refl)
