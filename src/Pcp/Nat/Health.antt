-- ===== src/Pcp/Nat/Health.antt =====
-- CheckServerHealth of the dual-stack NAT.
use go_nat.Base.{ℕ, ◌≡◌, refl, ◌≢◌, ◌↔◌, ◌⊎◌, inl, inr, Bool, true, false, some, arith}
use go_nat.Base.Iff.{both_iff, either_iff, iff_trans}
use go_nat.Base.Outcome.{Error, Outcome, ok, err, panic, Outcome-cases}
use go_nat.Context.{Context, with_timeout}
use go_nat.Pcp.Client.State.{Client}
use go_nat.Pcp.Client.Epoch.{epoch_state_lost_of}
use go_nat.Pcp.Client.Mapping.{Env, announce}
use go_nat.Pcp.Client.Mapping.Calm.{IsCalm, announce-ne-panic}
use go_nat.Pcp.Nat.Add.{CalmWorld}
use go_nat.Pcp.Nat.{World, Nat, pinhole_timeout}
use go_nat.Pcp.Nat.Servers.{announced, combine_health, check_both, check_server_health}

-- A health check that reports a restart.
abbrev pub Flagged : Outcome (ℕ × Bool) → Type 0
Flagged o = (epoch : ℕ) × (o ≡ ok (epoch, true))

abbrev pub Fails {ℓ} : {A : Type ℓ} → Outcome A → Type ℓ
Fails o = (e : Error) × (o ≡ err e)

combine_health-Fails :
    (r r6 : Outcome (ℕ × Bool))
    → r ≢ panic
    → r6 ≢ panic
    → Fails (combine_health r r6) ↔ (Fails r × Fails r6)
combine_health-Fails (ok (a, x)) (ok (b, y)) h k =
    (λ p. absurd (ground arith), λ p. absurd (ground arith))
combine_health-Fails (ok (a, x)) (err f) h k =
    (λ p. absurd (ground arith), λ p. absurd (ground arith))
combine_health-Fails (err e) (ok (b, y)) h k =
    (λ p. absurd (ground arith), λ p. absurd (ground arith))
combine_health-Fails (err e) (err f) h k = (λ _. ((e, refl), (f, refl)), λ _. (_, refl))
combine_health-Fails panic r6 h k = absurd (h refl)
combine_health-Fails (ok p) panic h k = absurd (k refl)
combine_health-Fails (err e) panic h k = absurd (k refl)

combine_health-Flagged :
    (r r6 : Outcome (ℕ × Bool))
    → r ≢ panic
    → r6 ≢ panic
    → Flagged (combine_health r r6) ↔ (Flagged r ⊎ Flagged r6)
combine_health-Flagged (ok (a, true)) (ok (b, y)) h k = (λ _. inl (a, refl), λ _. (a, refl))
combine_health-Flagged (ok (a, false)) (ok (b, true)) h k = (λ _. inr (b, refl), λ _. (a, refl))
combine_health-Flagged (ok (a, false)) (ok (b, false)) h k =
    (λ p. absurd (ground arith), λ p. absurd (ground arith))
combine_health-Flagged (ok (a, true)) (err f) h k = (λ _. inl (a, refl), λ _. (a, refl))
combine_health-Flagged (ok (a, false)) (err f) h k =
    (λ p. absurd (ground arith), λ p. absurd (ground arith))
combine_health-Flagged (err e) (ok (b, true)) h k = (λ _. inr (b, refl), λ _. (b, refl))
combine_health-Flagged (err e) (ok (b, false)) h k =
    (λ p. absurd (ground arith), λ p. absurd (ground arith))
combine_health-Flagged (err e) (err f) h k =
    (λ p. absurd (ground arith), λ p. absurd (ground arith))
combine_health-Flagged panic r6 h k = absurd (h refl)
combine_health-Flagged (ok p) panic h k = absurd (k refl)
combine_health-Flagged (err e) panic h k = absurd (k refl)

-- The server answered the announcement, and its client holds a loss of state after it.
abbrev pub Lost : Client × Outcome ℕ → Type 0
Lost (c, r) = (epoch : ℕ) × (r ≡ ok epoch) × (c.epoch_state_lost ≡ true)

announced-Fails : (env : Env) (c : Client) → Fails (announced env c).1 ↔ Fails (announce env c).1
unfolding announced epoch_state_lost_of
announced-Fails env c = elim (Outcome-cases (announce env c).1) [
  | inl (epoch, e) ↦ rw (announced, e) (λ p. absurd (ground arith), λ p. absurd (ground arith))
  | inr (inl (x, e)) ↦ rw (announced, e) (λ p. (x, refl), λ p. (x, refl))
  | inr (inr e) ↦ rw (announced, e) (λ p. absurd (ground arith), λ p. absurd (ground arith))
]

announced-Flagged : (env : Env) (c : Client) → Flagged (announced env c).1 ↔ Lost (announce env c)
unfolding announced epoch_state_lost_of
announced-Flagged env c = elim (Outcome-cases (announce env c).1) [
  | inl (epoch, e) ↦
      rw (announced, e) (λ (k, p). (epoch, refl, ground arith), λ (k, p, q). (epoch, ground arith))
  | inr (inl (x, e)) ↦ rw (announced, e) (λ p. absurd (ground arith), λ p. absurd (ground arith))
  | inr (inr e) ↦ rw (announced, e) (λ p. absurd (ground arith), λ p. absurd (ground arith))
]

announced-ne-panic : (env : Env) (c : Client) → IsCalm env → (announced env c).1 ≢ panic
unfolding announced
announced-ne-panic env c calm = λ p. ground (arith, announce-ne-panic env calm c)

-- A loss of state that a check has reported is not reported again.
announced-clears :
    (env : Env) (c : Client) (p : ℕ × Bool)
    → (announced env c).1 ≡ ok p
    → (announced env c).0.epoch_state_lost ≡ false
unfolding announced epoch_state_lost_of
announced-clears env c p h = ground arith

cleared :
    (env : Env) (c : Client)
    → IsCalm env
    → Fails (announced env c).1
      ⊎ ((d : Client) × (some (announced env c).0 ≡ some d) × (d.epoch_state_lost ≡ false))
cleared env c calm = elim (Outcome-cases (announced env c).1) [
  | inl (p, e) ↦ inr ((announced env c).0, refl, announced-clears env c p e)
  | inr (inl (x, e)) ↦ inl (x, e)
  | inr (inr e) ↦ absurd (announced-ne-panic env c calm e)
]

-- What the two servers answer: the IPv6 one under its own timeout.
abbrev pub health4 : World → Context → Client → Client × Outcome (ℕ × Bool)
health4 w4 ctx c = announced (w4 ctx) c

abbrev pub health6 : World → Context → Client → Client × Outcome (ℕ × Bool)
health6 w6 ctx c6 = announced (w6 (with_timeout pinhole_timeout ctx)) c6

module _ (w4 w6 : World) (ctx : Context) (n : Nat) (c c6 : Client) (calm4 : CalmWorld w4)
    (calm6 : CalmWorld w6) (has4 : n.client ≡ some c) (has6 : n.client6 ≡ some c6) where
  check_split : check_server_health w4 w6 ctx n ≡ (
    record n { client = some (health4 w4 ctx c).0; client6 = some (health6 w6 ctx c6).0 },
    combine_health (health4 w4 ctx c).1 (health6 w6 ctx c6).1,
  )
  unfolding check_server_health check_both
  check_split = rw (has4, has6, check_both) refl

  -- With both clients, CheckServerHealth fails only where both servers fail to answer, and reports a
  -- restart exactly where a server has answered the announcement and its client holds a loss of state
  -- after it: an unreachable server is none.
  pub check_server_health-dual :
      (Fails (check_server_health w4 w6 ctx n).1 ↔ (
        Fails (announce (w4 ctx) c).1
        × Fails (announce (w6 (with_timeout pinhole_timeout ctx)) c6).1))
      × (Flagged (check_server_health w4 w6 ctx n).1 ↔ (
          Lost (announce (w4 ctx) c) ⊎ Lost (announce (w6 (with_timeout pinhole_timeout ctx)) c6)))
  check_server_health-dual = rw check_split (
    iff_trans
        (combine_health-Fails (health4 w4 ctx c).1 (health6 w6 ctx c6).1
          (announced-ne-panic (w4 ctx) c (calm4 ctx)) (announced-ne-panic _ c6 (calm6 _)))
        (both_iff (announced-Fails (w4 ctx) c) (announced-Fails _ c6)),
    iff_trans
        (combine_health-Flagged (health4 w4 ctx c).1 (health6 w6 ctx c6).1
          (announced-ne-panic (w4 ctx) c (calm4 ctx)) (announced-ne-panic _ c6 (calm6 _)))
        (either_iff (announced-Flagged (w4 ctx) c) (announced-Flagged _ c6)),
  )

  -- A restart that CheckServerHealth reports is not held for the next check: the flags of the servers
  -- that answered are cleared.
  pub check_server_health-clears :
      let n' = (check_server_health w4 w6 ctx n).0 in
      (Fails (health4 w4 ctx c).1
        ⊎ ((d : Client) × (n'.client ≡ some d) × (d.epoch_state_lost ≡ false)))
      × (Fails (health6 w6 ctx c6).1
          ⊎ ((d : Client) × (n'.client6 ≡ some d) × (d.epoch_state_lost ≡ false)))
  check_server_health-clears =
      rw check_split (
        cleared (w4 ctx) c (calm4 ctx),
        cleared (w6 (with_timeout pinhole_timeout ctx)) c6 (calm6 _),
      )
