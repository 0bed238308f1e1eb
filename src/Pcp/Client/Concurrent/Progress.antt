-- ===== src/Pcp/Client/Concurrent/Progress.antt =====
-- Operations on one client do not wait for each other forever.
use go_nat.Base.{ℕ, true, false, ◌≤◌, ◌<◌, ◌≡◌, ◌≢◌, refl, ◌⊎◌, inl, inr, some, arith}
use go_nat.Base.Tests.{◌==◌, ==_iff, Option-cases, Bool-cases}
use go_nat.Base.Outcome.{Outcome-cases}
use go_nat.Base.Assoc.{lookup}
use go_nat.Pcp.Client.State.{Client, MappingKey, mapping_key_eq}
use go_nat.Pcp.Client.Mapping.{Env, exchange}
use go_nat.Pcp.Client.Mapping.Calm.{IsCalm, exchange-ne-panic}
use go_nat.Pcp.Client.Concurrent.{
  Task, idle, waiting, locked, sent, served, answered, leaving, finished, System, Step, claim,
  serve, accept, fail_served, commits, release,
}
use go_nat.Pcp.Client.Concurrent.Invariant.{held, Inv}
use go_nat.Pcp.Client.Concurrent.NoLeak.{Inv-authorized}

-- How far an operation has come: it holds its lock from 2 to 6.
abbrev pub stage : Task → ℕ
stage idle = 0
stage (waiting call) = 1
stage (locked call) = 2
stage (sent call nonce) = 3
stage (served call nonce) = 4
stage (answered call nonce m) = 5
stage (leaving call o) = 6
stage (finished o) = 7

-- A step that takes task `i` further, and no other task.
abbrev pub Advances : System → ℕ → Type 0
Advances s i =
    (t : System) × Step s t
    × (stage (s.task i) < stage (t.task i))
    × ((j : ℕ) → (i == j) ≡ false → t.task j ≡ s.task j)

module _ (env : Env) (calm : IsCalm env) {s : System} (inv : Inv s) (i : ℕ) where
  pub holder-Advances : (p : Task) (k : MappingKey) → s.task i ≡ p → held p ≡ some k → Advances s i
  holder-Advances (locked call) k e h =
      (_, claim i call e, ground (arith, e, ==_iff i i), λ j n. rw n refl)
  holder-Advances (sent call nonce) k e h = (
    _,
    serve i call nonce e (Inv-authorized inv i call nonce e),
    ground (arith, e, ==_iff i i),
    λ j n. rw n refl,
  )
  holder-Advances (served call nonce) k e h =
      elim (Outcome-cases (exchange s.client env.rounds call nonce)) [
        | inl (m, o) ↦ (
          _,
          accept i call nonce env.rounds m e o,
          ground (arith, e, ==_iff i i),
          λ j n. rw n refl,
        )
        | inr (inl (x, o)) ↦ (
          _,
          fail_served i call nonce env.rounds x e o,
          ground (arith, e, ==_iff i i),
          λ j n. rw n refl,
        )
        | inr (inr o) ↦ absurd (exchange-ne-panic env calm s.client call nonce o)
      ]
  holder-Advances (answered call nonce m) k e h =
      (_, commits i call nonce m env.now e, ground (arith, e, ==_iff i i), λ j n. rw n refl)
  holder-Advances (leaving call o) k e h =
      (_, release i call o e, ground (arith, e, ==_iff i i), λ j n. rw n refl)
  holder-Advances idle k e h = cc
  holder-Advances (waiting call) k e h = cc
  holder-Advances (finished o) k e h = cc

pub lock_is_free :
    (k : MappingKey) (c : Client)
    → (lookup k c.mapping_locks ≢ some true) ⊎ (lookup k c.mapping_locks ≡ some true)
lock_is_free k c = elim (Option-cases (lookup k c.mapping_locks)) [
  | inl n ↦ inl (λ p. cc)
  | inr (b, y) ↦ elim (Bool-cases b) [ inl t ↦ inr (rw (y, t) refl) | inr f ↦ inl (λ p. cc) ]
]

pub held-stage : (p : Task) (k : MappingKey) → held p ≡ some k → (2 ≤ stage p) × (stage p ≤ 6)
held-stage (locked call) k h = (omega arith, omega arith)
held-stage (sent call nonce) k h = (omega arith, omega arith)
held-stage (served call nonce) k h = (omega arith, omega arith)
held-stage (answered call nonce m) k h = (omega arith, omega arith)
held-stage (leaving call o) k h = (omega arith, omega arith)
held-stage idle k h = cc
held-stage (waiting call) k h = cc
held-stage (finished o) k h = cc
