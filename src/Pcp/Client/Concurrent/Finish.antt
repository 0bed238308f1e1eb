-- ===== src/Pcp/Client/Concurrent/Finish.antt =====
-- Every operation on one client can be brought to its end.
use go_nat.Base.{
  ℕ, zero, suc, true, false, ◌+◌, ◌≤◌, ◌<◌, ◌≡◌, ◌≢◌, refl, sym, subst, ap, ◌∙◌, inl, inr, some,
  arith,
}
use go_nat.Base.Tests.{◌==◌, ==_iff, Bool-cases}
use go_nat.Base.Outcome.{panic}
use go_nat.Base.Assoc.{lookup}
use go_nat.Pcp.Client.State.{Client, MappingKey, mapping_key_eq}
use go_nat.Pcp.Client.Mapping.{Env, MapCall, locked_map}
use go_nat.Pcp.Client.Mapping.Calm.{IsCalm, locked_map-ne-panic}
use go_nat.Pcp.Client.Mapping.Frame.{IsUnlocked}
use go_nat.Pcp.Client.Concurrent.{waiting, finished, System, Reach, here, next}
use go_nat.Pcp.Client.Concurrent.Invariant.{held, Inv}
use go_nat.Pcp.Client.Concurrent.NoLeak.{start, start-Inv, Reach-Inv}
use go_nat.Pcp.Client.Concurrent.Holders.{Reach-AllHeld}
use go_nat.Pcp.Client.Concurrent.Progress.{
  stage, Advances, holder-Advances, lock_is_free, held-stage,
}
use go_nat.Pcp.Client.Concurrent.Alone.{locked_map-alone}

Reach-trans : {s t u : System} → Reach s t → Reach t u → Reach s u
Reach-trans r here = r
Reach-trans r (next q st) = next (Reach-trans r q) st

-- Whoever holds the lock of `k` is at stage 7 - n or further.
abbrev Near : ℕ → MappingKey → System → Type 0
Near n k s = (j : ℕ) → held (s.task j) ≡ some k → 7 ≤ n + stage (s.task j)

Near-step :
    (n : ℕ) (k : MappingKey) (s : System) (i : ℕ)
    → Inv s
    → held (s.task i) ≡ some k
    → Near (suc n) k s
    → (a : Advances s i) → Near n k a.0
Near-step n k s i inv h near (t, st, further, others) j q = elim (Bool-cases (i == j)) [
  | inl y ↦
      let e : i ≡ j = (==_iff i j).0 y in
      omega (arith, near i h, subst (λ x. stage (s.task i) < stage (t.task x)) e further)
  | inr d ↦
      let e : t.task j ≡ s.task j = others j d in
      absurd (ground (arith, d, ==_iff i j, inv.exclusive i j k h (sym (ap held e) ∙ q)))
]

module _ (env : Env) (calm : IsCalm env) (c : Client) (unlocked : IsUnlocked c) (i : ℕ)
    (call : MapCall) where
  -- A state in which `i` still waits, and its lock is free.
  abbrev Freed : System → Type 0
  Freed s =
      (t : System) × Reach s t
      × (t.task i ≡ waiting call)
      × (lookup call.key t.client.mapping_locks ≢ some true)

  freed :
      (n : ℕ) (s : System)
      → Reach (start c) s
      → s.task i ≡ waiting call
      → Near n call.key s
      → Freed s
  freed zero s r w near = elim (lock_is_free call.key s.client) [
    | inl free ↦ (s, here, w, free)
    | inr taken ↦
        let (j, h) = Reach-AllHeld c unlocked r call.key taken in
        absurd (omega (arith, near j h, (held-stage (s.task j) call.key h).1))
  ]
  freed (suc n) s r w near = elim (lock_is_free call.key s.client) [
    | inl free ↦ (s, here, w, free)
    | inr taken ↦
        let (j, h) = Reach-AllHeld c unlocked r call.key taken in
        let inv = Reach-Inv (start-Inv c) r in
        let (t, st, further, others) = holder-Advances env calm inv j (s.task j) call.key refl h in
        let apart : (j == i) ≡ false = ground (arith, ==_iff j i, h, w) in
        let (u, q, w', free) =
          freed n t (next r st) (others i apart ∙ w)
            (Near-step n call.key s j inv h near (t, st, further, others)) in
        (u, Reach-trans (next here st) q, w', free)
  ]

-- However the operations on one client are interleaved, an operation that waits for the lock of its
-- mapping can be brought to its end: there is a way on by which those that hold the lock give it back,
-- and then the operation runs with no step of another task between its own, leaves the client and
-- answers as addPortMappingWithHint does, and does not panic. The client has no lock taken before the
-- operations, and its system calls return.
pub locked_map-Reach :
    (env : Env)
    → IsCalm env
    → (c : Client) → IsUnlocked c
    → {s : System} → Reach (start c) s
    → (i : ℕ) (call : MapCall) → s.task i ≡ waiting call
    → (t : System) × (u : System) × Reach s t
      × (t.task i ≡ waiting call)
      × Reach t u
      × (u.client ≡ (locked_map env call t.client).0)
      × (u.task i ≡ finished (locked_map env call t.client).1)
      × ((locked_map env call t.client).1 ≢ panic)
locked_map-Reach env calm c unlocked {s} r i call w =
    let (t, q, w', free) = freed env calm c unlocked i call 7 s r w (λ j h. omega arith) in
    let returns = locked_map-ne-panic env calm call t.client in
    let (u, p, left, answered) = locked_map-alone c env (Reach-trans r q) i call w' free returns in
    (t, u, q, w', p, left, answered, returns)
