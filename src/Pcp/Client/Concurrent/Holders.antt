-- ===== src/Pcp/Client/Concurrent/Holders.antt =====
-- Every lock that is taken has a task that holds it.
use go_nat.Base.{ℕ, true, ◌≡◌, inl, inr, some, arith}
use go_nat.Base.Tests.{==_iff, Bool-cases}
use go_nat.Base.Assoc.{lookup}
use go_nat.Pcp.Client.State.{Client, MappingKey, mapping_key_eq, key_eq, key_eq_iff}
use go_nat.Pcp.Client.Epoch.{update_epoch, epoch_state_lost_of}
use go_nat.Pcp.Client.Mapping.Frame.{claim_nonce-locks, commit-locks, IsUnlocked}
use go_nat.Pcp.Client.Concurrent.{
  Task, System, update, Step, arrive, lock, claim, serve, serve_again, accept, fail_sent,
  fail_served, commits, release, announces, takes_flag, expires, restarts, Reach, here, next,
}
use go_nat.Pcp.Client.Concurrent.Invariant.{held}
use go_nat.Pcp.Client.Concurrent.Locks.{lock_mapping-locks, unlock_mapping-locks}
use go_nat.Pcp.Client.Concurrent.NoLeak.{start}

abbrev pub Holder : (ℕ → Task) → MappingKey → Type 0
Holder f k = (i : ℕ) × (held (f i) ≡ some k)

abbrev pub AllHeld : System → Type 0
AllHeld s = (k : MappingKey) → lookup k s.client.mapping_locks ≡ some true → Holder s.task k

Holder-update :
    (f : ℕ → Task) (i : ℕ) (p : Task) (k : MappingKey)
    → (held (f i) ≡ some k → held p ≡ some k)
    → Holder f k
    → Holder (update f i p) k
Holder-update f i p k keep (j, h) = (j, ground (arith, ==_iff i j, keep))

module _ {s : System} (all : AllHeld s) where
  Step-AllHeld : {t : System} → Step s t → AllHeld t
  unfolding update_epoch epoch_state_lost_of
  Step-AllHeld (arrive i call e) k h = Holder-update s.task i _ k (λ p. ground (arith, e)) (all k h)
  Step-AllHeld (lock i call e free) k h = elim (Bool-cases (key_eq call.key k)) [
    | inl y ↦ (i, ground (arith, ==_iff i i, key_eq_iff call.key k))
    | inr n ↦
        Holder-update s.task i _ k (λ p. ground (arith, e))
          (all k (ground (arith, lock_mapping-locks call.key s.client k)))
  ]
  Step-AllHeld (claim i call e) k h =
      Holder-update s.task i _ k (λ p. ground (arith, e))
        (all k (ground (arith, claim_nonce-locks call s.client)))
  Step-AllHeld (serve i call nonce e a) k h =
      Holder-update s.task i _ k (λ p. ground (arith, e)) (all k h)
  Step-AllHeld (serve_again i call nonce e a) k h = all k h
  Step-AllHeld (accept i call nonce rounds m e a) k h =
      Holder-update s.task i _ k (λ p. ground (arith, e)) (all k h)
  Step-AllHeld (fail_sent i call nonce rounds x e a) k h =
      Holder-update s.task i _ k (λ p. ground (arith, e)) (all k h)
  Step-AllHeld (fail_served i call nonce rounds x e a) k h =
      Holder-update s.task i _ k (λ p. ground (arith, e)) (all k h)
  Step-AllHeld (commits i call nonce m now e) k h =
      Holder-update s.task i _ k (λ p. ground (arith, e))
        (all k (ground (arith, commit-locks now call m s.client)))
  Step-AllHeld (release i call o e) k h = elim (Bool-cases (key_eq call.key k)) [
    | inl y ↦ absurd (ground (arith, h, unlock_mapping-locks call.key s.client k))
    | inr n ↦
        Holder-update s.task i _ k (λ p. ground (arith, e, key_eq_iff call.key k))
          (all k (ground (arith, unlock_mapping-locks call.key s.client k)))
  ]
  Step-AllHeld (announces now epoch) k h = all k (ground arith)
  Step-AllHeld takes_flag k h = all k (ground arith)
  Step-AllHeld (expires j) k h = all k h
  Step-AllHeld restarts k h = all k h

-- A client whose locks are free when the operations begin.
pub Reach-AllHeld : (c : Client) → IsUnlocked c → {s : System} → Reach (start c) s → AllHeld s
Reach-AllHeld c u here = λ k h. absurd (u k h)
Reach-AllHeld c u (next r st) = Step-AllHeld (Reach-AllHeld c u r) st
