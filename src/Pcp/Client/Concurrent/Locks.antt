-- ===== src/Pcp/Client/Concurrent/Locks.antt =====
-- The locks of the mappings under every step.
use go_nat.Base.{ℕ, true, false, ◌≡◌, some, arith}
use go_nat.Base.Tests.{if◌then◌else◌, ==_iff}
use go_nat.Base.Assoc.{lookup, lookup-insert}
use go_nat.Pcp.Client.State.{
  Client, MappingKey, mapping_key_eq, key_eq, key_eq_iff, lock_mapping, unlock_mapping,
}
use go_nat.Pcp.Client.Epoch.{update_epoch, epoch_state_lost_of}
use go_nat.Pcp.Client.Mapping.Frame.{claim_nonce-locks, commit-locks}
use go_nat.Pcp.Client.Concurrent.{
  System, Step, arrive, lock, claim, serve, serve_again, accept, fail_sent, fail_served, commits,
  release, announces, takes_flag, expires, restarts,
}
use go_nat.Pcp.Client.Concurrent.Invariant.{held, Inv}

pub lock_mapping-locks :
    (key : MappingKey) (c : Client) (j : MappingKey)
    → lookup j (lock_mapping key c).mapping_locks
      ≡ (if key_eq key j then some true else lookup j c.mapping_locks)
unfolding lock_mapping
lock_mapping-locks key c j = lookup-insert key j true c.mapping_locks

pub unlock_mapping-locks :
    (key : MappingKey) (c : Client) (j : MappingKey)
    → lookup j (unlock_mapping key c).mapping_locks
      ≡ (if key_eq key j then some false else lookup j c.mapping_locks)
unfolding unlock_mapping
unlock_mapping-locks key c j = lookup-insert key j false c.mapping_locks

module _ {s : System} (inv : Inv s) where
  open inv use {exclusive, taken, relies, known}

  pub Step-exclusive :
      {t : System}
      → Step s t
      → (a b : ℕ) (k : MappingKey) → held (t.task a) ≡ some k
      → held (t.task b) ≡ some k
      → a ≡ b
  Step-exclusive (lock i call e free) a b k p q =
      ground (arith, exclusive a b k, taken a k, taken b k, ==_iff i a, ==_iff i b)
  Step-exclusive (arrive i call e) a b k p q = ground (arith, exclusive a b k)
  Step-exclusive (claim i call e) a b k p q =
      ground (arith, exclusive a b k, exclusive i b k, exclusive a i k)
  Step-exclusive (serve i call nonce e h) a b k p q =
      ground (arith, exclusive a b k, exclusive i b k, exclusive a i k)
  Step-exclusive (serve_again i call nonce e h) a b k p q = exclusive a b k p q
  Step-exclusive (accept i call nonce rounds m e h) a b k p q =
      ground (arith, exclusive a b k, exclusive i b k, exclusive a i k)
  Step-exclusive (fail_sent i call nonce rounds x e h) a b k p q =
      ground (arith, exclusive a b k, exclusive i b k, exclusive a i k)
  Step-exclusive (fail_served i call nonce rounds x e h) a b k p q =
      ground (arith, exclusive a b k, exclusive i b k, exclusive a i k)
  Step-exclusive (commits i call nonce m now e) a b k p q =
      ground (arith, exclusive a b k, exclusive i b k, exclusive a i k)
  Step-exclusive (release i call o e) a b k p q = ground (arith, exclusive a b k)
  Step-exclusive (announces now epoch) a b k p q = exclusive a b k p q
  Step-exclusive takes_flag a b k p q = exclusive a b k p q
  Step-exclusive (expires j) a b k p q = exclusive a b k p q
  Step-exclusive restarts a b k p q = exclusive a b k p q

  pub Step-taken :
      {t : System}
      → Step s t
      → (a : ℕ) (k : MappingKey) → held (t.task a) ≡ some k
      → lookup k t.client.mapping_locks ≡ some true
  unfolding update_epoch epoch_state_lost_of
  Step-taken (arrive i call e) a k p = ground (arith, taken a k)
  Step-taken (lock i call e free) a k p =
      ground (
        arith,
        taken a k,
        key_eq_iff call.key k,
        lock_mapping-locks call.key s.client k,
        ==_iff i a,
      )
  Step-taken (claim i call e) a k p =
      rw (claim_nonce-locks call s.client) (ground (arith, taken a k, taken i k))
  Step-taken (serve i call nonce e h) a k p = ground (arith, taken a k, taken i k)
  Step-taken (serve_again i call nonce e h) a k p = taken a k p
  Step-taken (accept i call nonce rounds m e h) a k p = ground (arith, taken a k, taken i k)
  Step-taken (fail_sent i call nonce rounds x e h) a k p = ground (arith, taken a k, taken i k)
  Step-taken (fail_served i call nonce rounds x e h) a k p = ground (arith, taken a k, taken i k)
  Step-taken (commits i call nonce m now e) a k p =
      rw (commit-locks now call m s.client) (ground (arith, taken a k, taken i k))
  Step-taken (release i call o e) a k p = ground (
    arith,
    taken a k,
    exclusive a i k,
    key_eq_iff call.key k,
    unlock_mapping-locks call.key s.client k,
    ==_iff i a,
  )
  Step-taken (announces now epoch) a k p = ground (arith, taken a k)
  Step-taken takes_flag a k p = ground (arith, taken a k)
  Step-taken (expires j) a k p = taken a k p
  Step-taken restarts a k p = taken a k p
