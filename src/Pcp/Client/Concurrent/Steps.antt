-- ===== src/Pcp/Client/Concurrent/Steps.antt =====
-- Every step keeps what the tasks rely on, and the whole invariant.
use go_nat.Base.{ℕ, false, ◌≡◌, refl, sym, ap, subst, ◌∙◌, inl, inr, some, none, arith}
use go_nat.Base.Tests.{◌==◌, ==_iff, Bool-cases}
use go_nat.Base.Outcome.{ok, err}
use go_nat.Base.Bytes.{Bytes}
use go_nat.Base.Assoc.{lookup}
use go_nat.Pcp.Client.State.{
  Client, MappingKey, mapping_key_eq, key_eq, key_eq_iff, lock_mapping, unlock_mapping,
}
use go_nat.Pcp.Client.Epoch.{update_epoch, epoch_state_lost_of}
use go_nat.Pcp.Client.Mapping.{MapCall, choose_nonce, claim_nonce, commit}
use go_nat.Pcp.Client.Mapping.Frame.{committed_nonces}
use go_nat.Pcp.Client.Concurrent.{
  Task, waiting, locked, sent, served, answered, leaving, finished, Table, set_entry, granted_entry,
  System, Step, arrive, lock, claim, serve, serve_again, accept, fail_sent, fail_served, commits,
  release, announces, takes_flag, expires, restarts,
}
use go_nat.Pcp.Client.Concurrent.Invariant.{held, Relies, Inv}
use go_nat.Pcp.Client.Concurrent.Locks.{Step-exclusive, Step-taken}
use go_nat.Pcp.Client.Concurrent.Stored.{
  claim_nonce-nonces, choose_nonce-stored, Relies-frame, Relies-update, claim_nonce-Stored,
  granted-Gone,
}

module _ {s : System} (inv : Inv s) where
  open inv use {exclusive, taken, relies, known}

  -- What a task in a given place relies on.
  relied : (i : ℕ) (p : Task) → s.task i ≡ p → Relies s.client s.table p
  relied i p e = subst (Relies s.client s.table) e (relies i)

  Step-known :
      {t : System}
      → Step s t
      → (k : MappingKey) (n : Bytes) → t.table k ≡ some n
      → lookup k t.client.nonces ≡ some n
  unfolding update_epoch epoch_state_lost_of lock_mapping unlock_mapping
  Step-known (arrive i call e) k n p = known k n p
  Step-known (lock i call e free) k n p = known k n p
  Step-known (claim i call e) k n p = ground (
    arith,
    known k n,
    claim_nonce-nonces call s.client k,
    key_eq_iff call.key k,
    choose_nonce-stored call s.client n,
  )
  Step-known (serve i call nonce e h) k n p =
      let (stored, only) = relied i (sent call nonce) e in
      ground (arith, known k n, key_eq_iff call.key k, stored)
  Step-known (serve_again i call nonce e h) k n p =
      let ((stored, only), gone) = relied i (served call nonce) e in
      ground (arith, known k n, key_eq_iff call.key k, stored)
  Step-known (accept i call nonce rounds m e h) k n p = known k n p
  Step-known (fail_sent i call nonce rounds x e h) k n p = known k n p
  Step-known (fail_served i call nonce rounds x e h) k n p = known k n p
  Step-known (commits i call nonce m now e) k n p =
      let (stored, gone) = relied i (answered call nonce m) e in
      ground (arith, known k n, committed_nonces now call m s.client k, key_eq_iff call.key k, gone)
  Step-known (release i call o e) k n p = known k n p
  Step-known (announces now epoch) k n p = ground (arith, known k n)
  Step-known takes_flag k n p = known k n p
  Step-known (expires j) k n p = ground (arith, known k n)
  Step-known restarts k n p = absurd (ground arith)

  -- The other tasks that hold a lock hold that of another mapping than task `i`.
  other_key :
      (i a : ℕ) (call : MapCall)
      → held (s.task i) ≡ some call.key
      → (i == a) ≡ false
      → (k : MappingKey) → held (s.task a) ≡ some k
      → key_eq call.key k ≡ false
  other_key i a call h n k p = ground (arith, exclusive i a k, key_eq_iff call.key k, ==_iff i a)

  others :
      (i a : ℕ) (call : MapCall) (c' : Client) (t' : Table)
      → held (s.task i) ≡ some call.key
      → ((k : MappingKey)
          → key_eq call.key k ≡ false
          → lookup k c'.nonces ≡ lookup k s.client.nonces)
      → ((k : MappingKey) → key_eq call.key k ≡ false → t' k ≡ s.table k)
      → (i == a) ≡ false
      → Relies c' t' (s.task a)
  others i a call c' t' h e g n =
      Relies-frame s.client c' s.table t' (s.task a) (λ k p. e k (other_key i a call h n k p))
        (λ k p z. g k (other_key i a call h n k p) ∙ z) (relies a)

  Step-Relies : {t : System} → Step s t → (a : ℕ) → Relies t.client t.table (t.task a)
  unfolding update_epoch epoch_state_lost_of lock_mapping unlock_mapping
  Step-Relies (arrive i call e) a =
      Relies-update i a (waiting call) s.task s.client s.table tt (λ n. relies a)
  Step-Relies (lock i call e free) a =
      Relies-update i a (locked call) s.task (lock_mapping call.key s.client) s.table tt
        (λ n. relies a)
  Step-Relies (claim i call e) a =
      let nonce = choose_nonce call s.client in
      Relies-update i a (sent call nonce) s.task (claim_nonce call s.client) s.table
        (claim_nonce-Stored call s.client)
        (others i a call (claim_nonce call s.client) s.table (ap held e)
          (λ k f. ground (arith, claim_nonce-nonces call s.client k)) (λ k f. refl))
  Step-Relies (serve i call nonce e h) a =
      let t' = set_entry call.key (granted_entry call nonce) s.table in
      Relies-update i a (served call nonce) s.task s.client t'
        (relied i (sent call nonce) e, granted-Gone call nonce s.table)
        (others i a call s.client t' (ap held e) (λ k f. refl) (λ k f. rw f refl))
  Step-Relies (serve_again i call nonce e h) a =
      let t' = set_entry call.key (granted_entry call nonce) s.table in
      elim (Bool-cases (i == a)) [
        | inl y ↦
            let e' : s.task a ≡ served call nonce = ap s.task (sym ((==_iff i a).0 y)) ∙ e in
            let (stored, gone) = relied i (served call nonce) e in
            subst (Relies s.client t') (sym e') (stored, granted-Gone call nonce s.table)
        | inr n ↦ others i a call s.client t' (ap held e) (λ k f. refl) (λ k f. rw f refl) n
      ]
  Step-Relies (accept i call nonce rounds m e h) a =
      Relies-update i a (answered call nonce m) s.task s.client s.table
        (relied i (served call nonce) e) (λ n. relies a)
  Step-Relies (fail_sent i call nonce rounds x e h) a =
      Relies-update i a (leaving call (err x)) s.task s.client s.table tt (λ n. relies a)
  Step-Relies (fail_served i call nonce rounds x e h) a =
      Relies-update i a (leaving call (err x)) s.task s.client s.table tt (λ n. relies a)
  Step-Relies (commits i call nonce m now e) a =
      Relies-update i a (leaving call (ok m)) s.task (commit now call m s.client) s.table tt (
        others i a call (commit now call m s.client) s.table (ap held e)
          (λ k f. ground (arith, committed_nonces now call m s.client k)) (λ k f. refl))
  Step-Relies (release i call o e) a =
      Relies-update i a (finished o) s.task (unlock_mapping call.key s.client) s.table tt
        (λ n. relies a)
  Step-Relies (announces now epoch) a =
      Relies-frame s.client (update_epoch now epoch s.client).0 s.table s.table (s.task a)
        (λ k p. ground arith) (λ k p z. z) (relies a)
  Step-Relies takes_flag a = relies a
  Step-Relies (expires j) a =
      Relies-frame s.client s.client s.table (set_entry j none s.table) (s.task a) (λ k p. refl)
        (λ k p z. ground arith) (relies a)
  Step-Relies restarts a =
      Relies-frame s.client s.client s.table (λ k. none) (s.task a) (λ k p. refl) (λ k p z. refl)
        (relies a)

  pub Step-Inv : {t : System} → Step s t → Inv t
  Step-Inv st = record {
    exclusive = Step-exclusive inv st;
    taken = Step-taken inv st;
    relies = Step-Relies st;
    known = Step-known st;
  }
