-- ===== src/Pcp/Client/Concurrent/Alone.antt =====
-- The steps of one operation, taken without another's between them, are addPortMappingWithHint.
use go_nat.Base.{ℕ, ◌≡◌, refl, ◌≢◌, inl, inr, true, some, arith}
use go_nat.Base.Tests.{==_iff}
use go_nat.Base.Outcome.{Error, ok, err, panic, Outcome-cases}
use go_nat.Base.Bytes.{Bytes}
use go_nat.Base.Assoc.{lookup}
use go_nat.Pcp.Protocol.{MapResponse}
use go_nat.Pcp.Client.State.{Client, mapping_key_eq, lock_mapping, unlock_mapping}
use go_nat.Pcp.Client.Mapping.{
  Env, MapCall, choose_nonce, claim_nonce, exchange, commit, locked_map,
}
use go_nat.Pcp.Client.Concurrent.{
  waiting, locked, sent, served, answered, leaving, finished, System, update, advance, Step, lock,
  claim, serve, accept, fail_sent, commits, release, Reach, here, next, set_entry, granted_entry,
}
use go_nat.Pcp.Client.Concurrent.Invariant.{Inv}
use go_nat.Pcp.Client.Concurrent.Steps.{Step-Inv}
use go_nat.Pcp.Client.Concurrent.NoLeak.{start, start-Inv, Reach-Inv, Inv-authorized}

now_at : {A : Type 0} (f : ℕ → A) (i : ℕ) (a : A) → update f i a i ≡ a
now_at f i a = ground (arith, ==_iff i i)

module _ (env : Env) (s : System) (inv : Inv s) (i : ℕ) (call : MapCall)
    (here_waiting : s.task i ≡ waiting call)
    (free : lookup call.key s.client.mapping_locks ≢ some true) where
  abbrev locked_client : Client
  locked_client = lock_mapping call.key s.client

  abbrev nonce : Bytes
  nonce = choose_nonce call locked_client

  abbrev claimed : Client
  claimed = claim_nonce call locked_client

  abbrev one : System
  one = advance i (locked call) locked_client s

  abbrev two : System
  two = advance i (sent call nonce) claimed one

  step_one : Step s one
  step_one = lock i call here_waiting free

  step_two : Step one two
  step_two = claim i call (now_at s.task i (locked call))

  sent_now : two.task i ≡ sent call nonce
  sent_now = now_at one.task i (sent call nonce)

  failed :
      (e : Error)
      → exchange claimed env.rounds call nonce ≡ err e
      → Reach s (
          advance i
            (finished (err e))
            (unlock_mapping call.key claimed)
            (advance i (leaving call (err e)) claimed two))
  failed e h =
      next
        (next (next (next here step_one) step_two) (fail_sent i call nonce env.rounds e sent_now h))
        (release i call (err e) (now_at two.task i (leaving call (err e))))

  abbrev three : System
  three = record {
    client = claimed;
    table = set_entry call.key (granted_entry call nonce) s.table;
    task = update two.task i (served call nonce);
  }

  step_three : Step two three
  step_three =
      serve i call nonce sent_now
        (Inv-authorized (Step-Inv (Step-Inv inv step_one) step_two) i call nonce sent_now)

  answered_at : MapResponse → System
  answered_at m = advance i (answered call nonce m) claimed three

  succeeded :
      (m : MapResponse)
      → exchange claimed env.rounds call nonce ≡ ok m
      → Reach s (
          advance i
            (finished (ok m))
            (unlock_mapping call.key (commit env.now call m claimed))
            (advance i (leaving call (ok m)) (commit env.now call m claimed) (answered_at m)))
  unfolding answered_at
  succeeded m h =
      let four = advance i (answered call nonce m) claimed three in
      let five = advance i (leaving call (ok m)) (commit env.now call m claimed) four in
      next
        (next
          (next (next (next (next here step_one) step_two) step_three)
            (accept i call nonce env.rounds m (now_at two.task i (served call nonce)) h))
          (commits i call nonce m env.now (now_at three.task i (answered call nonce m))))
        (release i call (ok m) (now_at four.task i (leaving call (ok m))))

  runs_alone :
      (locked_map env call s.client).1 ≢ panic
      → (t : System) × Reach s t
        × (t.client ≡ (locked_map env call s.client).0)
        × (t.task i ≡ finished (locked_map env call s.client).1)
  unfolding locked_map
  runs_alone returns = elim (Outcome-cases (exchange claimed env.rounds call nonce)) [
    | inl (m, h) ↦
        let end = advance i (leaving call (ok m)) (commit env.now call m claimed) (answered_at m) in
        (
          _,
          succeeded m h,
          rw (h, locked_map) refl,
          rw (h, locked_map) (now_at end.task i (finished (ok m))),
        )
    | inr (inl (e, h)) ↦
        let end = advance i (leaving call (err e)) claimed two in
        (
          _,
          failed e h,
          rw (h, locked_map) refl,
          rw (h, locked_map) (now_at end.task i (finished (err e))),
        )
    | inr (inr h) ↦ absurd (returns (rw (h, locked_map) refl))
  ]

-- In every state that is reached, with the lock free.
pub locked_map-alone :
    (c : Client) (env : Env) {s : System}
    → Reach (start c) s
    → (i : ℕ) (call : MapCall) → s.task i ≡ waiting call
    → lookup call.key s.client.mapping_locks ≢ some true
    → (locked_map env call s.client).1 ≢ panic
    → (t : System) × Reach s t
      × (t.client ≡ (locked_map env call s.client).0)
      × (t.task i ≡ finished (locked_map env call s.client).1)
locked_map-alone c env {s} r i call w free returns =
    runs_alone env s (Reach-Inv (start-Inv c) r) i call w free returns
