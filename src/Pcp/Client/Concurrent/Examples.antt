-- ===== src/Pcp/Client/Concurrent/Examples.antt =====
-- The theorems on concurrent operations, where three of them share a client.
use go_nat.Base.{ℕ, ◌≡◌, ◌≢◌, refl, true, some, none}
use go_nat.Base.Outcome.{panic}
use go_nat.Pcp.Protocol.{MapResponse}
use go_nat.Base.Bytes.{Bytes}
use go_nat.Base.Assoc.{lookup}
use go_nat.Pcp.Client.State.{MappingKey, mapping_key_eq, lock_mapping}
use go_nat.Pcp.Client.Mapping.{MapCall, choose_nonce, claim_nonce, locked_map}
use go_nat.Pcp.Client.Mapping.Calm.{IsCalm}
use go_nat.Pcp.Client.Examples.{client, call, env_lost}
use go_nat.Pcp.Client.Concurrent.{
  waiting, locked, sent, answered, finished, authorized, System, advance, arrive, lock, claim,
  Reach, here, next,
}
use go_nat.Pcp.Client.Concurrent.NoLeak.{start, mutual_exclusion, no_leak}
use go_nat.Pcp.Client.Concurrent.Finish.{locked_map-Reach}

-- A second mapping, of TCP port 80.
abbrev web_call : MapCall
web_call = record call { key = record { proto = 6; port = 80 } }

-- Two operations for UDP port 5000 and one for TCP port 80 arrive; the first takes its lock.
abbrev arrived : System
arrived =
    advance 2 (waiting web_call) client
      (advance 1 (waiting call) client (advance 0 (waiting call) client (start client)))

arrived-Reach : Reach (start client) arrived
arrived-Reach =
    next (next (next here (arrive 0 call refl)) (arrive 1 call refl)) (arrive 2 web_call refl)

abbrev inside : System
inside = advance 0 (locked call) (lock_mapping call.key client) arrived

inside-Reach : Reach (start client) inside
inside-Reach = next arrived-Reach (lock 0 call refl (λ p. cc))

-- Its request is on its way.
abbrev asking : System
asking =
    advance 0 (sent call (choose_nonce call inside.client)) (claim_nonce call inside.client) inside

asking-Reach : Reach (start client) asking
asking-Reach = next inside-Reach (claim 0 call refl)

mutual_exclusion_example : ◌≡◌ {A = ℕ} 0 0
mutual_exclusion_example = mutual_exclusion client asking-Reach 0 0 call.key refl refl

no_leak_example :
    ((k : MappingKey) (n : Bytes)
      → asking.table k ≡ some n
      → lookup k asking.client.nonces ≡ some n)
    × ((i : ℕ) (c : MapCall) (nonce : Bytes)
        → asking.task i ≡ sent c nonce
        → authorized nonce (asking.table c.key) ≡ true)
    × ((i : ℕ) (c : MapCall) (nonce : Bytes) (m : MapResponse)
        → asking.task i ≡ answered c nonce m
        → c.lifetime_sec ≡ 0
        → asking.table c.key ≡ none)
no_leak_example = no_leak client asking-Reach

env_lost-IsCalm : IsCalm env_lost
env_lost-IsCalm = record { calm_entropy = λ p. cc; calm_read = λ k addr req t p. cc }

-- The second operation for port 5000 waits for the first, and can be brought to its end.
locked_map-Reach_example :
    (t : System) × (u : System) × Reach asking t
    × (t.task 1 ≡ waiting call)
    × Reach t u
    × (u.client ≡ (locked_map env_lost call t.client).0)
    × (u.task 1 ≡ finished (locked_map env_lost call t.client).1)
    × ((locked_map env_lost call t.client).1 ≢ panic)
locked_map-Reach_example =
    locked_map-Reach env_lost env_lost-IsCalm client (λ j p. cc) asking-Reach 1 call refl
