-- ===== src/Pcp/Client/Concurrent/Invariant.antt =====
-- What holds in every state that concurrent operations on one client reach.
use go_nat.Base.{ℕ, true, ◌<◌, ◌≡◌, Option, some, none}
use go_nat.Base.Bytes.{Bytes}
use go_nat.Base.Assoc.{lookup}
use go_nat.Pcp.Client.State.{Client, MappingKey, mapping_key_eq}
use go_nat.Pcp.Client.Mapping.{MapCall}
use go_nat.Pcp.Client.Concurrent.{
  Task, idle, waiting, locked, sent, served, answered, leaving, finished, Table, System,
}

-- The mapping whose lock a task holds.
abbrev pub held : Task → Option MappingKey
held idle = none
held (waiting call) = none
held (locked call) = some call.key
held (sent call nonce) = some call.key
held (served call nonce) = some call.key
held (answered call nonce m) = some call.key
held (leaving call o) = some call.key
held (finished o) = none

-- The nonce of a request is the one stored for its mapping; of a delete, if one is stored.
abbrev pub Stored : Client → MapCall → Bytes → Type 0
Stored c call nonce =
    (0 < call.lifetime_sec → lookup call.key c.nonces ≡ some nonce)
    × ((n : Bytes) → lookup call.key c.nonces ≡ some n → n ≡ nonce)

-- A delete that was carried out has left the server no mapping.
abbrev pub Gone : Table → MapCall → Type 0
Gone t call = call.lifetime_sec ≡ 0 → t call.key ≡ none

-- What a task relies on.
abbrev pub Relies : Client → Table → Task → Type 0
Relies c t (sent call nonce) = Stored c call nonce
Relies c t (served call nonce) = Stored c call nonce × Gone t call
Relies c t (answered call nonce m) = Stored c call nonce × Gone t call
Relies c t p = Unit {0}

-- No two tasks hold the lock of one mapping; a lock that a task holds is taken; every task has what it
-- relies on; and of every mapping that the server holds the client has the nonce.
pub record Inv (s : System) : Type 0 where
  pub exclusive :
      (i j : ℕ) (k : MappingKey) → held (s.task i) ≡ some k → held (s.task j) ≡ some k → i ≡ j
  pub taken :
      (i : ℕ) (k : MappingKey)
      → held (s.task i) ≡ some k
      → lookup k s.client.mapping_locks ≡ some true
  pub relies : (i : ℕ) → Relies s.client s.table (s.task i)
  pub known : (k : MappingKey) (n : Bytes) → s.table k ≡ some n → lookup k s.client.nonces ≡ some n
