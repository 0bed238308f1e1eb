-- ===== src/Pcp/Client/Concurrent.antt =====
-- pcp/client.go: operations that run concurrently on one client, with the server that they talk to.
-- Between two steps any other task may run: the sections under c.mu are one step each, and the lock of
-- a mapping is held from `lock` to `release`. A request reaches the server, as often as it is sent
-- again, only while its operation waits for the answer, and an answer that is accepted is the server's.
pub mod Invariant
pub mod Locks
pub mod Stored
pub mod Steps
pub mod NoLeak
pub mod Alone
pub mod Holders
pub mod Progress
pub mod Finish
mod Examples
use go_nat.Base.{ℕ, Bool, true, false, ◌≡◌, ◌≢◌, Option, some, none}
use go_nat.Base.Tests.{ltb, ◌==◌, if◌then◌else◌}
use go_nat.Base.Outcome.{Error, Outcome, ok, err}
use go_nat.Base.Bytes.{Bytes, bytes_eq}
use go_nat.Base.Assoc.{lookup}
use go_nat.Pcp.Protocol.{MapResponse}
use go_nat.Pcp.Client.State.{
  Client, MappingKey, mapping_key_eq, key_eq, lock_mapping, unlock_mapping,
}
use go_nat.Pcp.Client.Epoch.{update_epoch, epoch_state_lost_of}
use go_nat.Pcp.Client.Transport.{Round}
use go_nat.Pcp.Client.Mapping.{MapCall, choose_nonce, claim_nonce, exchange, commit}

-- Where a call of addPortMappingWithHint stands, behind its checks.
pub data Task : Type 0 where
  idle : Task
  -- it waits for the lock of its mapping
  waiting : MapCall → Task
  -- it has the lock
  locked : MapCall → Task
  -- its request, with this nonce, is on its way
  sent : MapCall → Bytes → Task
  -- the server has carried the request out
  served : MapCall → Bytes → Task
  -- the answer has passed its checks
  answered : MapCall → Bytes → MapResponse → Task
  -- it is about to return, and to give the lock back
  leaving : MapCall → Outcome MapResponse → Task
  finished : Outcome MapResponse → Task

-- The server's table: the nonce of each mapping that it holds (RFC 6887, section 11.3).
abbrev pub Table : Type 0
Table = MappingKey → Option Bytes

abbrev pub set_entry : MappingKey → Option Bytes → Table → Table
set_entry k v t j = if key_eq k j then v else t j

-- The server carries a request out where it holds no mapping for the key, or one of the same nonce.
abbrev pub authorized : Bytes → Option Bytes → Bool
authorized nonce none = true
authorized nonce (some n) = bytes_eq n nonce

-- What it then holds: the mapping, or none where the lifetime is 0.
abbrev pub granted_entry : MapCall → Bytes → Option Bytes
granted_entry call nonce = if ltb 0 call.lifetime_sec then some nonce else none

pub record System : Type 0 where
  pub client : Client
  pub table : Table
  pub task : ℕ → Task

abbrev pub update {ℓ} : {A : Type ℓ} → (ℕ → A) → ℕ → A → ℕ → A
update f i a j = if i == j then a else f j

-- Task `i` goes on to `p`, and leaves the client `c`.
abbrev pub advance : ℕ → Task → Client → System → System
advance i p c s = record s { client = c; task = update s.task i p }

pub data Step (s : System) : System → Type 0 where
  arrive : (i : ℕ) (call : MapCall) → s.task i ≡ idle → Step s (advance i (waiting call) s.client s)
  lock :
      (i : ℕ) (call : MapCall)
      → s.task i ≡ waiting call
      → lookup call.key s.client.mapping_locks ≢ some true
      → Step s (advance i (locked call) (lock_mapping call.key s.client) s)
  claim :
      (i : ℕ) (call : MapCall)
      → s.task i ≡ locked call
      → Step s (advance i (sent call (choose_nonce call s.client)) (claim_nonce call s.client) s)
  serve :
      (i : ℕ) (call : MapCall) (nonce : Bytes)
      → s.task i ≡ sent call nonce
      → authorized nonce (s.table call.key) ≡ true
      → Step s (record {
        client = s.client;
        table = set_entry call.key (granted_entry call nonce) s.table;
        task = update s.task i (served call nonce);
      })
  serve_again :
      (i : ℕ) (call : MapCall) (nonce : Bytes)
      → s.task i ≡ served call nonce
      → authorized nonce (s.table call.key) ≡ true
      → Step s (record s { table = set_entry call.key (granted_entry call nonce) s.table })
  accept :
      (i : ℕ) (call : MapCall) (nonce : Bytes) (rounds : ℕ → Round) (m : MapResponse)
      → s.task i ≡ served call nonce
      → exchange s.client rounds call nonce ≡ ok m
      → Step s (advance i (answered call nonce m) s.client s)
  fail_sent :
      (i : ℕ) (call : MapCall) (nonce : Bytes) (rounds : ℕ → Round) (e : Error)
      → s.task i ≡ sent call nonce
      → exchange s.client rounds call nonce ≡ err e
      → Step s (advance i (leaving call (err e)) s.client s)
  fail_served :
      (i : ℕ) (call : MapCall) (nonce : Bytes) (rounds : ℕ → Round) (e : Error)
      → s.task i ≡ served call nonce
      → exchange s.client rounds call nonce ≡ err e
      → Step s (advance i (leaving call (err e)) s.client s)
  commits :
      (i : ℕ) (call : MapCall) (nonce : Bytes) (m : MapResponse) (now : ℕ)
      → s.task i ≡ answered call nonce m
      → Step s (advance i (leaving call (ok m)) (commit now call m s.client) s)
  release :
      (i : ℕ) (call : MapCall) (o : Outcome MapResponse)
      → s.task i ≡ leaving call o
      → Step s (advance i (finished o) (unlock_mapping call.key s.client) s)
  -- the other methods that change the client: Announce, EpochStateLost (SetLocalIP is called before)
  announces : (now epoch : ℕ) → Step s (record s { client = (update_epoch now epoch s.client).0 })
  takes_flag : Step s (record s { client = (epoch_state_lost_of s.client).0 })
  -- a mapping runs out, and the server restarts without its mappings
  expires : (k : MappingKey) → Step s (record s { table = set_entry k none s.table })
  restarts : Step s (record s { table = λ k. none })

pub data Reach (s : System) : System → Type 0 where
  here : Reach s s
  next : {t u : System} → Reach s t → Step t u → Reach s u
