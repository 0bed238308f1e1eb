-- ===== src/Pcp/Client/Examples.antt =====
-- A client with servers to talk to, for concrete runs; `Exchanges` and `Histories` hold the theorems
-- at them.
mod Exchanges
mod Histories
mod Fields
use go_nat.Base.{ℕ, Bool, true, false, Option, some, none, String, List, [], ◌∷◌}
use go_nat.Base.Lists.{replicate}
use go_nat.Base.Int.{ℤ, pos}
use go_nat.Base.Outcome.{Error, foreign, Outcome, ok, err}
use go_nat.Base.Bytes.{Bytes}
use go_nat.Addr.{Addr, invalid, v4}
use go_nat.Pcp.Client.State.{Client, MappingKey, second, default_timeout}
use go_nat.Pcp.Client.Transport.{UdpAddr, Attempt, Round}
use go_nat.Pcp.Client.Mapping.{Env, MapCall}
use go_nat.Pcp.Client.Mapping.Server.{Grant, serve}

abbrev pub gateway : Addr
gateway = v4 (192 ∷ 168 ∷ 1 ∷ 1 ∷ [])

abbrev pub local_ip : Addr
local_ip = v4 (192 ∷ 168 ∷ 1 ∷ 2 ∷ [])

abbrev pub nonce : Bytes
nonce = 1 ∷ 2 ∷ 3 ∷ 4 ∷ 5 ∷ 6 ∷ 7 ∷ 8 ∷ 9 ∷ 10 ∷ 11 ∷ 12 ∷ []

abbrev pub other_nonce : Bytes
other_nonce = replicate 12 99

abbrev pub key : MappingKey
key = record { proto = 17; port = 5000 }

abbrev pub client : Client
client = record {
  gateway = gateway;
  timeout = default_timeout;
  local_ip = local_ip;
  last_epoch = 0;
  epoch_time = none;
  external_ip = invalid;
  epoch_state_lost = false;
  nonces = [];
  mapping_locks = [];
}

-- The same client behind a mapping of UDP port 5000.
abbrev pub mapped_client : Client
mapped_client = record client { nonces = (key, nonce) ∷ [] }

abbrev pub attempt : (UdpAddr → Bytes → ℤ → Outcome (Bytes × Bytes)) → Attempt
attempt read = record {
  ctx_at_start = none;
  ctx_at_deadline = none;
  ctx_at_read = none;
  listen = none;
  remaining = none;
  set_deadline = λ t. none;
  write = λ addr req. none;
  read = read;
}

abbrev pub round : (UdpAddr → Bytes → ℤ → Outcome (Bytes × Bytes)) → Round
round read = record { attempt = attempt read; ctx_after = none; ctx_in_wait = none; jitter = 128 }

abbrev pub grant : Grant
grant = record {
  lifetime = 7200;
  epoch = 99;
  external_port = 6000;
  external_ip = v4 (203 ∷ 0 ∷ 113 ∷ 7 ∷ []);
  reserved = replicate 12 0;
}

-- The packet is lost, and the read times out.
abbrev pub lost : UdpAddr → Bytes → ℤ → Outcome (Bytes × Bytes)
lost addr req t = err (foreign 1)

abbrev pub answered : UdpAddr → Bytes → ℤ → Outcome (Bytes × Bytes)
answered addr req t = ok (serve grant req, addr.ip)

abbrev pub env_of : (ℕ → Round) → Env
env_of rounds = record { entropy = ok other_nonce; rounds = rounds; now = 50 }

-- Every packet is lost.
abbrev pub env_lost : Env
env_lost = env_of (λ k. round lost)

-- The server is reached at once.
abbrev pub env_server : Env
env_server = env_of (λ k. round answered)

abbrev pub first_lost : ℕ → Round
first_lost ℕ.zero = round lost
first_lost (ℕ.suc k) = round answered

-- The first packet is lost, and the second attempt reaches the server.
abbrev pub env_second : Env
env_second = env_of first_lost

-- The call of AddPortMapping for UDP port 5000 for two hours, behind its checks.
abbrev pub call : MapCall
call = record {
  key = key;
  local_ip = local_ip;
  suggested_port = 5000;
  suggested_ip = invalid;
  lifetime_sec = 7200;
  fresh = other_nonce;
}

abbrev pub two_hours : ℤ
two_hours = pos 7200000000000
