-- ===== src/Pcp/Client/Mapping.antt =====
-- pcp/client.go: the operations of the client. What the environment answers during one operation
-- (entropy, the exchange, the clock) is a `Env`.
pub mod ExternalAddress
pub mod Frame
pub mod Nonce
pub mod Accept
pub mod Calm
pub mod Request
pub mod Server
use go_nat.Base.{
  ℕ, ◌+◌, ◌-◌, ◌*◌, ◌/◌, ◌%◌, ◌^◌, Bool, true, false, ◌&&◌, ◌||◌, not, Option, some, none, String,
  str_eq, List, [], ◌∷◌, arith,
}
use go_nat.Base.Tests.{ltb, ◌==◌, if◌then◌else◌}
use go_nat.Base.Int.{ℤ, pos, negsuc, is_positive, is_negative, exceeds, wrap_to}
use go_nat.Base.Outcome.{
  Error, message, pcp_error, plain, format, format_int, Outcome, ok, err, panic, ◌>>=◌, ◌>>◌,
  fail_if, with_prefix,
}
use go_nat.Base.Bytes.{Bytes, bytes_eq}
use go_nat.Base.Assoc.{lookup, insert, delete}
use go_nat.Addr.{Addr, invalid, is_valid, is_unspecified, unmap, addr_from_slice, as_slice}
use go_nat.Pcp.Protocol.{
  MapResponse, proto_udp, proto_tcp, default_lifetime, result_success, result_code_string,
  build_announce_request, build_map_request, parse_response, parse_map_response,
}
use go_nat.Pcp.Client.State.{
  Client, MappingKey, mapping_key_eq, second, get_local_ip, lock_mapping, unlock_mapping,
}
use go_nat.Pcp.Client.Epoch.{update_epoch}
use go_nat.Pcp.Client.Transport.{Round, send_request}

pub record Env : Type 0 where
  -- rand.Read of the candidate nonce
  pub entropy : Outcome Bytes
  -- the attempts of sendRequest
  pub rounds : ℕ → Round
  -- the time at which an answer is recorded
  pub now : ℕ

unfoldable pub protocol_number : String → Outcome ℕ
protocol_number s =
    if str_eq s "udp" || str_eq s "UDP"
    then ok proto_udp
    else if str_eq s "tcp" || str_eq s "TCP"
    then ok proto_tcp
    else err (message (plain "unsupported protocol: %s"))

-- `uint32(lifetime.Seconds())` in whole numbers, with the default where a positive duration gives 0,
-- which would ask for a delete.
unfoldable pub lifetime_seconds : ℤ → ℕ
lifetime_seconds (negsuc n) = 0
lifetime_seconds (pos n) =
    if ltb 0 n then (let s = n / second % 2 ^ 32 in if s == 0 then default_lifetime else s) else 0

-- What addPortMappingWithHint has worked out when it takes the lock.
pub record MapCall : Type 0 where
  pub key : MappingKey
  pub local_ip : Addr
  pub suggested_port : ℕ
  pub suggested_ip : Addr
  pub lifetime_sec : ℕ
  pub fresh : Bytes

abbrev pub bad_internal_port : ℤ → Bool
bad_internal_port p = not (is_positive p) || exceeds p 65535

abbrev pub bad_suggested_port : ℤ → Bool
bad_suggested_port p = is_negative p || exceeds p 65535

-- The checks and conversions before the lock.
unfoldable pub prepare : Client → Outcome Bytes → String → ℤ → ℤ → Addr → ℤ → Outcome MapCall
prepare c entropy protocol internal_port suggested_port suggested_ip lifetime = do
  fail_if (bad_internal_port internal_port)
      (message (format_int "invalid internal port: %d" internal_port))
  fail_if (bad_suggested_port suggested_port)
      (message (format_int "invalid suggested external port: %d" suggested_port))
  local ← with_prefix "get local IP" (get_local_ip c)
  proto ← with_prefix "parse protocol" (protocol_number protocol)
  fresh ← with_prefix "generate nonce" entropy
  ok (record {
    key = record { proto = proto; port = wrap_to (2 ^ 16) internal_port };
    local_ip = local;
    suggested_port = wrap_to (2 ^ 16) suggested_port;
    suggested_ip = suggested_ip;
    lifetime_sec = lifetime_seconds lifetime;
    fresh = fresh;
  })

-- The nonce of a request: the stored one, or the fresh candidate.
unfoldable pub choose_nonce : MapCall → Client → Bytes
choose_nonce call c = elim (lookup call.key c.nonces) [ some n ↦ n | none ↦ call.fresh ]

-- The first section under c.mu: the nonce is stored before the request is sent.
unfoldable pub claim_nonce : MapCall → Client → Client
claim_nonce call c =
    if ltb 0 call.lifetime_sec
    then record c { nonces = insert call.key (choose_nonce call c) c.nonces }
    else c

unfoldable pub map_request : MapCall → Bytes → Outcome Bytes
map_request call nonce =
    build_map_request call.local_ip nonce call.key.proto call.key.port call.suggested_port
      call.suggested_ip call.lifetime_sec

-- The four checks of a parsed response, in their order.
unfoldable pub check_map_response : MapCall → Bytes → MapResponse → Outcome MapResponse
check_map_response call nonce m = do
  fail_if (not (bytes_eq m.nonce nonce)) (message (plain "nonce mismatch in response"))
  fail_if (not (m.protocol == call.key.proto)) (
      message (format "protocol mismatch: requested %d, got %d" (call.key.proto ∷ m.protocol ∷ [])))
  fail_if (not (m.internal_port == call.key.port)) (
      message (
        format "internal port mismatch: requested %d, got %d"
          (call.key.port ∷ m.internal_port ∷ [])))
  fail_if (not (m.result_code == result_success))
      (pcp_error m.result_code (result_code_string m.result_code))
  ok m

-- Build, send, parse and check: the client itself is only read.
unfoldable pub exchange : Client → (ℕ → Round) → MapCall → Bytes → Outcome MapResponse
exchange c rounds call nonce = do
  req ← map_request call nonce
  resp ← with_prefix "send map request" (send_request c rounds req).0
  m ← with_prefix "parse map response" (parse_map_response resp)
  check_map_response call nonce m

-- cacheExternalIPLocked
unfoldable pub cache_external_ip : Addr → Client → Client
cache_external_ip ip c =
    if is_valid ip && not (is_unspecified ip) then record c { external_ip = ip } else c

-- The last section under c.mu.
unfoldable pub commit : ℕ → MapCall → MapResponse → Client → Client
commit now call m c =
    let c' = cache_external_ip m.external_ip (update_epoch now m.epoch c).0 in
    if call.lifetime_sec == 0 then record c' { nonces = delete call.key c'.nonces } else c'

-- From the lock to the return; the lock is given back on every path.
unfoldable pub locked_map : Env → MapCall → Client → Client × Outcome MapResponse
locked_map env call c =
    let locked = lock_mapping call.key c in
    let nonce = choose_nonce call locked in
    let claimed = claim_nonce call locked in
    elim (exchange claimed env.rounds call nonce) [
      | ok m ↦ (unlock_mapping call.key (commit env.now call m claimed), ok m)
      | err e ↦ (unlock_mapping call.key claimed, err e)
      | panic ↦ (unlock_mapping call.key claimed, panic)
    ]

-- addPortMappingWithHint
unfoldable pub request_mapping :
    Env → String → ℤ → ℤ → Addr → ℤ → Client → Client × Outcome MapResponse
request_mapping env protocol internal_port suggested_port suggested_ip lifetime c =
    elim (prepare c env.entropy protocol internal_port suggested_port suggested_ip lifetime) [
      | ok call ↦ locked_map env call c
      | err e ↦ (c, err e)
      | panic ↦ (c, panic)
    ]

unfoldable pub add_port_mapping : Env → String → ℤ → ℤ → Client → Client × Outcome MapResponse
add_port_mapping env protocol internal_port lifetime c =
    request_mapping env protocol internal_port internal_port invalid lifetime c

-- A nil suggested address is the empty list. A slice of another length than 4 or 16 counts as nil.
unfoldable pub add_port_mapping_with_hint :
    Env → String → ℤ → ℤ → Bytes → ℤ → Client → Client × Outcome MapResponse
add_port_mapping_with_hint env protocol internal_port suggested_port suggested_ip lifetime c =
    request_mapping env protocol internal_port suggested_port (unmap (addr_from_slice suggested_ip))
      lifetime c

abbrev pub done : MapResponse → Outcome (Unit {0})
done m = ok tt

unfoldable pub delete_port_mapping : Env → String → ℤ → Client → Client × Outcome (Unit {0})
delete_port_mapping env protocol internal_port c =
    let (c', r) = request_mapping env protocol internal_port (pos 0) invalid (pos 0) c in
    (c', with_prefix "delete mapping" r >>= done)

-- Announce up to the check of the result code.
unfoldable pub announce_exchange : Client → (ℕ → Round) → Outcome ℕ
announce_exchange c rounds = do
  local ← with_prefix "get local IP" (get_local_ip c)
  req ← build_announce_request local
  resp ← with_prefix "send announce" (send_request c rounds req).0
  parsed ← with_prefix "parse announce response" (parse_response resp)
  fail_if (not (parsed.result_code == result_success)) (message (plain "PCP ANNOUNCE failed: %s"))
  ok parsed.epoch

-- Announce
unfoldable pub announce : Env → Client → Client × Outcome ℕ
announce env c = elim (announce_exchange c env.rounds) [
  | ok epoch ↦ ((update_epoch env.now epoch c).0, ok epoch)
  | err e ↦ (c, err e)
  | panic ↦ (c, panic)
]

-- A port of the dynamic range, from the clock.
unfoldable pub ephemeral_port : ℕ → ℕ
ephemeral_port nanos = 49152 + nanos % 2 ^ 16 % (65535 - 49152)

-- GetExternalAddress: the cached address, or that of a mapping which is deleted again. The result of
-- the deletion is ignored.
unfoldable pub get_external_address : ℕ → Env → Env → Client → Client × Outcome Bytes
get_external_address nanos env env' c =
    if is_valid c.external_ip
    then (c, ok (as_slice c.external_ip))
    else (let ephemeral = pos (ephemeral_port nanos) in
        let (c', r) = add_port_mapping env "udp" ephemeral (pos second) c in
        elim r [
          | ok m ↦ ((delete_port_mapping env' "udp" ephemeral c').0, ok (as_slice m.external_ip))
          | err e ↦ (c', with_prefix "create temporary mapping" (err e))
          | panic ↦ (c', panic)
        ])
