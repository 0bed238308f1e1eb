-- ===== src/Pcp/Client/Mapping/Calm.antt =====
-- The operations of the client do not panic, whatever packets arrive.
use go_nat.Base.{ℕ, zero, suc, ◌*◌, ◌≢◌, inl, inr, String, arith}
use Prim.Native.Nat.{min}
use go_nat.Base.Tests.{Bool-cases}
use go_nat.Base.Int.{ℤ, pos}
use go_nat.Base.Outcome.{Outcome, panic, Outcome-cases}
use go_nat.Base.Bytes.{Bytes}
use go_nat.Addr.{Addr, invalid, is_valid}
use go_nat.Pcp.Protocol.{MapResponse, build_announce_request, parse_response, parse_map_response}
use go_nat.Pcp.Protocol.Parse.{parse_response-cases, parse_map_response-cases}
use go_nat.Pcp.Client.State.{Client, get_local_ip, lock_mapping}
use go_nat.Pcp.Client.Transport.{UdpAddr, send_loop, send_request, server_addr, max_retry_delay}
use go_nat.Base.Outcome.{message, format_int}
use go_nat.Pcp.Client.Transport.Calm.{
  >>=-ne-panic, ok-ne-panic, with_prefix-ne-panic, fail_if-ne-panic, send_once-ne-panic,
  next_attempt-ne-panic, last_attempt-ne-panic,
}
use go_nat.Pcp.Protocol.Build.{build_announce_request-ok}
use go_nat.Pcp.Client.Mapping.Request.{map_request-packet}
use go_nat.Pcp.Client.Mapping.{
  map_request, bad_internal_port, bad_suggested_port, Env, MapCall, protocol_number, prepare,
  choose_nonce, claim_nonce, check_map_response, exchange, locked_map, request_mapping,
  add_port_mapping, delete_port_mapping, announce_exchange, announce,
}

-- The system calls that stand in the environment return: none of them panics.
pub record IsCalm (env : Env) : Type 0 where
  pub calm_entropy : env.entropy ≢ panic
  pub calm_read :
      (k : ℕ) (addr : UdpAddr) (req : Bytes) (t : ℤ)
      → (env.rounds k).attempt.read addr req t ≢ panic

module _ (env : Env) (calm : IsCalm env) where
  send_loop-ne-panic :
      (c : Client) (addr : UdpAddr) (req : Bytes) (left i delay : ℕ)
      → (send_loop c env.rounds addr req left i delay).0 ≢ panic
  unfolding send_loop
  send_loop-ne-panic c addr req zero i delay =
      last_attempt-ne-panic _ (env.rounds i)
        (send_once-ne-panic (env.rounds i).attempt (calm.calm_read i) c addr req)
  send_loop-ne-panic c addr req (suc left) i delay =
      next_attempt-ne-panic _ (env.rounds i) _ _
        (send_once-ne-panic (env.rounds i).attempt (calm.calm_read i) c addr req)
        (send_loop-ne-panic c addr req left (suc i) (min (delay * 2) max_retry_delay))

  send_request-ne-panic : (c : Client) (req : Bytes) → (send_request c env.rounds req).0 ≢ panic
  unfolding send_request
  send_request-ne-panic c req = elim (Bool-cases (is_valid c.gateway)) [
    | inl v ↦ rw v (send_loop-ne-panic c (server_addr c) req 3 0 _)
    | inr v ↦ rw v (λ p. cc)
  ]

parse_map_response-ne-panic : (xs : Bytes) → parse_map_response xs ≢ panic
parse_map_response-ne-panic xs p = elim (parse_map_response-cases xs) [
  | inl (_, _, e) ↦ cc
  | inr (_, e, _) ↦ cc
]

parse_response-ne-panic : (xs : Bytes) → parse_response xs ≢ panic
parse_response-ne-panic xs p = elim (parse_response-cases xs) [
  | inl (_, _, e) ↦ cc
  | inr (_, e, _) ↦ cc
]

check_map_response-ne-panic :
    (call : MapCall) (nonce : Bytes) (m : MapResponse) → check_map_response call nonce m ≢ panic
unfolding check_map_response
check_map_response-ne-panic call nonce m = λ p. ground arith

get_local_ip-ne-panic : (c : Client) → get_local_ip c ≢ panic
unfolding get_local_ip
get_local_ip-ne-panic c = λ p. ground arith

protocol_number-ne-panic : (s : String) → protocol_number s ≢ panic
unfolding protocol_number
protocol_number-ne-panic s = λ p. ground arith

prepare-ne-panic :
    (c : Client) (entropy : Outcome Bytes) (protocol : String) (i s : ℤ) (ip : Addr) (l : ℤ)
    → entropy ≢ panic
    → prepare c entropy protocol i s ip l ≢ panic
unfolding prepare
prepare-ne-panic c entropy protocol i s ip l h = λ p. ground (
  arith,
  fail_if-ne-panic (bad_internal_port i) (message (format_int "invalid internal port: %d" i)),
  fail_if-ne-panic (bad_suggested_port s)
      (message (format_int "invalid suggested external port: %d" s)),
  get_local_ip-ne-panic c,
  protocol_number-ne-panic protocol,
)

-- Every write of a request is in range.
map_request-ne-panic : (call : MapCall) (nonce : Bytes) → map_request call nonce ≢ panic
map_request-ne-panic call nonce p = cc (map_request-packet call nonce, p)

build_announce_request-ne-panic : (client : Addr) → build_announce_request client ≢ panic
build_announce_request-ne-panic client p = cc (build_announce_request-ok client, p)

module _ (env : Env) (calm : IsCalm env) where
  pub exchange-ne-panic :
      (c : Client) (call : MapCall) (nonce : Bytes) → exchange c env.rounds call nonce ≢ panic
  unfolding exchange
  exchange-ne-panic c call nonce = >>=-ne-panic _ _ (map_request-ne-panic call nonce) λ _.
      >>=-ne-panic _ _ (with_prefix-ne-panic _ _ (send_request-ne-panic env calm c _)) λ _.
        >>=-ne-panic _ _ (with_prefix-ne-panic _ _ (parse_map_response-ne-panic _))
          λ _. check_map_response-ne-panic call nonce _

  pub locked_map-ne-panic : (call : MapCall) (c : Client) → (locked_map env call c).1 ≢ panic
  unfolding locked_map
  locked_map-ne-panic call c = λ p. ground (
    arith,
    exchange-ne-panic (claim_nonce call (lock_mapping call.key c)) call
        (choose_nonce call (lock_mapping call.key c)),
  )

  pub request_mapping-ne-panic :
      (protocol : String) (i s : ℤ) (ip : Addr) (l : ℤ) (c : Client)
      → (request_mapping env protocol i s ip l c).1 ≢ panic
  unfolding request_mapping
  request_mapping-ne-panic protocol i s ip l c =
      elim (Outcome-cases (prepare c env.entropy protocol i s ip l)) [
        | inl (call, e) ↦ rw (e, request_mapping) (locked_map-ne-panic call c)
        | inr (inl (x, e)) ↦ rw (e, request_mapping) (λ p. cc)
        | inr (inr e) ↦
            absurd (prepare-ne-panic c env.entropy protocol i s ip l calm.calm_entropy e)
      ]

  pub add_port_mapping-ne-panic :
      (protocol : String) (i l : ℤ) (c : Client) → (add_port_mapping env protocol i l c).1 ≢ panic
  unfolding add_port_mapping
  add_port_mapping-ne-panic protocol i l c = request_mapping-ne-panic protocol i i invalid l c

  pub delete_port_mapping-ne-panic :
      (protocol : String) (i : ℤ) (c : Client) → (delete_port_mapping env protocol i c).1 ≢ panic
  unfolding delete_port_mapping
  delete_port_mapping-ne-panic protocol i c =
      >>=-ne-panic _ _
        (with_prefix-ne-panic _ _ (request_mapping-ne-panic protocol i (pos 0) invalid (pos 0) c))
        λ _. ok-ne-panic _

  announce_exchange-ne-panic : (c : Client) → announce_exchange c env.rounds ≢ panic
  unfolding announce_exchange
  announce_exchange-ne-panic c =
      >>=-ne-panic _ _ (with_prefix-ne-panic _ _ (get_local_ip-ne-panic c)) λ _.
        >>=-ne-panic _ _ (build_announce_request-ne-panic _) λ _.
          >>=-ne-panic _ _ (with_prefix-ne-panic _ _ (send_request-ne-panic env calm c _)) λ _.
            >>=-ne-panic _ _ (with_prefix-ne-panic _ _ (parse_response-ne-panic _))
              λ m. >>=-ne-panic _ _ (fail_if-ne-panic _ _) λ _. ok-ne-panic m.epoch

  pub announce-ne-panic : (c : Client) → (announce env c).1 ≢ panic
  unfolding announce
  announce-ne-panic c = λ p. ground (arith, announce_exchange-ne-panic c)
