-- ===== src/Pcp/Client/Mapping/Server.antt =====
-- A PCP server as RFC 6887 describes it, and the client against it: what the server copies out of the
-- request comes back to the client, and the mapping is accepted.
use go_nat.Base.{ℕ, ◌≤◌, ◌<◌, ◌^◌, ◌≡◌, refl, ap, ◌∙◌, true, none, String, [], ◌∷◌, ◌++◌, arith}
use go_nat.Base.Lists.{length, take, drop, get_or, length-append, take_all}
use go_nat.Base.Int.{ℤ}
use go_nat.Base.Outcome.{ok}
use go_nat.Base.Bytes.{Bytes, bytes_eq_refl, be16}
use go_nat.Addr.{Addr, v6, unmap, IsAddr, as_16, is_valid, ip_equal}
use go_nat.Pcp.Protocol.{MapResponse, parse_map_response}
use go_nat.Pcp.Protocol.Words.{word16}
use go_nat.Pcp.Protocol.Wire.{wire_map}
use go_nat.Pcp.Protocol.Build.{length-as_16}
use go_nat.Pcp.Protocol.RoundTrip.{response_packet, map_response, parse_map_response-bytes}
use go_nat.Pcp.Client.State.{Client, lock_mapping}
use go_nat.Pcp.Client.Transport.{
  UdpAddr, Attempt, Round, accept_datagram, converse, within_deadline, send_once, server_addr,
}
use go_nat.Pcp.Client.Transport.Answer.{RetriedFrom, send_request-first}
use go_nat.Pcp.Client.Mapping.{
  Env, MapCall, prepare, choose_nonce, claim_nonce, exchange, locked_map, request_mapping,
}
use go_nat.Pcp.Client.Mapping.Frame.{
  SameSetup, SameSetup-trans, choose_nonce-lock, claim_nonce-SameSetup, lock-SameSetup,
}
use go_nat.Pcp.Client.Mapping.Request.{
  request_packet, exchange-packet, IsSendable, request_nonce, request_protocol, request_port,
}
use go_nat.Pcp.Client.Mapping.Accept.{check_map_response-Answers}

-- What the server decides: the granted lifetime, its epoch, and the external port and address.
pub record Grant : Type 0 where
  pub lifetime : ℕ
  pub epoch : ℕ
  pub external_port : ℕ
  pub external_ip : Addr
  pub reserved : Bytes

pub record IsGrant (g : Grant) : Type 0 where
  pub lifetime_fits : g.lifetime < 2 ^ 32
  pub epoch_fits : g.epoch < 2 ^ 32
  pub port_fits : g.external_port < 2 ^ 16
  pub addressed : IsAddr g.external_ip
  pub reserved_size : length g.reserved ≡ 12

-- The server's answer: a MAP success response (opcode 0x81) with the nonce, the protocol and the
-- internal port that stand in the request.
abbrev pub serve : Grant → Bytes → Bytes
serve g req =
    response_packet 0x81 0 0 g.lifetime g.epoch g.reserved (take 12 (drop 24 req)) (get_or req 36 0)
      (word16 req 40) g.external_port g.external_ip []

-- An attempt whose packets get through to that server and back, on a context with no deadline.
pub record ReachesServer (g : Grant) (a : Attempt) : Type 0 where
  pub started : a.ctx_at_start ≡ none
  pub listening : a.listen ≡ none
  pub unlimited : a.remaining ≡ none
  pub armed : (t : ℤ) → a.set_deadline t ≡ none
  pub written : (addr : UdpAddr) (req : Bytes) → a.write addr req ≡ none
  pub answered :
      (addr : UdpAddr) (req : Bytes) (t : ℤ) → a.read addr req t ≡ ok (serve g req, addr.ip)

ip_equal_refl : (a : Bytes) → ip_equal a a ≡ true
ip_equal_refl a = ground (arith, bytes_eq_refl a)

length-serve :
    (g : Grant) (req : Bytes)
    → IsGrant g
    → length (take 12 (drop 24 req)) ≡ 12
    → length (serve g req) ≡ 60
length-serve g req h k = omega (
  arith,
  length-append g.reserved (
      wire_map (take 12 (drop 24 req)) (get_or req 36 0) (word16 req 40) g.external_port
        g.external_ip []),
  length-append (take 12 (drop 24 req)) (
      get_or req 36 0
      ∷ 0
      ∷ 0
      ∷ 0
      ∷ (be16 (word16 req 40) ++ (be16 g.external_port ++ (as_16 g.external_ip ++ [])))),
  length-append (as_16 g.external_ip) [],
  length-as_16 g.external_ip h.addressed,
  h.reserved_size,
)

send_once-serve :
    (c : Client) (g : Grant) (a : Attempt) (addr : UdpAddr) (req : Bytes)
    → ReachesServer g a
    → length (serve g req) ≤ 128
    → send_once c a addr req ≡ ok (serve g req)
unfolding send_once within_deadline converse accept_datagram
send_once-serve c g a addr req h k =
    rw
      (
        h.started,
        h.listening,
        h.unlimited,
        within_deadline,
        h.armed,
        h.written,
        h.answered,
        accept_datagram,
        ip_equal_refl addr.ip,
      )
      (ap ok (take_all 128 (serve g req) k))

abbrev pub granted : Grant → MapCall → Bytes → MapResponse
granted g call nonce =
    map_response 0x81 0 g.lifetime g.epoch nonce call.key.proto call.key.port g.external_port
      (unmap (v6 (as_16 g.external_ip) ""))

module _ (call : MapCall) (nonce : Bytes) (s : IsSendable call nonce) (g : Grant)
    (ig : IsGrant g) where
  length-served : length (serve g (request_packet call nonce)) ≡ 60
  length-served =
      length-serve g (request_packet call nonce) ig
        (ap length (request_nonce call nonce s) ∙ s.nonce_size)

  parse-serve : parse_map_response (serve g (request_packet call nonce)) ≡ ok (granted g call nonce)
  parse-serve =
      rw (request_nonce call nonce s, request_protocol call nonce s, request_port call nonce s)
        (parse_map_response-bytes 0x81 0 0 g.lifetime g.epoch g.reserved nonce call.key.proto
          call.key.port g.external_port g.external_ip [] (λ e. ground arith) ig.lifetime_fits
          ig.epoch_fits ig.reserved_size s.nonce_size s.port_fits ig.port_fits ig.addressed)

  exchange-serve :
      (c : Client) (rounds : ℕ → Round) (n : ℕ)
      → is_valid c.gateway ≡ true
      → n ≤ 3
      → RetriedFrom c rounds (server_addr c) (request_packet call nonce) 0 n
      → ReachesServer g (rounds n).attempt
      → exchange c rounds call nonce ≡ ok (granted g call nonce)
  exchange-serve c rounds n valid le r reach =
      rw
        (
          exchange-packet c rounds call nonce,
          send_request-first c rounds (request_packet call nonce) valid n
              (serve g (request_packet call nonce)) le r
              (send_once-serve c g (rounds n).attempt (server_addr c) (request_packet call nonce)
                reach (omega (arith, length-served))),
          parse-serve,
        )
        (check_map_response-Answers call nonce (granted g call nonce)
          (record { same_nonce = refl; same_protocol = refl; same_port = refl; success = refl }))

locked_map-ok :
    (env : Env) (call : MapCall) (c : Client) (m : MapResponse)
    → exchange
        (claim_nonce call (lock_mapping call.key c))
        env.rounds
        call
        (choose_nonce call (lock_mapping call.key c))
      ≡ ok m
    → (locked_map env call c).1 ≡ ok m
unfolding locked_map
locked_map-ok env call c m e = rw (e, locked_map) refl

-- One lost packet is not fatal: where a server that follows RFC 6887 is reached by any of the four
-- attempts, and those before it were retried, addPortMappingWithHint reports the port and the
-- address that the server granted.
pub request_mapping-serve :
    (env : Env) (protocol : String) (internal_port suggested_port : ℤ) (suggested_ip : Addr)
    (lifetime : ℤ) (c : Client) (call : MapCall) (g : Grant) (n : ℕ)
    → prepare c env.entropy protocol internal_port suggested_port suggested_ip lifetime ≡ ok call
    → IsSendable call (choose_nonce call c)
    → IsGrant g
    → is_valid c.gateway ≡ true
    → n ≤ 3
    → (let d = claim_nonce call (lock_mapping call.key c) in
        RetriedFrom d env.rounds (server_addr d) (request_packet call (choose_nonce call c)) 0 n)
    → ReachesServer g (env.rounds n).attempt
    → (request_mapping env protocol internal_port suggested_port suggested_ip lifetime c).1
      ≡ ok (granted g call (choose_nonce call c))
unfolding request_mapping
request_mapping-serve env protocol internal_port suggested_port suggested_ip lifetime c call g n p s
      ig valid le r reach =
    rw (p, request_mapping)
      (locked_map-ok env call c _ (
        rw (choose_nonce-lock call c) (
          exchange-serve call (choose_nonce call c) s g ig d env.rounds n
            (rw (same.same_gateway) valid) le r reach)))
  where
    d : Client
    d = claim_nonce call (lock_mapping call.key c)

    same : SameSetup c d
    same =
        SameSetup-trans c _ d (lock-SameSetup call.key c)
          (claim_nonce-SameSetup call (lock_mapping call.key c))
