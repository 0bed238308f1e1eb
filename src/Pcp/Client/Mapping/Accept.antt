-- ===== src/Pcp/Client/Mapping/Accept.antt =====
-- Which responses addPortMappingWithHint accepts, and that it accepts those of a server that follows
-- RFC 6887.
use go_nat.Base.{◌≤◌, ◌<◌, ◌^◌, ◌≡◌, refl, sym, ◌∙◌, inl, inr, true, false, String, arith}
use go_nat.Base.Tests.{==_iff}
use go_nat.Base.Lists.{length}
use go_nat.Base.Int.{ℤ, pos, negsuc, is_positive}
use go_nat.Base.Outcome.{ok, Outcome-cases, >>=-eq-ok, with_prefix, with_prefix-eq-ok}
use go_nat.Base.Bytes.{Bytes, bytes_eq→eq, bytes_eq_refl}
use go_nat.Addr.{Addr}
use go_nat.Pcp.Protocol.{MapResponse, parse_map_response}
use go_nat.Pcp.Protocol.Parse.{IsReply, map_at, parse_map_response-cases}
use go_nat.Pcp.Client.State.{Client, lock_mapping}
use go_nat.Pcp.Client.Transport.{send_request}
use go_nat.Pcp.Client.Mapping.Request.{request_packet, exchange-packet}
use go_nat.Pcp.Client.Mapping.{
  Env, MapCall, lifetime_seconds, prepare, choose_nonce, claim_nonce, check_map_response, exchange,
  locked_map, request_mapping,
}

-- A parsed packet that answers the request: it names the request's mapping, carries its nonce, and says
-- success.
pub record Answers (call : MapCall) (nonce : Bytes) (m : MapResponse) : Type 0 where
  pub same_nonce : m.nonce ≡ nonce
  pub same_protocol : m.protocol ≡ call.key.proto
  pub same_port : m.internal_port ≡ call.key.port
  pub success : m.result_code ≡ 0

check_map_response-ok :
    (call : MapCall) (nonce : Bytes) (m m' : MapResponse)
    → check_map_response call nonce m ≡ ok m'
    → Answers call nonce m × (m' ≡ m)
unfolding check_map_response
check_map_response-ok call nonce m m' h = ground (arith, bytes_eq→eq m.nonce nonce)

pub check_map_response-Answers :
    (call : MapCall) (nonce : Bytes) (m : MapResponse)
    → Answers call nonce m
    → check_map_response call nonce m ≡ ok m
unfolding check_map_response
check_map_response-Answers call nonce m a =
    rw
      (
        a.same_nonce,
        bytes_eq_refl nonce,
        (==_iff m.protocol call.key.proto).1 a.same_protocol,
        (==_iff m.internal_port call.key.port).1 a.same_port,
        (==_iff m.result_code 0).1 a.success,
      )
      refl

parse_map_response-ok :
    (xs : Bytes) (m : MapResponse)
    → parse_map_response xs ≡ ok m
    → (60 ≤ length xs) × IsReply xs × (m ≡ map_at xs)
parse_map_response-ok xs m h = elim (parse_map_response-cases xs) [
  | inl (l, r, e) ↦ (l, r, cc)
  | inr (x, e, n) ↦ absurd (cc)
]

-- How a mapping came to be accepted: the bytes that sendRequest returned for the request of this call
-- are 60 or more, with version 2 and the reply bit, and the fields that stand where a MAP response has
-- them answer it. The code does not look at the rest of the opcode.
pub record Accepted (env : Env) (call : MapCall) (c : Client) (m : MapResponse) : Type 0 where
  pub packet : Bytes
  pub sent :
      (send_request
        (claim_nonce call (lock_mapping call.key c))
        env.rounds
        (request_packet call (choose_nonce call c))).0
      ≡ ok packet
  pub long : 60 ≤ length packet
  pub reply : IsReply packet
  pub read : m ≡ map_at packet
  pub answers : Answers call (choose_nonce call c) m

pub exchange-ok :
    (c : Client) (env : Env) (call : MapCall) (nonce : Bytes) (m : MapResponse)
    → exchange c env.rounds call nonce ≡ ok m
    → (packet : Bytes) × ((send_request c env.rounds (request_packet call nonce)).0 ≡ ok packet)
      × (60 ≤ length packet)
      × IsReply packet
      × (m ≡ map_at packet)
      × Answers call nonce m
exchange-ok c env call nonce m h =
    let (packet, es, h') =
      >>=-eq-ok
        (with_prefix "send map request" (send_request c env.rounds (request_packet call nonce)).0) _
        (sym (exchange-packet c env.rounds call nonce) ∙ h) in
    let (m', ep, h'') =
      >>=-eq-ok (with_prefix "parse map response" (parse_map_response packet)) _ h' in
    let (answers, same) = check_map_response-ok call nonce m' m h'' in
    let (long, reply, read) =
      parse_map_response-ok packet m' (with_prefix-eq-ok _ (parse_map_response packet) ep) in
    (packet, with_prefix-eq-ok _ _ es, long, reply, same ∙ read, rw same answers)

locked_map-Accepted :
    (env : Env) (call : MapCall) (c : Client) (m : MapResponse)
    → (locked_map env call c).1 ≡ ok m
    → Accepted env call c m
unfolding locked_map choose_nonce lock_mapping
locked_map-Accepted env call c m h = elim (Outcome-cases (exchange d env.rounds call nonce)) [
  | inl (m', e) ↦
      let same : m' ≡ m = ground arith in
      let (packet, sent, long, reply, read, answers) =
        exchange-ok d env call nonce m (rw same at e) in
      record {
        packet = packet;
        sent = sent;
        long = long;
        reply = reply;
        read = read;
        answers = answers;
      }
  | inr (inl (x, e)) ↦ absurd (ground arith)
  | inr (inr e) ↦ absurd (ground arith)
]
  where
    d : Client
    d = claim_nonce call (lock_mapping call.key c)

    nonce : Bytes
    nonce = choose_nonce call (lock_mapping call.key c)

-- addPortMappingWithHint reports a mapping only where the packet that came back has 60 bytes or more,
-- version 2 and the reply bit, whatever its opcode besides, and carries the nonce, the protocol and the
-- internal port of its own request and the result code of success.
pub request_mapping-Accepted :
    (env : Env) (protocol : String) (internal_port suggested_port : ℤ) (suggested_ip : Addr)
    (lifetime : ℤ) (c : Client) (m : MapResponse)
    → (request_mapping env protocol internal_port suggested_port suggested_ip lifetime c).1 ≡ ok m
    → (call : MapCall) × (prepare c env.entropy protocol internal_port suggested_port suggested_ip
          lifetime
        ≡ ok call)
      × Accepted env call c m
unfolding request_mapping
request_mapping-Accepted env protocol internal_port suggested_port suggested_ip lifetime c m h =
    elim (Outcome-cases
      (prepare c env.entropy protocol internal_port suggested_port suggested_ip lifetime)) [
        | inl (call, e) ↦ (call, e, locked_map-Accepted env call c m (rw (e, request_mapping) at h))
        | inr (inl (x, e)) ↦ absurd (ground arith)
        | inr (inr e) ↦ absurd (ground arith)
      ]

-- A positive lifetime is never sent as 0, which would delete the mapping, and one that is not
-- positive always is; what is sent fits 32 bits.
pub lifetime_seconds-pos :
    (lifetime : ℤ)
    → (lifetime_seconds lifetime < 2 ^ 32)
      × (is_positive lifetime ≡ true → 0 < lifetime_seconds lifetime)
      × (is_positive lifetime ≡ false → lifetime_seconds lifetime ≡ 0)
unfolding lifetime_seconds
lifetime_seconds-pos (negsuc n) = ground arith
lifetime_seconds-pos (pos n) = ground arith
