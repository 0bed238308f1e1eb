-- ===== src/Pcp/Client/Mapping/Request.antt =====
-- pcp/client.go and pcp/protocol.go: what stands in the MAP request that a call of the client sends.
use go_nat.Base.{ℕ, ◌-◌, ◌≤◌, ◌<◌, ◌^◌, ◌≡◌, refl, ap, ◌∙◌, [], ◌∷◌, ◌++◌, arith}
use go_nat.Base.Lists.{length, take, drop, get_or, take-append, drop-append}
use go_nat.Base.Bytes.{Bytes, be16}
use go_nat.Addr.{Addr, IsAddr, as_16}
use go_nat.Base.Outcome.{Outcome, ok, ◌>>=◌, with_prefix}
use go_nat.Pcp.Protocol.{MapResponse, parse_map_response, suggested_or_unspecified}
use go_nat.Pcp.Client.State.{Client}
use go_nat.Pcp.Client.Transport.{Round, send_request}
use go_nat.Pcp.Protocol.Words.{word16, get_or-append, be16_value}
use go_nat.Pcp.Protocol.Wire.{wire_request, wire_map}
use go_nat.Pcp.Protocol.Build.{map_bytes, build_map_request-ok, map_bytes-wire, length-as_16}
use go_nat.Pcp.Client.Mapping.{MapCall, map_request, check_map_response, exchange}

-- What stands in a MAP request at the places from which the server copies.
module _ (client : Addr) (nonce : Bytes) (lifetime protocol internal suggested : ℕ) (ip : Addr)
    (hc : IsAddr client) (hn : length nonce ≡ 12) where
  abbrev packet : Bytes
  packet = wire_request 1 lifetime client (wire_map nonce protocol internal suggested ip [])

  abbrev rest : Bytes
  rest = protocol ∷ 0 ∷ 0 ∷ 0 ∷ (be16 internal ++ (be16 suggested ++ (as_16 ip ++ [])))

  nonce_in : take 12 (drop 24 packet) ≡ nonce
  nonce_in =
      rw (drop-append 16 (as_16 client) (nonce ++ rest) (length-as_16 client hc))
        (take-append 12 nonce rest hn)

  field_in :
      (i : ℕ) → 28 ≤ i → get_or (as_16 client ++ (nonce ++ rest)) i 0 ≡ get_or rest (i - 28) 0
  field_in i h =
      get_or-append 16 i (as_16 client) (nonce ++ rest) (length-as_16 client hc) (omega arith)
      ∙ get_or-append 12 (i - 16) nonce rest hn (omega arith)
      ∙ ap (λ j. get_or rest j 0) (omega arith)

  protocol_in : get_or packet 36 0 ≡ protocol
  protocol_in = field_in 28 (omega arith)

  port_in : internal < 2 ^ 16 → word16 packet 40 ≡ internal
  port_in h = rw (field_in 32 (omega arith), field_in 33 (omega arith)) (be16_value internal h)

-- The packet of a call that presents `nonce`.
abbrev pub request_packet : MapCall → Bytes → Bytes
request_packet call nonce =
    map_bytes call.local_ip nonce call.key.proto call.key.port call.suggested_port call.suggested_ip
      call.lifetime_sec

pub map_request-packet :
    (call : MapCall) (nonce : Bytes) → map_request call nonce ≡ ok (request_packet call nonce)
unfolding map_request
map_request-packet call nonce =
    build_map_request-ok call.local_ip nonce call.key.proto call.key.port call.suggested_port
      call.suggested_ip call.lifetime_sec

-- An exchange sends that packet.
abbrev pub exchange_of : Client → (ℕ → Round) → MapCall → Bytes → Outcome MapResponse
exchange_of c rounds call nonce = do
  resp ← with_prefix "send map request" (send_request c rounds (request_packet call nonce)).0
  m ← with_prefix "parse map response" (parse_map_response resp)
  check_map_response call nonce m

pub exchange-packet :
    (c : Client) (rounds : ℕ → Round) (call : MapCall) (nonce : Bytes)
    → exchange c rounds call nonce ≡ exchange_of c rounds call nonce
unfolding exchange
exchange-packet c rounds call nonce = rw (map_request-packet call nonce) refl

-- The call can be put on the wire.
pub record IsSendable (call : MapCall) (nonce : Bytes) : Type 0 where
  pub local : IsAddr call.local_ip
  pub suggested : IsAddr call.suggested_ip
  pub port_fits : call.key.port < 2 ^ 16
  pub nonce_size : length nonce ≡ 12

module _ (call : MapCall) (nonce : Bytes) (s : IsSendable call nonce) where
  abbrev ip : Addr
  ip = suggested_or_unspecified call.local_ip call.suggested_ip

  request_packet-wire :
      request_packet call nonce
      ≡ packet call.local_ip nonce call.lifetime_sec call.key.proto call.key.port
          call.suggested_port ip s.local s.nonce_size
  request_packet-wire =
      map_bytes-wire call.local_ip nonce call.key.proto call.key.port call.suggested_port
        call.suggested_ip call.lifetime_sec s.local s.suggested s.nonce_size

  pub request_nonce : take 12 (drop 24 (request_packet call nonce)) ≡ nonce
  request_nonce =
      ap (λ r. take 12 (drop 24 r)) request_packet-wire
      ∙ nonce_in call.local_ip nonce call.lifetime_sec call.key.proto call.key.port
          call.suggested_port ip s.local s.nonce_size

  pub request_protocol : get_or (request_packet call nonce) 36 0 ≡ call.key.proto
  request_protocol =
      ap (λ r. get_or r 36 0) request_packet-wire
      ∙ protocol_in call.local_ip nonce call.lifetime_sec call.key.proto call.key.port
          call.suggested_port ip s.local s.nonce_size

  pub request_port : word16 (request_packet call nonce) 40 ≡ call.key.port
  request_port =
      ap (λ r. word16 r 40) request_packet-wire
      ∙ port_in call.local_ip nonce call.lifetime_sec call.key.proto call.key.port
          call.suggested_port ip s.local s.nonce_size s.port_fits
