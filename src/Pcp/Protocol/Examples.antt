-- ===== src/Pcp/Protocol/Examples.antt =====
-- Concrete packets, and the theorems on packets at them.
use go_nat.Base.{◌≤◌, ◌≡◌, refl, ◌⊎◌, [], ◌∷◌, arith}
use go_nat.Base.Lists.{length, replicate}
use go_nat.Base.Outcome.{Error, ok, err}
use go_nat.Base.Bytes.{Bytes, put, put_slice}
use go_nat.Addr.{Addr, invalid, v4}
use go_nat.Pcp.Protocol.{
  addr_from_16, addr_to_16, suggested_or_unspecified, build_map_request, parse_response,
  read_map_fields, parse_map_response,
}
use go_nat.Pcp.Protocol.Wire.{wire_request, wire_map}
use go_nat.Pcp.Protocol.Parse.{IsReply, map_at, parse_map_response-cases}
use go_nat.Pcp.Protocol.Build.{asked_address, build_map_request-wire}
use go_nat.Pcp.Protocol.RoundTrip.{response_packet, map_response, parse_map_response-wire}

abbrev client_ip : Addr
client_ip = v4 (192 ∷ 168 ∷ 1 ∷ 2 ∷ [])

abbrev external_ip : Addr
external_ip = v4 (203 ∷ 0 ∷ 113 ∷ 7 ∷ [])

abbrev nonce : Bytes
nonce = 1 ∷ 2 ∷ 3 ∷ 4 ∷ 5 ∷ 6 ∷ 7 ∷ 8 ∷ 9 ∷ 10 ∷ 11 ∷ 12 ∷ []

abbrev packet : Bytes
packet = response_packet 0x81 0 0 7200 99 (replicate 12 0) nonce 17 5000 6000 external_ip []

-- An IPv4 client that suggests no address asks for ::ffff:0.0.0.0.
request_unspecified :
    build_map_request client_ip nonce 17 5000 5000 invalid 7200
    ≡ ok (
        2 ∷ 1 ∷ 0 ∷ 0 ∷ 0 ∷ 0 ∷ 28 ∷ 32 ∷ 0 ∷ 0 ∷ 0 ∷ 0 ∷ 0 ∷ 0 ∷ 0 ∷ 0 ∷ 0 ∷ 0 ∷ 255 ∷ 255 ∷ 192
        ∷ 168 ∷ 1 ∷ 2 ∷ 1 ∷ 2 ∷ 3 ∷ 4 ∷ 5 ∷ 6 ∷ 7 ∷ 8 ∷ 9 ∷ 10 ∷ 11 ∷ 12 ∷ 17 ∷ 0 ∷ 0 ∷ 0 ∷ 19 ∷ 136
        ∷ 19 ∷ 136 ∷ 0 ∷ 0 ∷ 0 ∷ 0 ∷ 0 ∷ 0 ∷ 0 ∷ 0 ∷ 0 ∷ 0 ∷ 255 ∷ 255 ∷ 0 ∷ 0 ∷ 0 ∷ 0 ∷ [])
unfolding build_map_request put put_slice suggested_or_unspecified addr_to_16
request_unspecified = refl

parsed_packet :
    parse_map_response packet ≡ ok (map_response 0x81 0 7200 99 nonce 17 5000 6000 external_ip)
unfolding parse_map_response parse_response read_map_fields addr_from_16
parsed_packet = refl

parse_map_response-cases_example :
    ((60 ≤ length packet) × IsReply packet × (parse_map_response packet ≡ ok (map_at packet)))
    ⊎ ((e : Error) × (parse_map_response packet ≡ err e)
        × ((60 ≤ length packet) × IsReply packet → ⊥))
parse_map_response-cases_example = parse_map_response-cases packet

parse_map_response-wire_example :
    parse_map_response packet ≡ ok (map_response 0x81 0 7200 99 nonce 17 5000 6000 external_ip)
parse_map_response-wire_example =
    parse_map_response-wire 0x81 0 0 7200 99 (replicate 12 0) nonce 17 5000 6000 external_ip []
      (λ e. ground arith) (omega arith) (omega arith) refl refl (omega arith) (omega arith)
      (omega arith) tt

build_map_request-wire_example :
    build_map_request client_ip nonce 17 5000 5000 invalid 7200
    ≡ ok (
        wire_request 1 7200 client_ip
          (wire_map nonce 17 5000 5000 (asked_address client_ip invalid) []))
build_map_request-wire_example =
    build_map_request-wire client_ip nonce 17 5000 5000 invalid 7200 (omega arith) (omega arith)
      refl
