-- ===== src/Pcp/Protocol.antt =====
-- pcp/protocol.go: the packets of RFC 6887. A packet is a list of bytes.
pub mod Words
pub mod Wire
pub mod Parse
pub mod Build
pub mod RoundTrip
pub mod Ranges
mod Examples
use go_nat.Base.{
  ℕ, ◌+◌, ◌*◌, ◌^◌, ◌<◌, Bool, true, false, ◌||◌, not, List, [], ◌∷◌, ◌++◌, bit_and, arith, String,
}
use go_nat.Base.Tests.{ltb, ◌==◌, if◌then◌else◌}
use go_nat.Base.Lists.{length, replicate}
use go_nat.Base.Outcome.{
  Error, Text, plain, format, message, Outcome, ok, err, ◌>>=◌, ◌>>◌, fail_if, with_prefix,
}
use go_nat.Base.Bytes.{Bytes, index, slice, put, put_slice, be16, be32, uint16, uint32}
use go_nat.Addr.{
  Addr, v6, is_valid, is_4, is_4in6, as_16, unmap, ipv4_unspecified, ipv6_unspecified,
}

abbrev pub version : ℕ
version = 2

abbrev pub port : ℕ
port = 5351

-- seconds
abbrev pub default_lifetime : ℕ
default_lifetime = 7200

abbrev pub header_size : ℕ
header_size = 24

abbrev pub map_payload_size : ℕ
map_payload_size = 36

abbrev pub map_request_size : ℕ
map_request_size = header_size + map_payload_size

abbrev pub op_announce : ℕ
op_announce = 0

abbrev pub op_map : ℕ
op_map = 1

abbrev pub op_reply : ℕ
op_reply = 0x80

abbrev pub proto_udp : ℕ
proto_udp = 17

abbrev pub proto_tcp : ℕ
proto_tcp = 6

abbrev pub result_success : ℕ
result_success = 0

-- The Go switch, case by case.
pub result_code_string : ℕ → Text
result_code_string c =
    if c == 0
    then plain "SUCCESS"
    else if c == 1
    then plain "UNSUPP_VERSION"
    else if c == 2
    then plain "NOT_AUTHORIZED"
    else if c == 3
    then plain "MALFORMED_REQUEST"
    else if c == 4
    then plain "UNSUPP_OPCODE"
    else if c == 5
    then plain "UNSUPP_OPTION"
    else if c == 6
    then plain "MALFORMED_OPTION"
    else if c == 7
    then plain "NETWORK_FAILURE"
    else if c == 8
    then plain "NO_RESOURCES"
    else if c == 9
    then plain "UNSUPP_PROTOCOL"
    else if c == 10
    then plain "USER_EX_QUOTA"
    else if c == 11
    then plain "CANNOT_PROVIDE_EXTERNAL"
    else if c == 12
    then plain "ADDRESS_MISMATCH"
    else if c == 13
    then plain "EXCESSIVE_REMOTE_PEERS"
    else format "UNKNOWN(%d)" (c ∷ [])

pub record Response : Type 0 where
  pub version : ℕ
  pub opcode : ℕ
  pub result_code : ℕ
  pub lifetime : ℕ
  pub epoch : ℕ

pub record MapResponse : Type 0 where
  pub response : Response
  pub open response use *
  pub nonce : Bytes
  pub protocol : ℕ
  pub internal_port : ℕ
  pub external_port : ℕ
  pub external_ip : Addr

-- An IPv4 address goes through As4 and AddrFrom4, which give it back.
unfoldable pub addr_to_16 : Addr → Bytes
addr_to_16 a = as_16 a

unfoldable pub addr_from_16 : Bytes → Addr
addr_from_16 b = unmap (v6 b "")

-- `mapped` is a [16]byte, so `copy` fills req[8:24].
unfoldable pub build_announce_request : Addr → Outcome Bytes
unfolding addr_to_16
build_announce_request client_ip = do
  versioned ← put 0 version (replicate header_size 0)
  req ← put 1 op_announce versioned
  put_slice 8 24 (addr_to_16 client_ip) req

-- No preference is the all-zeros address of the client's family.
unfoldable pub suggested_or_unspecified : Addr → Addr → Addr
suggested_or_unspecified client_ip suggested =
    if is_valid suggested
    then suggested
    else if is_4 client_ip || is_4in6 client_ip
    then ipv4_unspecified
    else ipv6_unspecified

-- The writes in the order of the code; `nonce` is a [12]byte.
unfoldable pub build_map_request : Addr → Bytes → ℕ → ℕ → ℕ → Addr → ℕ → Outcome Bytes
unfolding addr_to_16
build_map_request client_ip nonce protocol internal_port suggested_port suggested_ip lifetime = do
  versioned ← put 0 version (replicate map_request_size 0)
  header ← put 1 op_map versioned
  timed ← put_slice 4 8 (be32 lifetime) header
  addressed ← put_slice 8 24 (addr_to_16 client_ip) timed
  named ← put_slice 24 36 nonce addressed
  typed ← put 36 protocol named
  inner ← put_slice 40 42 (be16 internal_port) typed
  outer ← put_slice 42 44 (be16 suggested_port) inner
  put_slice 44 60 (addr_to_16 (suggested_or_unspecified client_ip suggested_ip)) outer

-- The errors of the parsers.
abbrev pub too_short : ℕ → Error
too_short n = message (format "response too short: %d bytes" (n ∷ []))

abbrev pub map_too_short : ℕ → Error
map_too_short n = message (format "MAP response too short: %d bytes" (n ∷ []))

abbrev pub bad_version : ℕ → Error
bad_version v = message (format "unsupported PCP version: %d" (v ∷ []))

abbrev pub no_reply_bit : ℕ → Error
no_reply_bit o = message (format "response missing reply bit: opcode=0x%02x" (o ∷ []))

-- Byte 2 is reserved and byte 3 is the result code.
unfoldable pub parse_response : Bytes → Outcome Response
parse_response bytes = do
  fail_if (ltb (length bytes) header_size) (too_short (length bytes))
  version_byte ← index bytes 0
  opcode ← index bytes 1
  code ← index bytes 3
  lifetime_bytes ← slice bytes 4 8
  lifetime ← uint32 lifetime_bytes
  epoch_bytes ← slice bytes 8 12
  epoch ← uint32 epoch_bytes
  fail_if (not (version_byte == version)) (bad_version version_byte)
  fail_if (bit_and opcode op_reply == 0) (no_reply_bit opcode)
  ok (record {
    version = version_byte;
    opcode = opcode;
    result_code = code;
    lifetime = lifetime;
    epoch = epoch;
  })

-- The part of parseMapResponse behind the header.
unfoldable pub read_map_fields : Bytes → Response → Outcome MapResponse
read_map_fields bytes header = do
  protocol ← index bytes 36
  internal_bytes ← slice bytes 40 42
  internal ← uint16 internal_bytes
  external_bytes ← slice bytes 42 44
  external ← uint16 external_bytes
  ip_bytes ← slice bytes 44 60
  nonce ← slice bytes 24 36
  ok (record {
    response = header;
    nonce = nonce;
    protocol = protocol;
    internal_port = internal;
    external_port = external;
    external_ip = addr_from_16 ip_bytes;
  })

unfoldable pub parse_map_response : Bytes → Outcome MapResponse
parse_map_response bytes = do
  fail_if (ltb (length bytes) map_request_size) (map_too_short (length bytes))
  header ← with_prefix "parse header" (parse_response bytes)
  read_map_fields bytes header
