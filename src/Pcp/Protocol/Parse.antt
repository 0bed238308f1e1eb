-- ===== src/Pcp/Protocol/Parse.antt =====
-- The parsers of pcp/protocol.go on every input: which packets are accepted, what is read from
-- them, and that no index or slice is out of range.
use go_nat.Base.{◌≤◌, ◌≡◌, refl, ◌≢◌, ◌⊎◌, inl, inr, false, not, bit_and, arith}
use go_nat.Base.Tests.{ltb, ◌==◌, Bool-cases}
use go_nat.Base.Lists.{length, get_or, take, drop}
use go_nat.Base.Outcome.{Error, wrap, Outcome, ok, err, ◌>>=◌, ◌>>◌, fail_if, with_prefix}
use go_nat.Base.Bytes.{Bytes}
use go_nat.Pcp.Protocol.Words.{
  index_in_range, slice_in_range, uint32_window, uint16_window, word32, word16,
}
use go_nat.Pcp.Protocol.{
  too_short, map_too_short, bad_version, no_reply_bit, Response, MapResponse, parse_response,
  read_map_fields, parse_map_response, addr_from_16,
}

-- The header that stands in a packet of 24 bytes or more.
abbrev pub header_at : Bytes → Response
header_at xs = record {
  version = get_or xs 0 0;
  opcode = get_or xs 1 0;
  result_code = get_or xs 3 0;
  lifetime = word32 xs 4;
  epoch = word32 xs 8;
}

-- The MAP response that stands in a packet of 60 bytes or more.
abbrev pub map_at : Bytes → MapResponse
map_at xs = record {
  response = header_at xs;
  nonce = take 12 (drop 24 xs);
  protocol = get_or xs 36 0;
  internal_port = word16 xs 40;
  external_port = word16 xs 42;
  external_ip = addr_from_16 (take 16 (drop 44 xs));
}

-- A version 2 packet with the reply bit set.
pub record IsReply (xs : Bytes) : Type 0 where
  pub versioned : get_or xs 0 0 ≡ 2
  pub replies : bit_and (get_or xs 1 0) 0x80 ≢ 0

abbrev pub checked_header : Bytes → Outcome Response
checked_header xs = do
  fail_if (not (get_or xs 0 0 == 2)) (bad_version (get_or xs 0 0))
  fail_if (bit_and (get_or xs 1 0) 0x80 == 0) (no_reply_bit (get_or xs 1 0))
  ok (header_at xs)

parse_response_long : (xs : Bytes) → 24 ≤ length xs → parse_response xs ≡ checked_header xs
unfolding parse_response
parse_response_long xs h =
    rw
      (
        let e : ltb (length xs) 24 ≡ false = ground arith in e,
        index_in_range xs 0 (omega arith),
        index_in_range xs 1 (omega arith),
        index_in_range xs 3 (omega arith),
        slice_in_range xs 4 8 (omega arith) (omega arith),
        uint32_window xs 4 (omega arith),
        slice_in_range xs 8 12 (omega arith) (omega arith),
        uint32_window xs 8 (omega arith),
      )
      refl

checked_header-cases :
    (xs : Bytes)
    → (IsReply xs × (checked_header xs ≡ ok (header_at xs)))
      ⊎ ((e : Error) × (checked_header xs ≡ err e) × (IsReply xs → ⊥))
checked_header-cases xs = elim (Bool-cases (get_or xs 0 0 == 2)) [
  | inl v ↦ elim (Bool-cases (bit_and (get_or xs 1 0) 0x80 == 0)) [
    | inl b ↦ inr (no_reply_bit (get_or xs 1 0), rw (v, b) refl, λ r. ground arith)
    | inr b ↦ inl (record { versioned = ground arith; replies = ground arith }, rw (v, b) refl)
  ]
  | inr v ↦ inr (bad_version (get_or xs 0 0), rw v refl, λ r. ground arith)
]

-- A header parser's whole behaviour: it accepts exactly the packets of 24 bytes or more that carry
-- version 2 and the reply bit, reads the fields at their offsets, and answers an error otherwise;
-- no input makes it panic.
pub parse_response-cases :
    (xs : Bytes)
    → ((24 ≤ length xs) × IsReply xs × (parse_response xs ≡ ok (header_at xs)))
      ⊎ ((e : Error) × (parse_response xs ≡ err e) × ((24 ≤ length xs) × IsReply xs → ⊥))
parse_response-cases xs = elim (Bool-cases (ltb (length xs) 24)) [
  | inl short ↦
      inr (too_short (length xs), unfold parse_response in rw short refl, λ p. ground arith)
  | inr long ↦ elim (checked_header-cases xs) [
    | inl (r, e) ↦ inl (ground arith, r, rw (parse_response_long xs (ground arith)) e)
    | inr (x, e, n) ↦ inr (x, rw (parse_response_long xs (ground arith)) e, λ p. n p.1)
  ]
]

read_map_fields_long :
    (xs : Bytes) (r : Response)
    → 60 ≤ length xs
    → read_map_fields xs r
      ≡ ok (record {
        response = r;
        nonce = take 12 (drop 24 xs);
        protocol = get_or xs 36 0;
        internal_port = word16 xs 40;
        external_port = word16 xs 42;
        external_ip = addr_from_16 (take 16 (drop 44 xs));
      })
unfolding read_map_fields
read_map_fields_long xs r h =
    rw
      (
        index_in_range xs 36 (omega arith),
        slice_in_range xs 40 42 (omega arith) (omega arith),
        uint16_window xs 40 (omega arith),
        slice_in_range xs 42 44 (omega arith) (omega arith),
        uint16_window xs 42 (omega arith),
        slice_in_range xs 44 60 (omega arith) (omega arith),
        slice_in_range xs 24 36 (omega arith) (omega arith),
      )
      refl

parse_map_response_long :
    (xs : Bytes)
    → 60 ≤ length xs
    → parse_map_response xs
      ≡ (with_prefix "parse header" (checked_header xs) >>= read_map_fields xs)
unfolding parse_map_response
parse_map_response_long xs h =
    rw
      (let e : ltb (length xs) 60 ≡ false = ground arith in e, parse_response_long xs (omega arith))
      refl

-- The MAP parser accepts exactly the packets of 60 bytes or more that carry version 2 and the reply
-- bit, whatever follows the sixtieth byte, and reads every field at its offset; on any other input
-- it answers an error, and it never panics.
pub parse_map_response-cases :
    (xs : Bytes)
    → ((60 ≤ length xs) × IsReply xs × (parse_map_response xs ≡ ok (map_at xs)))
      ⊎ ((e : Error) × (parse_map_response xs ≡ err e) × ((60 ≤ length xs) × IsReply xs → ⊥))
parse_map_response-cases xs = elim (Bool-cases (ltb (length xs) 60)) [
  | inl short ↦
      inr (map_too_short (length xs), unfold parse_map_response in rw short refl, λ p. ground arith)
  | inr long ↦ elim (checked_header-cases xs) [
    | inl (r, e) ↦ inl (
      ground arith,
      r,
      rw (parse_map_response_long xs (ground arith), e)
          (read_map_fields_long xs (header_at xs) (ground arith)),
    )
    | inr (x, e, n) ↦
        inr (
          wrap "parse header" x,
          rw (parse_map_response_long xs (ground arith), e) refl,
          λ p. n p.1,
        )
  ]
]
