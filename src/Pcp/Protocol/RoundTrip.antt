-- ===== src/Pcp/Protocol/RoundTrip.antt =====
-- What a server writes is what the client reads.
use go_nat.Base.{
  ℕ, zero, suc, ◌-◌, ◌^◌, ◌≤◌, ◌<◌, ◌≡◌, refl, ap, ◌∙◌, ◌≢◌, true, false, [], ◌∷◌, ◌++◌, inl, inr,
  bit_and, arith,
}
use go_nat.Base.Lists.{length, get_or, take, drop, length-append, drop-append, take-append}
use go_nat.Base.Outcome.{ok}
use go_nat.Base.Bytes.{Bytes, be16}
use go_nat.Addr.{Addr, invalid, v4, v6, IsAddr, is_valid, is_4in6, as_16, unmap, with_zone}
use go_nat.Pcp.Protocol.{MapResponse, addr_to_16, addr_from_16, parse_map_response}
use go_nat.Pcp.Protocol.Words.{get_or-append, be32_value, be16_value}
use go_nat.Pcp.Protocol.Wire.{wire_response, wire_map}
use go_nat.Pcp.Protocol.Build.{length-as_16}
use go_nat.Pcp.Protocol.Parse.{map_at, parse_map_response-cases}

-- A valid address goes through its 16 bytes: IPv4 in IPv6 form comes back as IPv4, and the zone,
-- which the wire does not carry, is gone.
addr_from_16-addr_to_16 :
    (a : Addr) → IsAddr a → is_valid a ≡ true → addr_from_16 (addr_to_16 a) ≡ unmap (with_zone "" a)
unfolding addr_from_16 addr_to_16
addr_from_16-addr_to_16 invalid h v = cc
addr_from_16-addr_to_16 (v4 b) h v = refl
addr_from_16-addr_to_16 (v6 b z) h v = refl

drop_past : (m n : ℕ) (p xs : Bytes) → length p ≡ n → n ≤ m → drop m (p ++ xs) ≡ drop (m - n) xs
drop_past m n [] xs h k = ap (λ i. drop i xs) (omega arith)
drop_past zero n (b ∷ p) xs h k = absurd (omega arith)
drop_past (suc m) n (b ∷ p) xs h k =
    drop_past m (n - 1) p xs (omega arith) (omega arith) ∙ ap (λ i. drop i xs) (omega arith)

module _ (reserved nonce s : Bytes) (hr : length reserved ≡ 12) (hn : length nonce ≡ 12) where
  payload_at : (i : ℕ) → 24 ≤ i → get_or (reserved ++ (nonce ++ s)) i 0 ≡ get_or s (i - 24) 0
  payload_at i h =
      get_or-append 12 i reserved (nonce ++ s) hr (omega arith)
      ∙ get_or-append 12 (i - 12) nonce s hn (omega arith)
      ∙ ap (λ j. get_or s j 0) (omega arith)

  nonce_at : take 12 (drop 12 (reserved ++ (nonce ++ s))) ≡ nonce
  nonce_at = rw (drop-append 12 reserved (nonce ++ s) hr) (take-append 12 nonce s hn)

  payload_from : (i : ℕ) → 24 ≤ i → drop i (reserved ++ (nonce ++ s)) ≡ drop (i - 24) s
  payload_from i h =
      drop_past i 12 reserved (nonce ++ s) hr (omega arith)
      ∙ drop_past (i - 12) 12 nonce s hn (omega arith)
      ∙ ap (λ j. drop j s) (omega arith)

-- An address that sixteen bytes determine.
abbrev pub IsPlain : Addr → Type 0
IsPlain invalid = ⊥
IsPlain (v4 b) = Unit {0}
IsPlain (v6 b z) = (is_4in6 (v6 b z) ≡ false) × (z ≡ "")

read_back : (a : Addr) → IsPlain a → unmap (v6 (as_16 a) "") ≡ a
read_back invalid h = absurd h
read_back (v4 b) h = refl
read_back (v6 b z) (h, e) = rw (h, e) refl

-- The value that a packet of the MAP response format stands for.
abbrev pub map_response : ℕ → ℕ → ℕ → ℕ → Bytes → ℕ → ℕ → ℕ → Addr → MapResponse
map_response opcode code lifetime epoch nonce protocol internal external ip = record {
  response = record {
    version = 2;
    opcode = opcode;
    result_code = code;
    lifetime = lifetime;
    epoch = epoch;
  };
  nonce = nonce;
  protocol = protocol;
  internal_port = internal;
  external_port = external;
  external_ip = ip;
}

module _ (opcode unused code lifetime epoch : ℕ) (reserved nonce : Bytes)
    (protocol internal external : ℕ) (ip : Addr) (options : Bytes) where
  abbrev pub response_packet : Bytes
  response_packet =
      wire_response 2 opcode unused code lifetime epoch reserved
        (wire_map nonce protocol internal external ip options)

  -- Whatever address the sixteen bytes are written from.
  pub parse_map_response-bytes :
      bit_and opcode 0x80 ≢ 0
      → lifetime < 2 ^ 32
      → epoch < 2 ^ 32
      → length reserved ≡ 12
      → length nonce ≡ 12
      → internal < 2 ^ 16
      → external < 2 ^ 16
      → IsAddr ip
      → parse_map_response response_packet
        ≡ ok (
            map_response opcode code lifetime epoch nonce protocol internal external
              (unmap (v6 (as_16 ip) "")))
  unfolding addr_from_16
  parse_map_response-bytes reply hl he hr hn hin hex hi =
      elim (parse_map_response-cases response_packet) [
        | inl (_, _, e) ↦ rw e (ap ok fields)
        | inr (x, _, n) ↦ absurd (n (long, record { versioned = refl; replies = reply }))
      ]
    where
      s : Bytes
      s = (protocol ∷ 0 ∷ 0 ∷ 0 ∷ []) ++ (be16 internal ++ (be16 external ++ (as_16 ip ++ options)))

      long : 60 ≤ length response_packet
      long = omega (
        arith,
        length-append reserved (nonce ++ s),
        length-append nonce s,
        length-append (as_16 ip) options,
        length-as_16 ip hi,
      )

      fields :
          map_at response_packet
          ≡ map_response opcode code lifetime epoch nonce protocol internal external
              (unmap (v6 (as_16 ip) ""))
      fields =
          rw
            (
              nonce_at reserved nonce s hr hn,
              payload_at reserved nonce s hr hn 24 (omega arith),
              payload_at reserved nonce s hr hn 28 (omega arith),
              payload_at reserved nonce s hr hn 29 (omega arith),
              payload_at reserved nonce s hr hn 30 (omega arith),
              payload_at reserved nonce s hr hn 31 (omega arith),
              payload_from reserved nonce s hr hn 32 (omega arith),
              take-append 16 (as_16 ip) options (length-as_16 ip hi),
              be32_value lifetime hl,
              be32_value epoch he,
              be16_value internal hin,
              be16_value external hex,
            )
            refl

  -- A MAP response written in the format of RFC 6887, with any options behind it and anything in its
  -- reserved bytes, is read back field by field, and its external address, which is IPv4 or IPv6 with
  -- neither a zone nor an IPv4 address inside, as itself.
  pub parse_map_response-wire :
      bit_and opcode 0x80 ≢ 0
      → lifetime < 2 ^ 32
      → epoch < 2 ^ 32
      → length reserved ≡ 12
      → length nonce ≡ 12
      → internal < 2 ^ 16
      → external < 2 ^ 16
      → IsAddr ip
      → IsPlain ip
      → parse_map_response response_packet
        ≡ ok (map_response opcode code lifetime epoch nonce protocol internal external ip)
  parse_map_response-wire reply hl he hr hn hin hex hi plain =
      parse_map_response-bytes reply hl he hr hn hin hex hi
      ∙ ap (λ a. ok (map_response opcode code lifetime epoch nonce protocol internal external a))
          (read_back ip plain)
