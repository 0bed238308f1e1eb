-- ===== src/Pcp/Protocol/Build.antt =====
-- The request builders of pcp/protocol.go against the packet formats, and their lengths.
use go_nat.Base.{ℕ, ◌-◌, ◌≤◌, ◌≡◌, refl, ap, ◌∙◌, [], ◌∷◌, ◌++◌, inl, inr, arith}
use go_nat.Base.Tests.{Bool-cases}
use go_nat.Base.Lists.{length, set, replicate}
use go_nat.Base.Outcome.{ok}
use go_nat.Base.Bytes.{
  Bytes, be16, be32, put, put_slice, put-ok, put_slice-ok, length-set, length-copy_at, copy_at,
  copy_at-append, copy_at-gap, set-append,
}
use go_nat.Addr.{Addr, invalid, v4, v6, IsAddr, as_16, is_4, is_4in6, unmap}
use go_nat.Pcp.Protocol.{build_announce_request, suggested_or_unspecified, build_map_request}
use go_nat.Pcp.Protocol.Wire.{wire_request, wire_map}

pub length-as_16 : (a : Addr) → IsAddr a → length (as_16 a) ≡ 16
length-as_16 invalid h = refl
length-as_16 (v4 b) h = omega arith
length-as_16 (v6 b z) h = h.0

pub suggested_or_unspecified-IsAddr :
    (c s : Addr) → IsAddr s → IsAddr (suggested_or_unspecified c s)
unfolding suggested_or_unspecified
suggested_or_unspecified-IsAddr c (v4 b) h = h
suggested_or_unspecified-IsAddr c (v6 b z) h = h
suggested_or_unspecified-IsAddr c invalid h = elim (Bool-cases (is_4 c)) [
  | inl e ↦ rw e (omega arith)
  | inr e ↦
      rw e
        (elim (Bool-cases (is_4in6 c)) [ inl f ↦ rw f (omega arith) | inr f ↦ rw f (omega arith) ])
]

-- A field in the middle of the payload, behind an address.
address_step : (a : Bytes) → length a ≡ 16 → copy_at 0 a (replicate 52 0) ≡ a ++ replicate 36 0
address_step a h = copy_at-gap a (replicate 16 0) (replicate 36 0) (omega arith)

nonce_step :
    (a n : Bytes)
    → length a ≡ 16
    → length n ≡ 12
    → copy_at 16 n (a ++ replicate 36 0) ≡ a ++ (n ++ replicate 24 0)
nonce_step a n h k =
    copy_at-append 16 16 n a (replicate 36 0) h (omega arith)
    ∙ ap (◌++◌ a) (copy_at-gap n (replicate 12 0) (replicate 24 0) (omega arith))

set_step :
    (a n rest : Bytes) (i v : ℕ)
    → length a ≡ 16
    → length n ≡ 12
    → 28 ≤ i
    → set (a ++ (n ++ rest)) i v ≡ a ++ (n ++ set rest (i - 28) v)
set_step a n rest i v h k l =
    set-append 16 i v a (n ++ rest) h (omega arith)
    ∙ ap (◌++◌ a) (
        set-append 12 (i - 16) v n rest k (omega arith) ∙ ap (λ j. n ++ set rest j v) (omega arith))

copy_step :
    (a n rest x : Bytes) (i : ℕ)
    → length a ≡ 16
    → length n ≡ 12
    → 28 ≤ i
    → copy_at i x (a ++ (n ++ rest)) ≡ a ++ (n ++ copy_at (i - 28) x rest)
copy_step a n rest x i h k l =
    copy_at-append 16 i x a (n ++ rest) h (omega arith)
    ∙ ap (◌++◌ a) (
        copy_at-append 12 (i - 16) x n rest k (omega arith)
        ∙ ap (λ j. n ++ copy_at j x rest) (omega arith))

external_step : (x : Bytes) → length x ≡ 16 → copy_at 0 x (replicate 16 0) ≡ x ++ []
external_step x h = copy_at-gap x (replicate 16 0) [] (let e : 16 ≡ length x = omega arith in e)

-- The writes without their checks.
abbrev pub map_bytes : Addr → Bytes → ℕ → ℕ → ℕ → Addr → ℕ → Bytes
map_bytes client nonce protocol internal suggested ip lifetime =
    copy_at 44 (as_16 (suggested_or_unspecified client ip)) (
      copy_at 42 (be16 suggested) (
        copy_at 40 (be16 internal) (
          set
            (copy_at 24 nonce (
              copy_at 8 (as_16 client)
                (copy_at 4 (be32 lifetime) (set (set (replicate 60 0) 0 2) 1 1))))
            36 protocol)))

set_60 : (buf : Bytes) (i v : ℕ) → length buf ≡ 60 → length (set buf i v) ≡ 60
set_60 buf i v h = length-set buf i v ∙ h

copy_60 : (i : ℕ) (xs buf : Bytes) → length buf ≡ 60 → length (copy_at i xs buf) ≡ 60
copy_60 i xs buf h = length-copy_at i xs buf ∙ h

-- No write of a MAP request is out of range, whatever is put in it.
pub build_map_request-ok :
    (client : Addr) (nonce : Bytes) (protocol internal suggested : ℕ) (ip : Addr) (lifetime : ℕ)
    → build_map_request client nonce protocol internal suggested ip lifetime
      ≡ ok (map_bytes client nonce protocol internal suggested ip lifetime)
unfolding build_map_request
build_map_request-ok client nonce protocol internal suggested ip lifetime =
    let header : Bytes = set (set (replicate 60 0) 0 2) 1 1 in
    let l0 : length header ≡ 60 = refl in
    let timed = copy_at 4 (be32 lifetime) header in
    let l1 = copy_60 4 (be32 lifetime) header l0 in
    let addressed = copy_at 8 (as_16 client) timed in
    let l2 = copy_60 8 (as_16 client) timed l1 in
    let named = copy_at 24 nonce addressed in
    let l3 = copy_60 24 nonce addressed l2 in
    let typed = set named 36 protocol in
    let l4 = set_60 named 36 protocol l3 in
    let inner = copy_at 40 (be16 internal) typed in
    let l5 = copy_60 40 (be16 internal) typed l4 in
    let outer = copy_at 42 (be16 suggested) inner in
    let l6 = copy_60 42 (be16 suggested) inner l5 in
    rw
      (
        put-ok 0 2 (replicate 60 0) (omega arith),
        put-ok 1 1 (set (replicate 60 0) 0 2) (omega arith),
        put_slice-ok 4 8 (be32 lifetime) header (omega arith) (omega arith),
        put_slice-ok 8 24 (as_16 client) timed (omega arith) (omega (arith, l1)),
        put_slice-ok 24 36 nonce addressed (omega arith) (omega (arith, l2)),
        put-ok 36 protocol named (omega (arith, l3)),
        put_slice-ok 40 42 (be16 internal) typed (omega arith) (omega (arith, l4)),
        put_slice-ok 42 44 (be16 suggested) inner (omega arith) (omega (arith, l5)),
        put_slice-ok 44 60 (as_16 (suggested_or_unspecified client ip)) outer (omega arith)
            (omega (arith, l6)),
      )
      refl

pub map_bytes-wire :
    (client : Addr) (nonce : Bytes) (protocol internal suggested : ℕ) (ip : Addr) (lifetime : ℕ)
    → IsAddr client
    → IsAddr ip
    → length nonce ≡ 12
    → map_bytes client nonce protocol internal suggested ip lifetime
      ≡ wire_request 1 lifetime client
          (wire_map nonce protocol internal suggested (suggested_or_unspecified client ip) [])
map_bytes-wire client nonce protocol internal suggested ip lifetime hc hi hn =
    rw
      (
        address_step a la,
        nonce_step a nonce la hn,
        set_step a nonce _ 28 _ la hn (omega arith),
        copy_step a nonce _ _ 32 la hn (omega arith),
        copy_step a nonce _ _ 34 la hn (omega arith),
        copy_step a nonce _ _ 36 la hn (omega arith),
        external_step x (length-as_16 _ (suggested_or_unspecified-IsAddr client ip hi)),
      )
      refl
  where
    a : Bytes
    a = as_16 client

    x : Bytes
    x = as_16 (suggested_or_unspecified client ip)

    la : length a ≡ 16
    la = length-as_16 client hc

-- The all-zeros address of a family.
abbrev pub all_zeros : Addr → Addr
all_zeros invalid = v6 (replicate 16 0) ""
all_zeros (v4 b) = v4 (replicate 4 0)
all_zeros (v6 b z) = v6 (replicate 16 0) ""

-- The external address that a request asks for (RFC 6887, section 11.1): the suggested one, or with none
-- the all-zeros address of the family of the client, where an IPv4 address in IPv6 form is IPv4.
abbrev pub asked_address : Addr → Addr → Addr
asked_address client invalid = all_zeros (unmap client)
asked_address client (v4 b) = v4 b
asked_address client (v6 b z) = v6 b z

suggested_or_unspecified-asked :
    (client ip : Addr) → suggested_or_unspecified client ip ≡ asked_address client ip
unfolding suggested_or_unspecified
suggested_or_unspecified-asked client (v4 b) = refl
suggested_or_unspecified-asked client (v6 b z) = refl
suggested_or_unspecified-asked invalid invalid = refl
suggested_or_unspecified-asked (v4 b) invalid = refl
suggested_or_unspecified-asked (v6 b z) invalid = elim (Bool-cases (is_4in6 (v6 b z))) [
  | inl e ↦ rw e refl
  | inr e ↦ rw e refl
]

-- A MAP request is the packet of RFC 6887 for its arguments, whose addresses are well formed; with no
-- external address suggested it carries the all-zeros address of the client's own family.
pub build_map_request-wire :
    (client : Addr) (nonce : Bytes) (protocol internal suggested : ℕ) (ip : Addr) (lifetime : ℕ)
    → IsAddr client
    → IsAddr ip
    → length nonce ≡ 12
    → build_map_request client nonce protocol internal suggested ip lifetime
      ≡ ok (
          wire_request 1 lifetime client
            (wire_map nonce protocol internal suggested (asked_address client ip) []))
build_map_request-wire client nonce protocol internal suggested ip lifetime hc hi hn =
    build_map_request-ok client nonce protocol internal suggested ip lifetime
    ∙ ap ok (map_bytes-wire client nonce protocol internal suggested ip lifetime hc hi hn)
    ∙ ap
        (λ a. ok (wire_request 1 lifetime client (wire_map nonce protocol internal suggested a [])))
        (suggested_or_unspecified-asked client ip)

-- An ANNOUNCE request is the 24-byte header with the client's address and no lifetime.
pub build_announce_request-wire :
    (client : Addr)
    → IsAddr client
    → build_announce_request client ≡ ok (wire_request 0 0 client [])
unfolding build_announce_request put put_slice
build_announce_request-wire client hc =
    ap (λ (r : Bytes). ok (2 ∷ 0 ∷ 0 ∷ 0 ∷ 0 ∷ 0 ∷ 0 ∷ 0 ∷ r))
      (external_step (as_16 client) (length-as_16 client hc))

-- No write of an ANNOUNCE request is out of range.
pub build_announce_request-ok :
    (client : Addr)
    → build_announce_request client
      ≡ ok (copy_at 8 (as_16 client) (set (set (replicate 24 0) 0 2) 1 0))
unfolding build_announce_request put put_slice
build_announce_request-ok client = refl
