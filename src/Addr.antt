-- ===== src/Addr.antt =====
-- What the code uses of Go's net and net/netip: IP addresses as byte strings, and their
-- conversions. Part of the language's standard library, written out from its documentation.
use go_nat.Base.{◌≡◌, Bool, true, false, ◌&&◌, [], ◌∷◌, ◌++◌, String, str_eq}
use go_nat.Base.Tests.{◌==◌, if◌then◌else◌}
use go_nat.Base.Lists.{length, take, drop, replicate, All}
use go_nat.Base.Bytes.{Bytes, IsByte, bytes_eq}

-- netip.Addr: the zero value, four bytes, or sixteen bytes with a zone.
pub data Addr : Type 0 where
  invalid : Addr
  v4 : Bytes → Addr
  v6 : Bytes → String → Addr

abbrev pub IsAddr : Addr → Type 0
IsAddr invalid = Unit {0}
IsAddr (v4 b) = (length b ≡ 4) × All IsByte b
IsAddr (v6 b z) = (length b ≡ 16) × All IsByte b

-- ::ffff:0:0/96
abbrev pub v4_in_v6_prefix : Bytes
v4_in_v6_prefix = 0 ∷ 0 ∷ 0 ∷ 0 ∷ 0 ∷ 0 ∷ 0 ∷ 0 ∷ 0 ∷ 0 ∷ 255 ∷ 255 ∷ []

abbrev pub ipv4_unspecified : Addr
ipv4_unspecified = v4 (0 ∷ 0 ∷ 0 ∷ 0 ∷ [])

abbrev pub ipv6_unspecified : Addr
ipv6_unspecified = v6 (replicate 16 0) ""

abbrev pub is_valid : Addr → Bool
is_valid invalid = false
is_valid (v4 b) = true
is_valid (v6 b z) = true

abbrev pub is_4 : Addr → Bool
is_4 invalid = false
is_4 (v4 b) = true
is_4 (v6 b z) = false

abbrev pub is_4in6 : Addr → Bool
is_4in6 invalid = false
is_4in6 (v4 b) = false
is_4in6 (v6 b z) = bytes_eq (take 12 b) v4_in_v6_prefix

abbrev pub as_16 : Addr → Bytes
as_16 invalid = replicate 16 0
as_16 (v4 b) = v4_in_v6_prefix ++ b
as_16 (v6 b z) = b

abbrev pub as_slice : Addr → Bytes
as_slice invalid = []
as_slice (v4 b) = b
as_slice (v6 b z) = b

abbrev pub unmap : Addr → Addr
unmap invalid = invalid
unmap (v4 b) = v4 b
unmap (v6 b z) = if bytes_eq (take 12 b) v4_in_v6_prefix then v4 (drop 12 b) else v6 b z

-- netip.AddrFromSlice: the zero value where the length is neither 4 nor 16.
abbrev pub addr_from_slice : Bytes → Addr
addr_from_slice b = if length b == 4 then v4 b else if length b == 16 then v6 b "" else invalid

-- An address with a zone is never the unspecified one.
abbrev pub is_unspecified : Addr → Bool
is_unspecified invalid = false
is_unspecified (v4 b) = bytes_eq b (replicate 4 0)
is_unspecified (v6 b z) = bytes_eq b (replicate 16 0) && str_eq z ""

-- An IPv4 address takes no zone.
abbrev pub with_zone : String → Addr → Addr
with_zone z invalid = invalid
with_zone z (v4 b) = v4 b
with_zone z (v6 b y) = v6 b z

abbrev pub zone_of : Addr → String
zone_of invalid = ""
zone_of (v4 b) = ""
zone_of (v6 b z) = z

-- net.IP.Equal: an IPv4 address and the same address in IPv6 form are equal.
abbrev pub ip_equal : Bytes → Bytes → Bool
ip_equal a b =
    if length a == length b
    then bytes_eq a b
    else if length a == 4 && length b == 16
    then bytes_eq (take 12 b) v4_in_v6_prefix && bytes_eq a (drop 12 b)
    else if length a == 16 && length b == 4
    then bytes_eq (take 12 a) v4_in_v6_prefix && bytes_eq (drop 12 a) b
    else false
