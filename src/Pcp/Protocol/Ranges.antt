-- ===== src/Pcp/Protocol/Ranges.antt =====
-- What is read from a packet of bytes lies in the range of its Go type.
use go_nat.Base.{ℕ, zero, suc, ◌+◌, ◌≤◌, ◌<◌, ◌^◌, ◌≡◌, inl, inr, [], ◌∷◌, arith}
use go_nat.Base.Tests.{Bool-cases}
use go_nat.Base.Lists.{length, get_or, take, drop, All, length-take, length-drop}
use go_nat.Base.Bytes.{Bytes, IsByte, bytes_eq}
use go_nat.Addr.{Addr, invalid, v4, v6, IsAddr, v4_in_v6_prefix, unmap, addr_from_slice}
use go_nat.Pcp.Protocol.{MapResponse, addr_from_16}
use go_nat.Pcp.Protocol.Words.{word16, word32}
use go_nat.Pcp.Protocol.Parse.{map_at}

pub All-take : (n : ℕ) (xs : Bytes) → All IsByte xs → All IsByte (take n xs)
All-take zero xs h = tt
All-take (suc n) [] h = tt
All-take (suc n) (x ∷ xs) (h, hs) = (h, All-take n xs hs)

pub All-drop : (n : ℕ) (xs : Bytes) → All IsByte xs → All IsByte (drop n xs)
All-drop zero xs h = h
All-drop (suc n) [] h = tt
All-drop (suc n) (x ∷ xs) (h, hs) = All-drop n xs hs

get_or-IsByte : (xs : Bytes) (i : ℕ) → All IsByte xs → get_or xs i 0 < 256
get_or-IsByte [] i h = omega arith
get_or-IsByte (x ∷ xs) zero (h, hs) = h
get_or-IsByte (x ∷ xs) (suc i) (h, hs) = get_or-IsByte xs i hs

word16-range : (xs : Bytes) (i : ℕ) → All IsByte xs → word16 xs i < 2 ^ 16
word16-range xs i h = omega (arith, get_or-IsByte xs i h, get_or-IsByte xs (i + 1) h)

pub word32-range : (xs : Bytes) (i : ℕ) → All IsByte xs → word32 xs i < 2 ^ 32
word32-range xs i h = omega (
  arith,
  get_or-IsByte xs i h,
  get_or-IsByte xs (i + 1) h,
  get_or-IsByte xs (i + 2) h,
  get_or-IsByte xs (i + 3) h,
)

-- A nonce is a [12]byte.
abbrev pub IsNonce : Bytes → Type 0
IsNonce b = (length b ≡ 12) × All IsByte b

pub unmap-IsAddr : (a : Addr) → IsAddr a → IsAddr (unmap a)
unmap-IsAddr invalid h = h
unmap-IsAddr (v4 b) h = h
unmap-IsAddr (v6 b z) (l, h) = elim (Bool-cases (bytes_eq (take 12 b) v4_in_v6_prefix)) [
  | inl y ↦ rw y (omega (arith, length-drop 12 b), All-drop 12 b h)
  | inr n ↦ rw n (l, h)
]

pub addr_from_slice-IsAddr : (b : Bytes) → All IsByte b → IsAddr (addr_from_slice b)
addr_from_slice-IsAddr b h = ground arith

-- A MAP response whose fields are what their Go types can hold.
pub record IsMapResponse (m : MapResponse) : Type 0 where
  pub lifetime_range : m.lifetime < 2 ^ 32
  pub epoch_range : m.epoch < 2 ^ 32
  pub code_range : m.result_code < 256
  pub protocol_range : m.protocol < 256
  pub internal_range : m.internal_port < 2 ^ 16
  pub external_range : m.external_port < 2 ^ 16
  pub nonce_range : IsNonce m.nonce
  pub ip_range : IsAddr m.external_ip

pub map_at-IsMapResponse : (xs : Bytes) → All IsByte xs → 60 ≤ length xs → IsMapResponse (map_at xs)
unfolding addr_from_16
map_at-IsMapResponse xs h l = record {
  lifetime_range = word32-range xs 4 h;
  epoch_range = word32-range xs 8 h;
  code_range = get_or-IsByte xs 3 h;
  protocol_range = get_or-IsByte xs 36 h;
  internal_range = word16-range xs 40 h;
  external_range = word16-range xs 42 h;
  nonce_range = (
    omega (arith, length-take 12 (drop 24 xs), length-drop 24 xs),
    All-take 12 (drop 24 xs) (All-drop 24 xs h),
  );
  ip_range = unmap-IsAddr (v6 (take 16 (drop 44 xs)) "") (
    omega (arith, length-take 16 (drop 44 xs), length-drop 44 xs),
    All-take 16 (drop 44 xs) (All-drop 44 xs h),
  );
}
