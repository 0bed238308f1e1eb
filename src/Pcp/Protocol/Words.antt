-- ===== src/Pcp/Protocol/Words.antt =====
-- Reading a packet in range: indexing and slicing give the bytes that stand there, and the words of
-- encoding/binary are read back from their bytes.
use go_nat.Base.{
  ℕ, zero, suc, ◌+◌, ◌-◌, ◌*◌, ◌/◌, ◌%◌, ◌^◌, ◌≤◌, ◌<◌, ◌≡◌, refl, ap, ◌∙◌, [], ◌∷◌, ◌++◌, arith,
}
use go_nat.Base.Lists.{length, get_or, take, drop, length-take, length-drop}
use go_nat.Base.Outcome.{ok}
use go_nat.Base.Bytes.{Bytes, index, slice, uint16, uint32}

pub index_in_range : (xs : Bytes) (i : ℕ) → i < length xs → index xs i ≡ ok (get_or xs i 0)
index_in_range xs i h = ground arith

pub slice_in_range :
    (xs : Bytes) (i j : ℕ) → i ≤ j → j ≤ length xs → slice xs i j ≡ ok (take (j - i) (drop i xs))
slice_in_range xs i j h k = ground arith

pub get_or-drop : (xs : Bytes) (i k : ℕ) → get_or (drop i xs) k 0 ≡ get_or xs (i + k) 0
get_or-drop xs zero k = ap (λ n. get_or xs n 0) (omega arith)
get_or-drop [] (suc i) k = refl
get_or-drop (x ∷ xs) (suc i) k =
    get_or-drop xs i k
    ∙ ap (λ n. get_or (x ∷ xs) n 0) (let e : suc (i + k) ≡ suc i + k = omega arith in e)

pub get_or-take : (xs : Bytes) (n k : ℕ) → k < n → get_or (take n xs) k 0 ≡ get_or xs k 0
get_or-take xs zero k h = elim h [ ]
get_or-take [] (suc n) k h = refl
get_or-take (x ∷ xs) (suc n) zero h = refl
get_or-take (x ∷ xs) (suc n) (suc k) h = get_or-take xs n k (omega arith)

pub get_or-append :
    (n i : ℕ) (xs ys : Bytes) → length xs ≡ n → n ≤ i → get_or (xs ++ ys) i 0 ≡ get_or ys (i - n) 0
get_or-append n i [] ys h k = ap (λ m. get_or ys m 0) (omega arith)
get_or-append n zero (x ∷ xs) ys h k = absurd (omega arith)
get_or-append n (suc i) (x ∷ xs) ys h k =
    get_or-append (n - 1) i xs ys (omega arith) (omega arith)
    ∙ ap (λ m. get_or ys m 0) (omega arith)

-- The word of four bytes at `i`, and of two.
abbrev pub word32 : Bytes → ℕ → ℕ
word32 xs i =
    get_or xs i 0 * 2 ^ 24
    + get_or xs (i + 1) 0 * 2 ^ 16
    + get_or xs (i + 2) 0 * 2 ^ 8
    + get_or xs (i + 3) 0

abbrev pub word16 : Bytes → ℕ → ℕ
word16 xs i = get_or xs i 0 * 256 + get_or xs (i + 1) 0

uint32_lem : (xs : Bytes) → length xs ≡ 4 → uint32 xs ≡ ok (word32 xs 0)
uint32_lem (a ∷ b ∷ c ∷ d ∷ []) h = refl
uint32_lem [] h = absurd (omega arith)
uint32_lem (a ∷ []) h = absurd (omega arith)
uint32_lem (a ∷ b ∷ []) h = absurd (omega arith)
uint32_lem (a ∷ b ∷ c ∷ []) h = absurd (omega arith)
uint32_lem (a ∷ b ∷ c ∷ d ∷ e ∷ r) h = absurd (omega arith)

uint16_lem : (xs : Bytes) → length xs ≡ 2 → uint16 xs ≡ ok (word16 xs 0)
uint16_lem (a ∷ b ∷ []) h = refl
uint16_lem [] h = absurd (omega arith)
uint16_lem (a ∷ []) h = absurd (omega arith)
uint16_lem (a ∷ b ∷ c ∷ r) h = absurd (omega arith)

window : (xs : Bytes) (n i k : ℕ) → k < n → get_or (take n (drop i xs)) k 0 ≡ get_or xs (i + k) 0
window xs n i k h = get_or-take (drop i xs) n k h ∙ get_or-drop xs i k

length-window : (xs : Bytes) (n i : ℕ) → i + n ≤ length xs → length (take n (drop i xs)) ≡ n
length-window xs n i h = omega (arith, length-take n (drop i xs), length-drop i xs)

pub uint32_window :
    (xs : Bytes) (i : ℕ) → i + 4 ≤ length xs → uint32 (take 4 (drop i xs)) ≡ ok (word32 xs i)
uint32_window xs i h =
    uint32_lem (take 4 (drop i xs)) (length-window xs 4 i h)
    ∙ cc (
      window xs 4 i 0 (omega arith),
      window xs 4 i 1 (omega arith),
      window xs 4 i 2 (omega arith),
      window xs 4 i 3 (omega arith),
      let e : i + 0 ≡ i = omega arith in e,
    )

pub uint16_window :
    (xs : Bytes) (i : ℕ) → i + 2 ≤ length xs → uint16 (take 2 (drop i xs)) ≡ ok (word16 xs i)
uint16_window xs i h =
    uint16_lem (take 2 (drop i xs)) (length-window xs 2 i h)
    ∙ cc (
      window xs 2 i 0 (omega arith),
      window xs 2 i 1 (omega arith),
      let e : i + 0 ≡ i = omega arith in e,
    )

-- The words are read back from their bytes.
pub be32_value :
    (v : ℕ)
    → v < 2 ^ 32
    → v / 2 ^ 24 % 256 * 2 ^ 24 + v / 2 ^ 16 % 256 * 2 ^ 16 + v / 2 ^ 8 % 256 * 2 ^ 8 + v % 256 ≡ v
be32_value v h = omega arith

pub be16_value : (v : ℕ) → v < 2 ^ 16 → v / 256 % 256 * 256 + v % 256 ≡ v
be16_value v h = omega arith
