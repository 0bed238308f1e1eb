-- ===== src/Base/Bytes.antt =====
-- Byte slices as lists of numbers: indexing and slicing that panic out of range, big-endian words
-- of encoding/binary, writes into a buffer, and `copy`.
use Prim.Native.Nat.{◌≤◌, ℕ, zero, suc, ◌+◌, ◌-◌, ◌*◌, ◌/◌, ◌%◌, ◌^◌, ◌<◌}
use mathlib.Core.Path.{◌∙◌, ◌≡◌, refl, ap}
use mathlib.Core.Bool.{Bool, true, false, ◌&&◌}
use mathlib.Core.List.{List, [], ◌∷◌, ◌++◌}
use native.Mathlib.Omega.{arith}
use go_nat.Base.Tests.{leb, ltb, ◌==◌, if◌then◌else◌}
use go_nat.Base.Lists.{set, length, get_or, take, drop}
use go_nat.Base.Outcome.{Outcome, ok, panic, ◌>>=◌}

abbrev pub Bytes : Type 0
Bytes = List ℕ

abbrev pub IsByte : ℕ → Type 0
IsByte b = b < 256

-- `data[i]`
abbrev pub index : Bytes → ℕ → Outcome ℕ
index xs i = if ltb i (length xs) then ok (get_or xs i 0) else panic

-- `data[i:j]`
abbrev pub slice : Bytes → ℕ → ℕ → Outcome Bytes
slice xs i j = if leb i j && leb j (length xs) then ok (take (j - i) (drop i xs)) else panic

-- `copy(buf[at:], xs)`, the part of xs that fits
abbrev pub copy_at : ℕ → Bytes → Bytes → Bytes
copy_at n xs [] = []
copy_at zero [] (b ∷ buf) = b ∷ buf
copy_at zero (x ∷ xs) (b ∷ buf) = x ∷ copy_at zero xs buf
copy_at (suc n) xs (b ∷ buf) = b ∷ copy_at n xs buf

-- The bytes of a uint16 and of a uint32, most significant first.
abbrev pub be16 : ℕ → Bytes
be16 v = (v / 256 % 256) ∷ (v % 256) ∷ []

abbrev pub be32 : ℕ → Bytes
be32 v = (v / 2 ^ 24 % 256) ∷ (v / 2 ^ 16 % 256) ∷ (v / 2 ^ 8 % 256) ∷ (v % 256) ∷ []

-- binary.BigEndian.Uint16 and Uint32 of a slice.
abbrev pub uint16 : Bytes → Outcome ℕ
uint16 xs = do a ← index xs 0; b ← index xs 1; ok (a * 256 + b)

abbrev pub uint32 : Bytes → Outcome ℕ
uint32 xs = do
  a ← index xs 0
  b ← index xs 1
  c ← index xs 2
  d ← index xs 3
  ok (a * 2 ^ 24 + b * 2 ^ 16 + c * 2 ^ 8 + d)

-- Equality of byte arrays.
abbrev pub bytes_eq : Bytes → Bytes → Bool
bytes_eq [] [] = true
bytes_eq [] (y ∷ ys) = false
bytes_eq (x ∷ xs) [] = false
bytes_eq (x ∷ xs) (y ∷ ys) = x == y && bytes_eq xs ys

pub bytes_eq→eq : (xs ys : Bytes) → bytes_eq xs ys ≡ true → xs ≡ ys
bytes_eq→eq [] [] h = refl
bytes_eq→eq [] (y ∷ ys) h = cc
bytes_eq→eq (x ∷ xs) [] h = cc
bytes_eq→eq (x ∷ xs) (y ∷ ys) h = ground (arith, bytes_eq→eq xs ys)

pub bytes_eq_refl : (xs : Bytes) → bytes_eq xs xs ≡ true
bytes_eq_refl [] = refl
bytes_eq_refl (x ∷ xs) = ground (arith, bytes_eq_refl xs)

pub length-copy_at : (n : ℕ) (xs buf : Bytes) → length (copy_at n xs buf) ≡ length buf
length-copy_at zero xs [] = refl
length-copy_at (suc n) xs [] = refl
length-copy_at zero [] (b ∷ buf) = refl
length-copy_at zero (x ∷ xs) (b ∷ buf) = ap suc (length-copy_at zero xs buf)
length-copy_at (suc n) xs (b ∷ buf) = ap suc (length-copy_at n xs buf)

-- A copy into a gap of its own length fills the gap and touches nothing else.
pub copy_at-gap : (xs gap s : Bytes) → length gap ≡ length xs → copy_at 0 xs (gap ++ s) ≡ xs ++ s
copy_at-gap [] [] [] h = refl
copy_at-gap [] [] (b ∷ s) h = refl
copy_at-gap [] (b ∷ gap) s h = absurd (omega arith)
copy_at-gap (x ∷ xs) [] s h = absurd (omega arith)
copy_at-gap (x ∷ xs) (b ∷ gap) s h = ap (◌∷◌ x) (copy_at-gap xs gap s (omega arith))

pub copy_at-append :
    (n m : ℕ) (xs p buf : Bytes)
    → length p ≡ n
    → n ≤ m
    → copy_at m xs (p ++ buf) ≡ p ++ copy_at (m - n) xs buf
copy_at-append n m xs [] buf h k = ap (λ i. copy_at i xs buf) (omega arith)
copy_at-append n zero xs (b ∷ p) buf h k = absurd (omega arith)
copy_at-append n (suc m) xs (b ∷ p) buf h k = ap (◌∷◌ b) (
    copy_at-append (n - 1) m xs p buf (omega arith) (omega arith)
    ∙ ap (λ i. p ++ copy_at i xs buf) (omega arith))

pub set-append :
    (n m v : ℕ) (p buf : Bytes) → length p ≡ n → n ≤ m → set (p ++ buf) m v ≡ p ++ set buf (m - n) v
set-append n m v [] buf h k = ap (λ i. set buf i v) (omega arith)
set-append n zero v (b ∷ p) buf h k = absurd (omega arith)
set-append n (suc m) v (b ∷ p) buf h k = ap (◌∷◌ b) (
    set-append (n - 1) m v p buf (omega arith) (omega arith)
    ∙ ap (λ i. p ++ set buf i v) (omega arith))

-- `buf[i] = v`
unfoldable pub put : ℕ → ℕ → Bytes → Outcome Bytes
put i v buf = if ltb i (length buf) then ok (set buf i v) else panic

-- `copy(buf[i:j], xs)`, and the writes of encoding/binary, where `xs` has the size of the slice.
unfoldable pub put_slice : ℕ → ℕ → Bytes → Bytes → Outcome Bytes
put_slice i j xs buf = if leb i j && leb j (length buf) then ok (copy_at i xs buf) else panic

pub length-set : (buf : Bytes) (i v : ℕ) → length (set buf i v) ≡ length buf
length-set [] zero v = refl
length-set [] (suc i) v = refl
length-set (b ∷ buf) zero v = refl
length-set (b ∷ buf) (suc i) v = ap suc (length-set buf i v)

pub put-ok : (i v : ℕ) (buf : Bytes) → i < length buf → put i v buf ≡ ok (set buf i v)
unfolding put
put-ok i v buf h = ground arith

pub put_slice-ok :
    (i j : ℕ) (xs buf : Bytes)
    → i ≤ j
    → j ≤ length buf
    → put_slice i j xs buf ≡ ok (copy_at i xs buf)
unfolding put_slice
put_slice-ok i j xs buf h k = ground arith
