-- ===== src/Bytes.antt =====
-- `to_le_bytes` and `from_le_bytes` at every width, and bytes.
use native.Mathlib.Nat.{pow-suc}
use microfips.Base.{ℕ, zero, suc, ◌+◌, ◌*◌, ◌/◌, ◌%◌, ◌^◌, ◌<◌, List, [], ◌∷◌, ◌++◌, ◌≡◌, refl}
use microfips.Base.{
  arith, ap, ap₂, length, get_or, take, drop, Bool, true, false, ◌==◌, ◌&&◌, ==_iff,
}

-- `n.to_le_bytes()` of an integer of `w` bytes.
abbrev pub le_bytes : ℕ → ℕ → List ℕ
le_bytes zero n = []
le_bytes (suc w) n = n % 256 ∷ le_bytes w (n / 256)

-- `from_le_bytes`, of as many bytes as there are.
abbrev pub from_le : List ℕ → ℕ
from_le [] = 0
from_le (b ∷ bs) = b + 256 * from_le bs

pub length-le_bytes : (w n : ℕ) → length (le_bytes w n) ≡ w
length-le_bytes zero n = refl
length-le_bytes (suc w) n = ap suc (length-le_bytes w (n / 256))

-- Every element is a byte.
abbrev pub IsBytes : List ℕ → Type 0
IsBytes [] = Unit
IsBytes (b ∷ bs) = (b < 256) × IsBytes bs

pub get_or-byte : (bs : List ℕ) (i : ℕ) → IsBytes bs → get_or bs i 0 < 256
get_or-byte [] i h = omega arith
get_or-byte (b ∷ bs) zero h = h.0
get_or-byte (b ∷ bs) (suc i) h = get_or-byte bs i h.1

pub le_bytes-IsBytes : (w n : ℕ) → IsBytes (le_bytes w n)
le_bytes-IsBytes zero n = tt
le_bytes-IsBytes (suc w) n = (omega arith, le_bytes-IsBytes w (n / 256))

-- An integer that fits is read back.
pub from_le-le_bytes : (w n : ℕ) → n < 256 ^ w → from_le (le_bytes w n) ≡ n
from_le-le_bytes zero n h = omega arith
from_le-le_bytes (suc w) n h =
    omega (arith, from_le-le_bytes w (n / 256) (omega (arith, pow-suc 256 w)))

-- Bytes that are read are written back.
pub le_bytes-from_le : (bs : List ℕ) → IsBytes bs → le_bytes (length bs) (from_le bs) ≡ bs
le_bytes-from_le [] h = refl
le_bytes-from_le (b ∷ bs) h =
    let low : (b + 256 * from_le bs) % 256 ≡ b = omega arith in
    let high : (b + 256 * from_le bs) / 256 ≡ from_le bs = omega arith in
    rw (low, high) (ap (λ t. b ∷ t) (le_bytes-from_le bs h.1))

pub from_le-lt : (bs : List ℕ) → IsBytes bs → from_le bs < 256 ^ length bs
from_le-lt [] h = omega arith
from_le-lt (b ∷ bs) h = omega (arith, from_le-lt bs h.1, pow-suc 256 (length bs))

pub IsBytes-append : (xs ys : List ℕ) → IsBytes xs → IsBytes ys → IsBytes (xs ++ ys)
IsBytes-append [] ys hx hy = hy
IsBytes-append (x ∷ xs) ys hx hy = (hx.0, IsBytes-append xs ys hx.1 hy)

pub take-IsBytes : (n : ℕ) (bs : List ℕ) → IsBytes bs → IsBytes (take n bs)
take-IsBytes zero bs h = tt
take-IsBytes (suc n) [] h = tt
take-IsBytes (suc n) (b ∷ bs) h = (h.0, take-IsBytes n bs h.1)

pub drop-IsBytes : (n : ℕ) (bs : List ℕ) → IsBytes bs → IsBytes (drop n bs)
drop-IsBytes zero bs h = h
drop-IsBytes (suc n) [] h = tt
drop-IsBytes (suc n) (b ∷ bs) h = drop-IsBytes n bs h.1

-- `==` on slices of bytes.
abbrev pub eq_bytes : List ℕ → List ℕ → Bool
eq_bytes [] [] = true
eq_bytes (x ∷ xs) (y ∷ ys) = x == y && eq_bytes xs ys
eq_bytes _ _ = false

pub eq_bytes_self : (xs : List ℕ) → eq_bytes xs xs ≡ true
eq_bytes_self [] = refl
eq_bytes_self (x ∷ xs) = rw ((==_iff x x).1 refl, eq_bytes_self xs)

and_both : (a b : Bool) → (a && b) ≡ true → (a ≡ true) × (b ≡ true)
and_both a b h = ground arith

pub eq_bytes_sound : (xs ys : List ℕ) → eq_bytes xs ys ≡ true → xs ≡ ys
eq_bytes_sound [] [] h = refl
eq_bytes_sound [] (y ∷ ys) h = cc
eq_bytes_sound (x ∷ xs) [] h = cc
eq_bytes_sound (x ∷ xs) (y ∷ ys) h =
    let (same, rest) = and_both (x == y) (eq_bytes xs ys) h in
    ap₂ (λ u v. u ∷ v) ((==_iff x y).0 same) (eq_bytes_sound xs ys rest)
