-- ===== src/EspNow/Mac.antt =====
-- `pack_mac` and `unpack_mac` of crates/microfips-esp-common/src/espnow_frag.rs: a MAC in the low
-- 48 bits of a `u64` whose bit 63 says that it is there.
use microfips.Base.{
  ℕ, zero, suc, ◌+◌, ◌*◌, ◌/◌, ◌%◌, ◌^◌, ◌<◌, ◌≡◌, List, [], ◌∷◌, Option, none, some, length, arith,
  bit_and, bit_or, ◌==◌, if◌then◌else◌, false,
}
use microfips.Base.{ap, ◌∙◌, sym}
use microfips.Bytes.{IsBytes}
use microfips.Bits.Shift.{bit-shr}
use microfips.Bits.{bit, bit_and-pow, bit_or_high, bit_or-fields}

-- `v = (v << 8) | mac[i]` for each byte of the MAC.
abbrev pub pack_from : ℕ → List ℕ → ℕ
pack_from v [] = v
pack_from v (b ∷ bs) = pack_from (bit_or (v * 2 ^ 8 % 2 ^ 64) b) bs

unfoldable pub pack_mac : List ℕ → ℕ
pack_mac mac = bit_or (pack_from 0 mac) (2 ^ 63)

-- `(v >> (8 * i)) as u8` at place `5 - i`, for the `k` values of `i` that are left.
abbrev pub unpack_bytes : (k v : ℕ) → List ℕ
unpack_bytes zero v = []
unpack_bytes (suc k) v = v / 2 ^ (8 * k) % 256 ∷ unpack_bytes k v

unfoldable pub unpack_mac : ℕ → Option (List ℕ)
unpack_mac v = if bit_and v (2 ^ 63) == 0 then none else some (unpack_bytes 6 v)

pack_byte : (v b : ℕ) → v < 2 ^ 40 → b < 256 → bit_or (v * 2 ^ 8 % 2 ^ 64) b ≡ v * 256 + b
pack_byte v b h k =
    let room : v * 2 ^ 8 % 2 ^ 64 ≡ v * 2 ^ 8 = omega arith in rw room (bit_or-fields 8 v b k)

-- The six bytes as one number.
abbrev number : (a b c d e f : ℕ) → ℕ
number a b c d e f = (((((0 * 256 + a) * 256 + b) * 256 + c) * 256 + d) * 256 + e) * 256 + f

pack_mac_lem :
    (a b c d e f : ℕ)
    → IsBytes (a ∷ b ∷ c ∷ d ∷ e ∷ f ∷ [])
    → pack_mac (a ∷ b ∷ c ∷ d ∷ e ∷ f ∷ []) ≡ 2 ^ 63 + number a b c d e f
unfolding pack_mac
pack_mac_lem a b c d e f h =
    rw
      (
        pack_byte 0 a (omega arith) (omega arith),
        pack_byte (0 * 256 + a) b (omega arith) (omega arith),
        pack_byte ((0 * 256 + a) * 256 + b) c (omega arith) (omega arith),
        pack_byte (((0 * 256 + a) * 256 + b) * 256 + c) d (omega arith) (omega arith),
        pack_byte ((((0 * 256 + a) * 256 + b) * 256 + c) * 256 + d) e (omega arith) (omega arith),
        pack_byte (((((0 * 256 + a) * 256 + b) * 256 + c) * 256 + d) * 256 + e) f (omega arith)
            (omega arith),
      )
      (omega (arith, bit_or_high 63 1 (number a b c d e f) (omega arith)))

unpack_bytes_lem :
    (a b c d e f : ℕ)
    → IsBytes (a ∷ b ∷ c ∷ d ∷ e ∷ f ∷ [])
    → unpack_bytes 6 (2 ^ 63 + number a b c d e f) ≡ a ∷ b ∷ c ∷ d ∷ e ∷ f ∷ []
unpack_bytes_lem a b c d e f h =
    let v = 2 ^ 63 + number a b c d e f in
    let e0 : v / 2 ^ 40 % 256 ≡ a = omega arith in
    let e1 : v / 2 ^ 32 % 256 ≡ b = omega arith in
    let e2 : v / 2 ^ 24 % 256 ≡ c = omega arith in
    let e3 : v / 2 ^ 16 % 256 ≡ d = omega arith in
    let e4 : v / 2 ^ 8 % 256 ≡ e = omega arith in
    let e5 : v / 2 ^ 0 % 256 ≡ f = omega arith in rw (e0, e1, e2, e3, e4, e5)

flag_set : (n : ℕ) → n < 2 ^ 48 → (bit_and (2 ^ 63 + n) (2 ^ 63) == 0) ≡ false
flag_set n h =
    let top : (2 ^ 63 + n) / 2 ^ 63 ≡ 1 = omega arith in
    let digit : bit (2 ^ 63 + n) 63 ≡ 1 = sym (bit-shr 63 0 (2 ^ 63 + n)) ∙ ap (λ t. bit t 0) top in
    let masked : bit_and (2 ^ 63 + n) (2 ^ 63) ≡ 1 * 2 ^ 63 =
      bit_and-pow 63 (2 ^ 63 + n) ∙ ap (λ t. t * 2 ^ 63) digit in
    rw masked

unpack_number :
    (a b c d e f : ℕ)
    → IsBytes (a ∷ b ∷ c ∷ d ∷ e ∷ f ∷ [])
    → unpack_mac (2 ^ 63 + number a b c d e f) ≡ some (a ∷ b ∷ c ∷ d ∷ e ∷ f ∷ [])
unfolding unpack_mac
unpack_number a b c d e f h =
    rw (flag_set (number a b c d e f) (omega arith)) (ap some (unpack_bytes_lem a b c d e f h))

-- The packed form of a MAC of six bytes is a `u64` that is not 0, and it is unpacked to that MAC.
pub unpack-pack_mac :
    (mac : List ℕ)
    → length mac ≡ 6
    → IsBytes mac
    → (unpack_mac (pack_mac mac) ≡ some mac) × (0 < pack_mac mac) × (pack_mac mac < 2 ^ 64)
unpack-pack_mac (a ∷ b ∷ c ∷ d ∷ e ∷ f ∷ []) six h =
    let packed = pack_mac_lem a b c d e f h in
    (ap unpack_mac packed ∙ unpack_number a b c d e f h, omega arith, omega arith)
unpack-pack_mac [] six h = absurd (omega arith)
unpack-pack_mac (a ∷ []) six h = absurd (omega arith)
unpack-pack_mac (a ∷ b ∷ []) six h = absurd (omega arith)
unpack-pack_mac (a ∷ b ∷ c ∷ []) six h = absurd (omega arith)
unpack-pack_mac (a ∷ b ∷ c ∷ d ∷ []) six h = absurd (omega arith)
unpack-pack_mac (a ∷ b ∷ c ∷ d ∷ e ∷ []) six h = absurd (omega arith)
unpack-pack_mac (a ∷ b ∷ c ∷ d ∷ e ∷ f ∷ g ∷ r) six h = absurd (omega arith)
