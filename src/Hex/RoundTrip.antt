-- ===== src/Hex/RoundTrip.antt =====
-- Bytes that are encoded and parsed again.
use microfips.Base.{
  ℕ, zero, suc, ◌+◌, ◌*◌, ◌/◌, ◌%◌, ◌^◌, ◌≡◌, ◌≤◌, ◌<◌, List, [], ◌∷◌, ◌++◌, Bool, true, ltb,
  le→ltb, ◌==◌, ==_iff, ◌&&◌, if◌then◌else◌, length, length-append, drop, get_or, arith, refl, ap,
  sym, ◌∙◌, append_assoc, append-nil, bit_and, bit_or,
}
use microfips.Bytes.{IsBytes}
use microfips.Bits.{bit_and_mask, bit_or-fields}
use microfips.Exec.{ok, Absent, index}
use microfips.Exec.Laws.{index_lem, get_or-append_past}
use microfips.Exec.Write.{after, next_byte}
use microfips.Hex.{hex_nibble, hex_from, hex_bytes, hex_digits, encode_from, hex_encode}

abbrev digit : ℕ → ℕ
digit n = if ltb n 10 then 48 + n else 87 + n

-- The digits of these bytes.
abbrev pub encoded : List ℕ → List ℕ
encoded [] = []
encoded (b ∷ bs) = digit (b / 16) ∷ digit (b % 16) ∷ encoded bs

length-encoded : (bs : List ℕ) → length (encoded bs) ≡ length bs * 2
length-encoded [] = omega arith
length-encoded (b ∷ bs) = omega (arith, length-encoded bs)

all_below : ℕ → (ℕ → Bool) → Bool
all_below zero p = true
all_below (suc n) p = p n && all_below n p

all_below_sound : (n : ℕ) (p : ℕ → Bool) (i : ℕ) → all_below n p ≡ true → i < n → p i ≡ true
unfolding all_below
all_below_sound zero p i h lt = absurd (omega arith)
all_below_sound (suc n) p i h lt = ground (arith, all_below_sound n p i)

digits_table : all_below 16 (λ n. get_or hex_digits n 0 == digit n) ≡ true
unfolding all_below
digits_table = refl

index-digit : (n : ℕ) → n < 16 → index {E = Absent} hex_digits n ≡ ok (digit n)
index-digit n h =
    index_lem {E = Absent} hex_digits n (omega arith)
    ∙ ap ok (
        (==_iff _ _).0
          (all_below_sound 16 (λ n. get_or hex_digits n 0 == digit n) n digits_table h))

hex_nibble-digit : (n : ℕ) → n < 16 → hex_nibble (digit n) ≡ ok n
unfolding hex_nibble
hex_nibble-digit n h = ground arith

low_digit : (b : ℕ) → b < 256 → bit_and b 15 ≡ b % 16
low_digit b h = bit_and_mask 4 b

encode_from_lem :
    (i : ℕ) (src written out : List ℕ)
    → IsBytes src
    → length written ≡ i * 2
    → length written + length src * 2 ≤ length out
    → encode_from i src (after written out) ≡ ok (after (written ++ encoded src) out)
unfolding encode_from
encode_from_lem i [] written out h at_i fits = rw (append-nil written)
encode_from_lem i (b ∷ src) written out h at_i fits =
    let high = digit (b / 16) in
    let low = digit (b % 16) in
    let one = written ++ high ∷ [] in
    let two = one ++ low ∷ [] in
    let one_len : length one ≡ length written + 1 = length-append written (high ∷ []) in
    let two_len : length two ≡ length one + 1 = length-append one (low ∷ []) in
    let joined : two ++ encoded src ≡ written ++ (high ∷ low ∷ encoded src) =
      append_assoc one (low ∷ []) (encoded src)
      ∙ append_assoc written (high ∷ []) (low ∷ encoded src) in
    rw (
      index-digit (b / 16) (omega arith),
      next_byte {E = Absent} written out (i * 2) high (sym at_i) (omega arith),
      low_digit b h.0,
      index-digit (b % 16) (omega arith),
      next_byte {E = Absent} one out (i * 2 + 1) low (omega (arith, one_len)) (omega arith),
      encode_from_lem (i + 1) src two out h.1 (omega (arith, one_len, two_len))
          (omega (arith, one_len, two_len)),
      joined,
    )

index_at :
    (xs ys : List ℕ) (i k : ℕ)
    → i ≡ length xs + k
    → k < length ys
    → index {E = Absent} (xs ++ ys) i ≡ ok (get_or ys k 0)
index_at xs ys i k e h = rw e (
    index_lem {E = Absent} (xs ++ ys) (length xs + k) (omega (arith, length-append xs ys))
    ∙ ap ok (get_or-append_past xs ys k 0))

hex_from-encoded :
    (src xs : List ℕ) (i : ℕ)
    → IsBytes src
    → length xs ≡ i * 2
    → hex_from (length src) i (xs ++ encoded src) ≡ ok src
unfolding hex_from
hex_from-encoded [] xs i h at_i = refl
hex_from-encoded (b ∷ src) xs i h at_i =
    let high = digit (b / 16) in
    let low = digit (b % 16) in
    let both : List ℕ = high ∷ low ∷ [] in
    let fit : b / 16 * 16 % 256 ≡ b / 16 * 2 ^ 4 = omega (arith, h.0) in
    let byte : bit_or (b / 16 * 2 ^ 4) (b % 16) ≡ b =
      bit_or-fields 4 (b / 16) (b % 16) (omega arith) ∙ omega arith in
    let joined : xs ++ encoded (b ∷ src) ≡ (xs ++ both) ++ encoded src =
      sym (append_assoc xs both (encoded src)) in
    let next =
      hex_from-encoded src (xs ++ both) (i + 1) h.1 (omega (arith, length-append xs both)) in
    rw (
      index_at xs (encoded (b ∷ src)) (i * 2) 0 (omega arith) (omega arith),
      hex_nibble-digit (b / 16) (omega (arith, h.0)),
      index_at xs (encoded (b ∷ src)) (i * 2 + 1) 1 (omega arith) (omega arith),
      hex_nibble-digit (b % 16) (omega arith),
      joined,
      next,
      fit,
      byte,
    )

-- Bytes for which the buffer has room, two places for each: they are encoded at the start of the
-- buffer, the rest of which stays, and the text that was written is parsed to these bytes.
pub parse-hex_encode :
    (src dst : List ℕ)
    → IsBytes src
    → length src * 2 ≤ length dst
    → (text : List ℕ) × (hex_encode src dst ≡ ok (true, text ++ drop (length src * 2) dst))
      × (length text ≡ length src * 2)
      × (hex_bytes (length src) text ≡ ok src)
unfolding hex_encode hex_bytes
parse-hex_encode src dst h room = (
  encoded src,
  rw (
    le→ltb (length dst) (length src * 2) room,
    encode_from_lem 0 src [] dst h (omega arith) (omega arith),
    length-encoded src,
  ),
  length-encoded src,
  rw ((==_iff (length (encoded src)) (length src * 2)).1 (length-encoded src))
      (hex_from-encoded src [] 0 h (omega arith)),
)
