-- ===== src/Hex/Tests.antt =====
-- Hexadecimal text of concrete bytes.
use microfips.Base.{ℕ, ◌≡◌, List, [], ◌∷◌, ◌++◌, true, false, length, drop, replicate, refl, arith}
use microfips.Exec.{ok, panic, index, store}
use microfips.Hex.{hex_encode, encode_from, hex_bytes, hex_from, hex_nibble}
use microfips.Hex.RoundTrip.{parse-hex_encode}

-- "01AB" and "0g".
upper_case : hex_bytes 2 (48 ∷ 49 ∷ 65 ∷ 66 ∷ []) ≡ ok (1 ∷ 171 ∷ [])
unfolding hex_bytes hex_from hex_nibble index
upper_case = refl

no_digit : hex_bytes 1 (48 ∷ 103 ∷ []) ≡ panic
unfolding hex_bytes hex_from hex_nibble index
no_digit = refl

too_short : hex_encode (1 ∷ 2 ∷ []) (7 ∷ 7 ∷ 7 ∷ []) ≡ ok (false, 7 ∷ 7 ∷ 7 ∷ [])
unfolding hex_encode encode_from index store
too_short = refl

parse-hex_encode_example :
    (text : List ℕ) × (hex_encode (0 ∷ 171 ∷ 255 ∷ []) (replicate 8 7)
      ≡ ok (true, text ++ drop 6 (replicate 8 7)))
    × (length text ≡ 6)
    × (hex_bytes 3 text ≡ ok (0 ∷ 171 ∷ 255 ∷ []))
parse-hex_encode_example =
    parse-hex_encode (0 ∷ 171 ∷ 255 ∷ []) (replicate 8 7) (omega arith) (omega arith)
