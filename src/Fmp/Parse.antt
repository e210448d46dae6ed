-- ===== src/Fmp/Parse.antt =====
-- `parse_message` and `strip_inner_header` of crates/fips-fmp/src/lib.rs.
use microfips.Base.{ℕ, ◌+◌, ◌*◌, List, length, ltb, ◌==◌, if◌then◌else◌}
use microfips.Exec.{Exec, ok, err, Absent, absent, slice_from, read_le, index, ◌>>=◌}
use microfips.Bytes.{from_le}
use microfips.Base.{[], ◌∷◌}
use microfips.Fmp.{Wire, FmpMessage, msg1, msg2, msg3, established, parse_prefix, idx_size}
use microfips.Fmp.{common_prefix_size, inner_header_size, phase_msg1, phase_msg2, phase_msg3}
use microfips.Fmp.{phase_established}

-- The arms of the match on the phase, over the bytes behind the prefix.
unfoldable pub parse_msg1 : List ℕ → Exec Absent FmpMessage
parse_msg1 payload = if ltb (length payload) idx_size then err absent else (do
  sender_idx ← read_le payload 0 idx_size
  noise_payload ← slice_from payload idx_size
  ok (msg1 sender_idx noise_payload))

-- The arms of `PHASE_MSG2` and `PHASE_MSG3` differ in the constructor only.
unfoldable pub parse_indexed : (ℕ → ℕ → List ℕ → FmpMessage) → List ℕ → Exec Absent FmpMessage
parse_indexed message payload = if ltb (length payload) (idx_size * 2) then err absent else (do
  sender_idx ← read_le payload 0 idx_size
  receiver_idx ← read_le payload idx_size (idx_size * 2)
  noise_payload ← slice_from payload (idx_size * 2)
  ok (message sender_idx receiver_idx noise_payload))

unfoldable pub parse_established : List ℕ → Exec Absent FmpMessage
parse_established payload = if ltb (length payload) (idx_size + 8) then err absent else (do
  receiver_idx ← read_le payload 0 idx_size
  counter ← read_le payload idx_size (idx_size + 8)
  encrypted ← slice_from payload (idx_size + 8)
  ok (established receiver_idx counter encrypted))

unfoldable pub parse_phase : ℕ → List ℕ → Exec Absent FmpMessage
parse_phase phase payload =
    if phase == phase_msg1
    then parse_msg1 payload
    else if phase == phase_msg2
    then parse_indexed msg2 payload
    else if phase == phase_msg3
    then parse_indexed msg3 payload
    else if phase == phase_established
    then parse_established payload
    else err absent

unfoldable pub parse_message : Wire → List ℕ → Exec Absent FmpMessage
parse_message wire buf = do
  (phase, flags, payload_len) ← parse_prefix wire buf
  payload ← slice_from buf common_prefix_size
  parse_phase phase payload

unfoldable pub strip_inner_header : List ℕ → Exec Absent (ℕ × List ℕ)
strip_inner_header plaintext = if ltb (length plaintext) inner_header_size then err absent else (do
  b0 ← index plaintext 0
  b1 ← index plaintext 1
  b2 ← index plaintext 2
  b3 ← index plaintext 3
  rest ← slice_from plaintext 4
  ok (from_le (b0 ∷ b1 ∷ b2 ∷ b3 ∷ []), rest))
