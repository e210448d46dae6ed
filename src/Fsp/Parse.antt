-- ===== src/Fsp/Parse.antt =====
-- The parsers of session messages.
use microfips.Base.{
  ℕ, ◌+◌, ◌*◌, ◌/◌, List, [], ◌∷◌, length, ltb, ◌==◌, ◌!=◌, ◌||◌, if◌then◌else◌, bit_and,
}
use microfips.Bytes.{from_le}
use microfips.Exec.{Exec, ok, err, index, slice, slice_from, ◌>>=◌}
use microfips.Fsp.{FspError, invalid_frame, invalid_coords, fsp_version, fsp_common_prefix_size}
use microfips.Fsp.{node_addr_size, phase_session_setup, phase_session_ack, phase_session_msg3}

-- `u16::from_le_bytes([body[pos], body[pos + 1]])`
unfoldable pub read_u16 : List ℕ → ℕ → Exec FspError ℕ
read_u16 body pos = do
  low ← index body pos
  high ← index body (pos + 1)
  ok (from_le (low ∷ high ∷ []))

-- The body of a message of this phase, which all three parsers begin with.
unfoldable pub open_body : ℕ → List ℕ → Exec FspError (List ℕ)
open_body phase buf = if ltb (length buf) fsp_common_prefix_size then err invalid_frame else (do
  ver_phase ← index buf 0
  if (ver_phase / 16) != fsp_version || bit_and ver_phase 0x0f != phase
      then err invalid_frame
      else (do
        payload_len ← read_u16 buf 2
        body ← slice_from buf fsp_common_prefix_size
        if ltb (length body) payload_len then err invalid_frame else slice body 0 payload_len))

-- From the number of destination coordinates on.
unfoldable pub parse_dest : List ℕ → ℕ → Exec FspError (List ℕ)
parse_dest body pos = do
  dst_count ← read_u16 body pos
  let after = pos + (2 + dst_count * node_addr_size)
  if ltb (length body) after
      then err invalid_coords
      else if ltb (length body) (after + 2)
      then err invalid_frame
      else (do
        hs_len ← read_u16 body after
        if ltb (length body) (after + 2 + hs_len)
            then err invalid_frame
            else slice body (after + 2) (after + 2 + hs_len))

unfoldable pub parse_session_setup_full : List ℕ → Exec FspError (ℕ × List ℕ × List ℕ)
parse_session_setup_full buf = do
  body ← open_body phase_session_setup buf
  if ltb (length body) (1 + 2 + node_addr_size) then err invalid_frame else (do
    session_flags ← index body 0
    src_count ← read_u16 body 1
    if src_count == 0 then err invalid_coords else (do
      src_first ← slice body 3 19
      if ltb (length body) (1 + (2 + src_count * node_addr_size)) then err invalid_coords else (do
        handshake ← parse_dest body (1 + (2 + src_count * node_addr_size))
        ok (session_flags, src_first, handshake))))

unfoldable pub parse_session_setup : List ℕ → Exec FspError (ℕ × List ℕ)
parse_session_setup buf = do
  (session_flags, src_first, handshake) ← parse_session_setup_full buf
  ok (session_flags, handshake)

unfoldable pub parse_session_ack : List ℕ → Exec FspError (List ℕ)
parse_session_ack buf = do
  body ← open_body phase_session_ack buf
  if length body == 0 then err invalid_frame else (do
    flags ← index body 0
    src_count ← read_u16 body 1
    if ltb (length body) (1 + (2 + src_count * node_addr_size))
        then err invalid_coords
        else parse_dest body (1 + (2 + src_count * node_addr_size)))

unfoldable pub parse_session_msg3 : List ℕ → Exec FspError (List ℕ)
parse_session_msg3 buf = do
  body ← open_body phase_session_msg3 buf
  if ltb (length body) 3 then err invalid_frame else (do
    flags ← index body 0
    hs_len ← read_u16 body 1
    if ltb (length body) (3 + hs_len) then err invalid_frame else slice body 3 (3 + hs_len))
