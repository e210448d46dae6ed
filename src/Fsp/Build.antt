-- ===== src/Fsp/Build.antt =====
-- The builders of session messages. Each gives the length it wrote and the buffer as it leaves it.
use microfips.Base.{
  ℕ, ◌+◌, ◌*◌, ◌%◌, ◌^◌, List, [], ◌∷◌, length, ltb, if◌then◌else◌, Bool, true, false, ◌||◌,
}
use microfips.Bytes.{le_bytes}
use microfips.Exec.{Exec, ok, err, copy_into, store, ◌>>=◌}
use microfips.Fsp.{FspError, buffer_too_small, invalid_coords, fsp_prefix, fsp_common_prefix_size}
use microfips.Fsp.{node_addr_size, phase_session_setup, phase_session_ack, phase_session_msg3}

-- `is_empty`
abbrev pub is_empty : List (List ℕ) → Bool
is_empty [] = true
is_empty (coord ∷ coords) = false

-- `for coord in coords`
unfoldable pub write_coords : List (List ℕ) → ℕ → List ℕ → Exec FspError (ℕ × List ℕ)
write_coords [] pos out = ok (pos, out)
write_coords (coord ∷ coords) pos out = do
  with_coord ← copy_into out pos (pos + node_addr_size) coord
  write_coords coords (pos + node_addr_size) with_coord

-- The number of coordinates, as a `u16`, and the coordinates.
unfoldable pub write_counted : List (List ℕ) → ℕ → List ℕ → Exec FspError (ℕ × List ℕ)
write_counted coords pos out = do
  with_count ← copy_into out pos (pos + 2) (le_bytes 2 (length coords % 2 ^ 16))
  write_coords coords (pos + 2) with_count

-- The length of the handshake, as a `u16`, and the handshake.
unfoldable pub write_handshake : List ℕ → ℕ → List ℕ → Exec FspError (ℕ × List ℕ)
write_handshake handshake pos out = do
  with_len ← copy_into out pos (pos + 2) (le_bytes 2 (length handshake % 2 ^ 16))
  whole ← copy_into with_len (pos + 2) (pos + 2 + length handshake) handshake
  ok (pos + 2 + length handshake, whole)

abbrev pub body_len : List (List ℕ) → List (List ℕ) → List ℕ → ℕ
body_len src_coords dest_coords handshake =
    1
    + (2 + length src_coords * node_addr_size)
    + (2 + length dest_coords * node_addr_size)
    + 2
    + length handshake

-- What `build_session_setup` and `build_session_ack` share.
unfoldable pub build_session :
    ℕ → ℕ → List (List ℕ) → List (List ℕ) → List ℕ → List ℕ → Exec FspError (ℕ × List ℕ)
build_session phase flags src_coords dest_coords handshake out =
    let size = body_len src_coords dest_coords handshake in
    if is_empty src_coords || is_empty dest_coords
    then err invalid_coords
    else if ltb (length out) (fsp_common_prefix_size + size)
    then err buffer_too_small
    else if ltb 0xffff size
    then err buffer_too_small
    else (do
      with_prefix ← copy_into out 0 fsp_common_prefix_size (fsp_prefix phase 0 (size % 2 ^ 16))
      with_flags ← store with_prefix 4 flags
      (src_end, with_src) ← write_counted src_coords 5 with_flags
      (dest_end, with_dest) ← write_counted dest_coords src_end with_src
      write_handshake handshake dest_end with_dest)

unfoldable pub build_session_setup :
    ℕ → List (List ℕ) → List (List ℕ) → List ℕ → List ℕ → Exec FspError (ℕ × List ℕ)
build_session_setup session_flags = build_session phase_session_setup session_flags

unfoldable pub build_session_ack :
    List (List ℕ) → List (List ℕ) → List ℕ → List ℕ → Exec FspError (ℕ × List ℕ)
build_session_ack = build_session phase_session_ack 0

unfoldable pub build_session_msg3 : List ℕ → List ℕ → Exec FspError (ℕ × List ℕ)
build_session_msg3 handshake out =
    let size = 1 + 2 + length handshake in
    if ltb (length out) (fsp_common_prefix_size + size) then err buffer_too_small else (do
      with_prefix ←
          copy_into out 0 fsp_common_prefix_size (fsp_prefix phase_session_msg3 0 (size % 2 ^ 16))
      with_flags ← store with_prefix 4 0
      write_handshake handshake 5 with_flags)
