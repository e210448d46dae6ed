-- ===== src/Fsp/Encrypted.antt =====
-- The datagram around a session message, and the encrypted messages of an established session.
use microfips.Base.{
  ℕ, ◌+◌, ◌*◌, ◌/◌, ◌%◌, ◌^◌, List, [], ◌∷◌, ◌++◌, length, ltb, ◌==◌, ◌!=◌, ◌||◌, if◌then◌else◌,
  bit_and, replicate,
}
use microfips.Bytes.{le_bytes, from_le}
use microfips.Exec.{
  Exec, ok, err, Absent, absent, index, slice, slice_from, read_le, copy_into, map_err, ◌>>=◌,
}
use microfips.Noise.{NoiseError, buffer_too_small, Cipher, aead_encrypt, tag_size}
use microfips.Fsp.{fsp_prefix_byte, fsp_version, node_addr_size}
use microfips.Fsp.Datagram.{fsp_prepend_inner_header}

abbrev pub session_datagram_body_size : ℕ
session_datagram_body_size = 35

abbrev pub phase_established : ℕ
phase_established = 0

abbrev pub fsp_header_size : ℕ
fsp_header_size = 12

abbrev pub fsp_encrypted_min_size : ℕ
fsp_encrypted_min_size = 28

abbrev pub fsp_msg_data : ℕ
fsp_msg_data = 0x10

abbrev pub flag_coords_present : ℕ
flag_coords_present = 1

abbrev pub flag_unencrypted : ℕ
flag_unencrypted = 4

-- The array is written element by element; its positions are all in range.
unfoldable pub build_session_datagram_body : List ℕ → List ℕ → List ℕ
build_session_datagram_body src dst = 64 ∷ 255 ∷ 255 ∷ (src ++ dst)

unfoldable pub build_fsp_header : ℕ → ℕ → ℕ → List ℕ
build_fsp_header counter flags payload_len =
    fsp_prefix_byte phase_established ∷ flags ∷ (le_bytes 2 payload_len ++ le_bytes 8 counter)

-- Zero, where the message does not fit.
unfoldable pub build_fsp_encrypted : {E : Type 0} → List ℕ → List ℕ → List ℕ → Exec E (ℕ × List ℕ)
build_fsp_encrypted header ciphertext out =
    let total = fsp_header_size + length ciphertext in
    if ltb (length out) total then ok (0, out) else (do
      with_header ← copy_into out 0 fsp_header_size header
      whole ← copy_into with_header fsp_header_size total ciphertext
      ok (total, whole))

unfoldable pub build_fsp_data_message :
    Cipher → ℕ → ℕ → List ℕ → List ℕ → List ℕ → Exec NoiseError (ℕ × List ℕ)
build_fsp_data_message c counter timestamp_ms payload key out = do
  (inner_len, inner) ←
      map_err (λ _. buffer_too_small)
        (fsp_prepend_inner_header timestamp_ms fsp_msg_data 0 payload (replicate 512 0))
  if inner_len == 0 then err buffer_too_small else (do
    let header = build_fsp_header counter 0 ((inner_len + tag_size) % 2 ^ 16)
    text ← slice inner 0 inner_len
    (ciphertext_len, ciphertext) ← aead_encrypt c key counter header text (replicate 512 0)
    body ← slice ciphertext 0 ciphertext_len
    (total, whole) ← build_fsp_encrypted header body out
    if total == 0 then err buffer_too_small else ok (total, whole))

-- `u16::from_le_bytes([payload[pos], payload[pos + 1]])`
read_count : List ℕ → ℕ → Exec Absent ℕ
read_count payload pos = do
  low ← index payload pos
  high ← index payload (pos + 1)
  ok (from_le (low ∷ high ∷ []))

-- What is left behind the coordinates.
unfoldable pub skip_coords : List ℕ → Exec Absent (List ℕ)
unfolding read_count
skip_coords payload = if ltb (length payload) 2 then err absent else (do
  src_count ← read_count payload 0
  let after_src = 2 + src_count * node_addr_size
  if ltb (length payload) (after_src + 2) then err absent else (do
    dst_count ← read_count payload after_src
    let after_dst = after_src + 2 + dst_count * node_addr_size
    if ltb (length payload) after_dst then err absent else slice_from payload after_dst))

unfoldable pub parse_fsp_encrypted_header : List ℕ → Exec Absent (ℕ × ℕ × List ℕ × List ℕ)
parse_fsp_encrypted_header buf = if ltb (length buf) fsp_encrypted_min_size then err absent else (do
  first ← index buf 0
  if (first / 16) != fsp_version || bit_and first 0x0f != phase_established then err absent else (do
    flags ← index buf 1
    counter ← read_le buf 4 12
    header ← slice buf 0 fsp_header_size
    behind ← slice_from buf fsp_header_size
    payload ← (if bit_and flags flag_coords_present != 0 then skip_coords behind else ok behind)
    ok (flags, counter, header, payload)))
