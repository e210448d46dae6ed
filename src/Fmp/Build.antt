-- ===== src/Fmp/Build.antt =====
-- The builders of crates/fips-fmp/src/lib.rs. Each gives the length it wrote and the buffer `out` as
-- it leaves it, or `err absent` where `out` is too small. A length is stored as a `u16`.
use microfips.Base.{ℕ, ◌+◌, ◌*◌, ◌%◌, ◌^◌, List, length, ltb, if◌then◌else◌, replicate}
use microfips.Bytes.{le_bytes}
use microfips.Exec.{Exec, ok, err, Absent, absent, copy_into, store, ◌>>=◌}
use microfips.Fmp.{Wire, fmp_version, build_prefix, ver_phase_byte, common_prefix_size, idx_size}
use microfips.Fmp.{established_header_size, phase_msg1, phase_msg2, phase_msg3, phase_established}

-- `n as u16`
abbrev pub as_u16 : ℕ → ℕ
as_u16 n = n % 2 ^ 16

unfoldable pub build_msg1 : Wire → ℕ → List ℕ → List ℕ → Exec Absent (ℕ × List ℕ)
build_msg1 wire sender_idx noise_payload out =
    let needed = common_prefix_size + idx_size + length noise_payload in
    if ltb (length out) needed then err absent else (do
      let payload_len = as_u16 (idx_size + length noise_payload)
      with_prefix ← copy_into out 0 common_prefix_size (build_prefix wire phase_msg1 0 payload_len)
      with_sender ←
          copy_into with_prefix common_prefix_size (common_prefix_size + idx_size)
            (le_bytes 4 sender_idx)
      whole ← copy_into with_sender (common_prefix_size + idx_size) needed noise_payload
      ok (needed, whole))

-- The body that `build_msg2` and `build_msg3` share but for the phase.
unfoldable pub build_indexed : ℕ → Wire → ℕ → ℕ → List ℕ → List ℕ → Exec Absent (ℕ × List ℕ)
build_indexed phase wire sender_idx receiver_idx noise_payload out =
    let needed = common_prefix_size + idx_size * 2 + length noise_payload in
    if ltb (length out) needed then err absent else (do
      let payload_len = as_u16 (idx_size * 2 + length noise_payload)
      with_prefix ← copy_into out 0 common_prefix_size (build_prefix wire phase 0 payload_len)
      with_sender ←
          copy_into with_prefix common_prefix_size (common_prefix_size + idx_size)
            (le_bytes 4 sender_idx)
      with_receiver ←
          copy_into with_sender (common_prefix_size + idx_size) (common_prefix_size + idx_size * 2)
            (le_bytes 4 receiver_idx)
      whole ← copy_into with_receiver (common_prefix_size + idx_size * 2) needed noise_payload
      ok (needed, whole))

unfoldable pub build_msg2 : Wire → ℕ → ℕ → List ℕ → List ℕ → Exec Absent (ℕ × List ℕ)
unfolding build_indexed
build_msg2 = build_indexed phase_msg2

unfoldable pub build_msg3 : Wire → ℕ → ℕ → List ℕ → List ℕ → Exec Absent (ℕ × List ℕ)
unfolding build_indexed
build_msg3 = build_indexed phase_msg3

-- The 16 bytes of the outer header, which are the associated data of the cipher too.
unfoldable pub build_established_header {ℓ} : {E : Type ℓ} → Wire → ℕ → ℕ → ℕ → ℕ → Exec E (List ℕ)
build_established_header wire receiver_idx counter flags payload_len = do
  with_phase ←
      store (replicate established_header_size 0) 0
        (ver_phase_byte (fmp_version wire) phase_established)
  with_flags ← store with_phase 1 flags
  with_len ← copy_into with_flags 2 4 (le_bytes 2 payload_len)
  with_receiver ← copy_into with_len 4 8 (le_bytes 4 receiver_idx)
  copy_into with_receiver 8 16 (le_bytes 8 counter)

unfoldable pub prepend_inner_header : ℕ → List ℕ → List ℕ → Exec Absent (ℕ × List ℕ)
prepend_inner_header timestamp_ms payload out =
    let needed = 4 + length payload in
    if ltb (length out) needed then err absent else (do
      with_time ← copy_into out 0 4 (le_bytes 4 timestamp_ms)
      whole ← copy_into with_time 4 needed payload
      ok (needed, whole))

unfoldable pub build_encrypted : List ℕ → List ℕ → List ℕ → Exec Absent (ℕ × List ℕ)
build_encrypted header ciphertext out =
    let total = established_header_size + length ciphertext in
    if ltb (length out) total then err absent else (do
      with_header ← copy_into out 0 established_header_size header
      whole ← copy_into with_header established_header_size total ciphertext
      ok (total, whole))
