-- ===== src/Fmp/RoundTrip.antt =====
-- What the builders write is what `parse_message` reads.
use microfips.Base.{ℕ, ◌+◌, ◌^◌, ◌≤◌, ◌<◌, List, [], ◌++◌, drop}
use microfips.Base.{◌≡◌, refl, arith, ◌∙◌, length, le→ltb}
use microfips.Bytes.{le_bytes}
use microfips.Exec.{Exec, ok, Absent}
use microfips.Exec.Laws.{copy_into-next, slice_from-append, read_le-append}
use microfips.Fmp.{Wire, FmpMessage, msg1, msg2, msg3, build_prefix, phase_msg1, phase_msg2}
use microfips.Fmp.{phase_msg3}
use microfips.Fmp.Build.{as_u16, build_msg1, build_msg2, build_msg3, build_indexed}
use microfips.Fmp.Parse.{parse_message, parse_phase, parse_msg1, parse_indexed}
use microfips.Fmp.Prefix.{parse_prefix-build_prefix}

-- The bytes of a frame of the handshake.
abbrev pub msg1_bytes : Wire → ℕ → List ℕ → List ℕ
msg1_bytes wire sender_idx noise_payload =
    build_prefix wire phase_msg1 0 (as_u16 (4 + length noise_payload))
    ++ (le_bytes 4 sender_idx ++ noise_payload)

abbrev pub indexed_bytes : ℕ → Wire → ℕ → ℕ → List ℕ → List ℕ
indexed_bytes phase wire sender_idx receiver_idx noise_payload =
    build_prefix wire phase 0 (as_u16 (8 + length noise_payload))
    ++ (le_bytes 4 sender_idx ++ (le_bytes 4 receiver_idx ++ noise_payload))

-- `build_msg1` writes the frame at the front of `out` and leaves the rest of it.
pub build_msg1_lem :
    (wire : Wire) (sender_idx : ℕ) (noise_payload out : List ℕ)
    → 8 + length noise_payload ≤ length out
    → build_msg1 wire sender_idx noise_payload out
      ≡ ok (
        8 + length noise_payload,
        msg1_bytes wire sender_idx noise_payload ++ drop (8 + length noise_payload) out,
      )
unfolding build_msg1 build_prefix
build_msg1_lem wire sender_idx noise_payload out fits =
    let prefix = build_prefix wire phase_msg1 0 (as_u16 (4 + length noise_payload)) in
    let sender = le_bytes 4 sender_idx in
    rw (
      le→ltb (length out) (8 + length noise_payload) fits,
      copy_into-next [] prefix out 0 4 refl refl (omega arith),
      copy_into-next prefix sender out 4 8 refl refl (omega arith),
      copy_into-next (prefix ++ sender) noise_payload out 8 (8 + length noise_payload) refl refl
          fits,
    )

pub build_indexed_lem :
    (phase : ℕ) (wire : Wire) (sender_idx receiver_idx : ℕ) (noise_payload out : List ℕ)
    → 12 + length noise_payload ≤ length out
    → build_indexed phase wire sender_idx receiver_idx noise_payload out
      ≡ ok (
        12 + length noise_payload,
        indexed_bytes phase wire sender_idx receiver_idx noise_payload
            ++ drop (12 + length noise_payload) out,
      )
unfolding build_indexed build_prefix
build_indexed_lem phase wire sender_idx receiver_idx noise_payload out fits =
    let prefix = build_prefix wire phase 0 (as_u16 (8 + length noise_payload)) in
    let sender = le_bytes 4 sender_idx in
    let receiver = le_bytes 4 receiver_idx in
    rw (
      le→ltb (length out) (12 + length noise_payload) fits,
      copy_into-next [] prefix out 0 4 refl refl (omega arith),
      copy_into-next prefix sender out 4 8 refl refl (omega arith),
      copy_into-next (prefix ++ sender) receiver out 8 12 refl refl (omega arith),
      copy_into-next (prefix ++ sender ++ receiver) noise_payload out 12 (12 + length noise_payload)
          refl refl fits,
    )

pub parse_message-behind_prefix :
    (wire : Wire) (phase flags payload_len : ℕ) (payload : List ℕ)
    → phase < 16
    → payload_len < 2 ^ 16
    → parse_message wire (build_prefix wire phase flags payload_len ++ payload)
      ≡ parse_phase phase payload
unfolding parse_message
parse_message-behind_prefix wire phase flags payload_len payload hp hl = rw (
  parse_prefix-build_prefix wire phase flags payload_len payload hp hl,
  slice_from-append (build_prefix wire phase flags payload_len) payload 4
      (unfold build_prefix in refl),
)

parse_msg1-bytes :
    (sender_idx : ℕ) (noise_payload : List ℕ)
    → sender_idx < 2 ^ 32
    → parse_phase phase_msg1 (le_bytes 4 sender_idx ++ noise_payload)
      ≡ ok (msg1 sender_idx noise_payload)
unfolding parse_phase parse_msg1
parse_msg1-bytes sender_idx noise_payload fits = rw (
  le→ltb (length (le_bytes 4 sender_idx ++ noise_payload)) 4 (omega arith),
  read_le-append [] noise_payload 4 sender_idx 0 4 refl refl fits,
  slice_from-append (le_bytes 4 sender_idx) noise_payload 4 refl,
)

parse_indexed-bytes :
    (message : ℕ → ℕ → List ℕ → FmpMessage) (sender_idx receiver_idx : ℕ) (noise_payload : List ℕ)
    → sender_idx < 2 ^ 32
    → receiver_idx < 2 ^ 32
    → parse_indexed message (le_bytes 4 sender_idx ++ (le_bytes 4 receiver_idx ++ noise_payload))
      ≡ ok (message sender_idx receiver_idx noise_payload)
unfolding parse_indexed
parse_indexed-bytes message sender_idx receiver_idx noise_payload fits_s fits_r =
    let sender = le_bytes 4 sender_idx in
    let receiver = le_bytes 4 receiver_idx in
    rw (
      le→ltb (length (sender ++ (receiver ++ noise_payload))) 8 (omega arith),
      read_le-append [] (receiver ++ noise_payload) 4 sender_idx 0 4 refl refl fits_s,
      read_le-append sender noise_payload 4 receiver_idx 4 8 refl refl fits_r,
      slice_from-append (sender ++ receiver) noise_payload 8 refl,
    )

-- `result` wrote `bytes` at the front of `out`, and left the rest of `out` as it was.
abbrev pub Wrote : Exec Absent (ℕ × List ℕ) → List ℕ → List ℕ → Type 0
Wrote result out bytes = result ≡ ok (length bytes, bytes ++ drop (length bytes) out)

-- A first handshake message with a `u32` index that fits `out` is written whole at its front, with
-- the rest of `out` left as it was, and the bytes written are parsed as that message.
pub parse-build_msg1 :
    (wire : Wire) (sender_idx : ℕ) (noise_payload out : List ℕ)
    → sender_idx < 2 ^ 32
    → 8 + length noise_payload ≤ length out
    → (bytes : List ℕ) × Wrote (build_msg1 wire sender_idx noise_payload out) out bytes
      × (parse_message wire bytes ≡ ok (msg1 sender_idx noise_payload))
parse-build_msg1 wire sender_idx noise_payload out fits_s fits =
    let size : length (msg1_bytes wire sender_idx noise_payload) ≡ 8 + length noise_payload =
      unfold build_prefix in omega arith in
    (
      msg1_bytes wire sender_idx noise_payload,
      rw size (build_msg1_lem wire sender_idx noise_payload out fits),
      parse_message-behind_prefix wire phase_msg1 0 (as_u16 (4 + length noise_payload))
            (le_bytes 4 sender_idx ++ noise_payload) (omega arith) (omega arith)
          ∙ parse_msg1-bytes sender_idx noise_payload fits_s,
    )

module _ (wire : Wire) (sender_idx receiver_idx : ℕ) (noise_payload out : List ℕ)
    (fits_s : sender_idx < 2 ^ 32) (fits_r : receiver_idx < 2 ^ 32)
    (fits : 12 + length noise_payload ≤ length out) where
  parse-build_indexed :
      (phase : ℕ) (message : ℕ → ℕ → List ℕ → FmpMessage)
      → phase < 16
      → ((payload : List ℕ) → parse_phase phase payload ≡ parse_indexed message payload)
      → (bytes : List ℕ) × Wrote
          (build_indexed phase wire sender_idx receiver_idx noise_payload out)
          out
          bytes
        × (parse_message wire bytes ≡ ok (message sender_idx receiver_idx noise_payload))
  parse-build_indexed phase message small arm =
      let size : length (indexed_bytes phase wire sender_idx receiver_idx noise_payload)
          ≡ 12 + length noise_payload =
        unfold build_prefix in omega arith in
      let body = le_bytes 4 sender_idx ++ (le_bytes 4 receiver_idx ++ noise_payload) in
      (
        indexed_bytes phase wire sender_idx receiver_idx noise_payload,
        rw size (build_indexed_lem phase wire sender_idx receiver_idx noise_payload out fits),
        parse_message-behind_prefix wire phase 0 (as_u16 (8 + length noise_payload)) body small
              (omega arith)
            ∙ arm body
            ∙ parse_indexed-bytes message sender_idx receiver_idx noise_payload fits_s fits_r,
      )

  -- A second and a third handshake message with `u32` indices that fit `out` are written whole at its
  -- front, with the rest of `out` left as it was, and each comes back with its own constructor.
  pub parse-build_msg2_msg3 :
      ((bytes : List ℕ) × Wrote
          (build_msg2 wire sender_idx receiver_idx noise_payload out)
          out
          bytes
        × (parse_message wire bytes ≡ ok (msg2 sender_idx receiver_idx noise_payload)))
      × ((bytes : List ℕ) × Wrote
            (build_msg3 wire sender_idx receiver_idx noise_payload out)
            out
            bytes
          × (parse_message wire bytes ≡ ok (msg3 sender_idx receiver_idx noise_payload)))
  unfolding build_msg2 build_msg3 parse_phase
  parse-build_msg2_msg3 = (
    parse-build_indexed phase_msg2 msg2 (omega arith) (λ payload. refl),
    parse-build_indexed phase_msg3 msg3 (omega arith) (λ payload. refl),
  )
