-- ===== src/Link/Frame.antt =====
-- A frame of `encrypt_and_assemble`, as the receiver's parsers see it.
use microfips.Base.{ℕ, ◌^◌, ◌≤◌, ◌<◌, List, [], ◌∷◌, ◌++◌}
use microfips.Base.{◌≡◌, refl, arith, ap, ◌∙◌, length, le→ltb}
use microfips.Bytes.{le_bytes, from_le-le_bytes}
use microfips.Exec.{ok, copy_into, store}
use microfips.Exec.Laws.{slice_from-append, read_le-append, slice-append, index_lem}
use microfips.Fmp.{Wire, established, build_prefix, phase_established}
use microfips.Fmp.Build.{build_established_header}
use microfips.Fmp.Parse.{parse_message, parse_phase, parse_established, strip_inner_header}
use microfips.Fmp.Prefix.{parse_prefix-build_prefix}
use microfips.Fmp.RoundTrip.{parse_message-behind_prefix}
use microfips.Fmp.Header.{parse_encrypted_header, read_established_fields}

-- The 16 bytes of the outer header.
abbrev pub header_of : Wire → ℕ → ℕ → ℕ → ℕ → List ℕ
header_of wire receiver_idx counter flags payload_len =
    build_prefix wire phase_established flags payload_len
    ++ (le_bytes 4 receiver_idx ++ le_bytes 8 counter)

pub build_established_header_lem {ℓ} :
    {E : Type ℓ} (wire : Wire) (receiver_idx counter flags payload_len : ℕ)
    → build_established_header {E = E} wire receiver_idx counter flags payload_len
      ≡ ok (header_of wire receiver_idx counter flags payload_len)
unfolding build_established_header store copy_into build_prefix
build_established_header_lem wire receiver_idx counter flags payload_len = refl

pub length-header_of :
    (wire : Wire) (receiver_idx counter flags payload_len : ℕ)
    → length (header_of wire receiver_idx counter flags payload_len) ≡ 16
unfolding build_prefix
length-header_of wire receiver_idx counter flags payload_len = refl

module _ (wire : Wire) (receiver_idx counter flags payload_len : ℕ) (ciphertext : List ℕ)
    (fits_r : receiver_idx < 2 ^ 32) (fits_c : counter < 2 ^ 64)
    (fits_l : payload_len < 2 ^ 16) where
  abbrev behind : List ℕ
  behind = le_bytes 4 receiver_idx ++ (le_bytes 8 counter ++ ciphertext)

  abbrev frame : List ℕ
  frame = build_prefix wire phase_established flags payload_len ++ behind

  frame_split : header_of wire receiver_idx counter flags payload_len ++ ciphertext ≡ frame
  unfolding build_prefix
  frame_split = refl

  parse_established-bytes :
      parse_established behind ≡ ok (established receiver_idx counter ciphertext)
  unfolding parse_established
  parse_established-bytes = rw (
    le→ltb (length behind) 12 (omega arith),
    read_le-append [] (le_bytes 8 counter ++ ciphertext) 4 receiver_idx 0 4 refl refl fits_r,
    read_le-append (le_bytes 4 receiver_idx) ciphertext 8 counter 4 12 refl refl fits_c,
    slice_from-append (le_bytes 4 receiver_idx ++ le_bytes 8 counter) ciphertext 12 refl,
  )

  pub parse_message-frame :
      parse_message wire (header_of wire receiver_idx counter flags payload_len ++ ciphertext)
      ≡ ok (established receiver_idx counter ciphertext)
  unfolding parse_phase
  parse_message-frame =
      ap (parse_message wire) frame_split
      ∙ parse_message-behind_prefix wire phase_established flags payload_len behind (omega arith)
          fits_l
      ∙ parse_established-bytes

  read_established_fields-frame :
      read_established_fields frame
      ≡ ok (record {
        receiver_idx = receiver_idx;
        counter = counter;
        header_bytes = header_of wire receiver_idx counter flags payload_len;
      })
  unfolding read_established_fields build_prefix
  read_established_fields-frame =
      let prefix = build_prefix wire phase_established flags payload_len in
      let rest = le_bytes 8 counter ++ ciphertext in
      rw (
        read_le-append prefix rest 4 receiver_idx 4 8 refl refl fits_r,
        read_le-append (prefix ++ le_bytes 4 receiver_idx) ciphertext 8 counter 8 16 refl refl
            fits_c,
        slice-append [] (header_of wire receiver_idx counter flags payload_len) ciphertext 0 16 refl
            refl,
      )

  pub parse_encrypted_header-frame :
      parse_encrypted_header wire
        (header_of wire receiver_idx counter flags payload_len ++ ciphertext)
      ≡ ok (record {
        receiver_idx = receiver_idx;
        counter = counter;
        header_bytes = header_of wire receiver_idx counter flags payload_len;
      })
  unfolding parse_encrypted_header
  parse_encrypted_header-frame =
      let long : 16 ≤ length frame = unfold build_prefix in omega arith in
      ap (parse_encrypted_header wire) frame_split
      ∙ rw
          (
            le→ltb (length frame) 16 long,
            parse_prefix-build_prefix wire phase_established flags payload_len behind (omega arith)
                fits_l,
          )
          read_established_fields-frame

-- The plaintext of a link message.
abbrev pub inner_of : ℕ → ℕ → List ℕ → List ℕ
inner_of timestamp msg_type payload = le_bytes 4 timestamp ++ (msg_type ∷ payload)

pub strip_inner_header-inner_of :
    (timestamp msg_type : ℕ) (payload : List ℕ)
    → timestamp < 2 ^ 32
    → strip_inner_header (inner_of timestamp msg_type payload) ≡ ok (timestamp, msg_type ∷ payload)
unfolding strip_inner_header
strip_inner_header-inner_of timestamp msg_type payload fits =
    let plaintext = inner_of timestamp msg_type payload in
    rw
      (
        le→ltb (length plaintext) 5 (omega arith),
        index_lem plaintext 0 (omega arith),
        index_lem plaintext 1 (omega arith),
        index_lem plaintext 2 (omega arith),
        index_lem plaintext 3 (omega arith),
        slice_from-append (le_bytes 4 timestamp) (msg_type ∷ payload) 4 refl,
      )
      (ap (λ t. ok (t, msg_type ∷ payload)) (from_le-le_bytes 4 timestamp fits))
