-- ===== src/Fsp/DataMessage.antt =====
-- An encrypted message of a session: what one side sends is opened by the other.
use microfips.Base.{
  ℕ, ◌+◌, ◌^◌, ◌%◌, ◌≤◌, ◌<◌, List, [], ◌∷◌, ◌++◌, length, drop, replicate, some, false, ◌≡◌, refl,
  arith, ap, ◌∙◌, length-append, le→ltb, ◌==◌,
}
use microfips.Bytes.{le_bytes, length-le_bytes}
use microfips.Exec.{ok, Absent}
use microfips.Exec.Laws.{slice-append, slice_from-append, read_le-append, index_lem}
use microfips.Exec.Write.{after, next}
use microfips.Noise.{NoiseError, Cipher, IsAead, make_nonce, aead_decrypt}
use microfips.Noise.Laws.{aead_encrypt_lem, aead_decrypt_lem}
use microfips.Fsp.{fsp_prefix_byte}
use microfips.Fsp.Datagram.{fsp_strip_inner_header}
use microfips.Fsp.Payload.{inner_bytes, fsp_prepend_inner_header_lem, fsp_strip_inner_header_lem}
use microfips.Fsp.Encrypted.{
  build_fsp_header, build_fsp_encrypted, build_fsp_data_message, parse_fsp_encrypted_header,
  fsp_msg_data,
}

first_byte : fsp_prefix_byte 0 ≡ 0
unfolding fsp_prefix_byte
first_byte = refl

length-build_fsp_header : (counter flags n : ℕ) → length (build_fsp_header counter flags n) ≡ 12
unfolding build_fsp_header
length-build_fsp_header counter flags n = omega (
  arith,
  length-append (le_bytes 2 n) (le_bytes 8 counter),
  length-le_bytes 2 n,
  length-le_bytes 8 counter,
)

parse_fsp_encrypted_header-bytes :
    (counter n : ℕ) (body : List ℕ)
    → counter < 2 ^ 64
    → 16 ≤ length body
    → parse_fsp_encrypted_header (build_fsp_header counter 0 n ++ body)
      ≡ ok (0, counter, build_fsp_header counter 0 n, body)
unfolding parse_fsp_encrypted_header build_fsp_header
parse_fsp_encrypted_header-bytes counter n body small long =
    let header = 0 ∷ 0 ∷ (le_bytes 2 n ++ le_bytes 8 counter) in
    let buf = header ++ body in
    rw (
      first_byte,
      le→ltb (length buf) 28 (omega arith),
      index_lem buf 0 (omega arith),
      index_lem buf 1 (omega arith),
      read_le-append (0 ∷ 0 ∷ le_bytes 2 n) body 8 counter 4 12 refl refl small,
      slice-append {E = Absent} [] header body 0 12 refl refl,
      slice_from-append {E = Absent} header body 12 refl,
    )

-- A payload of at most 490 bytes, with a `u64` counter, a `u32` timestamp and a buffer that holds the
-- message, is sent as one message at the front of the buffer, with the rest left as it was. Its
-- header is parsed with no flags and its counter, and what stands behind the header is opened under
-- the same key and header to the timestamp, the type of a data message, no flags and the payload.
-- The cipher keeps `IsAead` and can encrypt every text of less than four gigabytes.
pub open-build_fsp_data_message :
    (c : Cipher) (counter timestamp : ℕ) (payload key out : List ℕ)
    → IsAead c
    → ((nonce aad text : List ℕ)
        → length text < 2 ^ 32
        → (p : List ℕ × List ℕ) × (c.encrypt key nonce aad text ≡ some p))
    → counter < 2 ^ 64
    → timestamp < 2 ^ 32
    → length payload ≤ 490
    → 34 + length payload ≤ length out
    → (header sealed inner : List ℕ) × (build_fsp_data_message c counter timestamp payload key out
        ≡ ok (34 + length payload, after (header ++ sealed) out))
      × (parse_fsp_encrypted_header (header ++ sealed) ≡ ok (0, counter, header, sealed))
      × (aead_decrypt c key counter header sealed (replicate 512 0)
          ≡ ok (length inner, after inner (replicate 512 0)))
      × (fsp_strip_inner_header inner ≡ ok (timestamp, fsp_msg_data, 0, payload))
unfolding build_fsp_data_message build_fsp_encrypted
open-build_fsp_data_message c counter timestamp payload key out l encrypts small early short room =
    let zeros : List ℕ = replicate 512 0 in
    let size_zeros : length zeros ≡ 512 = refl in
    let inner = inner_bytes timestamp fsp_msg_data 0 payload in
    let size_inner : length inner ≡ 6 + length payload = omega arith in
    let header = build_fsp_header counter 0 ((6 + length payload + 16) % 2 ^ 16) in
    let size_header = length-build_fsp_header counter 0 ((6 + length payload + 16) % 2 ^ 16) in
    let ((body, tag), e) = encrypts (make_nonce counter) header inner (omega (arith, size_inner)) in
    let sizes = l.encrypt_size key (make_nonce counter) header inner body tag e in
    let sealed = body ++ tag in
    let size_sealed : length sealed ≡ 22 + length payload =
      omega (arith, length-append body tag, sizes.0, sizes.1, size_inner) in
    let some_inner : (6 + length payload == 0) ≡ false = ground arith in
    let some_total : (12 + length sealed == 0) ≡ false = ground arith in
    let total : 12 + length sealed ≡ 34 + length payload = omega (arith, size_sealed) in
    let enc_len : length inner + 16 ≡ length sealed = omega (arith, size_sealed, size_inner) in
    (
      header,
      sealed,
      inner,
      rw (
        fsp_prepend_inner_header_lem timestamp fsp_msg_data 0 payload zeros
            (omega (arith, size_zeros)),
        some_inner,
        slice-append {E = NoiseError} [] inner (drop (length inner) zeros) 0 (6 + length payload)
            refl (omega (arith, size_inner)),
        aead_encrypt_lem c l key counter header inner body tag zeros e (omega (arith, size_inner)),
        enc_len,
        slice-append {E = NoiseError} [] sealed (drop (length sealed) zeros) 0 (length sealed) refl
            (omega arith),
        le→ltb (length out) (12 + length sealed) (omega arith),
        next {E = NoiseError} [] header out 0 12 refl (omega (arith, size_header)) (omega arith),
        next {E = NoiseError} header sealed out 12 (12 + length sealed) (omega (arith, size_header))
            refl (omega arith),
        some_total,
        total,
      ),
      parse_fsp_encrypted_header-bytes counter ((6 + length payload + 16) % 2 ^ 16) sealed small
          (omega arith),
      aead_decrypt_lem c l key counter header inner body tag zeros
            (l.decrypt_encrypt key (make_nonce counter) header inner body tag e) sizes.1
            (omega (arith, sizes.0, size_inner))
          ∙ ap (λ n. ok (n, inner ++ drop n zeros)) sizes.0,
      fsp_strip_inner_header_lem timestamp fsp_msg_data 0 payload early,
    )
