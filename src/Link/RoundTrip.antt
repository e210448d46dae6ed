-- ===== src/Link/RoundTrip.antt =====
-- A frame that is encrypted and assembled is delivered by the receive path of the other side.
use microfips.Base.{
  ℕ, ◌+◌, ◌^◌, ◌≤◌, ◌<◌, List, [], ◌∷◌, ◌++◌, append_assoc, append-nil, drop, drop_all, true,
}
use microfips.Base.{◌≡◌, refl, arith, ap, sym, length, length-append, length-drop, le→ltb, some}
use microfips.Exec.{ok, Absent}
use microfips.Exec.Laws.{
  copy_into-next, copy_into-append, slice_from-append, slice-append, drop-drop,
}
use microfips.Noise.{Cipher, IsAead, make_nonce}
use microfips.Noise.Laws.{aead_encrypt_lem, aead_decrypt_lem}
use microfips.Replay.{ReplayWindow}
use microfips.Replay.Spec.{acceptable}
use microfips.Replay.Window.{check_refines}
use microfips.Fmp.{Wire}
use microfips.Fmp.Build.{as_u16}
use microfips.Link.{DecryptedFrame, encrypt_and_assemble, decrypt_established_frame, open_frame}
use microfips.Link.{read_plaintext, split_frame, dispatch}
use microfips.Link.Receive.{Tracks, accept-Tracks}
use microfips.Link.Frame.{header_of, length-header_of, build_established_header_lem, inner_of}
use microfips.Link.Frame.{
  parse_message-frame, parse_encrypted_header-frame, strip_inner_header-inner_of,
}

module _ (c : Cipher) (wire : Wire) (l : IsAead c) (key : List ℕ) (receiver_idx counter flags : ℕ)
    (inner body tag : List ℕ) where
  abbrev header : List ℕ
  header = header_of wire receiver_idx counter flags (as_u16 (length inner))

  abbrev frame : List ℕ
  frame = header ++ (body ++ tag)

  module _ (e : c.encrypt key (make_nonce counter) header inner ≡ some (body, tag)) where
    length-sealed : length (body ++ tag) ≡ length inner + 16
    length-sealed = omega (
      arith,
      length-append body tag,
      (l.encrypt_size key (make_nonce counter) header inner body tag e).0,
      (l.encrypt_size key (make_nonce counter) header inner body tag e).1,
    )

    length-frame : length frame ≡ 16 + (length inner + 16)
    length-frame = omega (
      arith,
      length-sealed,
      length-append header (body ++ tag),
      length-header_of wire receiver_idx counter flags (as_u16 (length inner)),
    )

    encrypt_and_assemble_lem :
        (out : List ℕ)
        → 16 + (length inner + 16) ≤ length out
        → encrypt_and_assemble c wire 64 receiver_idx counter flags inner key out
          ≡ ok (length frame, frame ++ drop (length frame) out)
    unfolding encrypt_and_assemble
    encrypt_and_assemble_lem out fits =
        let size = length-header_of wire receiver_idx counter flags (as_u16 (length inner)) in
        let rest = drop 16 out in
        let room : length inner + 16 ≤ length rest = omega (arith, length-drop 16 out) in
        let sealed = (body ++ tag) ++ drop (length inner + 16) rest in
        let full : length sealed ≡ length rest = omega (
          arith,
          length-sealed,
          length-append (body ++ tag) (drop (length inner + 16) rest),
          length-drop (length inner + 16) rest,
        ) in
        rw
          (
            le→ltb (length out) (16 + (length inner + 16)) fits,
            build_established_header_lem {E = Absent} wire receiver_idx counter flags
                (as_u16 (length inner)),
            copy_into-next [] header out 0 16 refl (omega (arith, size)) (omega arith),
            slice_from-append header rest 16 (sym size),
            aead_encrypt_lem c l key counter header inner body tag rest e room,
            copy_into-append header rest sealed 16 (length (header ++ rest)) (sym size)
                (omega (arith, full, length-append header rest)) (omega (arith, full)),
            drop_all (length sealed) rest (omega (arith, full)),
            append-nil (header ++ sealed),
            length-frame,
            drop-drop (length inner + 16) 16 out,
          )
          (ap (λ t. ok (16 + (length inner + 16), t))
            (sym (append_assoc header (body ++ tag) (drop (16 + (length inner + 16)) out))))

-- The frame that the receiver hands on.
abbrev pub delivered : ℕ → ℕ → ℕ → List ℕ → ℕ → DecryptedFrame
delivered counter timestamp msg_type payload frame_bytes = record {
  counter = counter;
  sender_timestamp = timestamp;
  msg_type = msg_type;
  payload = payload;
  frame_bytes = frame_bytes;
}

read_plaintext-inner_of :
    (receiver_idx counter : ℕ) (header_bytes : List ℕ) (frame_bytes timestamp msg_type : ℕ)
    (payload : List ℕ)
    → timestamp < 2 ^ 32
    → read_plaintext
        (record { receiver_idx = receiver_idx; counter = counter; header_bytes = header_bytes })
        frame_bytes
        (inner_of timestamp msg_type payload)
      ≡ ok (some (delivered counter timestamp msg_type payload frame_bytes))
unfolding read_plaintext split_frame
read_plaintext-inner_of receiver_idx counter header_bytes frame_bytes timestamp msg_type payload
      fits =
    rw (strip_inner_header-inner_of timestamp msg_type payload fits)

-- A plaintext that an AEAD cipher encrypts, with a `u32` receiver index and timestamp and a `u64`
-- counter that the history of the other side lets in, in a buffer that holds the frame: it is written
-- whole at the front of `out`. The other side, with the same key, a 64-bit `usize`, a buffer that
-- holds the plaintext and a window that tracks its history, delivers counter, timestamp, message type
-- and payload of it, and its window then tracks the history with that counter.
pub decrypt-encrypt_and_assemble :
    (c : Cipher) (wire : Wire) (key : List ℕ) (receiver_idx counter flags timestamp msg_type : ℕ)
    (payload body tag out dec_buf : List ℕ) (w : ReplayWindow) (h : List ℕ)
    → IsAead c
    → Tracks w h
    → acceptable h counter ≡ true
    → receiver_idx < 2 ^ 32
    → counter < 2 ^ 64
    → timestamp < 2 ^ 32
    → c.encrypt key
        (make_nonce counter)
        (header_of wire receiver_idx counter flags
          (as_u16 (length (inner_of timestamp msg_type payload))))
        (inner_of timestamp msg_type payload)
      ≡ some (body, tag)
    → 16 + (length (inner_of timestamp msg_type payload) + 16) ≤ length out
    → length (inner_of timestamp msg_type payload) ≤ length dec_buf
    → (frame : List ℕ) × (encrypt_and_assemble c wire 64 receiver_idx counter flags
          (inner_of timestamp msg_type payload)
          key
          out
        ≡ ok (length frame, frame ++ drop (length frame) out))
      × (w' : ReplayWindow) × (decrypt_established_frame c wire 64 key frame dec_buf w
          ≡ ok (some (delivered counter timestamp msg_type payload (length frame)), w'))
      × Tracks w' (counter ∷ h)
unfolding decrypt_established_frame dispatch open_frame
decrypt-encrypt_and_assemble c wire key receiver_idx counter flags timestamp msg_type payload body
      tag out dec_buf w h l t fresh fits_r fits_c fits_t e fits fits_dec =
    let inner = inner_of timestamp msg_type payload in
    let len = as_u16 (length inner) in
    let head = header_of wire receiver_idx counter flags len in
    let (w', accepts, t') = accept-Tracks c l wire key dec_buf t counter fits_c fresh in
    let sizes = l.encrypt_size key (make_nonce counter) head inner body tag e in
    (
      head ++ (body ++ tag),
      encrypt_and_assemble_lem c wire l key receiver_idx counter flags inner body tag e out fits,
      w',
      rw (
        parse_message-frame wire receiver_idx counter flags len (body ++ tag) fits_r fits_c
            (omega arith),
        parse_encrypted_header-frame wire receiver_idx counter flags len (body ++ tag) fits_r fits_c
            (omega arith),
        check_refines 64 counter t.represents (omega (arith, t.is_u64)),
        fresh,
        slice_from-append head (body ++ tag) 16
            (sym (length-header_of wire receiver_idx counter flags len)),
        aead_decrypt_lem c l key counter head inner body tag dec_buf
            (l.decrypt_encrypt key (make_nonce counter) head inner body tag e) sizes.1
            (omega arith),
        accepts,
        slice-append [] inner (drop (length body) dec_buf) 0 (length body) refl (omega arith),
        read_plaintext-inner_of receiver_idx counter head (length (head ++ (body ++ tag))) timestamp
            msg_type payload fits_t,
      ),
      t',
    )
