-- ===== src/Link.antt =====
-- The receive and the send path of one established frame: `decrypt_established_frame` of
-- crates/microfips-protocol/src/node.rs and `encrypt_and_assemble` of crates/fips-fmp/src/lib.rs.
pub mod Receive
pub mod Stream
pub mod Frame
pub mod RoundTrip
mod Tests
use microfips.Base.{
  ℕ, ◌+◌, List, [], ◌∷◌, length, ltb, if◌then◌else◌, Option, none, some, Bool, true, false,
}
use microfips.Exec.{Exec, ok, err, panic, Absent, absent, copy_into, slice, slice_from, ◌>>=◌}
use microfips.Noise.{Cipher, NoiseError, aead_encrypt, aead_decrypt, tag_size}
use microfips.Replay.{ReplayWindow, check, accept}
use microfips.Fmp.{Wire, FmpMessage, msg1, msg2, msg3, established, established_header_size}
use microfips.Fmp.Build.{as_u16, build_established_header}
use microfips.Fmp.Parse.{parse_message, strip_inner_header}
use microfips.Fmp.Header.{EncryptedHeader, parse_encrypted_header}

pub record DecryptedFrame : Type 0 where
  pub counter : ℕ
  pub sender_timestamp : ℕ
  pub msg_type : ℕ
  pub payload : List ℕ
  pub frame_bytes : ℕ

-- What a call gives: the frame, if there is one, and the replay window as it leaves it.
abbrev pub Received : Type 0
Received = Option DecryptedFrame × ReplayWindow

-- `match`, `?` or `let … else` on a call that returns `Option` or `Result`: its `None` or `Err` goes on.
abbrev pub attempt {ℓ κ ι} :
    {E : Type ℓ} {A : Type κ} {B : Type ι}
    → Exec E A
    → (A → Exec Absent B)
    → Exec Absent B
    → Exec Absent B
attempt (ok a) found refused = found a
attempt (err e) found refused = refused
attempt panic found refused = panic

-- The header of the plaintext, and `split_first` on what follows it.
split_frame : EncryptedHeader → ℕ → ℕ × List ℕ → Option DecryptedFrame
split_frame enc frame_bytes (timestamp, []) = none
split_frame enc frame_bytes (timestamp, msg_type ∷ payload) = some (record {
  counter = enc.counter;
  sender_timestamp = timestamp;
  msg_type = msg_type;
  payload = payload;
  frame_bytes = frame_bytes;
})

unfoldable pub read_plaintext : EncryptedHeader → ℕ → List ℕ → Exec Absent (Option DecryptedFrame)
unfolding split_frame
read_plaintext enc frame_bytes plaintext =
    attempt (strip_inner_header plaintext) (λ inner. ok (split_frame enc frame_bytes inner))
      (ok none)

module _ (c : Cipher) (wire : Wire) (width : ℕ) where
  -- From the replay test on.
  unfoldable pub open_frame :
      List ℕ → List ℕ → List ℕ → ReplayWindow → EncryptedHeader → Exec Absent Received
  open_frame kr buf dec_buf replay enc = do
    fresh ← check width replay enc.counter
    if fresh
        then (do
          ciphertext ← slice_from buf established_header_size
          attempt (aead_decrypt c kr enc.counter enc.header_bytes ciphertext dec_buf)
              (λ opened. do
                accepted ← accept width replay enc.counter
                plaintext ← slice opened.1 0 opened.0
                frame ← read_plaintext enc (length buf) plaintext
                ok (frame, accepted))
              (ok (none, replay)))
        else ok (none, replay)

  dispatch : List ℕ → List ℕ → List ℕ → ReplayWindow → FmpMessage → Exec Absent Received
  dispatch kr buf dec_buf replay (established r n e) =
      attempt (parse_encrypted_header wire buf) (open_frame kr buf dec_buf replay)
        (ok (none, replay))
  dispatch kr buf dec_buf replay _ = ok (none, replay)

  unfoldable pub decrypt_established_frame :
      List ℕ → List ℕ → List ℕ → ReplayWindow → Exec Absent Received
  unfolding dispatch
  decrypt_established_frame kr buf dec_buf replay =
      attempt (parse_message wire buf) (dispatch kr buf dec_buf replay) (ok (none, replay))

  unfoldable pub encrypt_and_assemble :
      ℕ → ℕ → ℕ → List ℕ → List ℕ → List ℕ → Exec Absent (ℕ × List ℕ)
  encrypt_and_assemble receiver_idx counter flags inner key out =
      if ltb (length out) (established_header_size + (length inner + tag_size))
      then err absent
      else (do
        header ← build_established_header wire receiver_idx counter flags (as_u16 (length inner))
        with_header ← copy_into out 0 established_header_size header
        tail ← slice_from with_header established_header_size
        attempt (aead_encrypt c key counter header inner tail)
            (λ sealed. do
              whole ← copy_into with_header established_header_size (length with_header) sealed.1
              ok (established_header_size + sealed.0, whole))
            (err absent))
