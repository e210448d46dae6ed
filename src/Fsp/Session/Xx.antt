-- ===== src/Fsp/Session/Xx.antt =====
-- What a session calls of Noise XX, the build with the feature noise-xx.
use microfips.Base.{
  ℕ, ◌+◌, List, length, leb, not, if◌then◌else◌, Option, none, some, drop, replicate,
}
use microfips.Bytes.{eq_bytes}
use microfips.Exec.{Exec, ok, err, panic, map_err, slice, slice_from, copy_into}
use microfips.Noise.{tag_size, NoiseError, invalid_message}
use microfips.Noise.Method.{Method, pure, fail, lift, converting, received, ignoring, ◌>>=◌, ◌>>◌}
use microfips.Noise.Symmetric.{Crypto}
use microfips.Noise.Xx.{
  NoiseXxInitiator, NoiseXxResponder, new_xx_initiator, new_xx_responder, xx_handshake_msg2_size,
  xx_handshake_msg3_size,
}
use microfips.Noise.Xx.Initiator as Initiator
use microfips.Noise.Xx.Responder as Responder
use microfips.Negotiation.{encode_payload, split_handshake_noise, negotiation_max_size}
use microfips.Fsp.Session.{
  ResponderCalls, InitiatorCalls, from_noise_error, noise_error, FspInitiatorError,
  buffer_too_small, small_buffer, peer_key_mismatch,
}

abbrev map_ok : {S : Type 0} → Exec NoiseError (Unit {0} × S) → Exec NoiseError S
map_ok (ok (_, s)) = ok s
map_ok (err e) = err e
map_ok panic = panic

-- A fresh object after one call with `?`.
infixl 5 ◌|>◌
abbrev ◌|>◌ : {S : Type 0} → Exec NoiseError S → Method NoiseError S (Unit {0}) → Exec NoiseError S
(ok s) |> call = map_ok (received (call s))
(err e) |> call = err e
panic |> call = panic

abbrev session_msg2_buf : ℕ
session_msg2_buf = xx_handshake_msg2_size + negotiation_max_size + tag_size

abbrev session_msg3_buf : ℕ
session_msg3_buf = xx_handshake_msg3_size + negotiation_max_size + tag_size

-- The negotiation payload that `encrypt` seals behind the message of this length.
unfoldable pub append_sealed :
    {S E : Type 0}
    → E
    → (NoiseError → E)
    → (List ℕ → List ℕ → Method NoiseError S (ℕ × List ℕ))
    → ℕ
    → List ℕ
    → Method E S (ℕ × List ℕ)
append_sealed too_small convert encrypt len buf = do
  (neglen, neg) ←
      lift (map_err (λ _. too_small) (encode_payload (replicate negotiation_max_size 0) 0 0 0 none))
  text ← lift (slice neg 0 neglen)
  tail ← lift (slice_from buf len)
  (enc, sealed) ← converting convert (encrypt text tail)
  whole ← lift (copy_into buf len (length buf) sealed)
  pure (len + enc, whole)

-- The negotiation block of a peer, if there is one: its content and its errors are not used.
abbrev discard_block :
    {S : Type 0}
    → (List ℕ → List ℕ → Method NoiseError S (ℕ × List ℕ))
    → Option (List ℕ)
    → Method NoiseError S (Unit {0})
discard_block decrypt none = pure tt
discard_block decrypt (some enc) = ignoring (decrypt enc (replicate negotiation_max_size 0))

-- `split_msg2_noise` and `split_msg3_noise`, which have no errors to convert.
abbrev split_noise : {S : Type 0} → List ℕ → ℕ → Method NoiseError S (List ℕ × Option (List ℕ))
split_noise payload base_size =
    lift (map_err (λ _. invalid_message) (split_handshake_noise payload base_size))

module _ (c : Crypto) where
  unfoldable pub start_xx : List ℕ → List ℕ → Exec NoiseError NoiseXxResponder
  start_xx my_secret handshake = new_xx_responder c my_secret |> Responder.read_message1 c handshake

  unfoldable pub read_msg3 : List ℕ → Method NoiseError NoiseXxResponder (List ℕ × List ℕ)
  read_msg3 handshake = do
    (base3, extra3) ← split_noise handshake xx_handshake_msg3_size
    parsed ← Responder.read_message3 c base3
    discard_block (Responder.decrypt_payload c) extra3
    pure parsed

  -- The first byte of a key, its parity, is not compared.
  unfoldable pub read_ack_xx :
      List ℕ → List ℕ → Method FspInitiatorError NoiseXxInitiator (Unit {0})
  read_ack_xx pinned msg2 = do
    (base2, extra2) ← converting noise_error (split_noise msg2 xx_handshake_msg2_size)
    (resp_pub, resp_epoch) ← converting noise_error (Initiator.read_message2 c base2)
    if not (eq_bytes (drop 1 resp_pub) (drop 1 pinned))
        then fail peer_key_mismatch
        else converting noise_error (discard_block (Initiator.decrypt_payload c) extra2)

  abbrev pub xx_responder : ResponderCalls NoiseXxResponder
  xx_responder = record {
    start = λ my_secret handshake. map_err from_noise_error (start_xx my_secret handshake);
    msg2_buf = session_msg2_buf;
    write_message2 = Responder.write_message2 c;
    ack_dst = λ setup_src handshake. ok setup_src;
    append_negotiation =
        append_sealed buffer_too_small from_noise_error (Responder.encrypt_payload c);
    accepts_msg3 = λ handshake. leb xx_handshake_msg3_size (length handshake);
    read_message3 = λ handshake. converting from_noise_error (read_msg3 handshake);
    finalize = Responder.finalize c;
  }

  abbrev pub xx_initiator : InitiatorCalls NoiseXxInitiator
  xx_initiator = record {
    start = λ e_priv s_priv rs_pub. new_xx_initiator c e_priv s_priv;
    write_message1 = Initiator.write_message1 c;
    read_ack = read_ack_xx;
    msg3_buf = session_msg3_buf;
    write_message3 = Initiator.write_message3 c;
    append_negotiation = append_sealed small_buffer noise_error (Initiator.encrypt_payload c);
    finalize = Initiator.finalize c;
  }
