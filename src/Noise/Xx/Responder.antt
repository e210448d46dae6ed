-- ===== src/Noise/Xx/Responder.antt =====
-- The methods of `NoiseXxResponder` of crates/fips-noise/src/lib.rs.
use microfips.Base.{
  ℕ, ◌+◌, List, length, ltb, ◌==◌, not, if◌then◌else◌, Option, none, some, replicate,
}
use microfips.Exec.{slice, slice_from, copy_into}
use microfips.Noise.{NoiseError, buffer_too_small, invalid_message, invalid_state, tag_size}
use microfips.Noise.Method.{
  Method, ◌>>=◌, ◌>>◌, fail, lift, modify, reads, pure, within, required, unwrapped,
}
use microfips.Noise.Symmetric.{
  Crypto, Symmetric, pubkey_size, hashed, mix_dh, ecdh_pubkey, seal_at, open_field, open_into,
  split, wiped,
}
use microfips.Noise.Xx.{
  NoiseXxResponder, xx_handshake_msg1_size, xx_handshake_msg2_size, xx_handshake_msg3_size,
}

abbrev on_symmetric :
    {A : Type 0} → Method NoiseError Symmetric A → Method NoiseError NoiseXxResponder A
on_symmetric = within (λ s. s.symmetric) (λ s t. record s { symmetric = t })

module _ (c : Crypto) where
  unfoldable pub read_message1 : List ℕ → Method NoiseError NoiseXxResponder (Unit {0})
  read_message1 payload =
      if not (length payload == xx_handshake_msg1_size) then fail invalid_message else (do
        ei_pub ← lift (slice payload 0 pubkey_size)
        modify (λ s. record s { ei_pub = some ei_pub })
        on_symmetric (modify (hashed c ei_pub)))

  -- Behind the tests of the buffer and of the state.
  unfoldable pub send_message2 :
      List ℕ → List ℕ → List ℕ → List ℕ → Method NoiseError NoiseXxResponder (ℕ × List ℕ)
  send_message2 ei_pub my_ephemeral_secret epoch out = do
    modify (λ s. record s { e_priv = some my_ephemeral_secret })
    e_pub ← lift (ecdh_pubkey c my_ephemeral_secret)
    modify (λ s. record s { e_pub = some e_pub })
    with_e ← lift (copy_into out 0 pubkey_size e_pub)
    on_symmetric (modify (hashed c e_pub))
    on_symmetric (mix_dh c my_ephemeral_secret ei_pub)
    s_pub ← reads (λ s. s.s_pub)
    (pos, with_static) ← on_symmetric (seal_at c pubkey_size s_pub with_e)
    s_priv ← reads (λ s. s.s_priv)
    on_symmetric (mix_dh c s_priv ei_pub)
    on_symmetric (seal_at c pos epoch with_static)

  unfoldable pub write_message2 :
      List ℕ → List ℕ → List ℕ → Method NoiseError NoiseXxResponder (ℕ × List ℕ)
  write_message2 my_ephemeral_secret epoch out =
      if ltb (length out) xx_handshake_msg2_size then fail buffer_too_small else (do
        remote ← reads (λ s. s.ei_pub)
        ei_pub ← required invalid_state remote
        send_message2 ei_pub my_ephemeral_secret epoch out)

  -- Behind the test of the length.
  unfoldable pub receive_message3 : List ℕ → Method NoiseError NoiseXxResponder (List ℕ × List ℕ)
  receive_message3 payload = do
    enc_rs ← lift (slice payload 0 (pubkey_size + tag_size))
    rs_pub ← on_symmetric (open_field c pubkey_size enc_rs)
    modify (λ s. record s { rs_pub = some rs_pub })
    secret ← reads (λ s. s.e_priv)
    e_priv ← unwrapped secret
    on_symmetric (mix_dh c e_priv rs_pub)
    enc_epoch ← lift (slice_from payload (pubkey_size + tag_size))
    epoch ← on_symmetric (open_field c 8 enc_epoch)
    pure (rs_pub, epoch)

  unfoldable pub read_message3 : List ℕ → Method NoiseError NoiseXxResponder (List ℕ × List ℕ)
  read_message3 payload =
      if not (length payload == xx_handshake_msg3_size)
      then fail invalid_message
      else receive_message3 payload

  unfoldable pub encrypt_payload : List ℕ → List ℕ → Method NoiseError NoiseXxResponder (ℕ × List ℕ)
  encrypt_payload plaintext out = on_symmetric (seal_at c 0 plaintext out)

  unfoldable pub decrypt_payload : List ℕ → List ℕ → Method NoiseError NoiseXxResponder (ℕ × List ℕ)
  decrypt_payload ciphertext out = on_symmetric (open_into c out ciphertext)

  unfoldable pub finalize : NoiseXxResponder → List ℕ × List ℕ
  finalize s = split c s.symmetric

unfoldable pub remote_static : NoiseXxResponder → Option (List ℕ)
remote_static s = s.rs_pub

unfoldable pub zeroize_keys : NoiseXxResponder → NoiseXxResponder
zeroize_keys s = record s { symmetric = wiped s.symmetric; s_priv = replicate 32 0; e_priv = none }
