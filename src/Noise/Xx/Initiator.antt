-- ===== src/Noise/Xx/Initiator.antt =====
-- The methods of `NoiseXxInitiator` of crates/fips-noise/src/lib.rs.
use microfips.Base.{ℕ, ◌+◌, List, length, ltb, ◌==◌, not, if◌then◌else◌, Option, some, replicate}
use microfips.Exec.{slice, slice_from, copy_into}
use microfips.Noise.{NoiseError, buffer_too_small, invalid_message, invalid_state, tag_size}
use microfips.Noise.Method.{Method, ◌>>=◌, ◌>>◌, fail, lift, modify, reads, pure, within, required}
use microfips.Noise.Symmetric.{
  Crypto, Symmetric, pubkey_size, hashed, mix_dh, seal_at, open_field, open_into, split, wiped,
}
use microfips.Noise.Xx.{
  NoiseXxInitiator, xx_handshake_msg1_size, xx_handshake_msg2_size, xx_handshake_msg3_size,
}

abbrev on_symmetric :
    {A : Type 0} → Method NoiseError Symmetric A → Method NoiseError NoiseXxInitiator A
on_symmetric = within (λ s. s.symmetric) (λ s t. record s { symmetric = t })

module _ (c : Crypto) where
  unfoldable pub write_message1 : List ℕ → Method NoiseError NoiseXxInitiator (ℕ × List ℕ)
  write_message1 out =
      if ltb (length out) xx_handshake_msg1_size then fail buffer_too_small else (do
        e_pub ← reads (λ s. s.e_pub)
        written ← lift (copy_into out 0 pubkey_size e_pub)
        on_symmetric (modify (hashed c e_pub))
        pure (pubkey_size, written))

  -- Behind the test of the length.
  unfoldable pub receive_message2 : List ℕ → Method NoiseError NoiseXxInitiator (List ℕ × List ℕ)
  receive_message2 payload = do
    re_pub ← lift (slice payload 0 pubkey_size)
    modify (λ s. record s { re_pub = some re_pub })
    on_symmetric (modify (hashed c re_pub))
    e_priv ← reads (λ s. s.e_priv)
    on_symmetric (mix_dh c e_priv re_pub)
    enc_rs ← lift (slice payload pubkey_size (pubkey_size + (pubkey_size + tag_size)))
    rs_pub ← on_symmetric (open_field c pubkey_size enc_rs)
    modify (λ s. record s { rs_pub = some rs_pub })
    on_symmetric (mix_dh c e_priv rs_pub)
    enc_epoch ← lift (slice_from payload (pubkey_size + (pubkey_size + tag_size)))
    epoch ← on_symmetric (open_field c 8 enc_epoch)
    pure (rs_pub, epoch)

  unfoldable pub read_message2 : List ℕ → Method NoiseError NoiseXxInitiator (List ℕ × List ℕ)
  read_message2 payload =
      if not (length payload == xx_handshake_msg2_size)
      then fail invalid_message
      else receive_message2 payload

  unfoldable pub write_message3 :
      List ℕ → List ℕ → List ℕ → Method NoiseError NoiseXxInitiator (ℕ × List ℕ)
  write_message3 my_static_pub epoch out =
      if ltb (length out) xx_handshake_msg3_size then fail buffer_too_small else (do
        remote ← reads (λ s. s.re_pub)
        re_pub ← required invalid_state remote
        (pos, with_static) ← on_symmetric (seal_at c 0 my_static_pub out)
        s_priv ← reads (λ s. s.s_priv)
        on_symmetric (mix_dh c s_priv re_pub)
        on_symmetric (seal_at c pos epoch with_static))

  unfoldable pub encrypt_payload : List ℕ → List ℕ → Method NoiseError NoiseXxInitiator (ℕ × List ℕ)
  encrypt_payload plaintext out = on_symmetric (seal_at c 0 plaintext out)

  unfoldable pub decrypt_payload : List ℕ → List ℕ → Method NoiseError NoiseXxInitiator (ℕ × List ℕ)
  decrypt_payload ciphertext out = on_symmetric (open_into c out ciphertext)

  unfoldable pub finalize : NoiseXxInitiator → List ℕ × List ℕ
  finalize s = split c s.symmetric

unfoldable pub remote_static : NoiseXxInitiator → Option (List ℕ)
remote_static s = s.rs_pub

unfoldable pub zeroize_keys : NoiseXxInitiator → NoiseXxInitiator
zeroize_keys s = record s {
  symmetric = wiped s.symmetric;
  e_priv = replicate 32 0;
  s_priv = replicate 32 0;
}
