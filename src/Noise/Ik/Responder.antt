-- ===== src/Noise/Ik/Responder.antt =====
-- The methods of `NoiseIkResponder` of crates/fips-noise/src/lib.rs.
use microfips.Base.{ℕ, ◌+◌, List, length, ltb, if◌then◌else◌, some, replicate}
use microfips.Exec.{slice, slice_from, copy_into}
use microfips.Noise.{
  NoiseError, invalid_public_key, decryption_failed, encryption_failed, message_too_short,
  message_too_large, tag_size,
}
use microfips.Noise.Method.{
  Method, ◌>>=◌, ◌>>◌, fail, lift, modify, reads, pure, within, replacing, replace_err,
}
use microfips.Noise.Symmetric.{
  Crypto, Symmetric, pubkey_size, epoch_size, hashed, mix_dh, ecdh_pubkey, seal_at, open_field,
  split, wiped,
}
use microfips.Noise.Ik.{NoiseIkResponder}

abbrev on_symmetric :
    {A : Type 0} → Method NoiseError Symmetric A → Method NoiseError NoiseIkResponder A
on_symmetric = within (λ s. s.symmetric) (λ s t. record s { symmetric = t })

abbrev min_msg1_payload : ℕ
min_msg1_payload = 73

module _ (c : Crypto) where
  unfoldable pub read_message1 : List ℕ → Method NoiseError NoiseIkResponder (List ℕ × List ℕ)
  read_message1 payload =
      if ltb (length payload) min_msg1_payload
      then fail (message_too_short min_msg1_payload (length payload))
      else (do
        enc_static ← lift (slice payload 0 49)
        static_pub ←
            replacing decryption_failed (on_symmetric (open_field c pubkey_size enc_static))
        s_priv ← reads (λ s. s.s_priv)
        replacing decryption_failed (on_symmetric (mix_dh c s_priv static_pub))
        modify (λ s. record s { rs_pub = some static_pub })
        enc_epoch ← lift (slice_from payload 49)
        epoch ← replacing decryption_failed (on_symmetric (open_field c epoch_size enc_epoch))
        pure (static_pub, epoch))

  unfoldable pub write_message2 :
      List ℕ → List ℕ → List ℕ → Method NoiseError NoiseIkResponder (ℕ × List ℕ)
  write_message2 responder_ephemeral_secret epoch out =
      if ltb (length out) (pubkey_size + epoch_size + tag_size)
      then fail (message_too_large (length out) (pubkey_size + epoch_size + tag_size))
      else (do
        e_pub ← lift (replace_err invalid_public_key (ecdh_pubkey c responder_ephemeral_secret))
        with_e ← lift (copy_into out 0 pubkey_size e_pub)
        on_symmetric (modify (hashed c e_pub))
        ei_pub ← reads (λ s. s.ei_pub)
        replacing decryption_failed (on_symmetric (mix_dh c responder_ephemeral_secret ei_pub))
        s_priv ← reads (λ s. s.s_priv)
        replacing decryption_failed (on_symmetric (mix_dh c s_priv ei_pub))
        replacing encryption_failed (on_symmetric (seal_at c pubkey_size epoch with_e)))

  unfoldable pub finalize : NoiseIkResponder → List ℕ × List ℕ
  finalize s = split c s.symmetric

unfoldable pub zeroize_keys : NoiseIkResponder → NoiseIkResponder
zeroize_keys s = record s { symmetric = wiped s.symmetric; s_priv = replicate 32 0 }
