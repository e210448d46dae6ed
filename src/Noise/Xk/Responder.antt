-- ===== src/Noise/Xk/Responder.antt =====
-- The methods of `NoiseXkResponder` of crates/fips-noise/src/lib.rs.
use microfips.Base.{ℕ, ◌+◌, List, length, ltb, ◌==◌, not, if◌then◌else◌, none, some}
use microfips.Exec.{slice, slice_from, copy_into}
use microfips.Noise.{NoiseError, buffer_too_small, invalid_message, invalid_state, tag_size}
use microfips.Noise.Method.{Method, ◌>>=◌, ◌>>◌, fail, lift, modify, reads, pure, within, required}
use microfips.Noise.Symmetric.{
  Crypto, Symmetric, pubkey_size, epoch_size, hashed, mix_dh, ecdh_pubkey, seal_at, open_field,
  split, wiped,
}
use microfips.Noise.Xk.{NoiseXkResponder}

abbrev on_symmetric :
    {A : Type 0} → Method NoiseError Symmetric A → Method NoiseError NoiseXkResponder A
on_symmetric = within (λ s. s.symmetric) (λ s t. record s { symmetric = t })

module _ (c : Crypto) where
  unfoldable pub write_message2 :
      List ℕ → List ℕ → List ℕ → Method NoiseError NoiseXkResponder (ℕ × List ℕ)
  write_message2 responder_ephemeral_secret epoch out =
      if ltb (length out) (pubkey_size + epoch_size + tag_size) then fail buffer_too_small else (do
        modify (λ s. record s { e_priv = some responder_ephemeral_secret })
        e_pub ← lift (ecdh_pubkey c responder_ephemeral_secret)
        with_e ← lift (copy_into out 0 pubkey_size e_pub)
        on_symmetric (modify (hashed c e_pub))
        ei_pub ← reads (λ s. s.ei_pub)
        on_symmetric (mix_dh c responder_ephemeral_secret ei_pub)
        on_symmetric (seal_at c pubkey_size epoch with_e))

  unfoldable pub read_message3 : List ℕ → Method NoiseError NoiseXkResponder (List ℕ × List ℕ)
  read_message3 payload =
      if not (length payload == ((pubkey_size + tag_size) + (epoch_size + tag_size)))
      then fail invalid_message
      else (do
        enc_static ← lift (slice payload 0 (pubkey_size + tag_size))
        static_pub ← on_symmetric (open_field c pubkey_size enc_static)
        secret ← reads (λ s. s.e_priv)
        e_priv ← required invalid_state secret
        on_symmetric (mix_dh c e_priv static_pub)
        enc_epoch ← lift (slice_from payload (pubkey_size + tag_size))
        epoch ← on_symmetric (open_field c epoch_size enc_epoch)
        pure (static_pub, epoch))

  unfoldable pub finalize : NoiseXkResponder → List ℕ × List ℕ
  finalize s = split c s.symmetric

unfoldable pub zeroize_keys : NoiseXkResponder → NoiseXkResponder
zeroize_keys s = record s { symmetric = wiped s.symmetric; e_priv = none }
