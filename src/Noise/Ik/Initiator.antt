-- ===== src/Noise/Ik/Initiator.antt =====
-- The methods of `NoiseIkInitiator` of crates/fips-noise/src/lib.rs.
use microfips.Base.{ℕ, ◌+◌, List, length, ltb, ◌==◌, not, if◌then◌else◌, replicate}
use microfips.Exec.{slice, slice_from, copy_into}
use microfips.Noise.{NoiseError, buffer_too_small, invalid_message, tag_size}
use microfips.Noise.Method.{Method, ◌>>=◌, ◌>>◌, fail, lift, modify, reads, within}
use microfips.Noise.Symmetric.{
  Crypto, Symmetric, pubkey_size, epoch_size, hashed, mix_dh, seal_at, open_field, split, wiped,
}
use microfips.Noise.Ik.{NoiseIkInitiator}

abbrev on_symmetric :
    {A : Type 0} → Method NoiseError Symmetric A → Method NoiseError NoiseIkInitiator A
on_symmetric = within (λ s. s.symmetric) (λ s t. record s { symmetric = t })

module _ (c : Crypto) where
  unfoldable pub write_message1 :
      List ℕ → List ℕ → List ℕ → Method NoiseError NoiseIkInitiator (ℕ × List ℕ)
  write_message1 my_static_pub epoch out =
      if ltb (length out) (pubkey_size + (pubkey_size + tag_size) + (epoch_size + tag_size))
      then fail buffer_too_small
      else (do
        e_pub ← reads (λ s. s.e_pub)
        with_e ← lift (copy_into out 0 pubkey_size e_pub)
        on_symmetric (modify (hashed c e_pub))
        e_priv ← reads (λ s. s.e_priv)
        rs_pub ← reads (λ s. s.rs_pub)
        on_symmetric (mix_dh c e_priv rs_pub)
        (pos, with_static) ← on_symmetric (seal_at c pubkey_size my_static_pub with_e)
        s_priv ← reads (λ s. s.s_priv)
        on_symmetric (mix_dh c s_priv rs_pub)
        on_symmetric (seal_at c pos epoch with_static))

  unfoldable pub read_message2 : List ℕ → Method NoiseError NoiseIkInitiator (List ℕ)
  read_message2 payload =
      if not (length payload == (pubkey_size + epoch_size + tag_size))
      then fail invalid_message
      else (do
        re_pub ← lift (slice payload 0 pubkey_size)
        on_symmetric (modify (hashed c re_pub))
        e_priv ← reads (λ s. s.e_priv)
        on_symmetric (mix_dh c e_priv re_pub)
        rs_pub ← reads (λ s. s.rs_pub)
        on_symmetric (mix_dh c e_priv rs_pub)
        enc_epoch ← lift (slice_from payload pubkey_size)
        on_symmetric (open_field c epoch_size enc_epoch))

  unfoldable pub finalize : NoiseIkInitiator → List ℕ × List ℕ
  finalize s = split c s.symmetric

unfoldable pub zeroize_keys : NoiseIkInitiator → NoiseIkInitiator
zeroize_keys s = record s {
  symmetric = wiped s.symmetric;
  e_priv = replicate 32 0;
  s_priv = replicate 32 0;
}
