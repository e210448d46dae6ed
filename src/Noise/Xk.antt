-- ===== src/Noise/Xk.antt =====
-- Noise XK of crates/fips-noise/src/lib.rs: `NoiseXkInitiator` and `NoiseXkResponder`.
pub mod Initiator
pub mod Responder
pub mod Handshake
pub mod Agree
use microfips.Base.{ℕ, List, ◌∷◌, [], Option, none, some}
use microfips.Exec.{Exec, ok, ◌>>=◌}
use microfips.Noise.{NoiseError}
use microfips.Noise.Symmetric.{
  Crypto, Symmetric, initialized, ecdh_pubkey, x_only_ecdh, parity_normalize, hashed, keyed,
}

-- "Noise_XK_secp256k1_ChaChaPoly_SHA256"
abbrev pub protocol_name_xk : List ℕ
protocol_name_xk =
    78 ∷ 111 ∷ 105 ∷ 115 ∷ 101 ∷ 95 ∷ 88 ∷ 75 ∷ 95 ∷ 115 ∷ 101 ∷ 99 ∷ 112 ∷ 50 ∷ 53 ∷ 54 ∷ 107 ∷ 49
    ∷ 95 ∷ 67 ∷ 104 ∷ 97 ∷ 67 ∷ 104 ∷ 97 ∷ 80 ∷ 111 ∷ 108 ∷ 121 ∷ 95 ∷ 83 ∷ 72 ∷ 65 ∷ 50 ∷ 53 ∷ 54
    ∷ []

pub record NoiseXkInitiator : Type 0 where
  pub symmetric : Symmetric
  pub e_priv : List ℕ
  pub e_pub : List ℕ
  pub s_priv : List ℕ
  pub rs_pub : List ℕ
  pub re_pub : Option (List ℕ)

pub record NoiseXkResponder : Type 0 where
  pub symmetric : Symmetric
  pub ei_pub : List ℕ
  pub e_priv : Option (List ℕ)

module _ (c : Crypto) where
  unfoldable pub new_xk_initiator :
      List ℕ → List ℕ → List ℕ → Exec NoiseError (NoiseXkInitiator × List ℕ)
  new_xk_initiator my_ephemeral_secret my_static_secret responder_static_pub = do
    e_pub ← ecdh_pubkey c my_ephemeral_secret
    ok (
      record {
        symmetric =
            hashed c (parity_normalize responder_static_pub) (initialized c protocol_name_xk);
        e_priv = my_ephemeral_secret;
        e_pub = e_pub;
        s_priv = my_static_secret;
        rs_pub = responder_static_pub;
        re_pub = none;
      },
      e_pub,
    )

  unfoldable pub new_xk_responder : List ℕ → List ℕ → Exec NoiseError NoiseXkResponder
  new_xk_responder responder_static_secret initiator_ephemeral_pub = do
    s_pub ← ecdh_pubkey c responder_static_secret
    es ← x_only_ecdh c responder_static_secret initiator_ephemeral_pub
    ok (record {
      symmetric = keyed c es (
          hashed c initiator_ephemeral_pub
            (hashed c (parity_normalize s_pub) (initialized c protocol_name_xk)));
      ei_pub = initiator_ephemeral_pub;
      e_priv = none;
    })
