-- ===== src/Noise/Xx.antt =====
-- Noise XX of crates/fips-noise/src/lib.rs: `NoiseXxInitiator` and `NoiseXxResponder`.
pub mod Initiator
pub mod Responder
pub mod Handshake
pub mod Agree
pub mod Payload
use microfips.Base.{ℕ, List, ◌∷◌, [], Option, none, ◌+◌}
use microfips.Exec.{Exec, ok, ◌>>=◌}
use microfips.Noise.{NoiseError}
use microfips.Noise.Symmetric.{Crypto, Symmetric, initialized, ecdh_pubkey}

-- "Noise_XX_secp256k1_ChaChaPoly_SHA256"
abbrev pub protocol_name_xx : List ℕ
protocol_name_xx =
    78 ∷ 111 ∷ 105 ∷ 115 ∷ 101 ∷ 95 ∷ 88 ∷ 88 ∷ 95 ∷ 115 ∷ 101 ∷ 99 ∷ 112 ∷ 50 ∷ 53 ∷ 54 ∷ 107 ∷ 49
    ∷ 95 ∷ 67 ∷ 104 ∷ 97 ∷ 67 ∷ 104 ∷ 97 ∷ 80 ∷ 111 ∷ 108 ∷ 121 ∷ 95 ∷ 83 ∷ 72 ∷ 65 ∷ 50 ∷ 53 ∷ 54
    ∷ []

abbrev pub xx_handshake_msg1_size : ℕ
xx_handshake_msg1_size = 33

abbrev pub xx_handshake_msg2_size : ℕ
xx_handshake_msg2_size = 106

abbrev pub xx_handshake_msg3_size : ℕ
xx_handshake_msg3_size = 73

pub record NoiseXxInitiator : Type 0 where
  pub symmetric : Symmetric
  pub e_priv : List ℕ
  pub e_pub : List ℕ
  pub s_priv : List ℕ
  pub re_pub : Option (List ℕ)
  pub rs_pub : Option (List ℕ)

pub record NoiseXxResponder : Type 0 where
  pub symmetric : Symmetric
  pub s_priv : List ℕ
  pub s_pub : List ℕ
  pub e_priv : Option (List ℕ)
  pub e_pub : Option (List ℕ)
  pub ei_pub : Option (List ℕ)
  pub rs_pub : Option (List ℕ)

module _ (c : Crypto) where
  unfoldable pub new_xx_initiator : List ℕ → List ℕ → Exec NoiseError (NoiseXxInitiator × List ℕ)
  new_xx_initiator my_ephemeral_secret my_static_secret = do
    e_pub ← ecdh_pubkey c my_ephemeral_secret
    ok (
      record {
        symmetric = initialized c protocol_name_xx;
        e_priv = my_ephemeral_secret;
        e_pub = e_pub;
        s_priv = my_static_secret;
        re_pub = none;
        rs_pub = none;
      },
      e_pub,
    )

  unfoldable pub new_xx_responder : List ℕ → Exec NoiseError NoiseXxResponder
  new_xx_responder my_static_secret = do
    s_pub ← ecdh_pubkey c my_static_secret
    ok (record {
      symmetric = initialized c protocol_name_xx;
      s_priv = my_static_secret;
      s_pub = s_pub;
      e_priv = none;
      e_pub = none;
      ei_pub = none;
      rs_pub = none;
    })
