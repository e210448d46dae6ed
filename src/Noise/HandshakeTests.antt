-- ===== src/Noise/HandshakeTests.antt =====
-- The handshakes at concrete keys, with the toy primitives.
use microfips.Base.{ℕ, List, [], ◌∷◌, ◌++◌, ◌≡◌, refl, arith, replicate, Option, none, some, inr}
use microfips.Exec.{ok}
use microfips.Exec.Write.{after}
use microfips.Noise.Symmetric.{Symmetric, initialized}
use microfips.Noise.ToyCrypto.{toy_crypto, toy_crypto-IsCrypto, padded}
use microfips.Noise.Xx.{NoiseXxInitiator, NoiseXxResponder, protocol_name_xx}
use microfips.Noise.Xk.{NoiseXkResponder}
use microfips.Noise.Ik.{NoiseIkInitiator, NoiseIkResponder}
use microfips.Noise.Xx.Handshake as XxHandshake
use microfips.Noise.Xk.Handshake as XkHandshake
use microfips.Noise.Ik.Handshake as IkHandshake
use microfips.Noise.Xx.Agree as XxAgree
use microfips.Noise.Xk.Agree as XkAgree
use microfips.Noise.Ik.Agree as IkAgree
use microfips.Noise.Xx.Initiator as XxInitiator
use microfips.Noise.Xx.Responder as XxResponder
use microfips.Noise.Xx.Payload.{decrypt-encrypt_payload}
use microfips.Noise.Calls.{InitiatorCall, ResponderCall}

-- The four secrets, and their public keys.
abbrev e_i : List ℕ
e_i = 3 ∷ 1 ∷ []

abbrev s_i : List ℕ
s_i = 5 ∷ []

abbrev e_r : List ℕ
e_r = 7 ∷ 9 ∷ []

abbrev s_r : List ℕ
s_r = 11 ∷ []

abbrev point : List ℕ → List ℕ
point secret = 2 ∷ padded secret

-- The key of the responder as the initiator knows it, with the other parity.
abbrev other_point : List ℕ → List ℕ
other_point secret = 3 ∷ padded secret

abbrev epoch_i : List ℕ
epoch_i = replicate 8 1

abbrev epoch_r : List ℕ
epoch_r = replicate 8 2

abbrev buffer : List ℕ
buffer = replicate 110 0

xx_handshake_agrees_example :
    (t : Symmetric) × (XxHandshake.handshake toy_crypto e_i s_i
        (point s_i)
        epoch_i
        e_r
        s_r
        epoch_r
        buffer
        buffer
        buffer
      ≡ ok (record {
        initiator = record {
          symmetric = t;
          e_priv = e_i;
          e_pub = point e_i;
          s_priv = s_i;
          re_pub = some (point e_r);
          rs_pub = some (point s_r);
        };
        responder = record {
          symmetric = t;
          s_priv = s_r;
          s_pub = point s_r;
          e_priv = some e_r;
          e_pub = some (point e_r);
          ei_pub = some (point e_i);
          rs_pub = some (point s_i);
        };
        responder_static = point s_r;
        responder_epoch = epoch_r;
        initiator_static = point s_i;
        initiator_epoch = epoch_i;
      }))
xx_handshake_agrees_example =
    XxAgree.xx_handshake_agrees toy_crypto toy_crypto-IsCrypto e_i s_i e_r s_r (point e_i)
      (point s_i) (point e_r) (point s_r) refl refl refl refl epoch_i epoch_r buffer buffer buffer
      refl refl (omega arith) (omega arith) (omega arith)

xk_handshake_agrees_example :
    (t : Symmetric) × (XkHandshake.handshake toy_crypto e_i s_i
        (point s_i)
        (other_point s_r)
        epoch_i
        e_r
        s_r
        epoch_r
        buffer
        buffer
        buffer
      ≡ ok (record {
        initiator = record {
          symmetric = t;
          e_priv = e_i;
          e_pub = point e_i;
          s_priv = s_i;
          rs_pub = other_point s_r;
          re_pub = some (point e_r);
        };
        responder = record { symmetric = t; ei_pub = point e_i; e_priv = some e_r };
        responder_epoch = epoch_r;
        initiator_static = point s_i;
        initiator_epoch = epoch_i;
      }))
xk_handshake_agrees_example =
    XkAgree.xk_handshake_agrees toy_crypto toy_crypto-IsCrypto e_i s_i e_r s_r (point e_i)
      (point s_i) (point e_r) (point s_r) (other_point s_r) refl refl refl refl (refl, inr refl)
      refl epoch_i epoch_r buffer buffer buffer refl refl (omega arith) (omega arith) (omega arith)

ik_handshake_agrees_example :
    (t : Symmetric) × (IkHandshake.handshake toy_crypto e_i s_i
        (point s_i)
        (other_point s_r)
        epoch_i
        e_r
        s_r
        epoch_r
        buffer
        buffer
      ≡ ok (record {
        initiator = record {
          symmetric = t;
          e_priv = e_i;
          e_pub = point e_i;
          s_priv = s_i;
          rs_pub = other_point s_r;
        };
        responder = record {
          symmetric = t;
          s_priv = s_r;
          ei_pub = point e_i;
          rs_pub = some (point s_i);
        };
        initiator_static = point s_i;
        initiator_epoch = epoch_i;
        responder_epoch = epoch_r;
      }))
ik_handshake_agrees_example =
    IkAgree.ik_handshake_agrees toy_crypto toy_crypto-IsCrypto e_i s_i e_r s_r (point e_i)
      (point s_i) (point e_r) (point s_r) (other_point s_r) refl refl refl refl (refl, inr refl)
      refl epoch_i epoch_r buffer buffer refl refl (omega arith) (omega arith)

-- A key schedule with a key, and one without.
abbrev keyed_schedule : Symmetric
keyed_schedule = record {
  h = replicate 32 4;
  ck = replicate 32 5;
  k = some (replicate 32 6);
  n = 1;
}

abbrev fresh_schedule : Symmetric
fresh_schedule = record { h = replicate 32 4; ck = replicate 32 4; k = none; n = 0 }

abbrev a_xx_initiator : Symmetric → NoiseXxInitiator
a_xx_initiator s = record {
  symmetric = s;
  e_priv = e_i;
  e_pub = point e_i;
  s_priv = s_i;
  re_pub = none;
  rs_pub = none;
}

abbrev a_xx_responder : Symmetric → NoiseXxResponder
a_xx_responder s = record {
  symmetric = s;
  s_priv = s_r;
  s_pub = point s_r;
  e_priv = none;
  e_pub = none;
  ei_pub = none;
  rs_pub = none;
}

abbrev hello : List ℕ
hello = 104 ∷ 105 ∷ []

decrypt-encrypt_payload_example :
    (bytes : List ℕ) × (t : Symmetric) × (XxInitiator.encrypt_payload toy_crypto hello buffer
        (a_xx_initiator keyed_schedule)
      ≡ (ok (18, after bytes buffer), a_xx_initiator t))
    × (XxResponder.decrypt_payload toy_crypto bytes (0 ∷ 0 ∷ 9 ∷ []) (a_xx_responder keyed_schedule)
        ≡ (ok (2, hello ++ (9 ∷ [])), a_xx_responder t))
    × (XxResponder.encrypt_payload toy_crypto hello buffer (a_xx_responder keyed_schedule)
        ≡ (ok (18, after bytes buffer), a_xx_responder t))
    × (XxInitiator.decrypt_payload toy_crypto bytes (0 ∷ 0 ∷ 9 ∷ []) (a_xx_initiator keyed_schedule)
        ≡ (ok (2, hello ++ (9 ∷ [])), a_xx_initiator t))
decrypt-encrypt_payload_example =
    decrypt-encrypt_payload toy_crypto (a_xx_initiator keyed_schedule)
      (a_xx_responder keyed_schedule) (replicate 32 6) hello buffer (0 ∷ 0 ∷ 9 ∷ [])
      toy_crypto-IsCrypto refl refl (omega arith) (omega arith) (omega arith)

abbrev new_schedule : Symmetric
new_schedule = initialized toy_crypto protocol_name_xx

-- The initiator writes its first message, gets a short answer and goes on all the same.
abbrev early_calls : List InitiatorCall
early_calls =
    InitiatorCall.write_message1 buffer
    ∷ InitiatorCall.read_message2 (replicate 50 1)
    ∷ InitiatorCall.write_message3 (point s_i) epoch_i buffer
    ∷ []

abbrev early_answers : List ResponderCall
early_answers =
    ResponderCall.read_message1 (replicate 32 1)
    ∷ ResponderCall.write_message2 e_r epoch_r buffer
    ∷ []

-- The fresh schedule with the secrets of another.
abbrev other_secrets : Symmetric
other_secrets = record { h = replicate 32 4; ck = replicate 32 5; k = some (replicate 32 6); n = 0 }

abbrev ik_initiator : Symmetric → List ℕ → NoiseIkInitiator
ik_initiator s e = record {
  symmetric = s;
  e_priv = e;
  e_pub = point e_i;
  s_priv = e;
  rs_pub = point s_r;
}

abbrev ik_responder : Symmetric → List ℕ → NoiseIkResponder
ik_responder s p = record { symmetric = s; s_priv = p; ei_pub = point e_i; rs_pub = none }

abbrev a_xk_responder : Symmetric → Option (List ℕ) → NoiseXkResponder
a_xk_responder s e = record { symmetric = s; ei_pub = point e_i; e_priv = e }
