-- ===== src/Fsp/Session/Tests.antt =====
-- Sessions at concrete keys and datagrams, with the toy primitives.
use microfips.Base.{ℕ, List, [], ◌∷◌, ◌++◌, ◌≡◌, refl, arith, replicate, none, some, inr}
use microfips.Exec.{ok}
use microfips.Noise.ToyCrypto.{toy_crypto, toy_crypto-IsCrypto, padded}
use microfips.Noise.Xk.{NoiseXkInitiator, NoiseXkResponder}
use microfips.Fsp.Session.{established}
use microfips.Fsp.Session.Xk.{xk_initiator, xk_responder}
use microfips.Fsp.Session.Responder.{FspSession}
use microfips.Fsp.Session.Initiator.{FspInitiatorSession}
use microfips.Fsp.Session.Establish.{establish, IsEstablished}
use microfips.Fsp.Session.XkConversation.{xk_session-IsEstablished}
use microfips.Fsp.Session.XxConversation.{xx_session-IsEstablished}
use microfips.Fsp.Session.Xx.{xx_initiator, xx_responder}
use microfips.Noise.Xx.{NoiseXxInitiator, NoiseXxResponder}
use microfips.Fsp.Session.Invariant.{IsConsistent, after_datagrams, after_datagrams-IsConsistent}

abbrev e_i : List ℕ
e_i = 3 ∷ 1 ∷ []

abbrev s_i : List ℕ
s_i = 5 ∷ []

abbrev e_r : List ℕ
e_r = 7 ∷ 9 ∷ []

abbrev s_r : List ℕ
s_r = 11 ∷ []

abbrev point : List ℕ → List ℕ
point secret = 2 ∷ padded secret

-- The key of the responder with the other parity.
abbrev known : List ℕ
known = 3 ∷ padded s_r

abbrev epoch_i : List ℕ
epoch_i = replicate 8 1

abbrev epoch_r : List ℕ
epoch_r = replicate 8 2

abbrev alice : List ℕ
alice = replicate 16 1

abbrev bob : List ℕ
bob = replicate 16 2

abbrev buffer : List ℕ
buffer = replicate 230 0

xk_session-IsEstablished_example :
    (i : FspInitiatorSession NoiseXkInitiator) × (r : FspSession NoiseXkResponder) × (establish
        toy_crypto
        (xk_initiator toy_crypto)
        (xk_responder toy_crypto)
        e_i
        s_i
        known
        epoch_i
        e_r
        s_r
        epoch_r
        alice
        bob
        buffer
        buffer
        buffer
      ≡ ok (i, r))
    × IsEstablished (point s_i) i r
xk_session-IsEstablished_example =
    xk_session-IsEstablished toy_crypto toy_crypto-IsCrypto e_i s_i e_r s_r (point e_i) (point s_i)
      (point e_r) (point s_r) known refl refl refl refl (refl, inr refl) refl epoch_i epoch_r alice
      bob refl refl buffer buffer buffer refl refl (omega arith) (omega arith) (omega arith)

xx_session-IsEstablished_example :
    (i : FspInitiatorSession NoiseXxInitiator) × (r : FspSession NoiseXxResponder) × (establish
        toy_crypto
        (xx_initiator toy_crypto)
        (xx_responder toy_crypto)
        e_i
        s_i
        known
        epoch_i
        e_r
        s_r
        epoch_r
        alice
        bob
        buffer
        buffer
        buffer
      ≡ ok (i, r))
    × IsEstablished (point s_i) i r
xx_session-IsEstablished_example =
    xx_session-IsEstablished toy_crypto toy_crypto-IsCrypto e_i s_i e_r s_r (point e_i) (point s_i)
      (point e_r) (point s_r) known refl refl refl refl refl epoch_i epoch_r alice bob refl refl
      refl buffer buffer buffer refl (omega arith) (omega arith) (omega arith)

-- A session that is established, under some keys.
abbrev live : FspSession NoiseXkResponder
live = record {
  state = established;
  responder = none;
  k_recv = some (replicate 32 1);
  k_send = some (replicate 32 2);
  initiator_pub = some (point s_i);
  send_counter = 4;
}

-- A datagram that carries one byte, of the phase of a setup.
abbrev stray_setup : List ℕ
stray_setup = 64 ∷ 255 ∷ 255 ∷ (alice ++ (bob ++ (1 ∷ [])))

-- A datagram of the phase of an encrypted message.
abbrev stray_message : List ℕ
stray_message = 64 ∷ 255 ∷ 255 ∷ (alice ++ (bob ++ (0 ∷ [])))

after_datagrams-IsConsistent_example : IsConsistent (
    after_datagrams toy_crypto
      (xk_responder toy_crypto)
      s_r
      ((e_r, epoch_r, stray_message, buffer) ∷ (e_r, epoch_r, stray_setup, buffer) ∷ [])
      live)
after_datagrams-IsConsistent_example =
    after_datagrams-IsConsistent toy_crypto (xk_responder toy_crypto) s_r
      ((e_r, epoch_r, stray_message, buffer) ∷ (e_r, epoch_r, stray_setup, buffer) ∷ []) live
      (refl, (_, refl), (_, refl), (_, refl))
