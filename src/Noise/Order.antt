-- ===== src/Noise/Order.antt =====
-- Calls of an XX handshake out of their order, crates/fips-noise/src/lib.rs: what `NoiseXxInitiator`
-- and `NoiseXxResponder` do before they have read the first message of the other side.
use microfips.Base.{ℕ, List, ◌≡◌}
use microfips.Exec.{err, panic}
use microfips.Noise.{invalid_state}
use microfips.Noise.Symmetric.{Crypto}
use microfips.Noise.Xx.{NoiseXxInitiator, NoiseXxResponder}
use microfips.Noise.Xx.Initiator as XxInitiator
use microfips.Noise.Xx.Responder as XxResponder

-- What an initiator or a responder does in this state.
module _ (c : Crypto) where
  abbrev pub InitiatorStops : (my_static_pub epoch out text : List ℕ) → NoiseXxInitiator → Type 0
  InitiatorStops my_static_pub epoch out text i =
      (XxInitiator.write_message3 c my_static_pub epoch out i ≡ (err invalid_state, i))
      × (XxInitiator.encrypt_payload c text out i ≡ (panic, i))
      × (XxInitiator.decrypt_payload c text out i ≡ (panic, i))

  abbrev pub ResponderStops : (secret epoch out text message3 : List ℕ) → NoiseXxResponder → Type 0
  ResponderStops secret epoch out text message3 r =
      (XxResponder.write_message2 c secret epoch out r ≡ (err invalid_state, r))
      × (XxResponder.read_message3 c message3 r ≡ (panic, r))
      × (XxResponder.encrypt_payload c text out r ≡ (panic, r))
      × (XxResponder.decrypt_payload c text out r ≡ (panic, r))
