-- ===== src/Noise/Calls.antt =====
-- Calls of the methods of `NoiseXxInitiator` and `NoiseXxResponder` of crates/fips-noise/src/lib.rs, in
-- any order.
use microfips.Base.{ℕ, List, [], ◌∷◌, length, ◌≡◌}
use microfips.Noise.Symmetric.{Crypto}
use microfips.Noise.Xx.{NoiseXxInitiator, NoiseXxResponder}
use microfips.Noise.Xx.Initiator as XxInitiator
use microfips.Noise.Xx.Responder as XxResponder

pub data InitiatorCall : Type 0 where
  write_message1 : (out : List ℕ) → InitiatorCall
  read_message2 : (payload : List ℕ) → InitiatorCall
  write_message3 : (my_static_pub epoch out : List ℕ) → InitiatorCall
  encrypt_payload : (plaintext out : List ℕ) → InitiatorCall
  decrypt_payload : (ciphertext out : List ℕ) → InitiatorCall

pub data ResponderCall : Type 0 where
  read_message1 : (payload : List ℕ) → ResponderCall
  write_message2 : (my_ephemeral_secret epoch out : List ℕ) → ResponderCall
  read_message3 : (payload : List ℕ) → ResponderCall
  encrypt_payload : (plaintext out : List ℕ) → ResponderCall
  decrypt_payload : (ciphertext out : List ℕ) → ResponderCall

-- The object as a call leaves it, whether it gives a value, an error or panics.
abbrev pub initiator_step : Crypto → InitiatorCall → NoiseXxInitiator → NoiseXxInitiator
initiator_step c (InitiatorCall.write_message1 out) i = (XxInitiator.write_message1 c out i).1
initiator_step c (InitiatorCall.read_message2 payload) i = (XxInitiator.read_message2 c payload i).1
initiator_step c (InitiatorCall.write_message3 my_static_pub epoch out) i =
    (XxInitiator.write_message3 c my_static_pub epoch out i).1
initiator_step c (InitiatorCall.encrypt_payload plaintext out) i =
    (XxInitiator.encrypt_payload c plaintext out i).1
initiator_step c (InitiatorCall.decrypt_payload ciphertext out) i =
    (XxInitiator.decrypt_payload c ciphertext out i).1

abbrev pub responder_step : Crypto → ResponderCall → NoiseXxResponder → NoiseXxResponder
responder_step c (ResponderCall.read_message1 payload) r = (XxResponder.read_message1 c payload r).1
responder_step c (ResponderCall.write_message2 my_ephemeral_secret epoch out) r =
    (XxResponder.write_message2 c my_ephemeral_secret epoch out r).1
responder_step c (ResponderCall.read_message3 payload) r = (XxResponder.read_message3 c payload r).1
responder_step c (ResponderCall.encrypt_payload plaintext out) r =
    (XxResponder.encrypt_payload c plaintext out r).1
responder_step c (ResponderCall.decrypt_payload ciphertext out) r =
    (XxResponder.decrypt_payload c ciphertext out r).1

abbrev pub after_initiator : Crypto → List InitiatorCall → NoiseXxInitiator → NoiseXxInitiator
after_initiator c [] i = i
after_initiator c (call ∷ rest) i = after_initiator c rest (initiator_step c call i)

abbrev pub after_responder : Crypto → List ResponderCall → NoiseXxResponder → NoiseXxResponder
after_responder c [] r = r
after_responder c (call ∷ rest) r = after_responder c rest (responder_step c call r)

-- Calls of which none reads a message of the length that the second one, or the first one, has.
abbrev pub IsUnread : InitiatorCall → Type 0
IsUnread (InitiatorCall.write_message1 out) = Unit
IsUnread (InitiatorCall.read_message2 payload) = length payload ≡ 106 → ⊥
IsUnread (InitiatorCall.write_message3 my_static_pub epoch out) = Unit
IsUnread (InitiatorCall.encrypt_payload plaintext out) = Unit
IsUnread (InitiatorCall.decrypt_payload ciphertext out) = Unit

abbrev pub IsUnheard : ResponderCall → Type 0
IsUnheard (ResponderCall.read_message1 payload) = length payload ≡ 33 → ⊥
IsUnheard (ResponderCall.write_message2 my_ephemeral_secret epoch out) = Unit
IsUnheard (ResponderCall.read_message3 payload) = Unit
IsUnheard (ResponderCall.encrypt_payload plaintext out) = Unit
IsUnheard (ResponderCall.decrypt_payload ciphertext out) = Unit

abbrev pub AreUnread : List InitiatorCall → Type 0
AreUnread [] = Unit
AreUnread (call ∷ rest) = IsUnread call × AreUnread rest

abbrev pub AreUnheard : List ResponderCall → Type 0
AreUnheard [] = Unit
AreUnheard (call ∷ rest) = IsUnheard call × AreUnheard rest
