-- ===== src/Noise/Keyless.antt =====
-- The methods of `NoiseXxInitiator` and `NoiseXxResponder` of crates/fips-noise/src/lib.rs on an object
-- that knows no key of the other side and has no cipher key.
use microfips.Base.{
  ℕ, List, [], ◌∷◌, Option, none, length, ltb, ◌==◌, ◌≡◌, refl, arith, sym, subst, Bool-cases, inl,
  inr, true,
}
use microfips.Exec.{Exec, ok, err, panic, slice, copy_into}
use microfips.Exec.Laws.{slice_from_lem}
use microfips.Noise.{NoiseError}
use microfips.Noise.Method.{Method, next}
use microfips.Noise.Symmetric.{Crypto, Symmetric, seal_at, open_into, open_field}
use microfips.Noise.Xx.{NoiseXxInitiator, NoiseXxResponder}
use microfips.Noise.Calls.{
  InitiatorCall, ResponderCall, initiator_step, responder_step, after_initiator, after_responder,
  IsUnread, IsUnheard, AreUnread, AreUnheard,
}
use microfips.Noise.Xx.Initiator as XxInitiator
use microfips.Noise.Xx.Responder as XxResponder

-- An object that knows no key of the other side and has no cipher key.
abbrev IsFresh : Option (List ℕ) → Symmetric → Type 0
IsFresh remote s = (remote ≡ none) × (s.k ≡ none)

abbrev pub Fresh : NoiseXxInitiator → Type 0
Fresh i = IsFresh i.re_pub i.symmetric

abbrev pub Waiting : NoiseXxResponder → Type 0
Waiting r = IsFresh r.ei_pub r.symmetric

next_keeps :
    {E S A B : Type 0} (P : S → Type 0) (r : Exec E A × S) (f : A → Method E S B)
    → P r.1
    → ((a : A) (s : S) → P s → P (f a s).1)
    → P (next r f).1
next_keeps P (ok a, s) f h k = k a s h
next_keeps P (err e, s) f h k = h
next_keeps P (panic, s) f h k = h

equal : (a b : ℕ) → (a == b) ≡ true → a ≡ b
equal a b h = ground arith

-- Without a cipher key a field is neither sealed nor opened: the `unwrap` of the key panics.
module _ (c : Crypto) (s : Symmetric) (keyless : s.k ≡ none) where
  seal_panics : (plaintext out : List ℕ) → seal_at c 0 plaintext out s ≡ (panic, s)
  unfolding seal_at
  seal_panics plaintext out = rw (slice_from_lem {E = NoiseError} out 0 (omega arith), keyless) refl

  open_panics : (out ciphertext : List ℕ) → open_into c out ciphertext s ≡ (panic, s)
  unfolding open_into
  open_panics out ciphertext = rw keyless refl

  pub field_panics : (size : ℕ) (ciphertext : List ℕ) → open_field c size ciphertext s ≡ (panic, s)
  unfolding open_field open_into
  field_panics size ciphertext = rw keyless refl

module _ (c : Crypto) where
  write_message1-Fresh :
      (out : List ℕ) (i : NoiseXxInitiator) → Fresh i → Fresh (XxInitiator.write_message1 c out i).1
  unfolding XxInitiator.write_message1
  write_message1-Fresh out i h = elim (Bool-cases (ltb (length out) 33)) [
    | inl short ↦ rw short h
    | inr room ↦
        rw room (next_keeps Fresh (copy_into out 0 33 i.e_pub, i) _ h (λ written s fresh. fresh))
  ]

  read_message2-Fresh :
      (payload : List ℕ) (i : NoiseXxInitiator)
      → (length payload ≡ 106 → ⊥)
      → Fresh i
      → Fresh (XxInitiator.read_message2 c payload i).1
  unfolding XxInitiator.read_message2
  read_message2-Fresh payload i unread h = elim (Bool-cases (length payload == 106)) [
    | inl whole ↦ absurd (unread (equal (length payload) 106 whole))
    | inr other ↦ rw other h
  ]

  write_message3-Fresh :
      (my_static_pub epoch out : List ℕ) (i : NoiseXxInitiator)
      → Fresh i
      → Fresh (XxInitiator.write_message3 c my_static_pub epoch out i).1
  unfolding XxInitiator.write_message3
  write_message3-Fresh my_static_pub epoch out i h = elim (Bool-cases (ltb (length out) 73)) [
    | inl short ↦ rw short h
    | inr room ↦ rw (room, h.0) (refl, h.1)
  ]

  pub initiator_seals :
      (plaintext out : List ℕ) (i : NoiseXxInitiator)
      → Fresh i
      → XxInitiator.encrypt_payload c plaintext out i ≡ (panic, i)
  unfolding XxInitiator.encrypt_payload
  initiator_seals plaintext out i h = rw (seal_panics c i.symmetric h.1 plaintext out) refl

  pub initiator_opens :
      (ciphertext out : List ℕ) (i : NoiseXxInitiator)
      → Fresh i
      → XxInitiator.decrypt_payload c ciphertext out i ≡ (panic, i)
  unfolding XxInitiator.decrypt_payload
  initiator_opens ciphertext out i h = rw (open_panics c i.symmetric h.1 out ciphertext) refl

  initiator_step-Fresh :
      (call : InitiatorCall) (i : NoiseXxInitiator)
      → IsUnread call
      → Fresh i
      → Fresh (initiator_step c call i)
  initiator_step-Fresh (InitiatorCall.write_message1 out) i unread h = write_message1-Fresh out i h
  initiator_step-Fresh (InitiatorCall.read_message2 payload) i unread h =
      read_message2-Fresh payload i unread h
  initiator_step-Fresh (InitiatorCall.write_message3 my_static_pub epoch out) i unread h =
      write_message3-Fresh my_static_pub epoch out i h
  initiator_step-Fresh (InitiatorCall.encrypt_payload plaintext out) i unread h =
      subst (λ m. Fresh m.1) (sym (initiator_seals plaintext out i h)) h
  initiator_step-Fresh (InitiatorCall.decrypt_payload ciphertext out) i unread h =
      subst (λ m. Fresh m.1) (sym (initiator_opens ciphertext out i h)) h

  pub after_initiator-Fresh :
      (calls : List InitiatorCall) (i : NoiseXxInitiator)
      → AreUnread calls
      → Fresh i
      → Fresh (after_initiator c calls i)
  after_initiator-Fresh [] i unread h = h
  after_initiator-Fresh (call ∷ rest) i unread h =
      after_initiator-Fresh rest (initiator_step c call i) unread.1
        (initiator_step-Fresh call i unread.0 h)

module _ (c : Crypto) where
  read_message1-Waiting :
      (payload : List ℕ) (r : NoiseXxResponder)
      → (length payload ≡ 33 → ⊥)
      → Waiting r
      → Waiting (XxResponder.read_message1 c payload r).1
  unfolding XxResponder.read_message1
  read_message1-Waiting payload r unheard h = elim (Bool-cases (length payload == 33)) [
    | inl whole ↦ absurd (unheard (equal (length payload) 33 whole))
    | inr other ↦ rw other h
  ]

  write_message2-Waiting :
      (my_ephemeral_secret epoch out : List ℕ) (r : NoiseXxResponder)
      → Waiting r
      → Waiting (XxResponder.write_message2 c my_ephemeral_secret epoch out r).1
  unfolding XxResponder.write_message2
  write_message2-Waiting my_ephemeral_secret epoch out r h =
      elim (Bool-cases (ltb (length out) 106)) [
        | inl short ↦ rw short h
        | inr room ↦ rw (room, h.0) (refl, h.1)
      ]

  read_message3-Waiting :
      (payload : List ℕ) (r : NoiseXxResponder)
      → Waiting r
      → Waiting (XxResponder.read_message3 c payload r).1
  unfolding XxResponder.read_message3 XxResponder.receive_message3
  read_message3-Waiting payload r h = elim (Bool-cases (length payload == 73)) [
    | inr other ↦ rw other h
    | inl whole ↦ rw whole (
        next_keeps Waiting (slice payload 0 49, r) _ h
          (λ enc s waits. rw (field_panics c s.symmetric waits.1 33 enc) waits))
  ]

  pub responder_seals :
      (plaintext out : List ℕ) (r : NoiseXxResponder)
      → Waiting r
      → XxResponder.encrypt_payload c plaintext out r ≡ (panic, r)
  unfolding XxResponder.encrypt_payload
  responder_seals plaintext out r h = rw (seal_panics c r.symmetric h.1 plaintext out) refl

  pub responder_opens :
      (ciphertext out : List ℕ) (r : NoiseXxResponder)
      → Waiting r
      → XxResponder.decrypt_payload c ciphertext out r ≡ (panic, r)
  unfolding XxResponder.decrypt_payload
  responder_opens ciphertext out r h = rw (open_panics c r.symmetric h.1 out ciphertext) refl

  responder_step-Waiting :
      (call : ResponderCall) (r : NoiseXxResponder)
      → IsUnheard call
      → Waiting r
      → Waiting (responder_step c call r)
  responder_step-Waiting (ResponderCall.read_message1 payload) r unheard h =
      read_message1-Waiting payload r unheard h
  responder_step-Waiting (ResponderCall.write_message2 my_ephemeral_secret epoch out) r unheard h =
      write_message2-Waiting my_ephemeral_secret epoch out r h
  responder_step-Waiting (ResponderCall.read_message3 payload) r unheard h =
      read_message3-Waiting payload r h
  responder_step-Waiting (ResponderCall.encrypt_payload plaintext out) r unheard h =
      subst (λ m. Waiting m.1) (sym (responder_seals plaintext out r h)) h
  responder_step-Waiting (ResponderCall.decrypt_payload ciphertext out) r unheard h =
      subst (λ m. Waiting m.1) (sym (responder_opens ciphertext out r h)) h

  pub after_responder-Waiting :
      (calls : List ResponderCall) (r : NoiseXxResponder)
      → AreUnheard calls
      → Waiting r
      → Waiting (after_responder c calls r)
  after_responder-Waiting [] r unheard h = h
  after_responder-Waiting (call ∷ rest) r unheard h =
      after_responder-Waiting rest (responder_step c call r) unheard.1
        (responder_step-Waiting call r unheard.0 h)
