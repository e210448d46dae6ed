-- ===== src/Fsp/Session/Teardown.antt =====
-- What ends an established session, and what does not.
use microfips.Base.{
  ℕ, zero, suc, List, [], ◌∷◌, drop, take, get_or, ltb→le, false, Bool-cases, none, some, ◌≡◌, refl,
  ltb, bit_and, ◌==◌, ◌≤◌, length, arith, ◌⊎◌, inl, inr, replicate, le→ltb,
}
use microfips.Exec.{Exec, ok, err, panic}
use microfips.Exec.Laws.{slice_lem, slice_from_lem}
use microfips.Fsp.Encrypted.{build_session_datagram_body}
use microfips.Noise.Symmetric.{Crypto}
use microfips.Fsp.Session.{established, FspSessionError, ResponderCalls}
use microfips.Fsp.Session.Responder.{
  FspSession, handle_setup, handle_msg3, reset, answer_setup, is_idle,
}
use microfips.Fsp.Session.Handler.{
  handle_fsp_datagram, dispatch, cut_datagram, no_answer, FspHandlerError, setup, first_of,
}
use microfips.Fsp.Session.Invariant.{encrypted_message_keeps}

cut_datagram_lem :
    (payload : List ℕ)
    → 35 ≤ length payload
    → cut_datagram payload
      ≡ ok (
        build_session_datagram_body (take 16 (drop 19 payload)) (take 16 (drop 3 payload)),
        drop 35 payload,
        first_of (drop 35 payload),
      )
unfolding cut_datagram
cut_datagram_lem payload long = rw (
  slice_lem {E = FspHandlerError} payload 3 19 (omega arith) (omega arith),
  slice_lem {E = FspHandlerError} payload 19 35 (omega arith) (omega arith),
  slice_from_lem {E = FspHandlerError} payload 35 long,
)

first_of-drop :
    (n : ℕ) (xs : List ℕ)
    → (first_of (drop n xs) ≡ none) ⊎ (first_of (drop n xs) ≡ some (get_or xs n 0))
first_of-drop zero [] = inl refl
first_of-drop zero (x ∷ xs) = inr refl
first_of-drop (suc n) [] = inl refl
first_of-drop (suc n) (x ∷ xs) = first_of-drop n xs

module _ {R : Type 0} (c : Crypto) (calls : ResponderCalls R)
    (secret ephemeral epoch : List ℕ) where
  -- A session that is not idle is lost to a setup that is refused: where a datagram carries a session
  -- message of the phase of a setup that cannot be answered, for whatever reason, the handler gives
  -- that error, and the session is the reset one, without keys.
  pub refused_setup_resets :
      (payload resp body buf : List ℕ) (first : ℕ) (e : FspSessionError) (s : FspSession R)
      → is_idle s.state ≡ false
      → 35 ≤ length payload
      → cut_datagram payload ≡ ok (body, buf, some first)
      → bit_and first 0x0f ≡ 1
      → answer_setup c calls secret ephemeral epoch buf (replicate 512 0) ≡ err e
      → handle_fsp_datagram c calls secret ephemeral epoch payload resp s ≡ (err (setup e), reset s)
  unfolding handle_fsp_datagram dispatch handle_setup reset
  refused_setup_resets payload resp body buf first e s busy long cut phase refused =
      rw (le→ltb (length payload) 35 long, cut, phase, busy, refused)

  no_answer_session :
      (resp : List ℕ) (r : Exec FspSessionError (Unit {0}) × FspSession R)
      → (no_answer c calls secret ephemeral epoch resp r).1 ≡ r.1
  no_answer_session resp (ok _, s) = refl
  no_answer_session resp (err e, s) = refl
  no_answer_session resp (panic, s) = refl

  dispatch_stays :
      (phase : ℕ) (buf body resp : List ℕ) (s : FspSession R)
      → s.state ≡ established
      → (phase == 1) ≡ false
      → (dispatch c calls secret ephemeral epoch phase buf body resp s).1 ≡ s
  unfolding dispatch handle_msg3
  dispatch_stays phase buf body resp s here other = elim (Bool-cases (phase == 3)) [
    | inl e ↦ rw (other, e, no_answer_session resp (handle_msg3 c calls buf s), here)
    | inr e ↦ elim (Bool-cases (phase == 0)) [
      | inl e' ↦
          rw (other, e, e', encrypted_message_keeps c calls secret ephemeral epoch buf resp s)
      | inr e' ↦ rw (other, e, e')
    ]
  ]

  -- An established session is left as it is, its keys and its counter, by every datagram whose byte
  -- behind the datagram body, if there is one, is not of the phase of a setup, whatever the handler
  -- answers.
  pub established_session_stays :
      (payload resp : List ℕ) (s : FspSession R)
      → s.state ≡ established
      → (bit_and (get_or payload 35 0) 0x0f == 1) ≡ false
      → (handle_fsp_datagram c calls secret ephemeral epoch payload resp s).1 ≡ s
  unfolding handle_fsp_datagram
  established_session_stays payload resp s here other =
      elim (Bool-cases (ltb (length payload) 35)) [
        | inl e ↦ rw e
        | inr e ↦
            let cut = cut_datagram_lem payload (ltb→le (length payload) 35 e) in
            elim (first_of-drop 35 payload) [
              | inl empty ↦ rw (e, cut, empty)
              | inr found ↦
                  rw (e, cut, found)
                    (dispatch_stays (bit_and (get_or payload 35 0) 0x0f) (drop 35 payload)
                      (build_session_datagram_body (take 16 (drop 19 payload))
                        (take 16 (drop 3 payload)))
                      resp s here other)
            ]
      ]
