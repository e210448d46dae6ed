-- ===== src/Fsp/Session/Invariant.antt =====
-- What holds of the fields of `FspSession` in each state, whatever datagrams arrive.
use microfips.Base.{
  ℕ, List, [], ◌∷◌, Bool-cases, Option, none, some, ◌≡◌, refl, ltb, length, bit_and, ◌==◌, inl, inr,
  replicate,
}
use microfips.Exec.{Exec, ok, err, panic}
use microfips.Noise.Symmetric.{Crypto}
use microfips.Fsp.Session.{
  FspSessionState, idle, awaiting_msg3, established, FspSessionError, invalid_state,
  invalid_message, crypto_error, buffer_too_small, ResponderCalls,
}
use microfips.Fsp.Session.Responder.{
  FspSession, handle_setup, handle_msg3, reset, answered, settled, finish, is_established,
}
use microfips.Fsp.Session.Handler.{
  handle_fsp_datagram, dispatch, dispatched, cut_datagram, retried, replied, no_answer,
  encrypted_message, FspHandlerError,
}

module _ {R : Type 0} where
  -- Keys and the key of the peer are there in an established session only, and a responder while
  -- the third message is awaited only.
  abbrev pub Consistent :
      FspSessionState → Option R → Option (List ℕ) → Option (List ℕ) → Option (List ℕ) → Type 0
  Consistent idle responder k_recv k_send initiator_pub =
      (responder ≡ none) × (k_recv ≡ none) × (k_send ≡ none) × (initiator_pub ≡ none)
  Consistent awaiting_msg3 responder k_recv k_send initiator_pub =
      ((r : R) × (responder ≡ some r)) × (k_recv ≡ none) × (k_send ≡ none) × (initiator_pub ≡ none)
  Consistent established responder k_recv k_send initiator_pub =
      (responder ≡ none)
      × ((k : List ℕ) × (k_recv ≡ some k))
      × ((k : List ℕ) × (k_send ≡ some k))
      × ((p : List ℕ) × (initiator_pub ≡ some p))

  abbrev pub IsConsistent : FspSession R → Type 0
  IsConsistent s = Consistent s.state s.responder s.k_recv s.k_send s.initiator_pub

  module _ (c : Crypto) (calls : ResponderCalls R) where
    answered-IsConsistent :
        (outcome : Exec FspSessionError (R × ℕ × List ℕ)) (s : FspSession R)
        → Consistent idle s.responder s.k_recv s.k_send s.initiator_pub
        → IsConsistent s
        → IsConsistent (answered c calls outcome s).1
    answered-IsConsistent (ok (r, len, ack)) s h k = ((r, refl), h.1, h.2, h.3)
    answered-IsConsistent (err e) s h k = k
    answered-IsConsistent panic s h k = k

    setup_on :
        (secret ephemeral epoch setup out : List ℕ) (st : FspSessionState) (o : Option R)
        (k1 k2 p : Option (List ℕ)) (n : ℕ)
        → Consistent st o k1 k2 p
        → IsConsistent
            (handle_setup c calls secret ephemeral epoch setup out (record {
              state = st;
              responder = o;
              k_recv = k1;
              k_send = k2;
              initiator_pub = p;
              send_counter = n;
            })).1
    unfolding handle_setup
    setup_on secret ephemeral epoch setup out idle o k1 k2 p n h =
        answered-IsConsistent _
          (record {
            state = idle;
            responder = o;
            k_recv = k1;
            k_send = k2;
            initiator_pub = p;
            send_counter = n;
          })
          h h
    setup_on secret ephemeral epoch setup out awaiting_msg3 o k1 k2 p n h = h
    setup_on secret ephemeral epoch setup out established o k1 k2 p n h = h

    handle_setup-IsConsistent :
        (secret ephemeral epoch setup out : List ℕ) (s : FspSession R)
        → IsConsistent s
        → IsConsistent (handle_setup c calls secret ephemeral epoch setup out s).1
    handle_setup-IsConsistent secret ephemeral epoch setup out s h =
        setup_on secret ephemeral epoch setup out s.state s.responder s.k_recv s.k_send
          s.initiator_pub s.send_counter h

    settled-IsConsistent :
        (outcome : Exec FspSessionError (List ℕ × List ℕ) × R) (s : FspSession R)
        → s.state ≡ awaiting_msg3
        → (s.k_recv ≡ none) × (s.k_send ≡ none) × (s.initiator_pub ≡ none)
        → IsConsistent (settled c calls outcome s).1
    settled-IsConsistent (ok (pubkey, epoch), r) s e h = (refl, (_, refl), (_, refl), (_, refl))
    settled-IsConsistent (err e', r) s e h = rw e ((r, refl), h.0, h.1, h.2)
    settled-IsConsistent (panic, r) s e h = rw e ((r, refl), h.0, h.1, h.2)

    finish_on :
        (outcome : Exec FspSessionError (List ℕ)) (o : Option R) (k1 k2 p : Option (List ℕ)) (n : ℕ)
        → Consistent awaiting_msg3 o k1 k2 p
        → IsConsistent
            (finish c calls outcome (record {
              state = awaiting_msg3;
              responder = o;
              k_recv = k1;
              k_send = k2;
              initiator_pub = p;
              send_counter = n;
            })).1
    finish_on (err e) o k1 k2 p n h = h
    finish_on panic o k1 k2 p n h = h
    finish_on (ok handshake) none k1 k2 p n h = elim (Bool-cases (calls.accepts_msg3 handshake)) [
      | inl e ↦ rw e h
      | inr e ↦ rw e h
    ]
    finish_on (ok handshake) (some r) k1 k2 p n h =
        elim (Bool-cases (calls.accepts_msg3 handshake)) [
          | inl e ↦
              rw e (settled-IsConsistent (calls.read_message3 handshake r) _ refl (h.1, h.2, h.3))
          | inr e ↦ rw e h
        ]

    msg3_on :
        (msg3 : List ℕ) (st : FspSessionState) (o : Option R) (k1 k2 p : Option (List ℕ)) (n : ℕ)
        → Consistent st o k1 k2 p
        → IsConsistent
            (handle_msg3 c calls msg3 (record {
              state = st;
              responder = o;
              k_recv = k1;
              k_send = k2;
              initiator_pub = p;
              send_counter = n;
            })).1
    unfolding handle_msg3
    msg3_on msg3 idle o k1 k2 p n h = h
    msg3_on msg3 awaiting_msg3 o k1 k2 p n h = finish_on _ o k1 k2 p n h
    msg3_on msg3 established o k1 k2 p n h = h

    reset-IsConsistent : (s : FspSession R) → IsConsistent (reset s)
    unfolding reset
    reset-IsConsistent s = (refl, refl, refl, refl)

    module _ (secret ephemeral epoch : List ℕ) where
      replied-IsConsistent :
          (body resp : List ℕ) (r : Exec FspSessionError (ℕ × List ℕ) × FspSession R)
          → IsConsistent r.1
          → IsConsistent (replied c calls secret ephemeral epoch body resp r).1
      replied-IsConsistent body resp (ok ack, s) h = h
      replied-IsConsistent body resp (err e, s) h = h
      replied-IsConsistent body resp (panic, s) h = h

      no_answer-IsConsistent :
          (resp : List ℕ) (r : Exec FspSessionError (Unit {0}) × FspSession R)
          → IsConsistent r.1
          → IsConsistent (no_answer c calls secret ephemeral epoch resp r).1
      no_answer-IsConsistent resp (ok _, s) h = h
      no_answer-IsConsistent resp (err e, s) h = h
      no_answer-IsConsistent resp (panic, s) h = h

      retried-IsConsistent :
          (buf body resp : List ℕ) (r : Exec FspSessionError (ℕ × List ℕ) × FspSession R)
          → IsConsistent r.1
          → IsConsistent (retried c calls secret ephemeral epoch buf body resp r).1
      retried-IsConsistent buf body resp (ok ack, s) h = h
      retried-IsConsistent buf body resp (err invalid_state, s) h =
          replied-IsConsistent body resp _ (
            handle_setup-IsConsistent secret ephemeral epoch buf (replicate 512 0) (reset s)
              (reset-IsConsistent s))
      retried-IsConsistent buf body resp (err invalid_message, s) h = h
      retried-IsConsistent buf body resp (err crypto_error, s) h = h
      retried-IsConsistent buf body resp (err buffer_too_small, s) h = h
      retried-IsConsistent buf body resp (panic, s) h = h

      -- An encrypted message leaves the session as it is.
      pub encrypted_message_keeps :
          (buf resp : List ℕ) (s : FspSession R)
          → (encrypted_message c calls secret ephemeral epoch buf resp s).1 ≡ s
      encrypted_message_keeps buf resp s = elim (Bool-cases (is_established s.state)) [
        | inl e ↦ rw e
        | inr e ↦ rw e
      ]

      dispatch-IsConsistent :
          (phase : ℕ) (buf body resp : List ℕ) (s : FspSession R)
          → IsConsistent s
          → IsConsistent (dispatch c calls secret ephemeral epoch phase buf body resp s).1
      unfolding dispatch
      dispatch-IsConsistent phase buf body resp s h = elim (Bool-cases (phase == 1)) [
        | inl e ↦ rw e (
            retried-IsConsistent buf body resp _
              (handle_setup-IsConsistent secret ephemeral epoch buf (replicate 512 0) s h))
        | inr e ↦ elim (Bool-cases (phase == 3)) [
          | inl e' ↦
              rw (e, e')
                (no_answer-IsConsistent resp _ (
                  msg3_on buf s.state s.responder s.k_recv s.k_send s.initiator_pub s.send_counter
                    h))
          | inr e' ↦ elim (Bool-cases (phase == 0)) [
            | inl e'' ↦ rw (e, e', e'', encrypted_message_keeps buf resp s) h
            | inr e'' ↦ rw (e, e', e'') h
          ]
        ]
      ]

      dispatched-IsConsistent :
          (parts : Exec FspHandlerError (List ℕ × List ℕ × Option ℕ)) (resp : List ℕ)
          (s : FspSession R)
          → IsConsistent s
          → IsConsistent (dispatched c calls secret ephemeral epoch parts resp s).1
      dispatched-IsConsistent (ok (body, buf, none)) resp s h = h
      dispatched-IsConsistent (ok (body, buf, some first)) resp s h =
          dispatch-IsConsistent (bit_and first 0x0f) buf body resp s h
      dispatched-IsConsistent (err e) resp s h = h
      dispatched-IsConsistent panic resp s h = h

      handle_fsp_datagram-IsConsistent :
          (payload resp : List ℕ) (s : FspSession R)
          → IsConsistent s
          → IsConsistent (handle_fsp_datagram c calls secret ephemeral epoch payload resp s).1
      unfolding handle_fsp_datagram
      handle_fsp_datagram-IsConsistent payload resp s h =
          elim (Bool-cases (ltb (length payload) 35)) [
            | inl e ↦ rw e h
            | inr e ↦ rw e (dispatched-IsConsistent (cut_datagram payload) resp s h)
          ]

    -- The session after these datagrams, each with the ephemeral key, the epoch and the reply buffer
    -- that the caller takes for it.
    abbrev pub after_datagrams :
        (secret : List ℕ) → List (List ℕ × List ℕ × List ℕ × List ℕ) → FspSession R → FspSession R
    after_datagrams secret [] s = s
    after_datagrams secret ((ephemeral, epoch, payload, resp) ∷ rest) s =
        after_datagrams secret rest
          (handle_fsp_datagram c calls secret ephemeral epoch payload resp s).1

    -- After any datagrams, well-formed or not, a session that was consistent is: in an idle session
    -- there is no responder, no key and no key of the peer, while the third message is awaited
    -- there is a responder and nothing else, and an established session has both keys and the key
    -- of the peer and no responder. This also holds where a datagram ends in an error or a panic.
    pub after_datagrams-IsConsistent :
        (secret : List ℕ) (datagrams : List (List ℕ × List ℕ × List ℕ × List ℕ)) (s : FspSession R)
        → IsConsistent s
        → IsConsistent (after_datagrams secret datagrams s)
    after_datagrams-IsConsistent secret [] s h = h
    after_datagrams-IsConsistent secret ((ephemeral, epoch, payload, resp) ∷ rest) s h =
        after_datagrams-IsConsistent secret rest _
          (handle_fsp_datagram-IsConsistent secret ephemeral epoch payload resp s h)
