-- ===== src/Fsp/Session/Initiator.antt =====
-- `FspInitiatorSession` of crates/microfips-core/src/fsp.rs.
use microfips.Base.{
  ℕ, ◌+◌, List, [], ◌∷◌, not, if◌then◌else◌, Bool, true, false, Option, none, some, replicate,
}
use microfips.Exec.{Exec, ok, err, panic, map_err, slice, ◌>>=◌}
use microfips.Noise.Method.{Method, converting}
use microfips.Noise.Symmetric.{Crypto, ecdh_pubkey}
use microfips.Fsp.Build.{build_session_setup, build_session_msg3}
use microfips.Fsp.Parse.{parse_session_ack}
use microfips.Fsp.Session.{
  FspInitiatorState, initiator_idle, awaiting_ack, awaiting_established, initiator_established,
  FspInitiatorError, wrong_state, wrong_message, noise_error, initiator_from_fsp_error,
  InitiatorCalls,
}
use microfips.Fsp.Session.Responder.{zip}

pub record FspInitiatorSession (I : Type 0) : Type 0 where
  pub state : FspInitiatorState
  pub initiator : Option I
  pub k_recv : Option (List ℕ)
  pub k_send : Option (List ℕ)
  pub my_pub : List ℕ
  pub pinned_responder_pub : List ℕ
  pub send_counter : ℕ

-- `==` on states.
abbrev pub is_idle : FspInitiatorState → Bool
is_idle initiator_idle = true
is_idle _ = false

abbrev pub is_awaiting_ack : FspInitiatorState → Bool
is_awaiting_ack awaiting_ack = true
is_awaiting_ack _ = false

abbrev pub is_awaiting_established : FspInitiatorState → Bool
is_awaiting_established awaiting_established = true
is_awaiting_established _ = false

module _ {I : Type 0} where
  unfoldable pub session_keys : FspInitiatorSession I → Option (List ℕ × List ℕ)
  session_keys s = zip s.k_recv s.k_send

  unfoldable pub next_send_counter : FspInitiatorSession I → ℕ × FspInitiatorSession I
  next_send_counter s = (s.send_counter, record s { send_counter = s.send_counter + 1 })

  unfoldable pub reset : FspInitiatorSession I → FspInitiatorSession I
  reset s = record s {
    state = initiator_idle;
    initiator = none;
    k_recv = none;
    k_send = none;
    send_counter = 0;
  }

  -- A call of the initiator that the session holds, if the session is in the state asked for.
  abbrev pub on_initiator :
      {A : Type 0}
      → Bool
      → Option I
      → (I → Exec FspInitiatorError A × FspInitiatorSession I)
      → Method FspInitiatorError (FspInitiatorSession I) A
  on_initiator false held call s = (err wrong_state, s)
  on_initiator true none call s = (err wrong_state, s)
  on_initiator true (some i) call s = call i

  -- The session where what follows the call of the initiator ended in this way.
  abbrev pub entering :
      {A : Type 0}
      → FspInitiatorState
      → FspInitiatorSession I
      → Exec FspInitiatorError A
      → Exec FspInitiatorError A × FspInitiatorSession I
  entering next s (ok a) = (ok a, record s { state = next })
  entering next s (err e) = (err e, s)
  entering next s panic = (panic, s)

  module _ (c : Crypto) (calls : InitiatorCalls I) where
    unfoldable pub new : List ℕ → List ℕ → List ℕ → Exec FspInitiatorError (FspInitiatorSession I)
    new my_static_secret my_ephemeral_secret responder_static_pub = do
      (initiator, e_pub) ←
          map_err noise_error
            (calls.start my_ephemeral_secret my_static_secret responder_static_pub)
      my_pub ← map_err noise_error (ecdh_pubkey c my_static_secret)
      ok (record {
        state = initiator_idle;
        initiator = some initiator;
        k_recv = none;
        k_send = none;
        my_pub = my_pub;
        pinned_responder_pub = responder_static_pub;
        send_counter = 0;
      })

    -- The setup around the first message.
    unfoldable pub setup_around :
        (src_addr dst_addr out : List ℕ)
        → Exec FspInitiatorError (ℕ × List ℕ)
        → Exec FspInitiatorError (ℕ × List ℕ)
    setup_around src_addr dst_addr out written = do
      (msg1_len, msg1) ← written
      noise ← slice msg1 0 msg1_len
      map_err initiator_from_fsp_error
          (build_session_setup 0 (src_addr ∷ []) (dst_addr ∷ []) noise out)

    unfoldable pub build_setup :
        (src_addr dst_addr out : List ℕ)
        → Method FspInitiatorError (FspInitiatorSession I) (ℕ × List ℕ)
    build_setup src_addr dst_addr out s =
        on_initiator (is_idle s.state) s.initiator
          (λ i.
            let sent = converting noise_error (calls.write_message1 (replicate 64 0)) i in
            entering awaiting_ack (record s { initiator = some sent.1 })
              (setup_around src_addr dst_addr out sent.0))
          s

    -- Behind the tests of the state: the acknowledgement is read by the initiator.
    abbrev pub ack_read :
        Exec FspInitiatorError (List ℕ)
        → FspInitiatorSession I
        → Exec FspInitiatorError (Unit {0}) × FspInitiatorSession I
    ack_read (err e) s = (err e, s)
    ack_read panic s = (panic, s)
    ack_read (ok msg2) s =
        on_initiator true s.initiator
          (λ i.
            let got = calls.read_ack s.pinned_responder_pub msg2 i in
            entering awaiting_established (record s { initiator = some got.1 }) got.0)
          s

    unfoldable pub handle_ack : List ℕ → Method FspInitiatorError (FspInitiatorSession I) (Unit {0})
    handle_ack ack s =
        if not (is_awaiting_ack s.state)
        then (err wrong_state, s)
        else ack_read (map_err (λ _. wrong_message) (parse_session_ack ack)) s

    abbrev pub framed :
        List ℕ → Exec FspInitiatorError (ℕ × List ℕ) → Exec FspInitiatorError (ℕ × List ℕ)
    framed out whole = do
      (len, buf) ← whole
      noise ← slice buf 0 len
      map_err initiator_from_fsp_error (build_session_msg3 noise out)

    abbrev pub extended :
        List ℕ → Exec FspInitiatorError (ℕ × List ℕ) → I → Exec FspInitiatorError (ℕ × List ℕ) × I
    extended out (ok (len, buf)) i =
        let whole = calls.append_negotiation len buf i in (framed out whole.0, whole.1)
    extended out (err e) i = (err e, i)
    extended out panic i = (panic, i)

    -- The third message with the negotiation behind it, and the message of the session around them.
    unfoldable pub msg3_around :
        (my_pub epoch out : List ℕ) → Method FspInitiatorError I (ℕ × List ℕ)
    msg3_around my_pub epoch out i =
        let sent =
          converting noise_error (calls.write_message3 my_pub epoch (replicate calls.msg3_buf 0))
            i in
        extended out sent.0 sent.1

    -- The transport keys, set behind the change of the state.
    abbrev pub with_keys :
        I
        → Exec FspInitiatorError (ℕ × List ℕ) × FspInitiatorSession I
        → Exec FspInitiatorError (ℕ × List ℕ) × FspInitiatorSession I
    with_keys i (ok sent, s) =
        let keys = calls.finalize i in
        (ok sent, record s { k_send = some keys.0; k_recv = some keys.1 })
    with_keys i (err e, s) = (err e, s)
    with_keys i (panic, s) = (panic, s)

    unfoldable pub build_msg3 :
        (epoch out : List ℕ) → Method FspInitiatorError (FspInitiatorSession I) (ℕ × List ℕ)
    build_msg3 epoch out s =
        on_initiator (is_awaiting_established s.state) s.initiator
          (λ i.
            let sent = msg3_around s.my_pub epoch out i in
            with_keys sent.1
              (entering initiator_established (record s { initiator = some sent.1 }) sent.0))
          s
