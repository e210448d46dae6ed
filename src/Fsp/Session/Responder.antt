-- ===== src/Fsp/Session/Responder.antt =====
-- `FspSession` of crates/microfips-core/src/fsp.rs.
use microfips.Base.{
  ℕ, ◌+◌, List, [], ◌∷◌, length, ◌==◌, not, if◌then◌else◌, Bool, true, false, Option, none, some,
  replicate, drop, take,
}
use microfips.Exec.{Exec, ok, err, panic, map_err, slice, ◌>>=◌}
use microfips.Noise.Method.{Method, received, converting}
use microfips.Noise.Symmetric.{Crypto, ecdh_pubkey, parity_normalize}
use microfips.Fsp.Build.{build_session_ack}
use microfips.Fsp.Parse.{parse_session_setup_full, parse_session_msg3}
use microfips.Fsp.Session.{
  FspSessionState, idle, awaiting_msg3, established, FspSessionError, invalid_state,
  invalid_message, from_fsp_error, from_noise_error, ResponderCalls,
}

pub record FspSession (R : Type 0) : Type 0 where
  pub state : FspSessionState
  pub responder : Option R
  pub k_recv : Option (List ℕ)
  pub k_send : Option (List ℕ)
  pub initiator_pub : Option (List ℕ)
  pub send_counter : ℕ

-- `==` on states.
abbrev pub is_idle : FspSessionState → Bool
is_idle idle = true
is_idle _ = false

abbrev pub is_awaiting_msg3 : FspSessionState → Bool
is_awaiting_msg3 awaiting_msg3 = true
is_awaiting_msg3 _ = false

abbrev pub is_established : FspSessionState → Bool
is_established established = true
is_established _ = false

-- `NodeAddr::from_pubkey_x` of fips-identity
abbrev pub from_pubkey_x : Crypto → List ℕ → List ℕ
from_pubkey_x c x_only = take 16 (c.sha256 x_only)

-- `Option::zip`
abbrev pub zip {ℓ} : {A B : Type ℓ} → Option A → Option B → Option (A × B)
zip (some a) (some b) = some (a, b)
zip _ _ = none

module _ {R : Type 0} where
  abbrev pub new : FspSession R
  new = record {
    state = idle;
    responder = none;
    k_recv = none;
    k_send = none;
    initiator_pub = none;
    send_counter = 0;
  }

  unfoldable pub session_keys : FspSession R → Option (List ℕ × List ℕ)
  session_keys s = zip s.k_recv s.k_send

  -- The counter that is used, and the session with the next one. A `u64` that overflows panics in
  -- a debug build.
  unfoldable pub next_send_counter : FspSession R → ℕ × FspSession R
  next_send_counter s = (s.send_counter, record s { send_counter = s.send_counter + 1 })

  unfoldable pub reset : FspSession R → FspSession R
  reset s = record {
    state = idle;
    responder = none;
    k_recv = none;
    k_send = none;
    initiator_pub = none;
    send_counter = 0;
  }

  module _ (c : Crypto) (calls : ResponderCalls R) where
    -- Behind the test of the state: the responder, and the acknowledgement in its buffer.
    unfoldable pub answer_setup :
        (my_secret my_ephemeral my_epoch setup ack_out : List ℕ)
        → Exec FspSessionError (R × ℕ × List ℕ)
    answer_setup my_secret my_ephemeral my_epoch setup ack_out = do
      (flags, setup_src, handshake) ← map_err from_fsp_error (parse_session_setup_full setup)
      if not (length handshake == 33) then err invalid_message else (do
        responder ← calls.start my_secret handshake
        ((msg2_len, msg2), responder2) ← received (
            converting from_noise_error
              (calls.write_message2 my_ephemeral my_epoch (replicate calls.msg2_buf 0)) responder)
        my_pub ← map_err from_noise_error (ecdh_pubkey c my_secret)
        dst ← calls.ack_dst setup_src handshake
        ((len, msg2_whole), responder3) ←
            received (calls.append_negotiation msg2_len msg2 responder2)
        noise ← slice msg2_whole 0 len
        (ack_len, ack) ← map_err from_fsp_error (
            build_session_ack (from_pubkey_x c (drop 1 (parity_normalize my_pub)) ∷ []) (dst ∷ [])
              noise ack_out)
        ok (responder3, ack_len, ack))

    -- The session where the setup was answered.
    abbrev pub answered :
        Exec FspSessionError (R × ℕ × List ℕ)
        → FspSession R
        → Exec FspSessionError (ℕ × List ℕ) × FspSession R
    answered (ok (responder, ack_len, ack)) s =
        (ok (ack_len, ack), record s { responder = some responder; state = awaiting_msg3 })
    answered (err e) s = (err e, s)
    answered panic s = (panic, s)

    unfoldable pub handle_setup :
        (my_secret my_ephemeral my_epoch setup ack_out : List ℕ)
        → Method FspSessionError (FspSession R) (ℕ × List ℕ)
    handle_setup my_secret my_ephemeral my_epoch setup ack_out s =
        if not (is_idle s.state)
        then (err invalid_state, s)
        else answered (answer_setup my_secret my_ephemeral my_epoch setup ack_out) s

    -- The session after the responder has read the third message.
    abbrev pub settled :
        Exec FspSessionError (List ℕ × List ℕ) × R
        → FspSession R
        → Exec FspSessionError (Unit {0}) × FspSession R
    settled (ok (initiator_static_pub, epoch), r) s =
        let keys = calls.finalize r in
        (
          ok tt,
          record s {
            k_recv = some keys.0;
            k_send = some keys.1;
            initiator_pub = some initiator_static_pub;
            responder = none;
            state = established;
          },
        )
    settled (err e, r) s = (err e, record s { responder = some r })
    settled (panic, r) s = (panic, record s { responder = some r })

    abbrev pub read_by :
        Option R → List ℕ → FspSession R → Exec FspSessionError (Unit {0}) × FspSession R
    read_by none handshake s = (err invalid_state, s)
    read_by (some r) handshake s = settled (calls.read_message3 handshake r) s

    abbrev pub finish :
        Exec FspSessionError (List ℕ)
        → FspSession R
        → Exec FspSessionError (Unit {0}) × FspSession R
    finish (err e) s = (err e, s)
    finish panic s = (panic, s)
    finish (ok handshake) s =
        if not (calls.accepts_msg3 handshake)
        then (err invalid_message, s)
        else read_by s.responder handshake s

    unfoldable pub handle_msg3 : List ℕ → Method FspSessionError (FspSession R) (Unit {0})
    handle_msg3 msg3 s =
        if not (is_awaiting_msg3 s.state)
        then (err invalid_state, s)
        else finish (map_err from_fsp_error (parse_session_msg3 msg3)) s
