-- ===== src/Policy/Run.antt =====
-- The loop `run` of crates/microfips-protocol/src/node.rs, and what a session of it does to the
-- policy. What else a session does is left out: it enters by its result.
use microfips.Base.{ℕ, ◌+◌, List, [], ◌∷◌, Bool, true, false, if◌then◌else◌}
use microfips.Policy.{
  PeerPolicy, PolicyVerdict, check_reconnect, check_frame_rate, record_connect_attempt,
  record_handshake_ok, record_handshake_failure, record_data_frame, record_heartbeat,
  record_bad_frame, record_good_frame, reset_session,
}

-- The calls that change the policy while a session is up.
pub data SteadyCall : Type 0 where
  frame_rate : (now : ℕ) → SteadyCall
  data_frame : SteadyCall
  heartbeat : SteadyCall
  bad_frame : SteadyCall
  good_frame : SteadyCall

-- A session that finds no transport, fails in its handshake, or comes up.
pub data Session : Type 0 where
  not_ready : Session
  failed : (now : ℕ) → Session
  established : (now : ℕ) (calls : List SteadyCall) → Session

-- A round of the loop: the time of the check, that of the attempt, which comes after the wait for a
-- backoff, and the session, if there is one.
pub record Round : Type 0 where
  pub checked : ℕ
  pub attempted : ℕ
  pub session : Session

module _ (tick_hz : ℕ) where
  abbrev pub on_call : SteadyCall → PeerPolicy → PeerPolicy
  on_call (SteadyCall.frame_rate now) p = (check_frame_rate tick_hz now p).1
  on_call SteadyCall.data_frame p = record_data_frame p
  on_call SteadyCall.heartbeat p = record_heartbeat p
  on_call SteadyCall.bad_frame p = record_bad_frame p
  on_call SteadyCall.good_frame p = record_good_frame p

  abbrev pub on_calls : List SteadyCall → PeerPolicy → PeerPolicy
  on_calls [] p = p
  on_calls (call ∷ calls) p = on_calls calls (on_call call p)

  unfoldable pub after_session : Session → PeerPolicy → PeerPolicy
  after_session Session.not_ready p = p
  after_session (Session.failed now) p = reset_session (record_handshake_failure now p)
  after_session (Session.established now calls) p =
      reset_session (on_calls calls (record_handshake_ok now p))

  abbrev pub attempt_session : Round → PeerPolicy → PeerPolicy
  attempt_session round p = after_session round.session (record_connect_attempt round.attempted p)

  -- Whether the round has a session, and the policy after it.
  abbrev pub on_verdict : PolicyVerdict × PeerPolicy → Round → Bool × PeerPolicy
  on_verdict (PolicyVerdict.allow, p) round = (true, attempt_session round p)
  on_verdict (PolicyVerdict.backoff delay, p) round = (true, attempt_session round p)
  on_verdict (PolicyVerdict.reject, p) round = (false, p)

  unfoldable pub run_round : Round → PeerPolicy → Bool × PeerPolicy
  run_round round p = on_verdict (check_reconnect tick_hz round.checked p) round

  -- The number of sessions of these rounds, and the policy after them.
  unfoldable pub run : List Round → PeerPolicy → ℕ × PeerPolicy
  run [] p = (0, p)
  run (round ∷ rounds) p =
      let one = run_round round p in
      let more = run rounds one.1 in ((if one.0 then 1 else 0) + more.0, more.1)
