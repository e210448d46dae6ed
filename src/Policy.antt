-- ===== src/Policy.antt =====
-- The admission of the peer, crates/microfips-protocol/src/peer_policy.rs, and the loop `run` of
-- node.rs that asks it before each session. An `Instant` of the crate embassy_time is its number of
-- ticks, of which `tick_hz` make a second; `now` is an argument. The cells of the source are fields.
pub mod Run
pub mod Reconnect
pub mod Wedged
pub mod FrameRate
mod Tests
use microfips.Base.{
  ℕ, ◌+◌, ◌-◌, ◌*◌, ◌/◌, ◌^◌, min, max, ltb, leb, ◌==◌, ◌&&◌, if◌then◌else◌, Option, none, some,
  Bool, List, [], ◌∷◌,
}

abbrev pub frame_rate_max : ℕ
frame_rate_max = 100

abbrev pub silent_peer_min_data_ratio : ℕ
silent_peer_min_data_ratio = 1

abbrev pub max_consecutive_bad : ℕ
max_consecutive_bad = 20

abbrev pub max_consecutive_failures : ℕ
max_consecutive_failures = 20

abbrev pub max_total_reconnect_attempts : ℕ
max_total_reconnect_attempts = 100

abbrev pub failure_reset_window_secs : ℕ
failure_reset_window_secs = 3600

abbrev pub max_total_bad_frames : ℕ
max_total_bad_frames = 100

pub record PeerPolicyTiming : Type 0 where
  pub retry_base_interval_secs : ℕ
  pub retry_max_backoff_secs : ℕ
  pub frame_rate_window_ms : ℕ
  pub link_dead_timeout_secs : ℕ

abbrev pub default_timing : PeerPolicyTiming
default_timing = record {
  retry_base_interval_secs = 5;
  retry_max_backoff_secs = 300;
  frame_rate_window_ms = 1000;
  link_dead_timeout_secs = 30;
}

pub record PeerPolicy : Type 0 where
  pub timing : PeerPolicyTiming
  pub last_connect : Option ℕ
  pub consecutive_failures : ℕ
  pub total_reconnect_attempts : ℕ
  pub first_failure_time : Option ℕ
  pub frame_count : ℕ
  pub frame_window_start : ℕ
  pub data_frames_recv : ℕ
  pub heartbeats_recv : ℕ
  pub session_start : Option ℕ
  pub consecutive_bad_frames : ℕ
  pub total_bad_frames : ℕ

-- `backoff` takes milliseconds.
pub data PolicyVerdict : Type 0 where
  allow : PolicyVerdict
  backoff : ℕ → PolicyVerdict
  reject : PolicyVerdict

abbrev pub with_timing : PeerPolicyTiming → (now : ℕ) → PeerPolicy
with_timing timing now = record {
  timing = timing;
  last_connect = none;
  consecutive_failures = 0;
  total_reconnect_attempts = 0;
  first_failure_time = none;
  frame_count = 0;
  frame_window_start = now;
  data_frames_recv = 0;
  heartbeats_recv = 0;
  session_start = none;
  consecutive_bad_frames = 0;
  total_bad_frames = 0;
}

-- `saturating_add(1)` of a `u16` and a `u32`, and `saturating_mul` of a `u64`.
abbrev pub up16 : ℕ → ℕ
up16 n = min (2 ^ 16 - 1) (n + 1)

abbrev pub up32 : ℕ → ℕ
up32 n = min (2 ^ 32 - 1) (n + 1)

abbrev pub times64 : ℕ → ℕ → ℕ
times64 a b = min (2 ^ 64 - 1) (a * b)

abbrev pub base_interval_ms : PeerPolicyTiming → ℕ
base_interval_ms t = times64 t.retry_base_interval_secs 1000

abbrev pub max_backoff_ms : PeerPolicyTiming → ℕ
max_backoff_ms t = times64 t.retry_max_backoff_secs 1000

unfoldable pub failure_backoff_ms : PeerPolicyTiming → (failures : ℕ) → ℕ
failure_backoff_ms t failures =
    if leb max_consecutive_failures failures
    then max_backoff_ms t
    else if failures == 0
    then 0
    else min (times64 (base_interval_ms t) (2 ^ min (failures - 1) 15)) (max_backoff_ms t)

abbrev pub required_ms : PeerPolicyTiming → (failures : ℕ) → ℕ
required_ms t failures = max (base_interval_ms t) (failure_backoff_ms t failures)

abbrev pub reset_session : PeerPolicy → PeerPolicy
reset_session p = record p {
  data_frames_recv = 0;
  heartbeats_recv = 0;
  session_start = none;
  consecutive_bad_frames = 0;
  total_bad_frames = 0;
}

abbrev pub record_handshake_ok : (now : ℕ) → PeerPolicy → PeerPolicy
record_handshake_ok now p = record (reset_session p) {
  consecutive_failures = 0;
  total_reconnect_attempts = 0;
  first_failure_time = none;
  session_start = some now;
}

abbrev pub first_failure_of : Option ℕ → ℕ → Option ℕ
first_failure_of none now = some now
first_failure_of (some first) now = some first

abbrev pub record_handshake_failure : (now : ℕ) → PeerPolicy → PeerPolicy
record_handshake_failure now p = record p {
  consecutive_failures = up16 p.consecutive_failures;
  total_reconnect_attempts = up32 p.total_reconnect_attempts;
  first_failure_time = first_failure_of p.first_failure_time now;
  last_connect = some now;
}

abbrev pub record_connect_attempt : (now : ℕ) → PeerPolicy → PeerPolicy
record_connect_attempt now p = record p { last_connect = some now }

abbrev pub record_data_frame : PeerPolicy → PeerPolicy
record_data_frame p = record p { data_frames_recv = up32 p.data_frames_recv }

abbrev pub record_heartbeat : PeerPolicy → PeerPolicy
record_heartbeat p = record p { heartbeats_recv = up32 p.heartbeats_recv }

abbrev pub record_bad_frame : PeerPolicy → PeerPolicy
record_bad_frame p = record p {
  consecutive_bad_frames = up16 p.consecutive_bad_frames;
  total_bad_frames = up32 p.total_bad_frames;
}

abbrev pub record_good_frame : PeerPolicy → PeerPolicy
record_good_frame p = record p { consecutive_bad_frames = 0 }

abbrev pub set_session_start : (instant : ℕ) → PeerPolicy → PeerPolicy
set_session_start instant p = record p { session_start = some instant }

abbrev pub check_bad_frame_limit : PeerPolicy → PolicyVerdict
check_bad_frame_limit p = if leb max_consecutive_bad p.consecutive_bad_frames then reject else allow

abbrev pub check_total_bad_frame_limit : PeerPolicy → PolicyVerdict
check_total_bad_frame_limit p =
    if leb max_total_bad_frames p.total_bad_frames then reject else allow

module _ (tick_hz : ℕ) where
  abbrev pub as_secs : ℕ → ℕ
  as_secs now = now / tick_hz

  abbrev pub as_millis : ℕ → ℕ
  as_millis now = now * 1000 / tick_hz

  -- Failures whose first was longer ago than the window are forgotten.
  abbrev pub forget_failures : Option ℕ → (now : ℕ) → PeerPolicy → PeerPolicy
  forget_failures none now p = p
  forget_failures (some first) now p =
      if ltb failure_reset_window_secs (as_secs now - as_secs first)
      then record p { consecutive_failures = 0; first_failure_time = none }
      else p

  abbrev pub wait_since : (last : Option ℕ) (now required : ℕ) → PolicyVerdict
  wait_since none now required = allow
  wait_since (some last) now required =
      let elapsed = as_millis now - as_millis last in
      if ltb elapsed required then backoff (required - elapsed) else allow

  unfoldable pub check_reconnect : (now : ℕ) → PeerPolicy → PolicyVerdict × PeerPolicy
  check_reconnect now p =
      if leb max_total_reconnect_attempts p.total_reconnect_attempts
      then (reject, p)
      else let kept = forget_failures p.first_failure_time now p in
        (wait_since p.last_connect now (required_ms p.timing kept.consecutive_failures), kept)

  abbrev pub open_window : (now : ℕ) → PeerPolicy → PeerPolicy
  open_window now p =
      if leb p.timing.frame_rate_window_ms (as_millis now - as_millis p.frame_window_start)
      then record p { frame_window_start = now; frame_count = 0 }
      else p

  abbrev pub count_frame : (now : ℕ) → PeerPolicy → PolicyVerdict × PeerPolicy
  count_frame now p =
      if leb frame_rate_max p.frame_count
      then (reject, record p { frame_window_start = now; frame_count = 0 })
      else (allow, record p { frame_count = up16 p.frame_count })

  unfoldable pub check_frame_rate : (now : ℕ) → PeerPolicy → PolicyVerdict × PeerPolicy
  check_frame_rate now p = count_frame now (open_window now p)

  abbrev pub silent_since : Option ℕ → (now : ℕ) → PeerPolicy → PolicyVerdict
  silent_since none now p = allow
  silent_since (some start) now p =
      if ltb p.timing.link_dead_timeout_secs (as_secs now - as_secs start)
        && ltb p.data_frames_recv silent_peer_min_data_ratio
        && ltb 0 p.heartbeats_recv
      then reject
      else allow

  abbrev pub check_silent_peer : (now : ℕ) → PeerPolicy → PolicyVerdict
  check_silent_peer now p = silent_since p.session_start now p
