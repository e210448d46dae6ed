-- ===== src/Backoff.antt =====
-- The exponential backoff of crates/microfips-esp-transport/src/backoff.rs. An `Instant` of the crate
-- embassy_time is its number of ticks, of which `tick_hz` make a second; `now` is an argument.
pub mod Bounds
mod Tests
use microfips.Base.{
  ℕ, ◌+◌, ◌-◌, ◌*◌, ◌/◌, ◌%◌, ◌^◌, min, ltb, leb, if◌then◌else◌, Option, none, some, Bool, true,
  false,
}

abbrev pub base_secs : ℕ
base_secs = 5

abbrev pub max_secs : ℕ
max_secs = 300

abbrev pub max_failures : ℕ
max_failures = 10

abbrev pub deny_secs : ℕ
deny_secs = 300

pub record Entry : Type 0 where
  pub failures : ℕ
  pub next_allowed : ℕ

pub record L2capBackoff : Type 0 where
  pub entry : Option Entry
  pub denied : Option ℕ

abbrev pub new : L2capBackoff
new = record { entry = none; denied = none }

-- An entry that has expired is removed.
abbrev pub denied_at : ℕ → Option ℕ → Bool
denied_at now none = false
denied_at now (some until) = ltb now until

abbrev pub is_denied : ℕ → L2capBackoff → Bool × L2capBackoff
is_denied now b = if denied_at now b.denied then (true, b) else (false, record b { denied = none })

abbrev pub in_backoff_at : ℕ → Option Entry → Bool
in_backoff_at now none = false
in_backoff_at now (some e) = ltb now e.next_allowed

abbrev pub is_in_backoff : ℕ → L2capBackoff → Bool
is_in_backoff now b = in_backoff_at now b.entry

abbrev pub failures_of : Option Entry → ℕ
failures_of none = 0
failures_of (some e) = e.failures

abbrev pub failure_count : L2capBackoff → ℕ
failure_count b = failures_of b.entry

abbrev pub clear : L2capBackoff → L2capBackoff
clear b = record { entry = none; denied = none }

-- The delay after that many failures: a doubling one with a cap, and the jitter.
unfoldable pub capped : ℕ → ℕ
capped failures = min (2 ^ min failures 10 * base_secs) max_secs

unfoldable pub jitter : ℕ → ℕ
jitter failures = (failures * 0x517cc1b727220a95 % 2 ^ 64) % (capped failures / 5 + 1)

module _ (tick_hz : ℕ) where
  abbrev pub secs_until : ℕ → Option Entry → ℕ
  secs_until now none = 0
  secs_until now (some e) = if ltb now e.next_allowed then (e.next_allowed - now) / tick_hz else 0

  abbrev pub remaining_secs : ℕ → L2capBackoff → ℕ
  remaining_secs now b = secs_until now b.entry

  unfoldable pub record_failure : ℕ → L2capBackoff → Bool × L2capBackoff
  record_failure now b =
      let failures = failure_count b + 1 in
      if leb max_failures failures
      then (true, record { entry = none; denied = some (now + deny_secs * tick_hz) })
      else (
        false,
        record b {
          entry = some (record {
            failures = failures;
            next_allowed = now + (capped failures + jitter failures) * tick_hz;
          });
        },
      )
