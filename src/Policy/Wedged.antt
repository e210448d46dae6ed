-- ===== src/Policy/Wedged.antt =====
-- What the loop does when handshakes go on failing.
use microfips.Base.{
  ℕ, suc, ◌+◌, ◌-◌, ◌≡◌, ◌≤◌, ◌<◌, List, [], ◌∷◌, ◌++◌, Option, none, some, true, ltb, leb, le→leb,
  lt→leb, length, arith, refl, ap, ◌∙◌, Bool-cases, inl, inr,
}
use microfips.Policy.{
  PeerPolicy, PeerPolicyTiming, PolicyVerdict, with_timing, check_reconnect, forget_failures,
  wait_since, required_ms, as_secs, max_total_reconnect_attempts,
}
use microfips.Policy.Run.{Round, Session, after_session, on_verdict, run_round, run}

module _ (hz : ℕ) where
  -- The count of attempts is kept by the check.
  forget_failures_total :
      (first : Option ℕ) (now : ℕ) (p : PeerPolicy)
      → (forget_failures hz first now p).total_reconnect_attempts ≡ p.total_reconnect_attempts
  forget_failures_total none now p = refl
  forget_failures_total (some first) now p =
      elim (Bool-cases (ltb 3600 (as_secs hz now - as_secs hz first))) [
        | inl old ↦ rw old refl
        | inr young ↦ rw young refl
      ]

  refused :
      (now : ℕ) (p : PeerPolicy)
      → max_total_reconnect_attempts ≤ p.total_reconnect_attempts
      → check_reconnect hz now p ≡ (PolicyVerdict.reject, p)
  unfolding check_reconnect
  refused now p h = rw (le→leb 100 p.total_reconnect_attempts h)

  run_refused :
      (rounds : List Round) (p : PeerPolicy)
      → max_total_reconnect_attempts ≤ p.total_reconnect_attempts
      → run hz rounds p ≡ (0, p)
  unfolding run run_round
  run_refused [] p h = refl
  run_refused (round ∷ rounds) p h = rw (refused round.checked p h, run_refused rounds p h)

  -- A round whose session would fail has that session.
  goes :
      (verdict : PolicyVerdict) (p : PeerPolicy) (round : Round) {now : ℕ}
      → (verdict ≡ PolicyVerdict.reject → ⊥)
      → round.session ≡ Session.failed now
      → p.total_reconnect_attempts < 100
      → ((on_verdict hz (verdict, p) round).0 ≡ true)
        × ((on_verdict hz (verdict, p) round).1.total_reconnect_attempts
            ≡ suc p.total_reconnect_attempts)
  unfolding after_session
  goes PolicyVerdict.allow p round h e few = (refl, rw e (omega arith))
  goes (PolicyVerdict.backoff delay) p round h e few = (refl, rw e (omega arith))
  goes PolicyVerdict.reject p round h e few = absurd (h refl)

  waits :
      (last : Option ℕ) (now required : ℕ)
      → wait_since hz last now required ≡ PolicyVerdict.reject
      → ⊥
  waits none now required e = cc
  waits (some last) now required e = ground arith

  round_fails :
      (round : Round) (p : PeerPolicy) {now : ℕ}
      → round.session ≡ Session.failed now
      → p.total_reconnect_attempts < 100
      → ((run_round hz round p).0 ≡ true)
        × ((run_round hz round p).1.total_reconnect_attempts ≡ suc p.total_reconnect_attempts)
  unfolding run_round check_reconnect
  round_fails round p e few =
      let kept = forget_failures hz p.first_failure_time round.checked p in
      let same = forget_failures_total p.first_failure_time round.checked p in
      let needed = required_ms p.timing kept.consecutive_failures in
      let (started, more) =
        goes (wait_since hz p.last_connect round.checked needed) kept round
          (waits p.last_connect round.checked needed) e (omega (arith, same)) in
      rw (lt→leb 100 p.total_reconnect_attempts few) (started, more ∙ ap suc same)

-- No handshake of these rounds would come to its end.
abbrev pub AllFail : List Round → Type 0
AllFail [] = Unit
AllFail (round ∷ rounds) = ((now : ℕ) × (round.session ≡ Session.failed now)) × AllFail rounds

module _ (hz : ℕ) (later : List Round) where
  -- Rounds that fail and then others.
  sessions_left :
      (rounds : List Round) (p : PeerPolicy)
      → AllFail rounds
      → p.total_reconnect_attempts ≤ max_total_reconnect_attempts
      → max_total_reconnect_attempts ≤ p.total_reconnect_attempts + length rounds
      → (run hz (rounds ++ later) p).0 + p.total_reconnect_attempts ≡ max_total_reconnect_attempts
  unfolding run
  sessions_left [] p fail low high =
      let full : p.total_reconnect_attempts ≡ 100 = omega arith in
      rw (run_refused hz later p (omega arith)) (omega arith)
  sessions_left (round ∷ rounds) p ((now, e), fail) low high =
      elim (Bool-cases (leb 100 p.total_reconnect_attempts)) [
        | inl full ↦
            let many : 100 ≤ p.total_reconnect_attempts = ground arith in
            let none_more : (run hz ((round ∷ rounds) ++ later) p).0 ≡ 0 =
              ap (λ r. r.0) (run_refused hz (round ∷ (rounds ++ later)) p many) in
            omega (arith, none_more)
        | inr free ↦
            let few : p.total_reconnect_attempts < 100 = ground arith in
            let (started, more) = round_fails hz round p e few in
            let p' = (run_round hz round p).1 in
            let rest = sessions_left rounds p' fail (omega (arith, more)) (omega (arith, more)) in
            rw started (omega (arith, rest, more))
      ]

-- From a new policy, where the handshakes of the first rounds fail, 100 of them or more: there are
-- 100 sessions, and never another, whatever time goes by and whatever the later rounds would bring.
pub hundred_failures_end_sessions :
    (hz start : ℕ) (timing : PeerPolicyTiming) (rounds later : List Round)
    → AllFail rounds
    → max_total_reconnect_attempts ≤ length rounds
    → (run hz (rounds ++ later) (with_timing timing start)).0 ≡ max_total_reconnect_attempts
hundred_failures_end_sessions hz start timing rounds later fail many = omega (
  arith,
  sessions_left hz later rounds (with_timing timing start) fail (omega arith) (omega arith),
)
