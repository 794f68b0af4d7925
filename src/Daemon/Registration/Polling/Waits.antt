-- ===== src/Daemon/Registration/Polling/Waits.antt =====
-- That the wait for the approval ends, and what it ends with (agent-daemon/src/register.js).
use code_caller.Prelude.{
  ℕ, zero, suc, ◌+◌, ◌-◌, ◌*◌, ◌≤◌, ◌<◌, ◌≡◌, Option, some, ltb, ltb→lt, Bool-cases, Option-cases,
  inl, inr, arith,
}
use code_caller.Units.{Text}
use code_caller.Daemon.Registration.Polling.{
  PollAnswer, PollOutcome, gave_up, timed_out, Turn, poll, poll_result, verdict, read_json,
  poll_interval_ms,
}

module _ (parse : Text → Option PollAnswer) (turns : ℕ → Turn)
    (waits : (k : ℕ) → poll_interval_ms ≤ (turns k).elapsed) where
  -- Enough fuel, with the number of the turns that are left.
  poll-ends :
      (fuel turn now expires_at : ℕ)
      → expires_at - now < fuel
      → (k : ℕ) × (o : PollOutcome) × (poll parse turns fuel turn now expires_at ≡ some (k, o))
        × (poll_interval_ms * k < poll_interval_ms * turn + (expires_at - now) + poll_interval_ms)
  unfolding poll
  poll-ends zero turn now expires_at h = absurd (omega arith)
  poll-ends (suc fuel) turn now expires_at h = elim (Bool-cases (ltb now expires_at)) [
    | inl waiting ↦ elim (Option-cases (verdict (read_json parse (turns turn).answer))) [
      | inl undecided ↦
          let soon = ltb→lt now expires_at waiting in
          let step = waits turn in
          let (k, o, e, b) =
            poll-ends fuel (suc turn) (now + (turns turn).elapsed) expires_at (omega arith) in
          (k, o, ground arith, omega (arith, b))
      | inr (o, e) ↦
          let soon = ltb→lt now expires_at waiting in (suc turn, o, ground arith, omega arith)
    ]
    | inr over ↦ (turn, gave_up timed_out, ground arith, omega arith)
  ]

  -- The wait ends, after at most one turn for each 2500 ms of the time that is left, and one more.
  pub poll_result-ends :
      (now expires_at : ℕ)
      → (k : ℕ) × (o : PollOutcome) × (poll_result parse turns now expires_at ≡ some (k, o))
        × (poll_interval_ms * k < expires_at - now + poll_interval_ms)
  unfolding poll_result
  poll_result-ends now expires_at =
      let (k, o, e, b) = poll-ends (suc (expires_at - now)) 0 now expires_at (omega arith) in
      (k, o, e, omega (arith, b))
