-- ===== src/Adapter/Supervisor/Attempts.antt =====
-- How often the supervisor tries, and that it ends.
use xiaoy_md.Prelude.{
  ℕ, zero, suc, ◌+◌, ◌-◌, ◌≤◌, ◌≡◌, ◌≢◌, Bool, true, false, ltb, length, All, arith, inl, inr,
  Bool-cases,
}
use xiaoy_md.Adapter.Supervisor.{
  RetryPolicy, gave_up, out_of_fuel, Supervised, backoff, supervisor_loop, supervisor,
}

module _ (session_fails : ℕ → Bool) (shutdown_before : ℕ → Bool) (shutdown_after : ℕ → Bool)
    (r : RetryPolicy) where
  abbrev loop : ℕ → ℕ → Supervised
  loop = supervisor_loop session_fails shutdown_before shutdown_after r

  loop-bounds :
      (fuel attempts : ℕ)
      → fuel + attempts ≡ r.max_retries + 1
      → attempts ≤ r.max_retries
      → ((loop fuel attempts).ending ≢ out_of_fuel)
        × ((loop fuel attempts).sessions ≤ fuel)
        × (length (loop fuel attempts).sleeps ≤ fuel - 1)
        × All (λ delay. delay ≤ r.max_backoff) (loop fuel attempts).sleeps
  unfolding supervisor_loop backoff
  loop-bounds zero attempts e le = absurd (omega arith)
  loop-bounds (suc fuel) attempts e le = elim (Bool-cases (ltb r.max_retries (attempts + 1))) [
    | inl over ↦ ground arith
    | inr under ↦
        let rest = loop-bounds fuel (attempts + 1) (omega arith) (ground arith) in
        ground (arith, rest)
  ]

  -- Whatever the sessions do and whenever the flag is set, the supervisor ends, starts at most one
  -- session more than the retries allowed, and sleeps at most as often as the retries allowed, at
  -- most for the maximal backoff.
  pub supervisor-bounds :
      let run = supervisor session_fails shutdown_before shutdown_after r in
      (run.ending ≢ out_of_fuel)
      × (run.sessions ≤ r.max_retries + 1)
      × (length run.sleeps ≤ r.max_retries)
      × All (λ delay. delay ≤ r.max_backoff) run.sleeps
  unfolding supervisor
  supervisor-bounds =
      let (ends, sessions, sleeps, short) =
        loop-bounds (r.max_retries + 1) 0 (omega arith) (omega arith) in
      (ends, sessions, omega (arith, sleeps), short)

  loop-gave_up :
      (fuel attempts : ℕ)
      → fuel + attempts ≡ r.max_retries + 1
      → attempts ≤ r.max_retries
      → ((k : ℕ) → session_fails k ≡ true)
      → ((k : ℕ) → shutdown_before k ≡ false)
      → ((k : ℕ) → shutdown_after k ≡ false)
      → ((loop fuel attempts).ending ≡ gave_up)
        × ((loop fuel attempts).sessions ≡ fuel)
        × (length (loop fuel attempts).sleeps ≡ fuel - 1)
  unfolding supervisor_loop
  loop-gave_up zero attempts e le fails before after = absurd (omega arith)
  loop-gave_up (suc fuel) attempts e le fails before after =
      elim (Bool-cases (ltb r.max_retries (attempts + 1))) [
        | inl over ↦ ground (arith, fails attempts, before attempts, after attempts)
        | inr under ↦
            let rest =
              loop-gave_up fuel (attempts + 1) (omega arith) (ground arith) fails before after in
            ground (arith, rest, fails attempts, before attempts, after attempts)
      ]

  -- When every session fails and nobody shuts the adapter down, the supervisor gives up after one
  -- session more than the retries allowed, with a sleep between two sessions.
  supervisor-gave_up :
      ((k : ℕ) → session_fails k ≡ true)
      → ((k : ℕ) → shutdown_before k ≡ false)
      → ((k : ℕ) → shutdown_after k ≡ false)
      → let run = supervisor session_fails shutdown_before shutdown_after r in
        (run.ending ≡ gave_up)
        × (run.sessions ≡ r.max_retries + 1)
        × (length run.sleeps ≡ r.max_retries)
  unfolding supervisor
  supervisor-gave_up fails before after =
      let (ends, sessions, sleeps) =
        loop-gave_up (r.max_retries + 1) 0 (omega arith) (omega arith) fails before after in
      (ends, sessions, omega (arith, sleeps))
