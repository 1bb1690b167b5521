-- ===== src/Adapter/Supervisor.antt =====
-- `CTPGatewayAdapter._supervisor` (src/infrastructure/ctp_adapter.py). What a session comes to and
-- the shutdown flag are parameters, by the number of failures before. Delays are whole
-- milliseconds, and the multiplier is a whole number, as the default of 2.
pub mod Attempts
use xiaoy_md.Prelude.{
  ℕ, zero, suc, ◌+◌, ◌-◌, ◌*◌, ◌^◌, Bool, true, false, List, [], ◌∷◌, ltb, min, if◌then◌else◌,
}

pub record RetryPolicy : Type 0 where
  pub base_backoff : ℕ
  pub multiplier : ℕ
  pub max_backoff : ℕ
  pub max_retries : ℕ

pub data Ending : Type 0 where
  shut_down ended_cleanly gave_up out_of_fuel : Ending

-- how the supervisor ends, the sessions it started and its sleeps in order
pub record Supervised : Type 0 where
  pub ending : Ending
  pub sessions : ℕ
  pub sleeps : List ℕ

-- the delay behind the given number of failures
unfoldable pub backoff : RetryPolicy → ℕ → ℕ
backoff r attempts = min (r.base_backoff * r.multiplier ^ (attempts - 1)) r.max_backoff

module _ (session_fails : ℕ → Bool) (shutdown_before : ℕ → Bool) (shutdown_after : ℕ → Bool)
    (r : RetryPolicy) where
  -- the `while` loop, with the failures so far
  unfoldable pub supervisor_loop : ℕ → ℕ → Supervised
  unfolding backoff
  supervisor_loop zero attempts = record { ending = out_of_fuel; sessions = 0; sleeps = [] }
  supervisor_loop (suc fuel) attempts = elim (shutdown_before attempts) [
    | true ↦ record { ending = shut_down; sessions = 0; sleeps = [] }
    | false ↦ elim (shutdown_after attempts) [
      | true ↦ record { ending = shut_down; sessions = 1; sleeps = [] }
      | false ↦ elim (session_fails attempts) [
        | false ↦ record { ending = ended_cleanly; sessions = 1; sleeps = [] }
        | true ↦ elim (ltb r.max_retries (attempts + 1)) [
          | true ↦ record { ending = gave_up; sessions = 1; sleeps = [] }
          | false ↦
              let rest = supervisor_loop fuel (attempts + 1) in
              record rest {
                sessions = rest.sessions + 1;
                sleeps = backoff r (attempts + 1) ∷ rest.sleeps;
              }
        ]
      ]
    ]
  ]

  unfoldable pub supervisor : Supervised
  supervisor = supervisor_loop (r.max_retries + 1) 0
