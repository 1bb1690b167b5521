-- ===== src/Tests/Threads.antt =====
-- The supervisor of the sessions and the ticks between the threads on small inputs.
use xiaoy_md.Prelude.{
  ℕ, zero, suc, ◌≤◌, ◌≡◌, ◌≢◌, refl, Bool, true, false, [], ◌∷◌, some, length, count_if, All,
}
use xiaoy_md.Adapter.Supervisor.{RetryPolicy, out_of_fuel, backoff, supervisor_loop, supervisor}
use xiaoy_md.Adapter.Supervisor.Attempts.{supervisor-bounds}
use xiaoy_md.Adapter.Ticks.{
  Bridge, on_tick, admitted, no_ticks, Reached, begun, stepped, ticked, put, loop_set,
}
use xiaoy_md.Adapter.Ticks.Counted.{count_in, Step-Reached}
use xiaoy_md.FullFeed.Workflow.{out_of_fuel}

program : Unit {0}
unfolding backoff supervisor_loop supervisor on_tick admitted
program = tt

abbrev policy : RetryPolicy
policy = record { base_backoff = 500; multiplier = 2; max_backoff = 1500; max_retries = 3 }

abbrev always : ℕ → Bool
always k = true

abbrev never : ℕ → Bool
never k = false

supervisor_run : (supervisor always never never policy).sleeps ≡ 500 ∷ 1000 ∷ 1500 ∷ []
unfolding program
supervisor_run = refl

supervisor-bounds_example :
    let run = supervisor always never never policy in
    (run.ending ≢ out_of_fuel)
    × (run.sessions ≤ 4)
    × (length run.sleeps ≤ 3)
    × All (λ delay. delay ≤ 1500) run.sleeps
supervisor-bounds_example = supervisor-bounds always never never policy

abbrev opened : Bridge ℕ
opened = record no_ticks { loop_open = true }

abbrev offered : Bridge ℕ
offered = on_tick 1 (some 7) opened

-- one tick comes in and is put on the queue
abbrev queued : Bridge ℕ
queued = record {
  queue = 7 ∷ [];
  scheduled = [];
  received = [];
  cleared = [];
  dropped = 0;
  loop_open = true;
}

queued-Reached : Reached 1 (7 ∷ []) queued
unfolding program
queued-Reached =
    stepped (stepped (stepped begun (loop_set true no_ticks)) (ticked (some 7) opened))
      (put [] 7 [] offered refl refl)

-- the next one is dropped
on_tick_run : (on_tick 1 (some 8) queued).dropped ≡ 1
unfolding program
on_tick_run = refl

abbrev is_seven : ℕ → Bool
is_seven zero = false
is_seven (suc n) = true

Step-Reached_example :
    (length queued.queue ≤ 1) × (count_in is_seven queued ≡ count_if is_seven (7 ∷ []))
Step-Reached_example = Step-Reached 1 is_seven (7 ∷ []) queued queued-Reached
