-- ===== src/Service/Lifecycle/Watched.antt =====
-- The watchdog and the loaded subscriptions over the life of the service
-- (src/application/services.py).
use xiaoy_md.Prelude.{
  ℕ, ◌≡◌, refl, ap, ◌∙◌, Bool, true, false, ◌&&◌, List, [], ◌∷◌, arith, if◌then◌else◌, All,
  Bool-cases, Option-cases, inl, inr,
}
use xiaoy_md.Domain.{MarketDataSubscription}
use xiaoy_md.Service.State.{Service, enter}
use xiaoy_md.Service.State.Agreement.{IsAligned, enter-IsAligned}
use xiaoy_md.Service.Lifecycle.{
  Tasks, Running, Answers, load_each, start_metrics_reporter, load_stored, initialize,
  process_begin, process_end, shutdown, Event, initialized, processing, processed, shut_down,
  happen, happen_all,
}

load_each-IsAligned :
    (stored : List (MarketDataSubscription × ℕ)) (s : Service)
    → IsAligned s
    → IsAligned (load_each stored s)
unfolding load_each
load_each-IsAligned [] s a = a
load_each-IsAligned ((sub, t) ∷ stored) s a =
    load_each-IsAligned stored (enter sub t s) (enter-IsAligned sub t s a)

if_keeps : {A : Type 0} (P : A → Type 0) (b : Bool) {x y : A} → P x → P y → P (if b then x else y)
if_keeps P true h g = h
if_keeps P false h g = g

if_true : {A : Type 0} (x y : A) (b : Bool) → b ≡ true → (if b then x else y) ≡ x
if_true x y true e = refl
if_true x y false e = cc e

-- what holds before and where the step goes on holds behind it
initialize-keeps :
    (P : Running → Type 0) (a : Answers) (r : Running)
    → P r
    → ((stored : List (MarketDataSubscription × ℕ))
        → P (record r {
          service = load_each stored r.service;
          tasks = start_metrics_reporter r.has_backup r.tasks;
        }))
    → P (initialize a r).1
unfolding initialize load_stored
initialize-keeps P a r h k = elim (Bool-cases (a.market_data_connects && a.publisher_connects)) [
  | inr c ↦ rw (initialize, c) h
  | inl c ↦ elim (Option-cases a.stored) [
    | inl e ↦ rw (initialize, c) (rw (e, load_stored) h)
    | inr (stored, e) ↦ rw (initialize, c) (rw (e, load_stored) (k stored))
  ]
]

process_begin-keeps :
    (P : Running → Type 0) (r : Running)
    → P r
    → P (record r { tasks = start_metrics_reporter r.has_backup r.tasks })
    → P (process_begin r)
unfolding process_begin
process_begin-keeps P r h k = if_keeps P r.has_market_data k h

process_end-keeps :
    (P : Running → Type 0) (r : Running)
    → P r
    → P (record r { tasks = record { reporter = r.tasks.reporter; watchdog = false } })
    → P (process_end r)
unfolding process_end
process_end-keeps P r h k = if_keeps P r.has_market_data k h

-- the dictionaries agree, and a watchdog needs a backup profile
pub record Holds (r : Running) : Type 0 where
  pub aligned : IsAligned r.service
  pub backed : r.tasks.watchdog ≡ true → r.has_backup ≡ true

start-backed :
    (r : Running)
    → (r.tasks.watchdog ≡ true → r.has_backup ≡ true)
    → (start_metrics_reporter r.has_backup r.tasks).watchdog ≡ true
    → r.has_backup ≡ true
unfolding start_metrics_reporter
start-backed r h e = ground (arith, h)

happen-Holds : (e : Event) (r : Running) → Holds r → Holds (happen e r)
unfolding happen shutdown
happen-Holds (initialized a) r h = initialize-keeps Holds a r h (λ stored. record {
  aligned = load_each-IsAligned stored r.service h.aligned;
  backed = start-backed r h.backed;
})
happen-Holds processing r h =
    process_begin-keeps Holds r h (record { aligned = h.aligned; backed = start-backed r h.backed })
happen-Holds processed r h =
    process_end-keeps Holds r h (record { aligned = h.aligned; backed = λ e. cc e })
happen-Holds shut_down r h = record { aligned = h.aligned; backed = h.backed }

-- Whatever happens in the life of the service, in any order and with any answers of the ports: its
-- dictionaries stay on the same ids, and the watchdog runs only where there is a backup profile.
pub happen_all-Holds : (events : List Event) (r : Running) → Holds r → Holds (happen_all events r)
unfolding happen_all
happen_all-Holds [] r h = h
happen_all-Holds (e ∷ events) r h = happen_all-Holds events (happen e r) (happen-Holds e r h)

-- an event that is no shutdown
abbrev pub is_up : Event → Bool
is_up (initialized a) = true
is_up processing = true
is_up processed = true
is_up shut_down = false

-- the reporter runs without the watchdog
pub record Unwatched (r : Running) : Type 0 where
  pub reporter : r.tasks.reporter ≡ true
  pub watchdog : r.tasks.watchdog ≡ false

start-Unwatched :
    (r : Running) → Unwatched r → start_metrics_reporter r.has_backup r.tasks ≡ r.tasks
unfolding start_metrics_reporter
start-Unwatched r u = rw (start_metrics_reporter, u.reporter) refl

started-Unwatched :
    (r : Running) (service : Service)
    → Unwatched r
    → Unwatched
        (record r { service = service; tasks = start_metrics_reporter r.has_backup r.tasks })
started-Unwatched r service u = record {
  reporter = ap (λ t. t.reporter) (start-Unwatched r u) ∙ u.reporter;
  watchdog = ap (λ t. t.watchdog) (start-Unwatched r u) ∙ u.watchdog;
}

happen-Unwatched : (e : Event) (r : Running) → is_up e ≡ true → Unwatched r → Unwatched (happen e r)
unfolding happen
happen-Unwatched (initialized a) r up u =
    initialize-keeps Unwatched a r u (λ stored. started-Unwatched r (load_each stored r.service) u)
happen-Unwatched processing r up u =
    process_begin-keeps Unwatched r u (started-Unwatched r r.service u)
happen-Unwatched processed r up u =
    process_end-keeps Unwatched r u (record { reporter = u.reporter; watchdog = refl })
happen-Unwatched shut_down r up u = cc up

stays-Unwatched :
    (events : List Event) (r : Running)
    → All (λ e. is_up e ≡ true) events
    → Unwatched r
    → Unwatched (happen_all events r)
unfolding happen_all
stays-Unwatched [] r up u = u
stays-Unwatched (e ∷ events) r up u =
    stays-Unwatched events (happen e r) up.1 (happen-Unwatched e r up.0 u)

reporter_on : (b : Bool) (t : Tasks) → (start_metrics_reporter b t).reporter ≡ true
unfolding start_metrics_reporter
reporter_on b t = elim (Bool-cases t.reporter) [
  | inl e ↦ rw (start_metrics_reporter, e) refl
  | inr e ↦ rw (start_metrics_reporter, e) refl
]

after_run : (r : Running) → r.has_market_data ≡ true → Unwatched (process_end (process_begin r))
unfolding process_begin process_end
after_run r m =
    let begun = record r { tasks = start_metrics_reporter r.has_backup r.tasks } in
    let ended = record begun {
      tasks = record { reporter = begun.tasks.reporter; watchdog = false };
    } in
    let e : process_end (process_begin r) ≡ ended =
      ap process_end (if_true begun r r.has_market_data m)
      ∙ if_true ended begun r.has_market_data m in
    record {
      reporter = ap (λ t. t.tasks.reporter) e ∙ reporter_on r.has_backup r.tasks;
      watchdog = ap (λ t. t.tasks.watchdog) e;
    }

-- Once a run over the ticks of a market data port has ended, no event but a shutdown lets the
-- watchdog start again: not another run, and not another initialization.
pub processed-unwatched :
    (events : List Event) (r : Running)
    → r.has_market_data ≡ true
    → All (λ e. is_up e ≡ true) events
    → (happen_all (processing ∷ processed ∷ events) r).tasks.watchdog ≡ false
unfolding happen_all happen
processed-unwatched events r m up =
    (stays-Unwatched events (process_end (process_begin r)) up (after_run r m)).watchdog
