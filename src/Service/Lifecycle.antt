-- ===== src/Service/Lifecycle.antt =====
-- The start and the end of `MarketDataService` (src/application/services.py): `initialize`,
-- `_start_metrics_reporter`, `shutdown`, and the frame of `process_market_data` with its watchdog. A
-- task runs until it is cancelled; what the ports answer is part of each event.
pub mod Watched
use xiaoy_md.Prelude.{
  ℕ, Bool, true, false, not, ◌&&◌, List, [], ◌∷◌, Option, none, some, if◌then◌else◌,
}
use xiaoy_md.Domain.{MarketDataSubscription}
use xiaoy_md.Service.State.{Service, enter}

-- `_metrics_task` and `_watchdog_task`, where they are not None
pub record Tasks : Type 0 where
  pub reporter : Bool
  pub watchdog : Bool

-- the service with its tasks; whether its settings have a backup profile never changes
pub record Running : Type 0 where
  pub service : Service
  pub tasks : Tasks
  pub has_backup : Bool
  pub has_market_data : Bool

unfoldable pub new_running : Service → Bool → Bool → Running
new_running s has_backup has_market_data = record {
  service = s;
  tasks = record { reporter = false; watchdog = false };
  has_backup = has_backup;
  has_market_data = has_market_data;
}

-- the answers of the ports to `initialize`: whether each connection returns, where there is such a
-- port, and the stored subscriptions with their creation times; none is an exception
pub record Answers : Type 0 where
  pub market_data_connects : Bool
  pub publisher_connects : Bool
  pub stored : Option (List (MarketDataSubscription × ℕ))

-- the loop over the stored subscriptions
unfoldable pub load_each : List (MarketDataSubscription × ℕ) → Service → Service
load_each [] s = s
load_each ((sub, created_at) ∷ stored) s = load_each stored (enter sub created_at s)

-- `_start_metrics_reporter`
unfoldable pub start_metrics_reporter : Bool → Tasks → Tasks
start_metrics_reporter has_backup t = if t.reporter then t else record {
  reporter = true;
  watchdog = if has_backup && not t.watchdog then true else t.watchdog;
}

-- the stored subscriptions are loaded, and the tasks started
unfoldable pub load_stored : Option (List (MarketDataSubscription × ℕ)) → Running → Bool × Running
load_stored none r = (false, r)
load_stored (some stored) r = (
  true,
  record r {
    service = load_each stored r.service;
    tasks = start_metrics_reporter r.has_backup r.tasks;
  },
)

-- `initialize`: whether it returns
unfoldable pub initialize : Answers → Running → Bool × Running
unfolding load_stored
initialize a r =
    if a.market_data_connects && a.publisher_connects then load_stored a.stored r else (false, r)

-- `process_market_data` up to its first tick
unfoldable pub process_begin : Running → Running
unfolding start_metrics_reporter
process_begin r =
    if r.has_market_data
    then record r { tasks = start_metrics_reporter r.has_backup r.tasks }
    else r

-- its `finally`
unfoldable pub process_end : Running → Running
process_end r =
    if r.has_market_data
    then record r { tasks = record { reporter = r.tasks.reporter; watchdog = false } }
    else r

-- `shutdown`, up to the ports
unfoldable pub shutdown : Running → Running
shutdown r = record r { tasks = record { reporter = false; watchdog = r.tasks.watchdog } }

pub data Event : Type 0 where
  initialized : Answers → Event
  processing processed shut_down : Event

unfoldable pub happen : Event → Running → Running
unfolding initialize process_begin process_end shutdown
happen (initialized a) r = (initialize a r).1
happen processing r = process_begin r
happen processed r = process_end r
happen shut_down r = shutdown r

unfoldable pub happen_all : List Event → Running → Running
unfolding happen
happen_all [] r = r
happen_all (e ∷ events) r = happen_all events (happen e r)
