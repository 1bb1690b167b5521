-- ===== src/Entry/Startup.antt =====
-- The service process (src/__main__.py): the start and the cleanup of `run_service`. What the calls
-- answer is given; a signal ends the wait.
use xiaoy_md.Prelude.{
  ℕ, ◌+◌, ◌||◌, ◌≡◌, Bool, true, false, ◌&&◌, List, [], ◌∷◌, Option, none, some, arith,
  if◌then◌else◌,
}
use xiaoy_md.Text.{Str, codes, str_eq, or_else}
use xiaoy_md.FullFeed.Reasons.{lower}

-- a call returns, finds NATS unavailable (NoServersError, TimeoutError, ConnectionClosedError), or
-- raises something else
pub data Ending : Type 0 where
  fine nats_unavailable other_error : Ending

-- what the process meets: the environment variable ENVIRONMENT, the setting, whether the service can
-- be built, and the calls
pub record World : Type 0 where
  pub variable : Option Str
  pub environment : Str
  pub builds : Bool
  pub initializes : Ending
  pub under_test : Bool
  pub rpc_starts : Ending
  pub shuts_down : Bool

-- what is done, in order
pub data Done : Type 0 where
  service_built initialized degraded rpc_started rpc_unavailable waited shut_down rpc_stopped : Done

-- `(os.environ.get("ENVIRONMENT") or settings.environment).lower()`
unfoldable pub effective_env : World → Str
effective_env w =
    lower (elim w.variable [ none ↦ w.environment | some v ↦ or_else v w.environment ])

-- the `finally`: whether it returns
unfoldable pub cleanup : Bool → Bool → World → List Done × Bool
cleanup has_service has_rpc w =
    if has_service
    then if w.shuts_down
      then (shut_down ∷ (if has_rpc then rpc_stopped ∷ [] else []), true)
      else (shut_down ∷ [], false)
    else ([], true)

-- the wait, and the cleanup behind it
unfoldable pub wait_then : Bool → World → List Done × Bool
unfolding cleanup
wait_then has_rpc w = let (done, clean) = cleanup true has_rpc w in (waited ∷ done, clean)

-- an exception, with the cleanup behind it
unfoldable pub fail : Bool → Bool → World → List Done × Bool
unfolding cleanup
fail has_service has_rpc w = ((cleanup has_service has_rpc w).0, false)

-- the RPC listeners, which a test run leaves out
unfoldable pub start_rpc : World → Ending → List Done × Bool
unfolding wait_then fail
start_rpc w fine = let (done, clean) = wait_then true w in (rpc_started ∷ done, clean)
start_rpc w nats_unavailable =
    let (done, clean) = wait_then false w in (rpc_unavailable ∷ done, clean)
start_rpc w other_error = fail true true w

unfoldable pub listen : World → List Done × Bool
unfolding start_rpc wait_then
listen w = if w.under_test then wait_then false w else start_rpc w w.rpc_starts

-- the initialization
unfoldable pub initialize : World → Ending → List Done × Bool
unfolding listen fail effective_env
initialize w fine = let (done, clean) = listen w in (initialized ∷ done, clean)
initialize w nats_unavailable =
    let (done, clean) = listen w in
    if str_eq (effective_env w) (codes "development")
    then (degraded ∷ done, clean)
    else fail true false w
initialize w other_error = fail true false w

-- `run_service`: what it does, and whether it returns
unfoldable pub run_service : World → List Done × Bool
unfolding initialize fail
run_service w =
    let (done, clean) = initialize w w.initializes in
    if w.builds then (service_built ∷ done, clean) else fail false false w

abbrev pub is_shutdown : Done → Bool
is_shutdown shut_down = true
is_shutdown _ = false

abbrev pub count_shutdowns : List Done → ℕ
count_shutdowns [] = 0
count_shutdowns (d ∷ done) =
    let rest = count_shutdowns done in if is_shutdown d then rest + 1 else rest

-- the starts that are gone on with
abbrev pub goes_on : Ending → Bool → Bool
goes_on fine tolerated = true
goes_on nats_unavailable tolerated = tolerated
goes_on other_error tolerated = false

-- A service that was built is shut down once, however its start and its run end, and one that was
-- not built never. The process returns exactly when the service is built, its initialization
-- returns, or finds NATS unavailable in development, the listeners, outside a test run, start or
-- find NATS unavailable, and the shutdown returns.
run_service-shutdown :
    (w : World)
    → (count_shutdowns (run_service w).0 ≡ (if w.builds then 1 else 0))
      × ((run_service w).1 ≡ (
          w.builds
          && goes_on w.initializes (str_eq (effective_env w) (codes "development"))
          && (w.under_test || goes_on w.rpc_starts true)
          && w.shuts_down))
unfolding run_service initialize listen start_rpc wait_then fail cleanup
run_service-shutdown w = (ground arith, ground arith)
