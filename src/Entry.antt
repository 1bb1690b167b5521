-- ===== src/Entry.antt =====
-- The live process (src/main.py): the connections and the shutdown of `_run`, the seeds of the
-- contract map, and the exit code of `main`. Which calls raise is given.
pub mod Released
pub mod Startup
use xiaoy_md.Prelude.{
  ℕ, Bool, true, false, not, ◌&&◌, List, [], ◌∷◌, ◌++◌, Option, none, some, ◌==◌, if◌then◌else◌,
}
use xiaoy_md.Text.{Str, codes, str_eq, is_empty, split_last, split_first}
use xiaoy_md.Dict.{add}

-- the calls of `_run` from the connections on, in their order
pub data Action : Type 0 where
  connect_adapter connect_publisher start_processing start_rpc read_duration wait_stop : Action
  cancel_processing await_processing stop_rpc disconnect_adapter disconnect_publisher log_stats :
      Action

-- a call whose exception propagates, and one whose exception is suppressed
pub data Call : Type 0 where
  must suppressed : Action → Call

-- the calls before the `try`; the last is the `int` of MD_DURATION_SECONDS
unfoldable pub setup : List Call
setup =
    must connect_adapter
    ∷ must connect_publisher
    ∷ must start_processing
    ∷ must start_rpc
    ∷ must read_duration
    ∷ []

-- the `finally`: only CancelledError is suppressed where the processing is awaited
unfoldable pub teardown : List Call
teardown =
    must cancel_processing
    ∷ must await_processing
    ∷ suppressed stop_rpc
    ∷ must disconnect_adapter
    ∷ must disconnect_publisher
    ∷ suppressed log_stats
    ∷ []

module _ (raises : Action → Bool) where
  -- the calls that were made, and whether all returned
  unfoldable pub run_calls : List Call → List Action × Bool
  run_calls [] = ([], true)
  run_calls (suppressed a ∷ calls) = let (made, returned) = run_calls calls in (a ∷ made, returned)
  run_calls (must a ∷ calls) =
      let (made, returned) = run_calls calls in
      if raises a then (a ∷ [], false) else (a ∷ made, returned)

  -- behind a setup that returned: the wait, and the `finally`
  unfoldable pub behind_setup : List Action × Bool → List Action × Bool
  behind_setup (made, false) = (made, false)
  behind_setup (made, true) =
      let (ended, returned) = run_calls teardown in
      (made ++ wait_stop ∷ ended, returned && not (raises wait_stop))

  -- `_run`, from the connections on; the setup is not under the `try`
  unfoldable pub run_live : List Action × Bool
  run_live = behind_setup (run_calls setup)

-- `_seed_contract_map`: the keys that are put
unfoldable pub seed_contract_map : Option Str → List Str → List Str
seed_contract_map none keys = keys
seed_contract_map (some vt) keys = if is_empty vt then keys else elim (split_last b'.' vt) [
  | none ↦ add vt keys
  | some (base, exchange) ↦ add base (add vt keys)
]

-- the module path of CTP_GATEWAY_CONNECT, with its attribute; none is an error of `rsplit`'s
unfoldable pub connector_path : Str → Option (Str × Str)
connector_path target = elim (split_first b':' target) [
  | some (path, attr) ↦ some (path, attr)
  | none ↦ split_last b'.' target
]

-- the end of `_run`: its return, an interrupt, an error of the start that `main` names, or another
pub data RunEnd : Type 0 where
  returned interrupted startup_error other_error : RunEnd

-- `main`; none is an exception that leaves it
unfoldable pub main : Option Str → RunEnd → Option ℕ
main run_ingest ending =
    if elim run_ingest [ none ↦ false | some s ↦ str_eq s (codes "1") ]
    then elim ending [
      | returned ↦ some 0
      | interrupted ↦ some 130
      | startup_error ↦ some 2
      | other_error ↦ none
    ]
    else some 0
