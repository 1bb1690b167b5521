-- ===== src/Entry/Released.antt =====
-- What the live process disconnects (src/main.py).
use xiaoy_md.Prelude.{◌≡◌, Bool, true, false, not, ◌&&◌, ◌||◌, List, [], ◌∷◌, arith}
use xiaoy_md.Entry.{
  Action, connect_adapter, connect_publisher, start_processing, start_rpc, read_duration,
  cancel_processing, await_processing, wait_stop, stop_rpc, disconnect_adapter,
  disconnect_publisher, setup, teardown, run_calls, behind_setup, run_live,
}

abbrev pub is_adapter_end : Action → Bool
is_adapter_end disconnect_adapter = true
is_adapter_end _ = false

abbrev pub is_publisher_end : Action → Bool
is_publisher_end disconnect_publisher = true
is_publisher_end _ = false

abbrev pub is_listener_end : Action → Bool
is_listener_end stop_rpc = true
is_listener_end _ = false

abbrev pub any : (Action → Bool) → List Action → Bool
any p [] = false
any p (a ∷ actions) = p a || any p actions

-- the calls of the setup and of the shutdown before the disconnects return
abbrev pub reaches_end : (Action → Bool) → Bool
reaches_end raises =
    not (raises connect_adapter)
    && not (raises connect_publisher)
    && not (raises start_processing)
    && not (raises start_rpc)
    && not (raises read_duration)
    && not (raises cancel_processing)
    && not (raises await_processing)

-- Whichever of the calls from the connections on raise, the listeners are stopped and the adapter is
-- disconnected exactly when the connections, the start of the processing and of the listeners, the
-- reading of the duration, the cancelling of the processing and the wait for it all return, however
-- the wait for the stop and the stop of the listeners end; the publisher is disconnected exactly
-- when, besides, the disconnect of the adapter returns; and the run returns exactly when, besides,
-- the disconnect of the publisher and the wait for the stop return.
pub run_live-released :
    (raises : Action → Bool)
    → (any is_adapter_end (run_live raises).0 ≡ reaches_end raises)
      × (any is_publisher_end (run_live raises).0
          ≡ (reaches_end raises && not (raises disconnect_adapter)))
      × (any is_listener_end (run_live raises).0 ≡ reaches_end raises)
      × ((run_live raises).1 ≡ (
          reaches_end raises
          && not (raises disconnect_adapter)
          && not (raises disconnect_publisher)
          && not (raises wait_stop)))
unfolding run_live behind_setup run_calls setup teardown
run_live-released raises = (ground arith, ground arith, ground arith, ground arith)
