-- ===== src/Service/Feed/Failover.antt =====
-- `_failover_watchdog` and `_handle_feed_stall` of `MarketDataService`
-- (src/application/services.py). The adapter is a test of a reconnect and the replay after it,
-- which answers false where one of them raises.
use xiaoy_md.Prelude.{
  ℕ, ◌+◌, Bool, false, not, ◌&&◌, List, [], ◌∷◌, ◌++◌, Option, none, some, leb, if◌then◌else◌,
}
use xiaoy_md.Text.{codes, str_eq}
use xiaoy_md.Service.Feed.{Feed, Settings, TickEvent, process_tick}

-- the settings to reconnect with
unfoldable pub target_of : Settings → Settings
target_of s =
    if s.has_backup_profile && not (str_eq s.route_selector (codes "backup"))
    then record s { route_selector = codes "backup" }
    else s

-- the calls of the adapter, and the state afterwards; the adapter is none when there is no port
-- that can reconnect. The reconnect and the replay of the subscriptions are one step here: the ticks
-- that arrive while the code awaits them come before it or behind it
unfoldable pub handle_feed_stall : ℕ → Option (Settings → Bool) → Feed → List Settings × Feed
unfolding target_of
handle_feed_stall now none f = ([], f)
handle_feed_stall now (some reconnect) f = elim f.settings [
  | none ↦ ([], f)
  | some settings ↦
      let target = target_of settings in
      (
        target ∷ [],
        if reconnect target
            then record f {
              settings = some target;
              last_tick_seen_at = some now;
              have_seen_live_tick = false;
            }
            else f,
      )
]

-- the feed has stalled at a time, for the watchdog: `age >= threshold`, past its other tests
unfoldable pub is_stalled : ℕ → Feed → Bool
is_stalled now f = elim f.service.subscriptions [
  | [] ↦ false
  | sub ∷ subs ↦ f.have_seen_live_tick && elim f.last_tick_seen_at [
    | none ↦ false
    | some last_seen ↦ leb (last_seen + f.failover_threshold) now
  ]
]

-- one round of the watchdog, which wakes at a time; the second time is the clock after the replay
unfoldable pub wake : ℕ → ℕ → Option (Settings → Bool) → Feed → List Settings × Feed
unfolding is_stalled handle_feed_stall
wake now later adapter f = if is_stalled now f then handle_feed_stall later adapter f else ([], f)

-- what happens to the service: a tick, or a round of the watchdog
pub data Happening : Type 0 where
  tick : TickEvent → Happening
  wakes : ℕ → ℕ → Option (Settings → Bool) → Happening

-- the calls of the adapter, and the state afterwards
unfoldable pub happen : List Happening → Feed → List Settings × Feed
unfolding wake process_tick
happen [] f = ([], f)
happen (tick t ∷ rest) f = happen rest (process_tick t f)
happen (wakes now later adapter ∷ rest) f =
    let (calls, f') = wake now later adapter f in
    let (more, end) = happen rest f' in (calls ++ more, end)
