-- ===== src/Adapter/Live/Session.antt =====
-- A session of the live connector behind the connection (src/infrastructure/ctp_live_connector.py):
-- `_subscribe_symbol_env`, `_drain_subscribe_queue` and the idle loop of `live_gateway_connect`.
-- vn.py answers each subscribe call, or raises.
pub mod Once
use xiaoy_md.Prelude.{
  ℕ, Bool, true, false, ◌&&◌, not, List, [], ◌∷◌, ◌++◌, Option, none, some, if◌then◌else◌,
}
use xiaoy_md.Text.{Str, is_empty, has_char, split_first}
use xiaoy_md.Adapter.Live.{Live, is_vt, SubscribeRequest, request_subscribe}

-- the two calls of vn.py: whether they return, and the world behind them
pub record Vnpy (W : Type 0) : Type 0 where
  pub main_subscribe : SubscribeRequest → W → Bool × W
  pub gateway_subscribe : SubscribeRequest → W → Bool × W

pub data Outcome : Type 0 where
  subscribed subscribed_gw subscribe_failed request_invalid : Outcome

-- what the adapter asks for before a turn of the loop, and whether vn.py's objects can be imported
pub record Turn : Type 0 where
  pub asked : List Str
  pub importable : Bool

-- the environment's symbol, and the turns until the shutdown
pub record Session : Type 0 where
  pub seed : Option Str
  pub turns : List Turn

-- what was tried so far, and the queue between the threads
pub record State (W : Type 0) : Type 0 where
  pub live : Live
  pub seeded : List (Str × Outcome)
  pub tried : List (Str × Outcome)
  pub world : W

-- `request_subscribe` for each name
unfoldable pub request_each : List Str → Live → Live
request_each [] live = live
request_each (vt ∷ asked) live = request_each asked (request_subscribe vt live)

-- the fallback of a call that raised
unfoldable pub fallback_outcome : Bool → Outcome
fallback_outcome true = subscribed_gw
fallback_outcome false = subscribe_failed

module _ {W : Type 0} (vnpy : Vnpy W) where
  -- `me.subscribe`, or `gw.subscribe` where it raises
  unfoldable pub subscribe_one : SubscribeRequest → W → Outcome × W
  unfolding fallback_outcome
  subscribe_one request world =
      let (returned, world') = vnpy.main_subscribe request world in
      let (fell_back, world'') = vnpy.gateway_subscribe request world' in
      if returned then (subscribed, world') else (fallback_outcome fell_back, world'')

  -- one name: split at its first dot
  unfoldable pub try_one : Str → W → Outcome × W
  unfolding subscribe_one
  try_one vt world = elim (split_first b'.' vt) [
    | none ↦ (request_invalid, world)
    | some (symbol, exchange) ↦
        subscribe_one (record { symbol = symbol; exchange = exchange }) world
  ]

  -- the loop over the queue
  unfoldable pub drain : List Str → W → List (Str × Outcome) × W
  unfolding try_one
  drain [] world = ([], world)
  drain (vt ∷ queue) world =
      let (outcome, world') = try_one vt world in
      let (tried, world'') = drain queue world' in ((vt, outcome) ∷ tried, world'')

  -- `_drain_subscribe_queue`
  unfoldable pub drain_queue : Bool → State W → State W
  unfolding drain
  drain_queue false s = s
  drain_queue true s =
      let (tried, world) = drain s.live.queue s.world in
      record s {
        live = record { seen = s.live.seen; queue = [] };
        tried = s.tried ++ tried;
        world = world;
      }

  unfoldable pub seed_one : Str → State W → State W
  unfolding try_one
  seed_one vt s =
      let (outcome, world) = try_one vt s.world in
      record s { seeded = s.seeded ++ (vt, outcome) ∷ []; world = world }

  -- `_subscribe_symbol_env`
  unfoldable pub subscribe_symbol_env : Option Str → State W → State W
  unfolding seed_one
  subscribe_symbol_env none s = s
  subscribe_symbol_env (some vt) s = if is_vt vt then seed_one vt s else s

  -- a turn of the idle loop, behind what the adapter's thread asked for
  unfoldable pub turn : Turn → State W → State W
  unfolding drain_queue request_each
  turn t s = drain_queue t.importable (record s { live = request_each t.asked s.live })

  unfoldable pub idle : List Turn → State W → State W
  unfolding turn
  idle [] s = s
  idle (t ∷ turns) s = idle turns (turn t s)

  -- `live_gateway_connect` behind `_attach_forwarders`, session after session
  unfoldable pub live_gateway_connect : Session → State W → State W
  unfolding idle subscribe_symbol_env
  live_gateway_connect session s = idle session.turns (subscribe_symbol_env session.seed s)

  unfoldable pub sessions : List Session → State W → State W
  unfolding live_gateway_connect
  sessions [] s = s
  sessions (session ∷ more) s = sessions more (live_gateway_connect session s)
