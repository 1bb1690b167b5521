-- ===== src/Adapter/Live.antt =====
-- The queue between the adapter and the live connector: `request_subscribe` and
-- `_drain_subscribe_queue` (src/infrastructure/ctp_live_connector.py), and the adapter's
-- `_subscribe_live_hook` (src/infrastructure/ctp_adapter.py). vn.py is not modelled: a subscribe
-- request counts as handed over when it has been built.
pub mod Requests
pub mod Session
pub mod Contracts
use xiaoy_md.Prelude.{
  ℕ, Bool, true, false, ◌&&◌, ◌||◌, not, List, [], ◌∷◌, ◌++◌, none, some, ◌==◌, if◌then◌else◌,
}
use xiaoy_md.Text.{Str, is_empty, has_char, strip, split_first}
use xiaoy_md.Dict.{mem}

-- `_SEEN_SUBS` and `_SUBSCRIBE_QUEUE`
pub record Live : Type 0 where
  pub seen : List Str
  pub queue : List Str

-- a text that names an exchange
abbrev pub is_vt : Str → Bool
is_vt vt = not (is_empty vt) && has_char b'.' vt

-- the body of `request_subscribe` behind `strip`
unfoldable pub enqueue : Str → Live → Live
enqueue vt live =
    if is_vt vt
    then if mem vt live.seen
      then live
      else record { seen = live.seen ++ vt ∷ []; queue = live.queue ++ vt ∷ [] }
    else live

unfoldable pub request_subscribe : Str → Live → Live
request_subscribe vt_symbol live = enqueue (strip vt_symbol) live

-- `.strip(".")`
unfoldable pub lstrip_dots : Str → Str
lstrip_dots [] = []
lstrip_dots (c ∷ s) = if c == b'.' then lstrip_dots s else c ∷ s

unfoldable pub rstrip_dots : Str → Str
rstrip_dots [] = []
rstrip_dots (c ∷ s) = let r = rstrip_dots s in if is_empty r && c == b'.' then [] else c ∷ r

-- the name that the hook asks for
unfoldable pub live_symbol : Str → Str → Str
live_symbol symbol exchange = rstrip_dots (lstrip_dots (strip symbol ++ b'.' ∷ strip exchange))

-- `_subscribe_live_hook`
unfoldable pub subscribe_live_hook : Str → Str → Live → Live
subscribe_live_hook symbol exchange live =
    let vt = live_symbol symbol exchange in if is_vt vt then request_subscribe vt live else live

-- A `SubscribeRequest`.
pub record SubscribeRequest : Type 0 where
  pub symbol : Str
  pub exchange : Str

-- one entry of the queue; an entry without a dot is logged and dropped
unfoldable pub to_request : Str → List SubscribeRequest
to_request vt = elim (split_first b'.' vt) [
  | none ↦ []
  | some (symbol, exchange) ↦ record { symbol = symbol; exchange = exchange } ∷ []
]

unfoldable pub to_requests : List Str → List SubscribeRequest
to_requests [] = []
to_requests (vt ∷ queue) = to_request vt ++ to_requests queue

-- `_drain_subscribe_queue`: the requests made, in order. Without vn.py the queue stays.
unfoldable pub drain_subscribe_queue : Bool → Live → List SubscribeRequest × Live
drain_subscribe_queue true live = (to_requests live.queue, record { seen = live.seen; queue = [] })
drain_subscribe_queue false live = ([], live)
