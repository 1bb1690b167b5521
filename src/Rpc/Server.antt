-- ===== src/Rpc/Server.antt =====
-- The life of the RPC server and its list of contracts (src/infrastructure/rpc_nats.py): `start`,
-- `stop` and `_handle_contracts_list`. Times are whole milliseconds.
use xiaoy_md.Prelude.{
  ℕ, ◌≡◌, refl, ap, ◌∙◌, Bool, true, false, List, [], ◌∷◌, ◌++◌, Option, none, some, min, max,
  if◌then◌else◌,
}
use xiaoy_md.Text.{Str, codes}
use xiaoy_md.Health.Evaluate.{sorted}

-- whether `_nc` is set, and the subjects with a listener
pub record Server : Type 0 where
  pub has_client : Bool
  pub subscriptions : List Str

unfoldable pub initial_server : Server
initial_server = record { has_client = false; subscriptions = [] }

-- CONTRACTS_LIST_SUBJECT, SUBSCRIBE_BULK_SUBJECT and SUBSCRIPTIONS_ACTIVE_SUBJECT
unfoldable pub subjects : List Str
subjects =
    codes "md.contracts.list" ∷ codes "md.subscribe.bulk" ∷ codes "md.subscriptions.active" ∷ []

-- the listeners, one after the other, until NATS refuses one; whether all stand
unfoldable pub listen : (Str → Bool) → List Str → List Str → Bool × List Str
listen accepts [] subscriptions = (true, subscriptions)
listen accepts (subject ∷ rest) subscriptions =
    if accepts subject
    then listen accepts rest (subscriptions ++ subject ∷ [])
    else (false, subscriptions)

-- `start`, given whether NATS connects and which listeners it accepts; whether it returns
unfoldable pub start_server : Bool → (Str → Bool) → Server → Bool × Server
start_server connects accepts s =
    let (done, subscriptions) = listen accepts subjects s.subscriptions in
    if s.has_client
    then (true, s)
    else if connects
    then (done, record { has_client = true; subscriptions = subscriptions })
    else (false, record s { has_client = true })

-- `stop`, whatever raises on its way
unfoldable pub stop_server : Server → Server
stop_server s = if s.has_client then record { has_client = false; subscriptions = [] } else s

-- a start that may raise, over and over
unfoldable pub start_all : List (Bool × (Str → Bool)) → Server → Server
start_all [] s = s
start_all ((connects, accepts) ∷ rest) s = start_all rest (start_server connects accepts s).1

-- where the contracts come from
pub data Source : Type 0 where
  cached live_query nothing_known : Source

-- the timeout of the request, clamped to 0.5 .. 15 seconds; 3 seconds where none parses
unfoldable pub timeout_of : Option ℕ → ℕ
timeout_of none = 3000
timeout_of (some t) = min (max t 500) 15000

-- `_handle_contracts_list`: the adapter's contracts, the requested timeout, and the live query,
-- which is none where it is not available or raises; also the contracts that the adapter is told
unfoldable pub handle_contracts_list :
    List Str → Option ℕ → (ℕ → Option (List Str)) → List Str × Source × Option (List Str)
handle_contracts_list contracts requested query = elim (sorted contracts) [
  | symbol ∷ symbols ↦ (symbol ∷ symbols, cached, none)
  | [] ↦ elim (query (timeout_of requested)) [
    | none ↦ ([], nothing_known, none)
    | some [] ↦ ([], nothing_known, none)
    | some (symbol ∷ symbols) ↦ (sorted (symbol ∷ symbols), live_query, some (symbol ∷ symbols))
  ]
]

start_all-has_client :
    (starts : List (Bool × (Str → Bool))) (s : Server)
    → s.has_client ≡ true
    → start_all starts s ≡ s
unfolding start_all start_server
start_all-has_client [] s h = refl
start_all-has_client ((connects, accepts) ∷ rest) s h =
    ap (λ t. start_all rest t) (kept s h) ∙ start_all-has_client rest s h
  where
    kept : (t : Server) → t.has_client ≡ true → (start_server connects accepts t).1 ≡ t
    kept t e = rw (start_server, e) refl

-- After a start whose connection failed, the server has no listener however often it is started
-- again, also when NATS connects and accepts all: only a stop before lets a start listen.
pub start_all-start_server :
    (accepts : Str → Bool) (starts : List (Bool × (Str → Bool)))
    → ((start_all starts (start_server false accepts initial_server).1).subscriptions ≡ [])
      × ((start_server true
            (λ subject. true)
            (stop_server
              (start_all starts (start_server false accepts initial_server).1))).1.subscriptions
          ≡ subjects)
unfolding start_server initial_server stop_server listen subjects
start_all-start_server accepts starts =
    rw (start_all-has_client starts (start_server false accepts initial_server).1 refl) (refl, refl)
