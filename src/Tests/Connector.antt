-- ===== src/Tests/Connector.antt =====
-- The sessions of the live connector and its polls on small inputs.
use xiaoy_md.Prelude.{ℕ, zero, suc, ◌≡◌, refl, Bool, true, false, List, [], ◌∷◌, none}
use xiaoy_md.Text.{Str, codes, str_eq, is_space, lstrip, rstrip, strip, has_char, split_first}
use xiaoy_md.Dict.{mem, add, add_each}
use xiaoy_md.Adapter.Live.{SubscribeRequest, enqueue, request_subscribe}
use xiaoy_md.Adapter.Live.Session.{
  Vnpy, subscribed, subscribe_failed, Session, Turn, State, request_each, fallback_outcome,
  subscribe_one, try_one, drain, drain_queue, seed_one, subscribe_symbol_env, turn, idle,
  live_gateway_connect, sessions,
}
use xiaoy_md.Adapter.Live.Session.Once.{Sound, sessions-Sound}
use xiaoy_md.Adapter.Live.Contracts.{
  Poll, on_contracts, after_poll, initial_wait, is_same_len, next_wait, is_settled, poll_loop,
}
use xiaoy_md.Adapter.Live.Contracts.Settled.{Ended, poll_loop-Ended}

-- vn.py raises on every call but the first
abbrev answer : SubscribeRequest → ℕ → Bool × ℕ
answer request zero = (true, 1)
answer request (suc n) = (false, suc n)

abbrev vnpy : Vnpy ℕ
vnpy = record { main_subscribe = answer; gateway_subscribe = answer }

abbrev fresh : State ℕ
fresh = record { live = record { seen = []; queue = [] }; seeded = []; tried = []; world = 0 }

fresh-Sound : Sound vnpy fresh
fresh-Sound = record { seen = refl; once = tt }

abbrev asking : List Str → Turn
asking names = record { asked = names; importable = true }

abbrev one_session : Session
one_session = record {
  seed = none;
  turns = asking (codes " rb.SHFE" ∷ codes "cu.SHFE" ∷ []) ∷ asking (codes "cu.SHFE" ∷ []) ∷ [];
}

-- the name that vn.py refused is not tried again, also not in the next session
sessions_run :
    (sessions vnpy (one_session ∷ one_session ∷ []) fresh).tried
    ≡ (codes "rb.SHFE", subscribed) ∷ (codes "cu.SHFE", subscribe_failed) ∷ []
unfolding str_eq is_space lstrip rstrip strip has_char split_first mem enqueue request_subscribe
    request_each fallback_outcome subscribe_one try_one drain drain_queue seed_one
    subscribe_symbol_env turn idle live_gateway_connect sessions
sessions_run = refl

sessions-Sound_example : Sound vnpy (sessions vnpy (one_session ∷ one_session ∷ []) fresh)
sessions-Sound_example = sessions-Sound vnpy (one_session ∷ one_session ∷ []) fresh fresh-Sound

abbrev poll : List Str → Poll
poll names = record { events = []; contracts = names }

abbrev rb : Poll
rb = poll (codes "rb.SHFE" ∷ [])

abbrev polls : List Poll
polls = poll [] ∷ rb ∷ rb ∷ rb ∷ rb ∷ rb ∷ rb ∷ rb ∷ rb ∷ []

-- the poll that brings the name and five more
poll_loop_run : poll_loop polls initial_wait [] ≡ (codes "rb.SHFE" ∷ [], rb ∷ rb ∷ [])
unfolding str_eq mem add add_each on_contracts after_poll initial_wait is_same_len next_wait
    is_settled poll_loop
poll_loop_run = refl

poll_loop-Ended_example :
    Ended [] polls (poll_loop polls initial_wait []).0 (poll_loop polls initial_wait []).1
poll_loop-Ended_example = poll_loop-Ended polls []
