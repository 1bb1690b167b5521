-- ===== src/Adapter/Live/Session/Once.antt =====
-- What the connector's sessions hand to vn.py (src/infrastructure/ctp_live_connector.py).
use xiaoy_md.Prelude.{
  ◌≡◌, refl, ap, sym, ◌∙◌, Bool, true, false, List, [], ◌∷◌, ◌++◌, Option, none, some, append-nil,
  append_assoc, Bool-cases, inl, inr,
}
use xiaoy_md.Text.{Str, strip}
use xiaoy_md.Dict.{mem}
use xiaoy_md.Dict.Sets.{Unique, Unique-append_one}
use xiaoy_md.Adapter.Live.{Live, is_vt, enqueue, request_subscribe}
use xiaoy_md.Adapter.Live.Session.{
  Vnpy, Outcome, Turn, Session, State, request_each, try_one, drain, drain_queue, seed_one,
  subscribe_symbol_env, turn, idle, live_gateway_connect, sessions,
}

abbrev pub names : List (Str × Outcome) → List Str
names [] = []
names ((vt, outcome) ∷ tried) = vt ∷ names tried

names-append : (a b : List (Str × Outcome)) → names (a ++ b) ≡ names a ++ names b
names-append [] b = refl
names-append ((vt, outcome) ∷ a) b = ap (λ t. vt ∷ t) (names-append a b)

-- all names that were ever asked for were tried, once and in their order, or wait in the queue
pub record Holds (tried : List Str) (live : Live) : Type 0 where
  pub seen : live.seen ≡ tried ++ live.queue
  pub once : Unique live.seen

enqueue-Holds :
    (vt : Str) (tried : List Str) (live : Live) → Holds tried live → Holds tried (enqueue vt live)
unfolding enqueue
enqueue-Holds vt tried live h = elim (Bool-cases (is_vt vt)) [
  | inr plain ↦ rw (plain, enqueue) h
  | inl fine ↦ elim (Bool-cases (mem vt live.seen)) [
    | inl known ↦ rw (fine, enqueue) (rw known h)
    | inr fresh ↦
        rw (fine, enqueue)
          (rw fresh (record {
            seen = ap (λ t. t ++ vt ∷ []) h.seen ∙ append_assoc tried live.queue (vt ∷ []);
            once = Unique-append_one live.seen vt h.once fresh;
          }))
  ]
]

request_each-Holds :
    (asked tried : List Str) (live : Live)
    → Holds tried live
    → Holds tried (request_each asked live)
unfolding request_each request_subscribe
request_each-Holds [] tried live h = h
request_each-Holds (vt ∷ asked) tried live h =
    request_each-Holds asked tried (request_subscribe vt live)
      (enqueue-Holds (strip vt) tried live h)

module _ {W : Type 0} (vnpy : Vnpy W) where
  names-drain : (queue : List Str) (w : W) → names (drain vnpy queue w).0 ≡ queue
  unfolding drain
  names-drain [] w = refl
  names-drain (vt ∷ queue) w = ap (λ t. vt ∷ t) (names-drain queue (try_one vnpy vt w).1)

  abbrev pub Sound : State W → Type 0
  Sound s = Holds (names s.tried) s.live

  drain_queue-Sound : (ready : Bool) (s : State W) → Sound s → Sound (drain_queue vnpy ready s)
  unfolding drain_queue
  drain_queue-Sound false s h = h
  drain_queue-Sound true s h = record {
    seen =
        h.seen
        ∙ ap (λ t. names s.tried ++ t) (sym (names-drain s.live.queue s.world))
        ∙ sym (names-append s.tried (drain vnpy s.live.queue s.world).0)
        ∙ sym (append-nil (names (s.tried ++ (drain vnpy s.live.queue s.world).0)));
    once = h.once;
  }

  subscribe_symbol_env-Sound :
      (seed : Option Str) (s : State W) → Sound s → Sound (subscribe_symbol_env vnpy seed s)
  unfolding subscribe_symbol_env seed_one
  subscribe_symbol_env-Sound none s h = h
  subscribe_symbol_env-Sound (some vt) s h = elim (Bool-cases (is_vt vt)) [
    | inl fine ↦ rw (subscribe_symbol_env, fine) h
    | inr plain ↦ rw (subscribe_symbol_env, plain) h
  ]

  idle-Sound : (turns : List Turn) (s : State W) → Sound s → Sound (idle vnpy turns s)
  unfolding idle turn
  idle-Sound [] s h = h
  idle-Sound (t ∷ turns) s h =
      let asked = record s { live = request_each t.asked s.live } in
      idle-Sound turns (drain_queue vnpy t.importable asked)
        (drain_queue-Sound t.importable asked (request_each-Holds t.asked (names s.tried) s.live h))

  -- Over all sessions of the process, whatever vn.py does: the names that were handed to vn.py from
  -- the queue, with those that still wait in it, are exactly the names that were ever accepted, in
  -- the order in which they were asked for, and no name is among them twice. So a name whose
  -- subscribe calls raised, or that a session before had subscribed, is not tried again.
  pub sessions-Sound : (more : List Session) (s : State W) → Sound s → Sound (sessions vnpy more s)
  unfolding sessions live_gateway_connect
  sessions-Sound [] s h = h
  sessions-Sound (session ∷ more) s h = sessions-Sound more (live_gateway_connect vnpy session s) (
      idle-Sound session.turns (subscribe_symbol_env vnpy session.seed s)
        (subscribe_symbol_env-Sound session.seed s h))
