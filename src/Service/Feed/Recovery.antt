-- ===== src/Service/Feed/Recovery.antt =====
-- What the watchdog reaches, and what it does not leave (src/application/services.py).
use xiaoy_md.Prelude.{
  ℕ, ◌≡◌, refl, ap, ◌∙◌, inl, inr, Bool, true, false, List, [], ◌∷◌, ◌++◌, Option, none, some, All,
  All-append, Bool-cases, List-cases, arith, ◌||◌,
}
use xiaoy_md.Text.{codes, str_eq, str_eq_iff}
use xiaoy_md.Service.Feed.{
  Feed, Settings, TickEvent, Publication, no_publisher, published_at, publish_raised, process_tick,
  after_publication, after_saving, record_error,
}
use xiaoy_md.Service.Feed.Failover.{
  target_of, handle_feed_stall, is_stalled, wake, Happening, tick, wakes, happen,
}

-- a round of the watchdog
abbrev pub Round : Type 0
Round = ℕ × ℕ × Option (Settings → Bool)

-- rounds without a tick between them
abbrev pub rounds : List Round → List Happening
rounds [] = []
rounds ((now, later, adapter) ∷ rest) = wakes now later adapter ∷ rounds rest

is_stalled-seen : (now : ℕ) (f : Feed) → f.have_seen_live_tick ≡ false → is_stalled now f ≡ false
unfolding is_stalled
is_stalled-seen now f h = elim (List-cases f.service.subscriptions) [
  | inl e ↦ rw (is_stalled, e) refl
  | inr e ↦ rw (is_stalled, e.2, h) refl
]

wake_idle :
    (now later : ℕ) (adapter : Option (Settings → Bool)) (f : Feed)
    → is_stalled now f ≡ false
    → wake now later adapter f ≡ ([], f)
unfolding wake
wake_idle now later adapter f h = rw (wake, h) refl

-- a round, and then the rest
then_happen : List Happening → List Settings × Feed → List Settings × Feed
then_happen rest r = (r.0 ++ (happen rest r.1).0, (happen rest r.1).1)

rounds-silent :
    (rs : List Round) (f : Feed) → f.have_seen_live_tick ≡ false → happen (rounds rs) f ≡ ([], f)
unfolding happen then_happen
rounds-silent [] f h = refl
rounds-silent ((now, later, adapter) ∷ rest) f h =
    ap (then_happen (rounds rest)) (wake_idle now later adapter f (is_stalled-seen now f h))
    ∙ rounds-silent rest f h

pub target_of-backup :
    (s : Settings) → s.has_backup_profile ≡ true → (target_of s).route_selector ≡ codes "backup"
unfolding target_of
target_of-backup s h = ground (arith, str_eq_iff s.route_selector (codes "backup"))

-- the state after a reconnect
abbrev recovered : ℕ → Settings → Feed → Feed
recovered later s f = record f {
  settings = some s;
  last_tick_seen_at = some later;
  have_seen_live_tick = false;
}

wake_success :
    (now later : ℕ) (reconnect : Settings → Bool) (s : Settings) (f : Feed)
    → is_stalled now f ≡ true
    → f.settings ≡ some s
    → reconnect (target_of s) ≡ true
    → wake now later (some reconnect) f ≡ (target_of s ∷ [], recovered later (target_of s) f)
unfolding wake handle_feed_stall
wake_success now later reconnect s f stalled known success =
    rw (wake, handle_feed_stall, stalled, known, success) refl

target_of-route :
    (s : Settings)
    → str_eq (target_of s).route_selector (codes "backup")
      ≡ (s.has_backup_profile || str_eq s.route_selector (codes "backup"))
unfolding target_of str_eq
target_of-route s = ground arith

-- When the feed has stalled, and the adapter reconnects with the settings that the watchdog asks
-- for, and replays, a round and whatever rounds follow without a tick make that one call. At the
-- end the state is the one before, but for these settings, the time of the reconnect as the last
-- tick seen, and a live tick that is not seen; so the watchdog waits for a live tick, also when
-- the new session never delivers one. The settings are on the backup route exactly when there is a
-- backup profile or they were on it before.
pub wake-recovers :
    (now later : ℕ) (reconnect : Settings → Bool) (s : Settings) (rs : List Round) (f : Feed)
    → is_stalled now f ≡ true
    → f.settings ≡ some s
    → reconnect (target_of s) ≡ true
    → (happen (wakes now later (some reconnect) ∷ rounds rs) f ≡ (
      target_of s ∷ [],
      record f {
        settings = some (target_of s);
        last_tick_seen_at = some later;
        have_seen_live_tick = false;
      },
    ))
      × (str_eq (target_of s).route_selector (codes "backup")
          ≡ (s.has_backup_profile || str_eq s.route_selector (codes "backup")))
unfolding happen then_happen
wake-recovers now later reconnect s rs f stalled known success =
    let reached = target_of s in
    (
      ap (then_happen (rounds rs)) (wake_success now later reconnect s f stalled known success)
          ∙ ap (λ r. (reached ∷ r.0, r.1)) (rounds-silent rs (recovered later reached f) refl),
      target_of-route s,
    )

-- every call asks for these settings, and they are the ones at the end
pub record Holds (s : Settings) (result : List Settings × Feed) : Type 0 where
  pub calls : All (λ t. t ≡ s) result.0
  pub settings : result.1.settings ≡ some s

after_publication-settings :
    (p : Publication) (f : Feed) → (after_publication p f).settings ≡ f.settings
unfolding after_publication record_error
after_publication-settings no_publisher f = refl
after_publication-settings (published_at at) f = refl
after_publication-settings publish_raised f = refl

after_saving-settings : (o : Option Bool) (f : Feed) → (after_saving o f).settings ≡ f.settings
unfolding after_saving record_error
after_saving-settings none f = refl
after_saving-settings (some true) f = refl
after_saving-settings (some false) f = refl

target_of-same : (s : Settings) → str_eq s.route_selector (codes "backup") ≡ true → target_of s ≡ s
unfolding target_of
target_of-same s h = ground (arith, h)

handle_feed_stall-Holds :
    (later : ℕ) (adapter : Option (Settings → Bool)) (s : Settings) (f : Feed)
    → str_eq s.route_selector (codes "backup") ≡ true
    → f.settings ≡ some s
    → Holds s (handle_feed_stall later adapter f)
unfolding handle_feed_stall
handle_feed_stall-Holds later none s f route h = record { calls = tt; settings = h }
handle_feed_stall-Holds later (some reconnect) s f route h =
    rw (handle_feed_stall, h, target_of-same s route)
      record {
        calls = (refl, tt);
        settings = elim (Bool-cases (reconnect s)) [ inl e ↦ rw e refl | inr e ↦ rw e h ];
      }

wake-Holds :
    (now later : ℕ) (adapter : Option (Settings → Bool)) (s : Settings) (f : Feed)
    → str_eq s.route_selector (codes "backup") ≡ true
    → f.settings ≡ some s
    → Holds s (wake now later adapter f)
unfolding wake
wake-Holds now later adapter s f route h = elim (Bool-cases (is_stalled now f)) [
  | inl e ↦ rw (wake, e) (handle_feed_stall-Holds later adapter s f route h)
  | inr e ↦ rw (wake, e) record { calls = tt; settings = h }
]

process_tick-settings : (t : TickEvent) (f : Feed) → (process_tick t f).settings ≡ f.settings
unfolding process_tick
process_tick-settings t f =
    after_saving-settings t.saved (after_publication t.publication _)
    ∙ after_publication-settings t.publication _

-- Once the settings are on the backup route, they stay as they are, whatever ticks arrive and
-- whatever the adapter does in the rounds of the watchdog: every reconnect asks for them.
pub happen-Holds :
    (rest : List Happening) (s : Settings) (f : Feed)
    → str_eq s.route_selector (codes "backup") ≡ true
    → f.settings ≡ some s
    → Holds s (happen rest f)
unfolding happen
happen-Holds [] s f route h = record { calls = tt; settings = h }
happen-Holds (tick t ∷ rest) s f route h =
    happen-Holds rest s (process_tick t f) route (process_tick-settings t f ∙ h)
happen-Holds (wakes now later adapter ∷ rest) s f route h =
    let w = wake-Holds now later adapter s f route h in
    let r = happen-Holds rest s (wake now later adapter f).1 route w.settings in
    record {
      calls =
          All-append (λ t. t ≡ s) (wake now later adapter f).0
            (happen rest (wake now later adapter f).1).0 w.calls r.calls;
      settings = r.settings;
    }
