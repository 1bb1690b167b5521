-- ===== src/Adapter/Ticks.antt =====
-- The way of a tick through `CTPGatewayAdapter` (src/infrastructure/ctp_adapter.py): `on_tick` on
-- the gateway's thread, the puts that it schedules on the main loop, `receive_ticks`, and the
-- queue's clearing by `disconnect`. The translation of a tick is a parameter.
pub mod Counted
use xiaoy_md.Prelude.{
  ℕ, ◌+◌, Bool, true, false, not, ◌&&◌, List, [], ◌∷◌, ◌++◌, Option, none, some, ltb, length, ◌≡◌,
  if◌then◌else◌,
}

-- The queue, oldest tick first; the puts scheduled and not done; the ticks handed out so far;
-- those cleared; `_dropped_ticks`; and whether the main loop takes work.
pub record Bridge (A : Type 0) : Type 0 where
  pub queue : List A
  pub scheduled : List A
  pub received : List A
  pub cleared : List A
  pub dropped : ℕ
  pub loop_open : Bool

-- `on_tick` for a queue of the given positive size: the translated tick, or `none` where the
-- contract is unknown or the translation raises
unfoldable pub on_tick : {A : Type 0} → ℕ → Option A → Bridge A → Bridge A
on_tick maxsize none b = b
on_tick maxsize (some tick) b =
    if ltb (length b.queue) maxsize
    then if b.loop_open then record b { scheduled = b.scheduled ++ tick ∷ [] } else b
    else record b { dropped = b.dropped + 1 }

-- the ticks for which `on_tick` schedules a put
unfoldable pub admitted : {A : Type 0} → ℕ → Option A → Bridge A → List A
admitted maxsize none b = []
admitted maxsize (some tick) b =
    if ltb (length b.queue) maxsize && b.loop_open then tick ∷ [] else []

-- The steps of the two threads, with the ticks that they admit. A scheduled put waits while the
-- queue is full, and the loop may take the puts in any order.
pub data Step {A : Type 0} (maxsize : ℕ) : List A → Bridge A → Bridge A → Type 0 where
  ticked :
      (tick : Option A) (b : Bridge A)
      → Step maxsize (admitted maxsize tick b) b (on_tick maxsize tick b)
  put :
      (before : List A) (tick : A) (behind : List A) (b : Bridge A)
      → b.scheduled ≡ before ++ tick ∷ behind
      → ltb (length b.queue) maxsize ≡ true
      → Step maxsize [] b (record b { queue = b.queue ++ tick ∷ []; scheduled = before ++ behind })
  got :
      (tick : A) (rest : List A) (b : Bridge A)
      → b.queue ≡ tick ∷ rest
      → Step maxsize [] b (record b { queue = rest; received = b.received ++ tick ∷ [] })
  disconnected :
      (b : Bridge A) → Step maxsize [] b (record b { queue = []; cleared = b.cleared ++ b.queue })
  loop_set :
      (open_now : Bool) (b : Bridge A) → Step maxsize [] b (record b { loop_open = open_now })

abbrev pub no_ticks : {A : Type 0} → Bridge A
no_ticks = record {
  queue = [];
  scheduled = [];
  received = [];
  cleared = [];
  dropped = 0;
  loop_open = false;
}

-- the states that steps lead to, with all ticks admitted so far
pub data Reached {A : Type 0} (maxsize : ℕ) : List A → Bridge A → Type 0 where
  begun : Reached maxsize [] no_ticks
  stepped :
      {ticks more : List A} {b b' : Bridge A}
      → Reached maxsize ticks b
      → Step maxsize more b b'
      → Reached maxsize (ticks ++ more) b'
