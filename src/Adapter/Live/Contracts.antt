-- ===== src/Adapter/Live/Contracts.antt =====
-- `query_all_contracts` (src/infrastructure/ctp_live_connector.py): the wait for the login and the
-- polls for contracts. What the event engine delivered and what the main engine holds are given for
-- each poll before the deadline; the imports and the connection are one outcome.
pub mod Settled
use xiaoy_md.Prelude.{
  ℕ, ◌+◌, Bool, true, false, not, ◌&&◌, List, [], ◌∷◌, Option, none, some, ltb, leb, ◌==◌, length,
  if◌then◌else◌,
}
use xiaoy_md.Text.{Str, is_empty}
use xiaoy_md.Dict.{add, add_each}
use xiaoy_md.Health.Evaluate.{sorted}

-- one poll: the names of the contract events since the last one, and the keys of `me.contracts`
pub record Poll : Type 0 where
  pub events : List Str
  pub contracts : List Str

-- `_on_contract` for each event: an empty name is left out
unfoldable pub on_contracts : List Str → List Str → List Str
on_contracts [] syms = syms
on_contracts (vt ∷ names) syms = on_contracts names (if is_empty vt then syms else add vt syms)

-- the names that a poll sees
unfoldable pub after_poll : Poll → List Str → List Str
after_poll p syms = add_each p.contracts (on_contracts p.events syms)

-- `last_len` (none is -1) and `stable_cycles`
pub record Wait : Type 0 where
  pub last_len : Option ℕ
  pub stable_cycles : ℕ

unfoldable pub initial_wait : Wait
initial_wait = record { last_len = none; stable_cycles = 0 }

unfoldable pub is_same_len : Option ℕ → ℕ → Bool
is_same_len none n = false
is_same_len (some m) n = m == n

-- the length was seen before: one more stable cycle; the loop ends on the fifth
unfoldable pub next_wait : ℕ → Wait → Wait
next_wait cur_len w =
    if is_same_len w.last_len cur_len
    then record w { stable_cycles = w.stable_cycles + 1 }
    else record { last_len = some cur_len; stable_cycles = 0 }

unfoldable pub is_settled : ℕ → Wait → Bool
is_settled cur_len w =
    is_same_len w.last_len cur_len && leb 5 (w.stable_cycles + 1) && ltb 0 cur_len

-- the loop until the deadline: the names, and the polls that were not made
unfoldable pub poll_loop : List Poll → Wait → List Str → List Str × List Poll
poll_loop [] w syms = (syms, [])
poll_loop (p ∷ polls) w syms =
    let syms' = after_poll p syms in
    let rest = poll_loop polls (next_wait (length syms') w) syms' in
    if is_settled (length syms') w then (syms', polls) else rest

-- `query_all_contracts`: whether vn.py connected, the events before the polls, and the polls
unfoldable pub query_all_contracts : Bool → List Str → List Poll → List Str
query_all_contracts false early polls = []
query_all_contracts true early polls =
    sorted (poll_loop polls initial_wait (on_contracts early [])).0
