-- ===== src/Console/State.antt =====
-- `OperationsStatusState` (src/application/ops_console.py): the stored status with its bounded
-- history and caches.
pub mod Trim
pub mod Recent
use xiaoy_md.Prelude.{
  ℕ, ◌-◌, List, [], ◌∷◌, ◌++◌, Option, none, some, ℤ, ltb, length, drop, if◌then◌else◌,
}
use xiaoy_md.Text.{Str, codes}
use xiaoy_md.Dict.{Dict, lookup, insert, keys}
use xiaoy_md.Console.Records.{health_check, value, RunbookExecution}
use xiaoy_md.Console.Reports.{HealthSnapshot}

abbrev pub runbook_history_limit : ℕ
runbook_history_limit = 40

abbrev pub health_history_limit : ℕ
health_history_limit = 20

-- `xs[-n:]` of a list longer than n
unfoldable pub last_items {ℓ} : {A : Type ℓ} → ℕ → List A → List A
last_items n xs = drop (length xs - n) xs

-- `{key: d[key] for key in ks}`, for keys of d that differ
unfoldable pub pick : {V : Type 0} → List Str → Dict V → Dict V
unfolding lookup
pick [] d = []
pick (k ∷ ks) d = elim (lookup k d) [ none ↦ pick ks d | some v ↦ (k, v) ∷ pick ks d ]

-- an item is set, and the dictionary is cut to the last n keys when it holds more
unfoldable pub cache : {V : Type 0} → ℕ → Str → V → Dict V → Dict V
unfolding insert last_items pick
cache n k v d =
    let d' = insert k v d in if ltb n (length d') then pick (last_items n (keys d')) d' else d'

pub record OperationsStatusState (Json : Type 0) : Type 0 where
  pub environment_mode : Str
  pub active_profile : Str
  pub active_window : Str
  pub last_runbook : Option (RunbookExecution Json)
  pub runbook_history : List (RunbookExecution Json)
  pub executions_by_request : Dict (RunbookExecution Json)
  pub health_by_request : Dict HealthSnapshot
  pub last_health : Option HealthSnapshot
  pub last_exit_codes : Dict ℤ
  pub last_updated_at : ℕ

-- what is loaded when the file is missing
unfoldable pub default_state : {Json : Type 0} → ℕ → OperationsStatusState Json
default_state now = record {
  environment_mode = codes "unknown";
  active_profile = codes "primary";
  active_window = codes "day";
  last_runbook = none;
  runbook_history = [];
  executions_by_request = [];
  health_by_request = [];
  last_health = none;
  last_exit_codes = [];
  last_updated_at = now;
}

module _ {Json : Type 0} where
  unfoldable pub append_runbook :
      RunbookExecution Json → OperationsStatusState Json → OperationsStatusState Json
  unfolding last_items
  append_runbook e s =
      let history = s.runbook_history ++ e ∷ [] in
      record s {
        runbook_history =
            if ltb runbook_history_limit (length history)
            then last_items runbook_history_limit history
            else history;
      }

  unfoldable pub cache_runbook :
      ℕ → RunbookExecution Json → OperationsStatusState Json → OperationsStatusState Json
  unfolding cache append_runbook value
  cache_runbook now e s =
      let s' =
        append_runbook e
          (record s { executions_by_request = cache 80 e.request_id e s.executions_by_request }) in
      record s' {
        last_runbook = some e;
        last_exit_codes = insert (value e.command) e.exit_code s'.last_exit_codes;
        last_updated_at = now;
      }

  unfoldable pub cache_health :
      ℕ → HealthSnapshot → OperationsStatusState Json → OperationsStatusState Json
  unfolding cache value
  cache_health now h s = record s {
    health_by_request = cache health_history_limit h.request_id h s.health_by_request;
    last_health = some h;
    last_exit_codes = insert (value health_check) h.exit_code s.last_exit_codes;
    last_updated_at = now;
  }
