-- ===== src/Env.antt =====
-- The check of an environment file (scripts/operations/validate_env.py). The text of the file
-- and the environment of the process are given; `AppSettings.model_validate` is a parameter.
pub mod File
pub mod Quotes
pub mod Lines
pub mod Written
pub mod Issues
use xiaoy_md.Prelude.{
  ℕ, Bool, true, false, not, ◌&&◌, List, [], ◌∷◌, ◌++◌, Option, none, some, ◌==◌, length, drop,
  if◌then◌else◌,
}
use xiaoy_md.Text.{Str, codes, is_empty, strip, split_first}
use xiaoy_md.Dict.{Dict, lookup, insert, add_each}
use xiaoy_md.FullFeed.Reasons.{starts_with}
use xiaoy_md.Env.File.{Source, collect_env}
use xiaoy_md.Health.Evaluate.{sorted}
use xiaoy_md.Config.{
  AppSettings, missing_primary_fields, missing_backup_fields, invalid_endpoint_fields,
  has_backup_profile,
}

-- PRIMARY_KEYS with their ALIAS_FALLBACKS, and BACKUP_KEYS
unfoldable pub primary_fallbacks : Dict Str
primary_fallbacks =
    (codes "CTP_PRIMARY_BROKER_ID", codes "CTP_BROKER_ID")
    ∷ (codes "CTP_PRIMARY_USER_ID", codes "CTP_USER_ID")
    ∷ (codes "CTP_PRIMARY_PASSWORD", codes "CTP_PASSWORD")
    ∷ (codes "CTP_PRIMARY_MD_ADDRESS", codes "CTP_MD_ADDRESS")
    ∷ (codes "CTP_PRIMARY_TD_ADDRESS", codes "CTP_TD_ADDRESS")
    ∷ (codes "CTP_PRIMARY_APP_ID", codes "CTP_APP_ID")
    ∷ (codes "CTP_PRIMARY_AUTH_CODE", codes "CTP_AUTH_CODE")
    ∷ []

unfoldable pub primary_key_names : List Str
primary_key_names =
    codes "CTP_PRIMARY_BROKER_ID"
    ∷ codes "CTP_PRIMARY_USER_ID"
    ∷ codes "CTP_PRIMARY_PASSWORD"
    ∷ codes "CTP_PRIMARY_MD_ADDRESS"
    ∷ codes "CTP_PRIMARY_TD_ADDRESS"
    ∷ codes "CTP_PRIMARY_APP_ID"
    ∷ codes "CTP_PRIMARY_AUTH_CODE"
    ∷ []

unfoldable pub backup_key_names : List Str
backup_key_names =
    codes "CTP_BACKUP_BROKER_ID"
    ∷ codes "CTP_BACKUP_USER_ID"
    ∷ codes "CTP_BACKUP_PASSWORD"
    ∷ codes "CTP_BACKUP_MD_ADDRESS"
    ∷ codes "CTP_BACKUP_TD_ADDRESS"
    ∷ codes "CTP_BACKUP_APP_ID"
    ∷ codes "CTP_BACKUP_AUTH_CODE"
    ∷ []

-- `env.get(key, "").strip()`
unfoldable pub stripped_value : Dict Str → Str → Str
stripped_value env key = elim (lookup key env) [ none ↦ [] | some value ↦ strip value ]

-- `_get_env_value`
unfoldable pub get_env_value : Dict Str → Str → Str
get_env_value env key =
    let value = stripped_value env key in
    if is_empty value
    then elim (lookup key primary_fallbacks) [
      | none ↦ []
      | some fallback ↦ stripped_value env fallback
    ]
    else value

-- the keys with and without a value
unfoldable pub given_keys : Dict Str → List Str → List Str
given_keys env [] = []
given_keys env (key ∷ keys) =
    let rest = given_keys env keys in if is_empty (get_env_value env key) then rest else key ∷ rest

unfoldable pub missing_keys : Dict Str → List Str → List Str
missing_keys env [] = []
missing_keys env (key ∷ keys) =
    let rest = missing_keys env keys in
    if is_empty (get_env_value env key) then key ∷ rest else rest

-- `sorted(set(a) | set(b))`
unfoldable pub sorted_union : List Str → List Str → List Str
sorted_union a b = sorted (add_each b (add_each a []))

pub data Issue : Type 0 where
  missing_primary incomplete_backup bad_endpoints : List Str → Issue
  backup_required : Issue

-- an issue with its names, where there are some
unfoldable pub issue_if : List Str → (List Str → Issue) → List Issue
issue_if [] issue = []
issue_if (x ∷ xs) issue = issue (x ∷ xs) ∷ []

-- the ending of `main`: the file is missing, the settings are refused, issues are found, or none;
-- only the last has the exit code 0
pub data Verdict : Type 0 where
  file_missing settings_refused passed : Verdict
  failed : List Issue → Verdict

unfoldable pub exit_code : Verdict → ℕ
exit_code passed = 0
exit_code file_missing = 1
exit_code settings_refused = 1
exit_code (failed issues) = 1

-- `backup_missing_from_input`
unfoldable pub backup_missing : Dict Str → List Str
backup_missing env =
    let provided = length (given_keys env backup_key_names) in
    if not (provided == 0) && not (provided == length backup_key_names)
    then missing_keys env backup_key_names
    else []

-- `backup_detected`
unfoldable pub backup_detected : Dict Str → AppSettings → Bool
backup_detected env s =
    if has_backup_profile s
    then true
    else length (backup_missing env) == 0
      && length (given_keys env backup_key_names) == length backup_key_names

-- the list `issues`
unfoldable pub issues_of : Bool → Dict Str → AppSettings → List Issue
issues_of require_backup env s =
    issue_if (sorted_union (missing_keys env primary_key_names) (missing_primary_fields s))
      missing_primary
    ++ (issue_if (sorted_union (backup_missing env) (missing_backup_fields s)) incomplete_backup
        ++ (issue_if (invalid_endpoint_fields s) bad_endpoints
            ++ (if require_backup && not (backup_detected env s)
                then backup_required ∷ []
                else [])))

unfoldable pub verdict_of : List Issue → Verdict
verdict_of [] = passed
verdict_of (issue ∷ issues) = failed (issue ∷ issues)

module _ (model_validate : Dict Str → Option AppSettings) where
  -- `main` behind `_collect_env`; no settings are a ValidationError
  unfoldable pub check_env : Bool → Dict Str → Verdict
  check_env require_backup env = elim (model_validate env) [
    | none ↦ settings_refused
    | some s ↦ verdict_of (issues_of require_backup env s)
  ]

  -- `main`, from the environment of the process
  unfoldable pub validate_env : Bool → Source → Dict Str → Verdict
  validate_env require_backup source environ = elim (collect_env environ source) [
    | none ↦ file_missing
    | some env ↦ check_env require_backup env
  ]
