-- ===== src/Config.antt =====
-- `AppSettings` (src/config.py): the credential profiles with their route, and the masking of
-- secrets. A secret is its text; a profile gives the value of each field, as `getattr` reads it.
pub mod Tokens
pub mod External
pub mod Routing
pub mod Masked
use xiaoy_md.Prelude.{
  ℕ, ◌-◌, ◌/◌, Bool, true, false, not, ◌&&◌, List, [], ◌∷◌, ◌++◌, Option, none, some, max, ltb, leb,
  ◌==◌, length, take, drop, keep_if, map, if◌then◌else◌,
}
use xiaoy_md.Text.{Str, codes, str_eq, is_empty, strip}
use xiaoy_md.Dict.{mem}
use xiaoy_md.FullFeed.Reasons.{lower, starts_with}

-- `_mask_secret`
unfoldable pub mask_secret : Option Str → Option Str
mask_secret none = none
mask_secret (some value) =
    if is_empty value
    then none
    else if leb (length value) 4
    then some (codes "***")
    else let prefix_len = if ltb 8 (length value) then 4 else max 2 (length value / 2) in
      some (take prefix_len value ++ (codes "..." ++ drop (length value - 2) value))

-- `_has_value`
unfoldable pub has_value : Option Str → Bool
has_value none = false
has_value (some raw) = not (is_empty raw) && not (is_empty (strip raw))

-- the fields of a profile
pub data Field : Type 0 where
  broker_id user_id password md_address td_address app_id auth_code : Field

abbrev pub Profile : Type 0
Profile = Field → Option Str

-- _PRIMARY_ENV_MAP and _BACKUP_ENV_MAP
abbrev pub EnvMap : Type 0
EnvMap = List (Field × Str)

unfoldable pub primary_env_map : EnvMap
primary_env_map =
    (broker_id, codes "CTP_PRIMARY_BROKER_ID")
    ∷ (user_id, codes "CTP_PRIMARY_USER_ID")
    ∷ (password, codes "CTP_PRIMARY_PASSWORD")
    ∷ (md_address, codes "CTP_PRIMARY_MD_ADDRESS")
    ∷ (td_address, codes "CTP_PRIMARY_TD_ADDRESS")
    ∷ (app_id, codes "CTP_PRIMARY_APP_ID")
    ∷ (auth_code, codes "CTP_PRIMARY_AUTH_CODE")
    ∷ []

unfoldable pub backup_env_map : EnvMap
backup_env_map =
    (broker_id, codes "CTP_BACKUP_BROKER_ID")
    ∷ (user_id, codes "CTP_BACKUP_USER_ID")
    ∷ (password, codes "CTP_BACKUP_PASSWORD")
    ∷ (md_address, codes "CTP_BACKUP_MD_ADDRESS")
    ∷ (td_address, codes "CTP_BACKUP_TD_ADDRESS")
    ∷ (app_id, codes "CTP_BACKUP_APP_ID")
    ∷ (auth_code, codes "CTP_BACKUP_AUTH_CODE")
    ∷ []

-- `provided_env_keys` and `missing_env_keys`
unfoldable pub provided_env_keys : Profile → EnvMap → List Str
unfolding has_value
provided_env_keys p [] = []
provided_env_keys p ((attr, env_name) ∷ mapping) =
    let rest = provided_env_keys p mapping in if has_value (p attr) then env_name ∷ rest else rest

unfoldable pub missing_env_keys : Profile → EnvMap → List Str
unfolding has_value
missing_env_keys p [] = []
missing_env_keys p ((attr, env_name) ∷ mapping) =
    let rest = missing_env_keys p mapping in if has_value (p attr) then rest else env_name ∷ rest

pub record AppSettings : Type 0 where
  pub ctp_primary : Profile
  pub ctp_backup : Profile
  pub legacy : Profile
  pub ctp_route_selector : Str
  pub metrics_feed_label : Option Str
  pub metrics_account_label : Option Str

-- `all(_has_value(getattr(p, attr)) for attr in mapping)`
unfoldable pub all_values : Profile → EnvMap → Bool
unfolding has_value
all_values p [] = true
all_values p ((attr, env_name) ∷ mapping) = has_value (p attr) && all_values p mapping

unfoldable pub has_backup_profile : AppSettings → Bool
has_backup_profile s = all_values s.ctp_backup backup_env_map

unfoldable pub missing_primary_fields : AppSettings → List Str
missing_primary_fields s = missing_env_keys s.ctp_primary primary_env_map

unfoldable pub missing_backup_fields : AppSettings → List Str
missing_backup_fields s = elim (provided_env_keys s.ctp_backup backup_env_map) [
  | [] ↦ []
  | key ∷ keys ↦ missing_env_keys s.ctp_backup backup_env_map
]

-- RouteSelectorError with the selector, IncompleteBackupProfileError with the missing names, or
-- the settings
pub data Validated : Type 0 where
  route_selector_error : Str → Validated
  incomplete_backup_profile : List Str → Validated
  valid : AppSettings → Validated

unfoldable pub is_route : Str → Bool
is_route value = mem value (codes "primary" ∷ codes "backup" ∷ codes "auto" ∷ [])

-- the credentials' part of `_validate_backup_profile`, with `_normalize_route_selector`
unfoldable pub validate_backup_profile : AppSettings → Validated
validate_backup_profile s =
    let provided = provided_env_keys s.ctp_backup backup_env_map in
    if is_route (lower s.ctp_route_selector)
    then if ltb 0 (length provided) && not (length provided == length backup_env_map)
      then incomplete_backup_profile (missing_env_keys s.ctp_backup backup_env_map)
      else valid (record s { ctp_route_selector = lower s.ctp_route_selector })
    else route_selector_error s.ctp_route_selector

-- `_resolve_profile_field`
unfoldable pub resolve_profile_field : AppSettings → Field → Option Str
resolve_profile_field s field =
    if str_eq s.ctp_route_selector (codes "backup") && has_value (s.ctp_backup field)
    then s.ctp_backup field
    else if str_eq s.ctp_route_selector (codes "primary")
    then s.ctp_primary field
    else if has_value (s.ctp_primary field)
    then s.ctp_primary field
    else if has_value (s.ctp_backup field)
    then s.ctp_backup field
    else if has_value (s.legacy field)
    then s.legacy field
    else s.ctp_primary field

-- `raw and not raw.startswith("tcp://")`
unfoldable pub invalid_endpoint : Option Str → Bool
invalid_endpoint none = false
invalid_endpoint (some raw) = not (is_empty raw) && not (starts_with raw (codes "tcp://"))

unfoldable pub invalid_endpoint_fields : AppSettings → List Str
unfolding invalid_endpoint
invalid_endpoint_fields s =
    (if invalid_endpoint (s.ctp_primary md_address)
      then codes "CTP_PRIMARY_MD_ADDRESS" ∷ []
      else [])
    ++ ((if invalid_endpoint (s.ctp_primary td_address)
          then codes "CTP_PRIMARY_TD_ADDRESS" ∷ []
          else [])
        ++ ((if invalid_endpoint (s.ctp_backup md_address)
              then codes "CTP_BACKUP_MD_ADDRESS" ∷ []
              else [])
            ++ (if invalid_endpoint (s.ctp_backup td_address)
                then codes "CTP_BACKUP_TD_ADDRESS" ∷ []
                else [])))

-- the text of an option, empty where there is none
abbrev pub text_of : Option Str → Str
text_of none = []
text_of (some value) = value

unfoldable pub resolved_metrics_feed : AppSettings → Str
resolved_metrics_feed s =
    let label = text_of s.metrics_feed_label in
    let candidate = if is_empty label then s.ctp_route_selector else label in
    if is_empty candidate then codes "primary" else lower candidate

-- `_mask_secret(value) or "unknown"`
unfoldable pub masked_or_unknown : Option Str → Str
unfolding mask_secret
masked_or_unknown value =
    let masked = text_of (mask_secret value) in if is_empty masked then codes "unknown" else masked

unfoldable pub resolved_metrics_account : AppSettings → Str
resolved_metrics_account s =
    if not (is_empty (text_of s.metrics_account_label))
    then text_of s.metrics_account_label
    else if not (is_empty (text_of (s.ctp_primary user_id)))
    then masked_or_unknown (s.ctp_primary user_id)
    else if not (is_empty (text_of (resolve_profile_field s user_id)))
    then masked_or_unknown (resolve_profile_field s user_id)
    else if not (is_empty (text_of (s.ctp_backup user_id)))
    then masked_or_unknown (s.ctp_backup user_id)
    else codes "unknown"
