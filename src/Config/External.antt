-- ===== src/Config/External.antt =====
-- The keys of the environment that move into the credential profiles
-- (`AppSettings._transform_external_data` in src/config.py). A value is anything; `as_dict` is the
-- payload of a profile as a value.
pub mod Loop
pub mod Moved
use xiaoy_md.Prelude.{ℕ, List, [], ◌∷◌, ◌++◌, Option, none, some, drop, map, if◌then◌else◌}
use xiaoy_md.Text.{Str, codes}
use xiaoy_md.Dict.{Dict, lookup, insert, erase}
use xiaoy_md.FullFeed.Reasons.{starts_with}
use xiaoy_md.Config.{
  Field, broker_id, user_id, password, md_address, td_address, app_id, auth_code, EnvMap,
  primary_env_map, backup_env_map,
}

-- the attribute of a field
unfoldable pub attr_of : Field → Str
attr_of broker_id = codes "broker_id"
attr_of user_id = codes "user_id"
attr_of password = codes "password"
attr_of md_address = codes "md_address"
attr_of td_address = codes "td_address"
attr_of app_id = codes "app_id"
attr_of auth_code = codes "auth_code"

-- the keys of the environment for each field of PrimaryCredentialProfile
unfoldable pub primary_aliases : Field → List Str
primary_aliases broker_id = codes "CTP_PRIMARY_BROKER_ID" ∷ codes "CTP_BROKER_ID" ∷ []
primary_aliases user_id = codes "CTP_PRIMARY_USER_ID" ∷ codes "CTP_USER_ID" ∷ []
primary_aliases password = codes "CTP_PRIMARY_PASSWORD" ∷ codes "CTP_PASSWORD" ∷ []
primary_aliases md_address = codes "CTP_PRIMARY_MD_ADDRESS" ∷ codes "CTP_MD_ADDRESS" ∷ []
primary_aliases td_address = codes "CTP_PRIMARY_TD_ADDRESS" ∷ codes "CTP_TD_ADDRESS" ∷ []
primary_aliases app_id = codes "CTP_PRIMARY_APP_ID" ∷ codes "CTP_APP_ID" ∷ []
primary_aliases auth_code = codes "CTP_PRIMARY_AUTH_CODE" ∷ codes "CTP_AUTH_CODE" ∷ []

-- and of BackupCredentialProfile
unfoldable pub backup_aliases : Field → List Str
backup_aliases broker_id = codes "CTP_BACKUP_BROKER_ID" ∷ []
backup_aliases user_id = codes "CTP_BACKUP_USER_ID" ∷ []
backup_aliases password = codes "CTP_BACKUP_PASSWORD" ∷ []
backup_aliases md_address = codes "CTP_BACKUP_MD_ADDRESS" ∷ []
backup_aliases td_address = codes "CTP_BACKUP_TD_ADDRESS" ∷ []
backup_aliases app_id = codes "CTP_BACKUP_APP_ID" ∷ []
backup_aliases auth_code = codes "CTP_BACKUP_AUTH_CODE" ∷ []

-- `env_key.replace("CTP_PRIMARY_", "CTP_")`, for a key that has the text in front or nowhere
unfoldable pub legacy_key : Str → Str
legacy_key env_key =
    if starts_with env_key (codes "CTP_PRIMARY_") then codes "CTP_" ++ drop 12 env_key else env_key

-- the keys to check for each attribute
unfoldable pub primary_keys : EnvMap → Dict (List Str)
unfolding attr_of legacy_key
primary_keys [] = []
primary_keys ((field, env_key) ∷ mapping) =
    (attr_of field, env_key ∷ legacy_key env_key ∷ []) ∷ primary_keys mapping

unfoldable pub backup_keys : EnvMap → Dict (List Str)
unfolding attr_of
backup_keys [] = []
backup_keys ((field, env_key) ∷ mapping) = (attr_of field, env_key ∷ []) ∷ backup_keys mapping

module _ {V : Type 0} where
  -- the first key that is there is popped: its value and the rest
  unfoldable pub pop_first : List Str → Dict V → Option V × Dict V
  unfolding lookup erase
  pop_first [] transformed = (none, transformed)
  pop_first (key ∷ keys) transformed = elim (lookup key transformed) [
    | some v ↦ (some v, erase key transformed)
    | none ↦ pop_first keys transformed
  ]

  unfoldable pub put_attr : Str → Option V → Dict V → Dict V
  unfolding insert
  put_attr attr none payload = payload
  put_attr attr (some v) payload = insert attr v payload

  -- the loop over a map: the payload and the rest
  unfoldable pub collect : Dict (List Str) → Dict V → Dict V → Dict V × Dict V
  unfolding pop_first put_attr
  collect [] payload transformed = (payload, transformed)
  collect ((attr, keys) ∷ mapping) payload transformed =
      let popped = pop_first keys transformed in
      collect mapping (put_attr attr popped.0 payload) popped.1

module _ {V : Type 0} (as_dict : Dict V → V) where
  -- `if payload: transformed[name] = payload`
  unfoldable pub put_payload : Str → Dict V → Dict V → Dict V
  unfolding insert
  put_payload name [] transformed = transformed
  put_payload name (entry ∷ payload) transformed =
      insert name (as_dict (entry ∷ payload)) transformed

  unfoldable pub transform_external_data : Dict V → Dict V
  transform_external_data values =
      let primary = collect (primary_keys primary_env_map) [] values in
      let transformed = put_payload (codes "ctp_primary") primary.0 primary.1 in
      let backup = collect (backup_keys backup_env_map) [] transformed in
      put_payload (codes "ctp_backup") backup.0 backup.1
