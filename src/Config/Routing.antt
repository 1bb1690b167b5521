-- ===== src/Config/Routing.antt =====
-- The credentials that a route resolves to, and the validation of the backup profile
-- (src/config.py).
use xiaoy_md.Prelude.{◌<◌, ◌≡◌, refl, ap, true, false, ◌||◌, [], ltb, length, arith}
use xiaoy_md.Text.{Str, codes, str_eq, str_eq_iff}
use xiaoy_md.FullFeed.Reasons.{lower}
use xiaoy_md.Service.Feed.{Settings}
use xiaoy_md.Service.Feed.Failover.{target_of}
use xiaoy_md.Service.Feed.Recovery.{target_of-backup}
use xiaoy_md.Config.{
  Field, broker_id, user_id, password, md_address, td_address, app_id, auth_code, Profile,
  backup_env_map, has_value, provided_env_keys, missing_env_keys, all_values, AppSettings,
  has_backup_profile, missing_backup_fields, Validated, route_selector_error,
  incomplete_backup_profile, valid, is_route, resolve_profile_field,
}

-- what a validation says of the settings that it was given
abbrev pub Says : AppSettings → Validated → Type 0
Says s (route_selector_error r) = (r ≡ s.ctp_route_selector) × (is_route (lower r) ≡ false)
Says s (incomplete_backup_profile missing) =
    (is_route (lower s.ctp_route_selector) ≡ true)
    × (missing ≡ missing_env_keys s.ctp_backup backup_env_map)
    × (0 < length missing)
    × (0 < length (provided_env_keys s.ctp_backup backup_env_map))
Says s (valid t) =
    (t ≡ record s { ctp_route_selector = lower s.ctp_route_selector })
    × (is_route (lower s.ctp_route_selector) ≡ true)
    × (missing_backup_fields s ≡ [])
    × (has_backup_profile s ≡ ltb 0 (length (provided_env_keys s.ctp_backup backup_env_map)))

all_values-each :
    (p : Profile)
    → all_values p backup_env_map ≡ true
    → (field : Field) → has_value (p field) ≡ true
unfolding all_values backup_env_map
all_values-each p h broker_id = ground arith
all_values-each p h user_id = ground arith
all_values-each p h password = ground arith
all_values-each p h md_address = ground arith
all_values-each p h td_address = ground arith
all_values-each p h app_id = ground arith
all_values-each p h auth_code = ground arith

-- the settings as the watchdog of the service reads them, and with the route that it asks for
abbrev pub view : AppSettings → Settings
view s = record { route_selector = s.ctp_route_selector; has_backup_profile = has_backup_profile s }

abbrev pub rerouted : Settings → AppSettings → AppSettings
rerouted target s = record s { ctp_route_selector = target.route_selector }

resolve_profile_field-backup :
    (s : AppSettings) (field : Field)
    → str_eq s.ctp_route_selector (codes "backup") ≡ true
    → has_value (s.ctp_backup field) ≡ true
    → resolve_profile_field s field ≡ s.ctp_backup field
unfolding resolve_profile_field
resolve_profile_field-backup s field h v = rw (resolve_profile_field, h, v) refl

has_backup-each :
    (s : AppSettings)
    → has_backup_profile s ≡ true
    → (field : Field) → has_value (s.ctp_backup field) ≡ true
unfolding has_backup_profile
has_backup-each s h = all_values-each s.ctp_backup h

-- When the backup profile is there, each field of the settings that the watchdog reconnects with
-- resolves to the backup's, whatever route they were on.
pub resolve_profile_field-rerouted :
    (s : AppSettings) (field : Field)
    → has_backup_profile s ≡ true
    → resolve_profile_field (rerouted (target_of (view s)) s) field ≡ s.ctp_backup field
resolve_profile_field-rerouted s field h =
    resolve_profile_field-backup (rerouted (target_of (view s)) s) field
      ((str_eq_iff (target_of (view s)).route_selector (codes "backup")).1
        (target_of-backup (view s) h))
      (has_backup-each s h field)

not_primary : (r : Str) → str_eq r (codes "auto") ≡ true → str_eq r (codes "primary") ≡ false
unfolding str_eq
not_primary r h = ap (λ x. str_eq x (codes "primary")) ((str_eq_iff r (codes "auto")).0 h)

-- With the route auto, a field resolves to the first of the primary's, the backup's and the legacy
-- value that has a value, field by field; so it has a value exactly when one of them has.
pub resolve_profile_field-auto :
    (s : AppSettings) (field : Field)
    → str_eq s.ctp_route_selector (codes "auto") ≡ true
    → has_value (resolve_profile_field s field) ≡ (
        has_value (s.ctp_primary field)
        || (has_value (s.ctp_backup field) || has_value (s.legacy field)))
unfolding resolve_profile_field
resolve_profile_field-auto s field h = ground (arith, not_primary s.ctp_route_selector h)
