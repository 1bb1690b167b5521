-- ===== src/Tests/Startup.antt =====
-- The environment, the start and the end of the processes on small inputs.
use xiaoy_md.Prelude.{◌≡◌, refl, true, false, List, [], ◌∷◌, ◌++◌, Option, none, some, pos, negsuc}
use xiaoy_md.Text.{Str, codes, str_eq, is_empty, is_space, lstrip, rstrip, strip, split_first}
use xiaoy_md.Dict.{Dict, lookup, insert, mem, add, add_each}
use xiaoy_md.Dict.Laws.{Distinct}
use xiaoy_md.Health.Evaluate.{str_le, insert_sorted, sorted}
use xiaoy_md.Config.{
  Field, md_address, td_address, Profile, AppSettings, primary_env_map, backup_env_map, has_value,
  provided_env_keys, missing_env_keys, all_values, missing_primary_fields, missing_backup_fields,
  invalid_endpoint, invalid_endpoint_fields, has_backup_profile, resolve_profile_field,
}
use xiaoy_md.Env.File.{
  lstrip_char, rstrip_char, strip_char, unquote, split_entry, drop_export, env_entry, put_entry,
  parse_env_lines, universal_newlines, file_lines, parse_env_file,
}
use xiaoy_md.Env.{
  primary_fallbacks, primary_key_names, backup_key_names, stripped_value, get_env_value, given_keys,
  missing_keys, sorted_union, issue_if, passed, failed, backup_required, backup_missing,
  backup_detected, issues_of, verdict_of, check_env,
}
use xiaoy_md.Env.Written.{is_writable, text_of, parse_env_file-text_of}
use xiaoy_md.Env.Issues.{check_env-resolves}
use xiaoy_md.FullFeed.Connection.{
  is_nats_key, only_nats, nats_entry, load_env_file, Options, Arguments, default_url, parse_args,
  Start, started, usage_error, usage, normalize_nats_url, chosen, begin,
}
use xiaoy_md.FullFeed.Connection.Chosen.{begin-started}

abbrev entries : Dict Str
entries = (codes "NATS_URL", codes " a=b #") ∷ (codes "NATS_USER", codes "") ∷ []

entries-is_writable : is_writable entries ≡ true
unfolding is_space
entries-is_writable = refl

entries-Distinct : Distinct entries
unfolding mem str_eq
entries-Distinct = (refl, (refl, tt))

parse_env_file-text_of_example : parse_env_file (text_of entries) ≡ entries
parse_env_file-text_of_example = parse_env_file-text_of entries entries-is_writable entries-Distinct

program : Unit {0}
unfolding str_eq is_space lstrip rstrip strip split_first lookup insert mem add add_each str_le
    insert_sorted sorted primary_env_map backup_env_map has_value provided_env_keys missing_env_keys
    all_values missing_primary_fields missing_backup_fields invalid_endpoint invalid_endpoint_fields
    has_backup_profile lstrip_char rstrip_char strip_char unquote split_entry drop_export env_entry
    put_entry parse_env_lines universal_newlines file_lines parse_env_file primary_fallbacks
    primary_key_names backup_key_names stripped_value get_env_value given_keys missing_keys
    sorted_union issue_if backup_missing backup_detected issues_of verdict_of check_env is_nats_key
    only_nats nats_entry load_env_file default_url parse_args usage normalize_nats_url chosen begin
program = tt

export_run :
    parse_env_file (codes "# x" ++ 13 ∷ 10 ∷ codes "export A = 'b'" ++ 10 ∷ codes "no value")
    ≡ (codes "A", codes "b") ∷ []
unfolding program
export_run = refl

abbrev account : Profile
account md_address = some (codes "tcp://a:1")
account td_address = some (codes "tcp://a:2")
account _ = some (codes "x")

abbrev nothing : Profile
nothing field = none

abbrev settings : AppSettings
settings = record {
  ctp_primary = account;
  ctp_backup = nothing;
  legacy = nothing;
  ctp_route_selector = codes "backup";
  metrics_feed_label = none;
  metrics_account_label = none;
}

abbrev validate : Dict Str → Option AppSettings
validate env = some settings

abbrev environment : Dict Str
environment =
    (codes "CTP_PRIMARY_BROKER_ID", codes "x")
    ∷ (codes "CTP_USER_ID", codes "x")
    ∷ (codes "CTP_PASSWORD", codes "x")
    ∷ (codes "CTP_MD_ADDRESS", codes "tcp://a:1")
    ∷ (codes "CTP_TD_ADDRESS", codes "tcp://a:2")
    ∷ (codes "CTP_APP_ID", codes "x")
    ∷ (codes "CTP_AUTH_CODE", codes "x")
    ∷ []

checked : check_env validate false environment ≡ passed
unfolding program
checked = refl

-- the same environment with a backup required
required_run : check_env validate true environment ≡ failed (backup_required ∷ [])
unfolding program
required_run = refl

check_env-resolves_example :
    ((field : Field) → has_value (resolve_profile_field settings field) ≡ true)
    × (invalid_endpoint (resolve_profile_field settings md_address) ≡ false)
    × (invalid_endpoint (resolve_profile_field settings td_address) ≡ false)
check_env-resolves_example = check_env-resolves validate false environment settings refl checked

abbrev options : Options
options = record {
  nats_url = none;
  user = none;
  password = none;
  batch_size = pos 500;
  request_attempts = pos 6;
  retry_delay = pos 1;
  metrics_port = negsuc 0;
  metrics_disable = true;
  window = codes "day";
  config = codes "primary";
}

abbrev no_host : Str → Option (Option Str)
no_host url = some none

abbrev env_lines : List Str
env_lines = codes "NATS_URL=nats://nats:4222" ∷ codes "NATS_USER=\"u\"" ∷ []

options-usage : usage options ≡ none
unfolding program
options-usage = refl

options-url : is_empty (parse_args options []).nats_url ≡ false
unfolding program
options-url = refl

abbrev arguments_of : Start → Option Arguments
arguments_of (usage_error message) = none
arguments_of (started a environ) = some a

-- the URL of the file is not used, its user is
begin_run :
    arguments_of (begin no_host options env_lines [])
    ≡ some record { nats_url = default_url; user = some (codes "u"); password = none }
unfolding program
begin_run = refl

begin-started_example :
    (loaded : Dict Str) × (begin no_host options env_lines []
      ≡ started
          (record { nats_url = default_url; user = some (codes "u"); password = none })
          loaded)
unfolding program
begin-started_example = begin-started no_host options env_lines [] options-usage options-url
