-- ===== src/Tests/Settings.antt =====
-- The settings and the run of the health check on small inputs.
use xiaoy_md.Prelude.{ℕ, ◌≡◌, refl, Bool, true, List, [], ◌∷◌, ◌++◌, Option, none, some}
use xiaoy_md.Text.{Str, codes, str_eq, is_space, lstrip, rstrip, strip, has_char, split_last}
use xiaoy_md.Dict.{mem, add}
use xiaoy_md.Service.Feed.Failover.{target_of}
use xiaoy_md.Config.{
  mask_secret, has_value, broker_id, password, Profile, primary_env_map, backup_env_map,
  provided_env_keys, missing_env_keys, AppSettings, all_values, has_backup_profile,
  missing_primary_fields, missing_backup_fields, incomplete_backup_profile, is_route,
  validate_backup_profile, resolve_profile_field, invalid_endpoint, invalid_endpoint_fields,
  resolved_metrics_feed, masked_or_unknown, resolved_metrics_account,
}
use xiaoy_md.Config.Routing.{view, rerouted, resolve_profile_field-rerouted}
use xiaoy_md.Config.Tokens.{
  add_token, dedupe_loop, dedupe_seq, split_commas, split_all, all_single, join,
  normalize_ops_tokens, uppers, normalize_ops_cors_methods,
}
use xiaoy_md.Health.Records.{SubscriptionRecord, vt_symbol, ends_with, classify_stalled_contract}
use xiaoy_md.Health.Evaluate.{
  str_le, insert_sorted, sorted, ignored_set, active_set, stalled_of, is_below_threshold,
  evaluate_health,
}
use xiaoy_md.Health.Remediation.{
  World, add_critical, attempted_result, perform_remediation, Outcome, raised, checked, Run,
  is_error, evaluate_now, remediation_loop, marked, escalate, escalated_outcome, first_check,
  enforce_check, run_health_check, main, display, succeeded,
}
use xiaoy_md.Health.Remediation.Verdict.{OfOutcome, IsVerdict, run_health_check-IsVerdict}

program : Unit {0}
unfolding str_eq is_space lstrip rstrip strip has_char split_last mem add mask_secret has_value
    primary_env_map backup_env_map provided_env_keys missing_env_keys all_values has_backup_profile
    missing_primary_fields missing_backup_fields is_route validate_backup_profile
    resolve_profile_field invalid_endpoint invalid_endpoint_fields resolved_metrics_feed
    masked_or_unknown resolved_metrics_account add_token dedupe_loop dedupe_seq split_commas
    split_all all_single join normalize_ops_tokens uppers normalize_ops_cors_methods target_of
    vt_symbol ends_with classify_stalled_contract str_le insert_sorted sorted ignored_set active_set
    stalled_of is_below_threshold evaluate_health add_critical attempted_result perform_remediation
    is_error evaluate_now remediation_loop marked escalate escalated_outcome first_check
    enforce_check run_health_check main display succeeded
program = tt

-- a secret of five characters shows four of them
mask_secret_run : mask_secret (some (codes "abcde")) ≡ some (codes "ab...de")
unfolding program
mask_secret_run = refl

abbrev nothing : Profile
nothing field = none

abbrev only_broker : Profile
only_broker broker_id = some (codes "9999")
only_broker _ = none

abbrev whole : Profile
whole field = some (codes "backup value")

abbrev settings : Profile → Str → AppSettings
settings backup route = record {
  ctp_primary = only_broker;
  ctp_backup = backup;
  legacy = nothing;
  ctp_route_selector = route;
  metrics_feed_label = none;
  metrics_account_label = none;
}

validate_backup_profile_run :
    validate_backup_profile (settings only_broker (codes "AUTO"))
    ≡ incomplete_backup_profile (missing_env_keys only_broker backup_env_map)
unfolding program
validate_backup_profile_run = refl

whole_backup : has_backup_profile (settings whole (codes "primary")) ≡ true
unfolding program
whole_backup = refl

-- with the route auto, the account can be of the primary and its password of the backup
mixed_run :
    (resolve_profile_field (settings whole (codes "auto")) broker_id ≡ some (codes "9999"))
    × (resolve_profile_field (settings whole (codes "auto")) password ≡ some (codes "backup value"))
unfolding program
mixed_run = (refl, refl)

resolve_profile_field-rerouted_example :
    resolve_profile_field
      (rerouted
        (target_of (view (settings whole (codes "primary"))))
        (settings whole (codes "primary")))
      password
    ≡ some (codes "backup value")
resolve_profile_field-rerouted_example =
    resolve_profile_field-rerouted (settings whole (codes "primary")) password whole_backup

invalid_endpoint_fields_run :
    invalid_endpoint_fields (settings whole (codes "auto"))
    ≡ codes "CTP_BACKUP_MD_ADDRESS" ∷ codes "CTP_BACKUP_TD_ADDRESS" ∷ []
unfolding program
invalid_endpoint_fields_run = refl

tokens_run :
    normalize_ops_tokens (codes "a, b" ∷ codes "b,c" ∷ []) ≡ codes "a" ∷ codes "b" ∷ codes "c" ∷ []
unfolding program
tokens_run = refl

methods_run :
    normalize_ops_cors_methods (codes "get" ∷ codes "POST" ∷ [])
    ≡ codes "GET" ∷ codes "POST" ∷ codes "OPTIONS" ∷ []
unfolding program
methods_run = refl

-- a world where a bulk request makes all its symbols active
abbrev record_of : Str → SubscriptionRecord
record_of s = record {
  symbol = s;
  exchange = some (codes "SHFE");
  subscription_id = s;
  created_at = 0;
  last_tick_at = some 10;
  active = true;
}

abbrev records_of : List Str → List SubscriptionRecord
records_of [] = []
records_of (s ∷ symbols) = record_of s ∷ records_of symbols

abbrev world : World (List Str)
world = record {
  clock = λ w. 10;
  subscribe_bulk = λ symbols w. (some (symbols, []), symbols ++ w);
  load_active = λ w. (some (records_of w), w);
}

abbrev run : Run
run = record {
  enforce = true;
  max_remediation_attempts = 3;
  config = record { threshold = 995; scale = 1000; warning_lag = 60; critical_lag = 120 };
  expected = codes "rb2401.SHFE" ∷ [];
  ignored = [];
}

-- the missing contract is subscribed by the first attempt
abbrev attempts_of : Outcome → Option (ℕ × Bool)
attempts_of raised = none
attempts_of (checked c) = some (c.remediation_attempts, c.remediated)

first_attempt : attempts_of (run_health_check world run []).0 ≡ some (1, true)
unfolding program
first_attempt = refl

exit_code_run : main (run_health_check world run []).0 ≡ 0
unfolding program
exit_code_run = refl

run_health_check-IsVerdict_example :
    OfOutcome (IsVerdict world run) (run_health_check world run []).0
run_health_check-IsVerdict_example = run_health_check-IsVerdict world run []

display_run : display {A = ℕ} 2 (1 ∷ 2 ∷ 3 ∷ []) ≡ some (1 ∷ 2 ∷ [], 1)
unfolding program
display_run = refl
