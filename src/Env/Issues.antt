-- ===== src/Env/Issues.antt =====
-- What the settings hold after a check without issues (scripts/operations/validate_env.py and
-- src/config.py).
use xiaoy_md.Prelude.{
  ◌≡◌, ◌≢◌, refl, ap, sym, ◌∙◌, Bool, true, false, not, ◌&&◌, List, [], ◌∷◌, ◌++◌, Option, some,
  arith, if◌then◌else◌, Bool-cases, inl, inr, ◌⊎◌,
}
use xiaoy_md.Text.{Str, codes, str_eq}
use xiaoy_md.Dict.{Dict, add, mem, add_each}
use xiaoy_md.Health.Evaluate.{sorted, insert_sorted}
use xiaoy_md.Config.{
  Field, broker_id, user_id, password, md_address, td_address, app_id, auth_code, Profile,
  primary_env_map, has_value, missing_env_keys, EnvMap, all_values, AppSettings,
  missing_primary_fields, missing_backup_fields, invalid_endpoint, invalid_endpoint_fields,
  resolve_profile_field,
}
use xiaoy_md.Env.{
  sorted_union, Issue, issue_if, passed, missing_primary, incomplete_backup, bad_endpoints,
  backup_required, backup_missing, backup_detected, issues_of, verdict_of, check_env, missing_keys,
  primary_key_names,
}

cons_ne : {A : Type 0} (x : A) (xs : List A) → (x ∷ xs) ≢ []
cons_ne x xs e = cc e

append_nil_left : {A : Type 0} (xs ys : List A) → xs ++ ys ≡ [] → xs ≡ []
append_nil_left [] ys e = refl
append_nil_left (x ∷ xs) ys e = cc e

append_nil_right : {A : Type 0} (xs ys : List A) → xs ++ ys ≡ [] → ys ≡ []
append_nil_right [] ys e = e
append_nil_right (x ∷ xs) ys e = cc e

insert_sorted_ne : (x : Str) (xs : List Str) → insert_sorted x xs ≢ []
unfolding insert_sorted
insert_sorted_ne x [] e = cc e
insert_sorted_ne x (y ∷ ys) e = ground arith

sorted-nil : (xs : List Str) → sorted xs ≡ [] → xs ≡ []
unfolding sorted
sorted-nil [] e = refl
sorted-nil (x ∷ xs) e = absurd (insert_sorted_ne x (sorted xs) e)

add_ne : (x : Str) (s : List Str) → add x s ≢ []
unfolding add mem
add_ne x [] e = cc e
add_ne x (y ∷ s) e = ground arith

add_each_start : (xs s : List Str) → add_each xs s ≡ [] → s ≡ []
unfolding add_each
add_each_start [] s e = e
add_each_start (x ∷ xs) s e = absurd (add_ne x s (add_each_start xs (add x s) e))

add_each-nil : (xs s : List Str) → add_each xs s ≡ [] → xs ≡ []
unfolding add_each
add_each-nil [] s e = refl
add_each-nil (x ∷ xs) s e = absurd (add_ne x s (add_each_start xs (add x s) e))

sorted_union-nil : (a b : List Str) → sorted_union a b ≡ [] → (a ≡ []) × (b ≡ [])
unfolding sorted_union
sorted_union-nil a b e =
    let u = sorted-nil (add_each b (add_each a [])) e in
    (add_each-nil a [] (add_each_start b (add_each a []) u), add_each-nil b (add_each a []) u)

issue_if-nil : (xs : List Str) (issue : List Str → Issue) → issue_if xs issue ≡ [] → xs ≡ []
unfolding issue_if
issue_if-nil [] issue e = refl
issue_if-nil (x ∷ xs) issue e = cc e

verdict_of-passed : (issues : List Issue) → verdict_of issues ≡ passed → issues ≡ []
unfolding verdict_of
verdict_of-passed [] e = refl
verdict_of-passed (issue ∷ issues) e = cc e

missing-all_values : (p : Profile) (m : EnvMap) → missing_env_keys p m ≡ [] → all_values p m ≡ true
unfolding missing_env_keys all_values
missing-all_values p [] e = refl
missing-all_values p ((attr, env_name) ∷ m) e = ground (arith, missing-all_values p m)

-- no name is missing: each field has a value
all_values-primary :
    (p : Profile)
    → all_values p primary_env_map ≡ true
    → (field : Field) → has_value (p field) ≡ true
unfolding all_values primary_env_map
all_values-primary p h broker_id = ground arith
all_values-primary p h user_id = ground arith
all_values-primary p h password = ground arith
all_values-primary p h md_address = ground arith
all_values-primary p h td_address = ground arith
all_values-primary p h app_id = ground arith
all_values-primary p h auth_code = ground arith

-- where the primary has a value, every route resolves to a value of the primary or of the backup
resolve-one :
    (s : AppSettings) (field : Field)
    → has_value (s.ctp_primary field) ≡ true
    → (has_value (resolve_profile_field s field) ≡ true)
      × ((resolve_profile_field s field ≡ s.ctp_primary field)
          ⊎ (resolve_profile_field s field ≡ s.ctp_backup field))
unfolding resolve_profile_field
resolve-one s field h =
    elim (Bool-cases
      (str_eq s.ctp_route_selector (codes "backup") && has_value (s.ctp_backup field))) [
        | inl b ↦ rw (resolve_profile_field, b) (ground arith, inr refl)
        | inr b ↦ elim (Bool-cases (str_eq s.ctp_route_selector (codes "primary"))) [
          | inl p ↦ rw (resolve_profile_field, b, p) (h, inl refl)
          | inr p ↦ rw (resolve_profile_field, b, p, h) (h, inl refl)
        ]
      ]

if_nil : (b : Bool) (x : Str) → (if b then x ∷ [] else []) ≡ [] → b ≡ false
if_nil true x e = cc e
if_nil false x e = refl

endpoints-valid :
    (s : AppSettings)
    → invalid_endpoint_fields s ≡ []
    → ((invalid_endpoint (s.ctp_primary md_address) ≡ false)
        × (invalid_endpoint (s.ctp_primary td_address) ≡ false))
      × ((invalid_endpoint (s.ctp_backup md_address) ≡ false)
          × (invalid_endpoint (s.ctp_backup td_address) ≡ false))
unfolding invalid_endpoint_fields
endpoints-valid s e =
    let pm = codes "CTP_PRIMARY_MD_ADDRESS" in
    let pt = codes "CTP_PRIMARY_TD_ADDRESS" in
    let bm = codes "CTP_BACKUP_MD_ADDRESS" in
    let bt = codes "CTP_BACKUP_TD_ADDRESS" in
    let b1 = invalid_endpoint (s.ctp_primary md_address) in
    let b2 = invalid_endpoint (s.ctp_primary td_address) in
    let b3 = invalid_endpoint (s.ctp_backup md_address) in
    let b4 = invalid_endpoint (s.ctp_backup td_address) in
    let last : List Str = if b4 then bt ∷ [] else [] in
    let third : List Str = (if b3 then bm ∷ [] else []) ++ last in
    let second : List Str = (if b2 then pt ∷ [] else []) ++ third in
    let e2 = append_nil_right (if b1 then pm ∷ [] else []) second e in
    let e3 = append_nil_right (if b2 then pt ∷ [] else []) third e2 in
    (
      (
        if_nil b1 pm (append_nil_left (if b1 then pm ∷ [] else []) second e),
        if_nil b2 pt (append_nil_left (if b2 then pt ∷ [] else []) third e2),
      ),
      (
        if_nil b3 bm (append_nil_left (if b3 then bm ∷ [] else []) last e3),
        if_nil b4 bt (append_nil_right (if b3 then bm ∷ [] else []) last e3),
      ),
    )

either :
    {A : Type 0} {x a b : A} (test : A → Bool)
    → test a ≡ false
    → test b ≡ false
    → (x ≡ a) ⊎ (x ≡ b)
    → test x ≡ false
either test h g (inl e) = ap test e ∙ h
either test h g (inr e) = ap test e ∙ g

found :
    (require_backup : Bool) (env : Dict Str) (s : AppSettings)
    → issues_of require_backup env s ≡ []
    → (all_values s.ctp_primary primary_env_map ≡ true) × (invalid_endpoint_fields s ≡ [])
unfolding issues_of missing_primary_fields
found require_backup env s e =
    let primary = sorted_union (missing_keys env primary_key_names) (missing_primary_fields s) in
    let backup = sorted_union (backup_missing env) (missing_backup_fields s) in
    let last : List Issue =
      if require_backup && not (backup_detected env s) then backup_required ∷ [] else [] in
    let ends = issue_if (invalid_endpoint_fields s) bad_endpoints ++ last in
    let rest = issue_if backup incomplete_backup ++ ends in
    let e2 = append_nil_right (issue_if primary missing_primary) rest e in
    let e3 = append_nil_right (issue_if backup incomplete_backup) ends e2 in
    let none_missing =
      sorted_union-nil (missing_keys env primary_key_names) (missing_primary_fields s) (
        issue_if-nil primary missing_primary
          (append_nil_left (issue_if primary missing_primary) rest e)) in
    (
      missing-all_values s.ctp_primary primary_env_map none_missing.1,
      issue_if-nil (invalid_endpoint_fields s) bad_endpoints
          (append_nil_left (issue_if (invalid_endpoint_fields s) bad_endpoints) last e3),
    )

module _ (model_validate : Dict Str → Option AppSettings) where
  issues-none :
      (require_backup : Bool) (env : Dict Str) (s : AppSettings)
      → model_validate env ≡ some s
      → check_env model_validate require_backup env ≡ passed
      → issues_of require_backup env s ≡ []
  unfolding check_env
  issues-none require_backup env s valid e =
      verdict_of-passed (issues_of require_backup env s) (sym (rw (check_env, valid) refl) ∙ e)

  -- When the check of an environment passes, the settings that it was read as resolve every field to
  -- a value, whatever their route, and both addresses to endpoints that start with `tcp://`.
  pub check_env-resolves :
      (require_backup : Bool) (env : Dict Str) (s : AppSettings)
      → model_validate env ≡ some s
      → check_env model_validate require_backup env ≡ passed
      → ((field : Field) → has_value (resolve_profile_field s field) ≡ true)
        × (invalid_endpoint (resolve_profile_field s md_address) ≡ false)
        × (invalid_endpoint (resolve_profile_field s td_address) ≡ false)
  check_env-resolves require_backup env s valid e =
      let (primary, endpoints) =
        found require_backup env s (issues-none require_backup env s valid e) in
      let each = all_values-primary s.ctp_primary primary in
      let ends = endpoints-valid s endpoints in
      (
        (λ field. (resolve-one s field (each field)).0),
        either invalid_endpoint ends.0.0 ends.1.0 (resolve-one s md_address (each md_address)).1,
        either invalid_endpoint ends.0.1 ends.1.1 (resolve-one s td_address (each td_address)).1,
      )
