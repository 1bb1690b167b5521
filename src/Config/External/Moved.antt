-- ===== src/Config/External/Moved.antt =====
-- What the profiles hold after the move of the external keys (src/config.py).
use xiaoy_md.Prelude.{◌≡◌, ◌∙◌, refl, true, false, List, [], ◌∷◌, some, arith}
use xiaoy_md.Text.{Str, codes, str_eq, str_eq_iff}
use xiaoy_md.Dict.{Dict, lookup, mem}
use xiaoy_md.Config.{
  Field, broker_id, user_id, password, md_address, td_address, app_id, auth_code, primary_env_map,
  backup_env_map,
}
use xiaoy_md.Config.External.{
  attr_of, primary_aliases, backup_aliases, legacy_key, primary_keys, backup_keys, collect,
  put_payload, transform_external_data,
}
use xiaoy_md.Config.External.Loop.{
  all_keys, disjoint, apart, first_of, collect-frame, collect-named, lookup-put_payload_ne,
  lookup-put_payload, first_of-same, disjoint-lookup, lookup-nil,
}

-- the two profiles, with the keys of their attributes
pub data Side : Type 0 where
  primary backup : Side

abbrev pub name_of : Side → Str
name_of primary = codes "ctp_primary"
name_of backup = codes "ctp_backup"

abbrev pub keys_of : Side → Dict (List Str)
keys_of primary = primary_keys primary_env_map
keys_of backup = backup_keys backup_env_map

-- the keys that the profile names for a field
abbrev pub aliases_of : Side → Field → List Str
aliases_of primary = primary_aliases
aliases_of backup = backup_aliases

-- the texts of the two maps
tables : Unit {0}
unfolding primary_keys backup_keys primary_env_map backup_env_map attr_of primary_aliases
    backup_aliases legacy_key lookup mem str_eq
tables = tt

keys_of-apart : (side : Side) → apart (keys_of side) ≡ true
unfolding tables
keys_of-apart primary = refl
keys_of-apart backup = refl

-- the map of the loop has the keys that the profile names
aliases_of-keys :
    (side : Side) (field : Field)
    → lookup (attr_of field) (keys_of side) ≡ some (aliases_of side field)
unfolding tables
aliases_of-keys primary broker_id = refl
aliases_of-keys primary user_id = refl
aliases_of-keys primary password = refl
aliases_of-keys primary md_address = refl
aliases_of-keys primary td_address = refl
aliases_of-keys primary app_id = refl
aliases_of-keys primary auth_code = refl
aliases_of-keys backup broker_id = refl
aliases_of-keys backup user_id = refl
aliases_of-keys backup password = refl
aliases_of-keys backup md_address = refl
aliases_of-keys backup td_address = refl
aliases_of-keys backup app_id = refl
aliases_of-keys backup auth_code = refl

primary-name : mem (codes "ctp_primary") (all_keys (keys_of backup)) ≡ false
unfolding tables
primary-name = refl

backup-foreign :
    disjoint (all_keys (keys_of backup)) (codes "ctp_primary" ∷ all_keys (keys_of primary)) ≡ true
unfolding tables
backup-foreign = refl

names_differ : str_eq (codes "ctp_backup") (codes "ctp_primary") ≡ false
unfolding str_eq
names_differ = refl

module _ {V : Type 0} (as_dict : Dict V → V) where
  -- what the backup's loop finds
  after_primary : Dict V → Dict V
  after_primary values =
      let moved = collect (primary_keys primary_env_map) [] values in
      put_payload as_dict (codes "ctp_primary") moved.0 moved.1

  after_primary-frame :
      (values : Dict V) (j : Str)
      → mem j (codes "ctp_primary" ∷ all_keys (keys_of primary)) ≡ false
      → lookup j (after_primary values) ≡ lookup j values
  unfolding after_primary mem
  after_primary-frame values j h =
      let moved = collect (primary_keys primary_env_map) [] values in
      lookup-put_payload_ne as_dict j (codes "ctp_primary") moved.0 moved.1
        (λ e. ground (arith, str_eq_iff (codes "ctp_primary") j))
      ∙ collect-frame j (primary_keys primary_env_map) [] values (ground arith)

  stored-named :
      (values : Dict V) (side : Side) (attr : Str) (keys : List Str) (v : V)
      → lookup attr (keys_of side) ≡ some keys
      → first_of keys values ≡ some v
      → (payload : Dict V) × (lookup attr payload ≡ some v)
        × (lookup (name_of side) (transform_external_data as_dict values) ≡ some (as_dict payload))
  unfolding transform_external_data after_primary
  stored-named values primary attr keys v named found =
      let moved = collect (keys_of primary) [] values in
      let backed = collect (keys_of backup) [] (after_primary values) in
      let held =
        collect-named attr keys (keys_of primary) [] values (keys_of-apart primary)
          (lookup-nil attr) named
        ∙ found in
      (
        moved.0,
        held,
        lookup-put_payload_ne as_dict (codes "ctp_primary") (codes "ctp_backup") backed.0 backed.1
              (λ e.
                ground
                  (arith, str_eq_iff (codes "ctp_backup") (codes "ctp_primary"), names_differ, e))
            ∙ collect-frame (codes "ctp_primary") (keys_of backup) [] (after_primary values)
                primary-name
            ∙ lookup-put_payload as_dict (codes "ctp_primary") attr v moved.0 moved.1 held,
      )
  stored-named values backup attr keys v named found =
      let backed = collect (keys_of backup) [] (after_primary values) in
      let held =
        collect-named attr keys (keys_of backup) [] (after_primary values) (keys_of-apart backup)
          (lookup-nil attr) named
        ∙ first_of-same keys (codes "ctp_primary" ∷ all_keys (keys_of primary))
            (after_primary values) values
            (disjoint-lookup attr keys (codes "ctp_primary" ∷ all_keys (keys_of primary))
              (keys_of backup) named backup-foreign)
            (after_primary-frame values)
        ∙ found in
      (
        backed.0,
        held,
        lookup-put_payload as_dict (codes "ctp_backup") attr v backed.0 backed.1 held,
      )

  -- For each field of the primary and of the backup profile, a value that is given under one of the
  -- names of that field, and for the primary the value of the longer name where both are given, is
  -- what the settings' profile of that side holds for the field after the move of the external keys.
  pub transform_external_data-moves :
      (values : Dict V) (side : Side) (field : Field) (v : V)
      → first_of (aliases_of side field) values ≡ some v
      → (payload : Dict V) × (lookup (attr_of field) payload ≡ some v)
        × (lookup (name_of side) (transform_external_data as_dict values) ≡ some (as_dict payload))
  transform_external_data-moves values side field v =
      stored-named values side (attr_of field) (aliases_of side field) v
        (aliases_of-keys side field)
