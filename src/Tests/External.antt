-- ===== src/Tests/External.antt =====
-- The move of the external keys on a small environment.
use xiaoy_md.Prelude.{◌≡◌, refl, [], ◌∷◌, some}
use xiaoy_md.Text.{Str, codes, str_eq}
use xiaoy_md.Dict.{Dict, lookup, insert, erase}
use xiaoy_md.Config.{user_id, primary_env_map, backup_env_map}
use xiaoy_md.Config.External.{
  attr_of, primary_aliases, legacy_key, primary_keys, backup_keys, pop_first, put_attr, collect,
  put_payload, transform_external_data,
}
use xiaoy_md.Config.External.Moved.{primary, aliases_of, transform_external_data-moves}
use xiaoy_md.Config.External.Loop.{first_of}

-- a value is a text or the payload of a profile
data Given : Type 0 where
  plain : Str → Given
  profile : Dict Str → Given

abbrev texts : Dict Given → Dict Str
texts [] = []
texts ((key, plain s) ∷ d) = (key, s) ∷ texts d
texts ((key, profile p) ∷ d) = texts d

abbrev as_dict : Dict Given → Given
as_dict d = profile (texts d)

abbrev environment : Dict Given
environment =
    (codes "CTP_USER_ID", plain (codes "old"))
    ∷ (codes "CTP_PRIMARY_USER_ID", plain (codes "new"))
    ∷ (codes "CTP_BACKUP_APP_ID", plain (codes "app"))
    ∷ []

-- both names are given: the longer one is read, the other stays
transform_external_data_run :
    transform_external_data as_dict environment
    ≡ (codes "CTP_USER_ID", plain (codes "old"))
      ∷ (codes "ctp_primary", profile ((codes "user_id", codes "new") ∷ []))
      ∷ (codes "ctp_backup", profile ((codes "app_id", codes "app") ∷ []))
      ∷ []
unfolding lookup insert erase str_eq attr_of legacy_key primary_keys backup_keys primary_env_map
    backup_env_map pop_first put_attr collect put_payload transform_external_data
transform_external_data_run = refl

user_given : first_of (aliases_of primary user_id) environment ≡ some (plain (codes "new"))
unfolding lookup str_eq primary_aliases
user_given = refl

transform_external_data-moves_example :
    (payload : Dict Given) × (lookup (attr_of user_id) payload ≡ some (plain (codes "new")))
    × (lookup (codes "ctp_primary") (transform_external_data as_dict environment)
        ≡ some (as_dict payload))
transform_external_data-moves_example =
    transform_external_data-moves as_dict environment primary user_id (plain (codes "new"))
      user_given
