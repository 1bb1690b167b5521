-- ===== src/Architecture.antt =====
-- The check of the layers (scripts/check_architecture.py). A file is given by the parts of its
-- path, its text, and the import statements that `ast.parse` finds in it.
pub mod Clean
use xiaoy_md.Prelude.{
  ℕ, ◌+◌, Bool, true, false, ◌&&◌, ◌||◌, List, [], ◌∷◌, ◌++◌, Option, none, some, ◌==◌, length,
  if◌then◌else◌,
}
use xiaoy_md.Text.{Str, codes, is_empty}
use xiaoy_md.Dict.{mem}
use xiaoy_md.FullFeed.Reasons.{contains}

pub data Layer : Type 0 where
  domain application infrastructure unknown : Layer

-- `_detect_layer`
unfoldable pub detect_layer : List Str → Layer
detect_layer parts =
    if mem (codes "domain") parts
    then domain
    else if mem (codes "application") parts
    then application
    else if mem (codes "infrastructure") parts
    then infrastructure
    else unknown

-- `LAYER_RULES`, the forbidden patterns
unfoldable pub forbidden_imports : Layer → List Str
forbidden_imports domain = codes "infrastructure" ∷ codes "api" ∷ codes "web" ∷ []
forbidden_imports application = codes "infrastructure" ∷ codes "api" ∷ codes "web" ∷ []
forbidden_imports infrastructure = []
forbidden_imports unknown = []

-- an import of names, or from a module, which is missing in `from . import x`
pub data Import : Type 0 where
  import_names : List Str → Import
  import_from : Option Str → Import

-- a forbidden pattern in an imported module, or a file that does not parse
pub data Violation : Type 0 where
  forbidden : Layer → Str → Str → Violation
  syntax_error : Violation

-- `_validate_import`, for the patterns
unfoldable pub validate_patterns : Layer → Str → List Str → List Violation
validate_patterns layer name [] = []
validate_patterns layer name (pattern ∷ patterns) =
    let rest = validate_patterns layer name patterns in
    if contains name pattern then forbidden layer name pattern ∷ rest else rest

unfoldable pub validate_import : Layer → Str → List Violation
unfolding validate_patterns forbidden_imports
validate_import layer name = validate_patterns layer name (forbidden_imports layer)

unfoldable pub validate_names : Layer → List Str → List Violation
unfolding validate_import
validate_names layer [] = []
validate_names layer (name ∷ names) = validate_import layer name ++ validate_names layer names

-- `visit_Import` and `visit_ImportFrom`
unfoldable pub visit : Layer → Import → List Violation
unfolding validate_names validate_import
visit layer (import_names names) = validate_names layer names
visit layer (import_from none) = []
visit layer (import_from (some name)) = if is_empty name then [] else validate_import layer name

unfoldable pub visit_each : Layer → List Import → List Violation
unfolding visit
visit_each layer [] = []
visit_each layer (i ∷ imports) = visit layer i ++ visit_each layer imports

-- a file; no imports are a SyntaxError
pub record File : Type 0 where
  pub parts : List Str
  pub content : Str
  pub imports : Option (List Import)

unfoldable pub file_violations : File → List Violation
unfolding visit_each
file_violations f = elim f.imports [
  | none ↦ syntax_error ∷ []
  | some imports ↦ visit_each (detect_layer f.parts) imports
]

-- `validate_architecture`, for the files under src
unfoldable pub validate_architecture : List File → List Violation
unfolding file_violations
validate_architecture [] = []
validate_architecture (f ∷ files) = file_violations f ++ validate_architecture files

-- the tests of `validate_imports_direction` for a file of the domain and of the application
unfoldable pub domain_crosses : File → Bool
domain_crosses f =
    contains f.content (codes "from src.infrastructure")
    || contains f.content (codes "from src.application")

unfoldable pub application_crosses : File → Bool
application_crosses f = contains f.content (codes "from src.infrastructure")

-- `validate_imports_direction`: the number of violations
unfoldable pub crossings : (File → Bool) → List File → List File
crossings crosses [] = []
crossings crosses (f ∷ files) =
    let rest = crossings crosses files in if crosses f then f ∷ rest else rest

-- the tree: which of the three directories exist, all files, and those of the two inner layers
pub record Tree : Type 0 where
  pub has_domain : Bool
  pub has_application : Bool
  pub has_infrastructure : Bool
  pub files : List File
  pub domain_files : List File
  pub application_files : List File

-- `main`
unfoldable pub main : Tree → ℕ
main t =
    if (t.has_domain && t.has_application && t.has_infrastructure)
      && length (validate_architecture t.files) == 0
      && (length (crossings domain_crosses t.domain_files)
          + length (crossings application_crosses t.application_files))
        == 0
    then 0
    else 1
