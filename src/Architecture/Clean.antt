-- ===== src/Architecture/Clean.antt =====
-- When the check of the layers passes (scripts/check_architecture.py).
use xiaoy_md.Prelude.{
  ◌≡◌, refl, sym, ◌∙◌, Bool, true, false, not, ◌&&◌, ◌||◌, List, [], ◌∷◌, none, some, arith, ◌==◌,
  length, length-append, Option-cases, inl, inr, Bool-cases,
}
use xiaoy_md.Text.{Str, codes}
use xiaoy_md.Dict.{mem}
use xiaoy_md.FullFeed.Reasons.{contains}
use xiaoy_md.Architecture.{
  Layer, domain, application, infrastructure, unknown, detect_layer, forbidden_imports, Import,
  import_names, import_from, validate_patterns, validate_import, validate_names, visit, visit_each,
  File, file_violations, validate_architecture, domain_crosses, application_crosses, crossings,
  Tree, main,
}

-- a layer whose files must not reach outward
abbrev pub is_inner : Layer → Bool
is_inner domain = true
is_inner application = true
is_inner infrastructure = false
is_inner unknown = false

-- a file with `domain` or `application` among the parts of its path
abbrev pub is_inner_file : File → Bool
is_inner_file f = mem (codes "domain") f.parts || mem (codes "application") f.parts

detect_layer-is_inner :
    (parts : List Str)
    → is_inner (detect_layer parts)
      ≡ (mem (codes "domain") parts || mem (codes "application") parts)
unfolding detect_layer
detect_layer-is_inner parts = elim (Bool-cases (mem (codes "domain") parts)) [
  | inl d ↦ rw (detect_layer, d) refl
  | inr d ↦ elim (Bool-cases (mem (codes "application") parts)) [
    | inl a ↦ rw (detect_layer, d, a) refl
    | inr a ↦ elim (Bool-cases (mem (codes "infrastructure") parts)) [
      | inl i ↦ rw (detect_layer, d, a, i) refl
      | inr i ↦ rw (detect_layer, d, a, i) refl
    ]
  ]
]

abbrev pub is_outer_name : Str → Bool
is_outer_name name =
    contains name (codes "infrastructure")
    || contains name (codes "api")
    || contains name (codes "web")

abbrev pub imported : Import → List Str
imported (import_names names) = names
imported (import_from none) = []
imported (import_from (some name)) = name ∷ []

abbrev pub all : {A : Type 0} → (A → Bool) → List A → Bool
all p [] = true
all p (x ∷ xs) = p x && all p xs

-- a file parses, and one of an inner layer imports no module whose name has an outer pattern
abbrev pub is_clean : File → Bool
is_clean f = elim f.imports [
  | none ↦ false
  | some imports ↦
      all (λ i. all (λ name. not (is_inner_file f) || not (is_outer_name name)) (imported i))
        imports
]

no_violation :
    (layer : Layer) (name : Str)
    → (length (validate_import layer name) == 0)
      ≡ (not (is_inner layer) || not (is_outer_name name))
unfolding validate_import validate_patterns forbidden_imports
no_violation domain name = ground arith
no_violation application name = ground arith
no_violation infrastructure name = refl
no_violation unknown name = refl

abbrev pub fine : Layer → Str → Bool
fine layer name = not (is_inner layer) || not (is_outer_name name)

no_violations :
    (layer : Layer) (names : List Str)
    → (length (validate_names layer names) == 0) ≡ all (fine layer) names
unfolding validate_names
no_violations layer [] = refl
no_violations layer (name ∷ names) = ground (
  arith,
  length-append (validate_import layer name) (validate_names layer names),
  no_violation layer name,
  no_violations layer names,
)

and_true : (b : Bool) → (b && true) ≡ b
and_true true = refl
and_true false = refl

empty_fine : (layer : Layer) → true ≡ (fine layer [] && true)
empty_fine domain = refl
empty_fine application = refl
empty_fine infrastructure = refl
empty_fine unknown = refl

visit-clean :
    (layer : Layer) (i : Import) → (length (visit layer i) == 0) ≡ all (fine layer) (imported i)
unfolding visit
visit-clean layer (import_names names) = no_violations layer names
visit-clean layer (import_from none) = refl
visit-clean layer (import_from (some [])) = empty_fine layer
visit-clean layer (import_from (some (c ∷ name))) =
    no_violation layer (c ∷ name) ∙ sym (and_true (fine layer (c ∷ name)))

visit_each-clean :
    (layer : Layer) (imports : List Import)
    → (length (visit_each layer imports) == 0) ≡ all (λ i. all (fine layer) (imported i)) imports
unfolding visit_each
visit_each-clean layer [] = refl
visit_each-clean layer (i ∷ imports) = ground (
  arith,
  length-append (visit layer i) (visit_each layer imports),
  visit-clean layer i,
  visit_each-clean layer imports,
)

file_violations-clean : (f : File) → (length (file_violations f) == 0) ≡ is_clean f
unfolding file_violations
file_violations-clean f = elim (Option-cases f.imports) [
  | inl e ↦ rw (e, file_violations) refl
  | inr (imports, e) ↦
      rw (e, file_violations, sym (detect_layer-is_inner f.parts))
        (visit_each-clean (detect_layer f.parts) imports)
]

validate_architecture-clean :
    (files : List File) → (length (validate_architecture files) == 0) ≡ all is_clean files
unfolding validate_architecture
validate_architecture-clean [] = refl
validate_architecture-clean (f ∷ files) = ground (
  arith,
  length-append (file_violations f) (validate_architecture files),
  file_violations-clean f,
  validate_architecture-clean files,
)

crossings-none :
    (crosses : File → Bool) (files : List File)
    → (length (crossings crosses files) == 0) ≡ all (λ f. not (crosses f)) files
unfolding crossings
crossings-none crosses [] = refl
crossings-none crosses (f ∷ files) = ground (arith, crossings-none crosses files)

-- a text with this in it
abbrev pub has_text : Str → File → Bool
has_text s f = contains f.content s

domain_crossings-none :
    (files : List File)
    → (length (crossings domain_crosses files) == 0)
      ≡ all
          (λ f.
            not (has_text (codes "from src.infrastructure") f)
            && not (has_text (codes "from src.application") f))
          files
unfolding crossings domain_crosses
domain_crossings-none [] = refl
domain_crossings-none (f ∷ files) = ground (arith, domain_crossings-none files)

-- The check returns 0 exactly when the three directories are there, every file parses, no file with
-- `domain` or `application` in its path has an `import` of a module, or a `from` with a module,
-- whose name has `infrastructure`, `api` or `web` in it (the names behind `from a import` are not
-- looked at), no text of a domain file has `from src.infrastructure` or `from src.application` in
-- it, and no text of an application file has `from src.infrastructure`.
pub main-clean :
    (t : Tree)
    → (main t == 0) ≡ (
        (t.has_domain && t.has_application && t.has_infrastructure)
        && all is_clean t.files
        && all
            (λ f.
              not (has_text (codes "from src.infrastructure") f)
              && not (has_text (codes "from src.application") f))
            t.domain_files
        && all (λ f. not (has_text (codes "from src.infrastructure") f)) t.application_files)
unfolding main application_crosses
main-clean t = ground (
  arith,
  validate_architecture-clean t.files,
  domain_crossings-none t.domain_files,
  crossings-none application_crosses t.application_files,
)
