-- ===== src/Health/Catalogue/Formats.antt =====
-- A catalogue of symbols in its two formats (src/operations/check_feed_health.py).
use xiaoy_md.Prelude.{◌≡◌, refl, ap, sym, ◌∙◌, Bool, true, false, List, [], ◌∷◌, some, arith, All}
use xiaoy_md.Text.{Str, codes, str_eq, strip}
use xiaoy_md.FullFeed.Reasons.{starts_with, lower}
use xiaoy_md.Health.Catalogue.{
  listed, items_of, stripped_set, csv_set, File, loaded, load_json, resolve_format, load_as,
  load_catalogue_file,
}

-- the rows of a file with a symbol in the first column and anything behind it
abbrev pub rows_of : List (Str × List Str) → List (List Str)
rows_of [] = []
rows_of ((s, row) ∷ rows) = (s ∷ row) ∷ rows_of rows

abbrev pub symbols_in : List (Str × List Str) → List Str
symbols_in [] = []
symbols_in ((s, row) ∷ rows) = s ∷ symbols_in rows

abbrev pub is_comment : Str → Bool
is_comment s = starts_with (strip s) (codes "#")

csv_set-rows_of :
    (rows : List (Str × List Str))
    → All (λ s. is_comment s ≡ false) (symbols_in rows)
    → csv_set (rows_of rows) ≡ stripped_set (symbols_in rows)
unfolding csv_set stripped_set
csv_set-rows_of [] a = refl
csv_set-rows_of ((s, row) ∷ rows) a = ground (arith, a.0, csv_set-rows_of rows a.1)

auto_csv :
    (suffix : Str)
    → str_eq (lower suffix) (codes ".csv") ≡ true
    → resolve_format (codes "auto") suffix ≡ codes "csv"
unfolding resolve_format str_eq
auto_csv suffix h = rw h refl

auto_json :
    (suffix : Str)
    → str_eq (lower suffix) (codes ".csv") ≡ false
    → resolve_format (codes "auto") suffix ≡ codes "json"
unfolding resolve_format str_eq
auto_json suffix h = rw h refl

load_as-csv : (file : File) → load_as (codes "csv") file ≡ loaded (csv_set file.rows)
unfolding load_as str_eq
load_as-csv file = refl

load_as-json : (file : File) → load_as (codes "json") file ≡ load_json file.json
unfolding load_as str_eq
load_as-json file = refl

-- An `auto` catalogue: a file of rows, none a comment, that ends in `.csv`, in any case, is loaded as
-- the same set as a JSON file, with any other ending, that lists the symbols of the first column.
pub load_catalogue_file-same :
    (rows : List (Str × List Str)) (table document : File)
    → All (λ s. is_comment s ≡ false) (symbols_in rows)
    → table.rows ≡ rows_of rows
    → document.json ≡ some (listed (symbols_in rows))
    → str_eq (lower table.suffix) (codes ".csv") ≡ true
    → str_eq (lower document.suffix) (codes ".csv") ≡ false
    → load_catalogue_file table (codes "auto") ≡ load_catalogue_file document (codes "auto")
unfolding load_catalogue_file load_json items_of
load_catalogue_file-same rows table document a t d csv json =
    ap (λ format. load_as format table) (auto_csv table.suffix csv)
    ∙ load_as-csv table
    ∙ ap (λ r. loaded (csv_set r)) t
    ∙ ap loaded (csv_set-rows_of rows a)
    ∙ sym (ap load_json d)
    ∙ sym (load_as-json document)
    ∙ sym (ap (λ format. load_as format document) (auto_json document.suffix json))
