-- ===== src/Health/Catalogue.antt =====
-- What the health check compares (src/operations/check_feed_health.py): `_load_catalogue_file`,
-- `_load_expected_symbols`, `_load_active_subscriptions` and `_parse_subscriptions_payload`. A file
-- is given by what `json.loads` and `csv.reader` read of it, and a response by its symbols.
pub mod Formats
use xiaoy_md.Prelude.{
  ℕ, Bool, true, false, not, ◌&&◌, List, [], ◌∷◌, Option, none, some, if◌then◌else◌,
}
use xiaoy_md.Text.{Str, codes, str_eq, is_empty, strip}
use xiaoy_md.Dict.{add}
use xiaoy_md.FullFeed.Reasons.{lower, starts_with}
use xiaoy_md.Health.Records.{SubscriptionRecord, Payload, parse_subscriptions}

-- the JSON of a list of items, or of an object that names lists
pub data Document (A : Type 0) : Type 0 where
  listed : List A → Document A
  object : List A → List A → Document A

-- `payload.get(name) or payload.get("items") or []`, or the payload
unfoldable pub items_of : {A : Type 0} → Document A → List A
items_of (listed items) = items
items_of (object named items) = elim named [ [] ↦ items | item ∷ rest ↦ item ∷ rest ]

-- `{str(symbol).strip() for symbol in symbols if str(symbol).strip()}`
unfoldable pub stripped_set : List Str → List Str
unfolding add
stripped_set [] = []
stripped_set (s ∷ symbols) =
    let rest = stripped_set symbols in if is_empty (strip s) then rest else add (strip s) rest

-- the first column, without the rows that are empty and the comments
unfoldable pub csv_set : List (List Str) → List Str
unfolding add
csv_set [] = []
csv_set ([] ∷ rows) = csv_set rows
csv_set ((cell ∷ row) ∷ rows) =
    let rest = csv_set rows in
    let symbol = strip cell in
    if not (is_empty symbol) && not (starts_with symbol (codes "#")) then add symbol rest else rest

-- a file: its suffix, its JSON (none is a JSONDecodeError) and its rows
pub record File : Type 0 where
  pub suffix : Str
  pub json : Option (Document Str)
  pub rows : List (List Str)

-- the exceptions, and the set
pub data Loaded (A : Type 0) : Type 0 where
  loaded : A → Loaded A
  json_decode_error catalogue_format_error missing_nats_url request_failed : Loaded A

unfoldable pub load_json : Option (Document Str) → Loaded (List Str)
unfolding stripped_set items_of
load_json none = json_decode_error
load_json (some document) = loaded (stripped_set (items_of document))

unfoldable pub resolve_format : Str → Str → Str
resolve_format fmt suffix =
    if str_eq fmt (codes "auto")
    then if str_eq (lower suffix) (codes ".csv") then codes "csv" else codes "json"
    else fmt

-- a file in a format
unfoldable pub load_as : Str → File → Loaded (List Str)
load_as format file =
    if str_eq format (codes "json")
    then load_json file.json
    else if str_eq format (codes "csv")
    then loaded (csv_set file.rows)
    else catalogue_format_error

-- `_load_catalogue_file`
unfoldable pub load_catalogue_file : File → Str → Loaded (List Str)
load_catalogue_file file fmt = load_as (resolve_format fmt file.suffix) file

-- what the control plane answers: none is a request that raised or a response that is no object
unfoldable pub from_answer : Option (List Str) → Loaded (List Str)
unfolding stripped_set
from_answer none = request_failed
from_answer (some symbols) = loaded (stripped_set symbols)

-- `_load_expected_symbols`: the catalogue file with its format, if there is one, whether there is a
-- URL, and the answer of `md.contracts.list`
unfoldable pub load_expected_symbols :
    Option (File × Str) → Bool → Option (List Str) → Loaded (List Str)
load_expected_symbols (some (file, fmt)) has_url answer = load_catalogue_file file fmt
load_expected_symbols none false answer = missing_nats_url
load_expected_symbols none true answer = from_answer answer

-- `_parse_subscriptions_payload`
unfoldable pub parse_subscriptions_payload : ℕ → Document Payload → List SubscriptionRecord
parse_subscriptions_payload now document = parse_subscriptions now (items_of document)

-- `_load_active_subscriptions`: the JSON of the active file, if there is one (none is a
-- JSONDecodeError), whether there is a URL, and the answer of `md.subscriptions.active`
unfoldable pub load_active_subscriptions :
    ℕ
    → Option (Option (Document Payload))
    → Bool
    → Option (Document Payload)
    → Loaded (List SubscriptionRecord)
unfolding parse_subscriptions_payload
load_active_subscriptions now (some none) has_url answer = json_decode_error
load_active_subscriptions now (some (some document)) has_url answer =
    loaded (parse_subscriptions_payload now document)
load_active_subscriptions now none false answer = missing_nats_url
load_active_subscriptions now none true none = request_failed
load_active_subscriptions now none true (some document) =
    loaded (parse_subscriptions_payload now document)
