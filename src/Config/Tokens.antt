-- ===== src/Config/Tokens.antt =====
-- The lists of texts in the settings (src/config.py): `_dedupe_seq`, the splitting of tokens,
-- `_normalize_ops_tokens` and `_normalize_ops_cors_methods`.
pub mod Distinct
use xiaoy_md.Prelude.{
  ℕ, ◌≡◌, refl, Bool, true, false, not, ◌&&◌, ◌||◌, List, [], ◌∷◌, ◌++◌, arith, leb, ltb, ◌-◌, ◌==◌,
  length, if◌then◌else◌, Bool-cases, inl, inr,
}
use xiaoy_md.Text.{Str, codes, str_eq, str_eq_iff, is_empty, strip}
use xiaoy_md.Dict.{mem, add}
use xiaoy_md.Dict.Sets.{mem-append, mem-add, Unique, Unique-append_one, Unique-add}

-- `value and value not in items`, for the stripped value
unfoldable pub add_token : Str → List Str → List Str
unfolding add
add_token item items = if is_empty (strip item) then items else add (strip item) items

-- the loop of `_dedupe_seq`
unfoldable pub dedupe_loop : List Str → List Str → List Str
unfolding add_token
dedupe_loop [] items = items
dedupe_loop (item ∷ seq) items = dedupe_loop seq (add_token item items)

-- `_dedupe_seq` of a sequence
unfoldable pub dedupe_seq : List Str → List Str
unfolding dedupe_loop
dedupe_seq seq = dedupe_loop seq []

-- `value.replace("\n", ",").split(",")`
unfoldable pub split_commas : Str → List Str
split_commas [] = [] ∷ []
split_commas (c ∷ s) = elim (split_commas s) [
  | [] ↦ (c ∷ []) ∷ []
  | part ∷ parts ↦ if c == b',' || c == 10 then [] ∷ part ∷ parts else (c ∷ part) ∷ parts
]

unfoldable pub split_all : List Str → List Str
unfolding split_commas
split_all [] = []
split_all (value ∷ values) = split_commas value ++ split_all values

-- every item is one character
unfoldable pub all_single : List Str → Bool
all_single [] = true
all_single (item ∷ items) = length item == 1 && all_single items

unfoldable pub join : List Str → Str
join [] = []
join (item ∷ items) = item ++ join items

-- `_normalize_ops_tokens`: a text that was taken for a list of characters is put together again
unfoldable pub normalize_ops_tokens : List Str → List Str
unfolding all_single join split_all dedupe_loop
normalize_ops_tokens raw =
    let values = if ltb 1 (length raw) && all_single raw then join raw ∷ [] else raw in
    dedupe_loop (split_all values) []

-- `value.upper()`, on the letters of method names
abbrev pub upper : Str → Str
upper [] = []
upper (c ∷ s) = (if leb b'a' c && leb c b'z' then c - 32 else c) ∷ upper s

unfoldable pub uppers : List Str → List Str
uppers [] = []
uppers (v ∷ values) = upper v ∷ uppers values

-- `_normalize_ops_cors_methods`
unfoldable pub normalize_ops_cors_methods : List Str → List Str
unfolding dedupe_seq uppers mem
normalize_ops_cors_methods raw =
    let methods = uppers (dedupe_seq raw) in
    if length methods == 0
    then codes "GET" ∷ []
    else if mem (codes "*") methods
    then codes "*" ∷ []
    else if mem (codes "OPTIONS") methods
    then methods
    else methods ++ codes "OPTIONS" ∷ []
