-- ===== src/Health/Ignored.antt =====
-- `_load_ignored_symbols` (src/operations/check_feed_health.py): the symbols that the latest full
-- feed run has seen rejected. A summary that cannot be read is none; the summaries come latest
-- first, and a rejected item that is no object is none.
use xiaoy_md.Prelude.{◌≡◌, refl, List, [], ◌∷◌, ◌++◌, Option, none, some, All, if◌then◌else◌, arith}
use xiaoy_md.Text.{Str, is_empty, strip}
use xiaoy_md.Dict.{add}
use xiaoy_md.Dict.Sets.{Unique, Unique-add}

-- `rejected_items` and `rejected`
pub record Summary : Type 0 where
  pub rejected_items : List (Option Str)
  pub rejected : List (Option Str)

-- `data.get("rejected_items") or data.get("rejected") or []`
unfoldable pub items_of : Summary → List (Option Str)
items_of s = elim s.rejected_items [ [] ↦ s.rejected | item ∷ items ↦ item ∷ items ]

-- the set of the stripped symbols that are not empty
unfoldable pub symbols_of : List (Option Str) → List Str
symbols_of [] = []
symbols_of (none ∷ items) = symbols_of items
symbols_of (some symbol ∷ items) =
    let rest = symbols_of items in if is_empty (strip symbol) then rest else add (strip symbol) rest

-- the first summary with such a symbol
unfoldable pub first_ignored : List (Option Summary) → List Str
first_ignored [] = []
first_ignored (none ∷ summaries) = first_ignored summaries
first_ignored (some s ∷ summaries) = elim (symbols_of (items_of s)) [
  | [] ↦ first_ignored summaries
  | symbol ∷ ignored ↦ symbol ∷ ignored
]

-- the summaries, or none where the directory is missing or cannot be listed
unfoldable pub load_ignored_symbols : Option (List (Option Summary)) → List Str
load_ignored_symbols none = []
load_ignored_symbols (some summaries) = first_ignored summaries

-- a summary gives no symbol
abbrev pub Silent : Option Summary → Type 0
Silent none = Unit
Silent (some s) = symbols_of (items_of s) ≡ []

symbols_of-Unique : (items : List (Option Str)) → Unique (symbols_of items)
unfolding symbols_of
symbols_of-Unique [] = tt
symbols_of-Unique (none ∷ items) = symbols_of-Unique items
symbols_of-Unique (some symbol ∷ items) = ground (
  arith,
  Unique-add (strip symbol) (symbols_of items) (symbols_of-Unique items),
  symbols_of-Unique items,
)

-- The first summary that gives a symbol decides: when those before it give none, the ignored symbols
-- are its own, and no symbol stands twice among them, whatever is in the older ones.
first_ignored-Silent :
    (before after : List (Option Summary)) (s : Summary) (symbol : Str) (ignored : List Str)
    → All Silent before
    → symbols_of (items_of s) ≡ symbol ∷ ignored
    → (load_ignored_symbols (some (before ++ some s ∷ after)) ≡ symbol ∷ ignored)
      × Unique (symbol ∷ ignored)
unfolding load_ignored_symbols first_ignored
first_ignored-Silent [] after s symbol ignored h e =
    (rw (first_ignored, e) refl, rw e at (symbols_of-Unique (items_of s)))
first_ignored-Silent (none ∷ before) after s symbol ignored h e =
    first_ignored-Silent before after s symbol ignored h.1 e
first_ignored-Silent (some t ∷ before) after s symbol ignored h e =
    rw (first_ignored, h.0) (first_ignored-Silent before after s symbol ignored h.1 e)
