-- ===== src/FullFeed/Selection.antt =====
-- `_filter_symbols` and `_chunk` (src/operations/full_feed_subscription.py). `fnmatch` is a
-- parameter, the symbols are texts, and an absent list of patterns is the empty one.
pub mod Chosen
use xiaoy_md.Prelude.{
  ℕ, ◌+◌, Bool, true, false, not, ◌&&◌, ◌||◌, List, [], ◌∷◌, ◌++◌, Option, none, some, leb, max,
  length, if◌then◌else◌,
}
use xiaoy_md.Text.{Str, is_empty, strip, has_char}
use xiaoy_md.Dict.{mem}

-- `any(fnmatch.fnmatch(text, pattern) for pattern in patterns)`
abbrev pub matches_any : (Str → Str → Bool) → Str → List Str → Bool
matches_any fnmatch text [] = false
matches_any fnmatch text (p ∷ patterns) = fnmatch text p || matches_any fnmatch text patterns

abbrev pub no_patterns : List Str → Bool
no_patterns [] = true
no_patterns (p ∷ patterns) = false

-- the arguments of `_filter_symbols` behind the symbols
pub record Selection : Type 0 where
  pub included : List Str
  pub excluded : List Str
  pub limit : Option ℕ
  pub allow_ampersand : Bool

-- what one round of the loop does with a symbol
pub data Verdict : Type 0 where
  passed_over ampersand_skipped chosen : Verdict

module _ (fnmatch : Str → Str → Bool) (c : Selection) where
  -- the guards of a round in their order; `seen` holds the items of `canonical`
  unfoldable pub verdict : Str → List Str → Verdict
  verdict text canonical =
      if is_empty text
      then passed_over
      else if not c.allow_ampersand && has_char b'&' text
      then ampersand_skipped
      else if not (no_patterns c.included) && not (matches_any fnmatch text c.included)
      then passed_over
      else if matches_any fnmatch text c.excluded
      then passed_over
      else if mem text canonical
      then passed_over
      else chosen

  -- `limit is not None and len(canonical) >= limit`
  abbrev pub is_full : Option ℕ → List Str → Bool
  is_full none canonical = false
  is_full (some limit) canonical = leb limit (length canonical)

  -- the loop: the symbols left, `canonical` and `skipped_ampersand`
  unfoldable pub filter_loop : List Str → List Str → List Str → List Str × List Str
  filter_loop [] canonical skipped = (canonical, skipped)
  filter_loop (symbol ∷ symbols) canonical skipped =
      let text = strip symbol in
      elim (verdict text canonical) [
        | passed_over ↦ filter_loop symbols canonical skipped
        | ampersand_skipped ↦ filter_loop symbols canonical (skipped ++ text ∷ [])
        | chosen ↦ elim (is_full c.limit (canonical ++ text ∷ [])) [
          | true ↦ (canonical ++ text ∷ [], skipped)
          | false ↦ filter_loop symbols (canonical ++ text ∷ []) skipped
        ]
      ]

  unfoldable pub filter_symbols : List Str → List Str × List Str
  filter_symbols symbols = filter_loop symbols [] []

-- the loop of `_chunk`, with the bucket so far
unfoldable pub chunk_loop : ℕ → List Str → List Str → List (List Str)
chunk_loop step [] [] = []
chunk_loop step [] (x ∷ bucket) = (x ∷ bucket) ∷ []
chunk_loop step (sym ∷ symbols) bucket = elim (leb step (length (bucket ++ sym ∷ []))) [
  | true ↦ (bucket ++ sym ∷ []) ∷ chunk_loop step symbols []
  | false ↦ chunk_loop step symbols (bucket ++ sym ∷ [])
]

unfoldable pub chunk : List Str → ℕ → List (List Str)
chunk symbols size = chunk_loop (max 1 size) symbols []
