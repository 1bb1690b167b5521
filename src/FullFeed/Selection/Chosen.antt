-- ===== src/FullFeed/Selection/Chosen.antt =====
-- Which symbols are chosen, and how they are cut into chunks.
use xiaoy_md.Prelude.{
  ℕ, ◌≤◌, ◌<◌, ◌≡◌, refl, ap, inl, inr, ◌⊎◌, Bool, true, false, not, ◌&&◌, ◌||◌, List, [], ◌∷◌,
  ◌++◌, none, leb, max, length, All, All-append, append_assoc, length-append, arith, Bool-cases,
}
use xiaoy_md.Text.{Str, str_eq, str_eq_iff, is_empty, strip, has_char}
use xiaoy_md.Dict.{mem}
use xiaoy_md.Dict.Sets.{mem-append, Unique, Unique-append_one}
use xiaoy_md.FullFeed.Selection.{
  matches_any, no_patterns, Selection, passed_over, ampersand_skipped, chosen, verdict, is_full,
  filter_loop, filter_symbols, chunk_loop, chunk,
}

pub concat : List (List Str) → List Str
concat [] = []
concat (xs ∷ rest) = xs ++ concat rest

-- a chunk holds a symbol, and no more than the step
abbrev pub IsChunk : ℕ → List Str → Type 0
IsChunk step xs = (1 ≤ length xs) × (length xs ≤ step)

chunk_loop-concat :
    (step : ℕ) (symbols bucket : List Str)
    → concat (chunk_loop step symbols bucket) ≡ bucket ++ symbols
unfolding chunk_loop concat
chunk_loop-concat step [] [] = refl
chunk_loop-concat step [] (x ∷ bucket) = refl
chunk_loop-concat step (sym ∷ symbols) bucket = ground (
  arith,
  append_assoc bucket (sym ∷ []) symbols,
  chunk_loop-concat step symbols [],
  chunk_loop-concat step symbols (bucket ++ sym ∷ []),
)

chunk_loop-IsChunk :
    (step : ℕ) (symbols bucket : List Str)
    → length bucket < step
    → All (IsChunk step) (chunk_loop step symbols bucket)
unfolding chunk_loop
chunk_loop-IsChunk step [] [] lt = tt
chunk_loop-IsChunk step [] (x ∷ bucket) lt = omega arith
chunk_loop-IsChunk step (sym ∷ symbols) bucket lt =
    let n = length-append bucket (sym ∷ []) in
    elim (Bool-cases (leb step (length (bucket ++ sym ∷ [])))) [
      | inl e ↦
          rw (e, chunk_loop)
            ((omega (arith, n), omega (arith, n)), chunk_loop-IsChunk step symbols [] (omega arith))
      | inr e ↦
          rw (e, chunk_loop) (chunk_loop-IsChunk step symbols (bucket ++ sym ∷ []) (ground arith))
    ]

-- The chunks of a list are its symbols in their order; each holds at least one and at most the
-- size asked for, or one where that is zero.
chunk-concat :
    (symbols : List Str) (size : ℕ)
    → (concat (chunk symbols size) ≡ symbols) × All (IsChunk (max 1 size)) (chunk symbols size)
unfolding chunk
chunk-concat symbols size = (
  chunk_loop-concat (max 1 size) symbols [],
  chunk_loop-IsChunk (max 1 size) symbols [] (omega arith),
)

module _ (fnmatch : Str → Str → Bool) (c : Selection) where
  -- the arguments ask for this text
  abbrev pub is_wanted : Str → Bool
  is_wanted text =
      not (is_empty text)
      && ((c.allow_ampersand || not (has_char b'&' text))
          && ((no_patterns c.included || matches_any fnmatch text c.included)
              && not (matches_any fnmatch text c.excluded)))

  verdict-cases :
      (text : Str) (canonical : List Str)
      → ((verdict fnmatch c text canonical ≡ chosen)
          × (is_wanted text ≡ true)
          × (mem text canonical ≡ false))
        ⊎ (((verdict fnmatch c text canonical ≡ passed_over)
              ⊎ (verdict fnmatch c text canonical ≡ ampersand_skipped))
            × ((is_wanted text ≡ false) ⊎ (mem text canonical ≡ true)))
  unfolding verdict
  verdict-cases text canonical = ground arith

  -- what the loop keeps of `canonical`
  abbrev pub Fits : List Str → Type 0
  Fits canonical = Unique canonical × All (λ text. is_wanted text ≡ true) canonical

  Fits-append :
      (canonical : List Str) (text : Str)
      → Fits canonical
      → is_wanted text ≡ true
      → mem text canonical ≡ false
      → Fits (canonical ++ text ∷ [])
  Fits-append canonical text f wanted fresh = (
    Unique-append_one canonical text f.0 fresh,
    All-append (λ x. is_wanted x ≡ true) canonical (text ∷ []) f.1 (wanted, tt),
  )

  filter_loop-Fits :
      (symbols canonical skipped : List Str)
      → Fits canonical
      → Fits (filter_loop fnmatch c symbols canonical skipped).0
  unfolding filter_loop
  filter_loop-Fits [] canonical skipped f = f
  filter_loop-Fits (symbol ∷ symbols) canonical skipped f =
      let text = strip symbol in
      elim (verdict-cases text canonical) [
        | inl (e, wanted, fresh) ↦
            let more = Fits-append canonical text f wanted fresh in
            elim (Bool-cases (is_full fnmatch c c.limit (canonical ++ text ∷ []))) [
              | inl full ↦ rw (e, filter_loop) (rw full more)
              | inr room ↦
                  rw (e, filter_loop)
                    (rw room (filter_loop-Fits symbols (canonical ++ text ∷ []) skipped more))
            ]
        | inr (inl e, why) ↦ rw (e, filter_loop) (filter_loop-Fits symbols canonical skipped f)
        | inr (inr e, why) ↦
            rw (e, filter_loop) (filter_loop-Fits symbols canonical (skipped ++ text ∷ []) f)
      ]

  -- The chosen symbols stand once each, and the arguments ask for each of them.
  filter_symbols-Fits : (symbols : List Str) → Fits (filter_symbols fnmatch c symbols).0
  unfolding filter_symbols
  filter_symbols-Fits symbols = filter_loop-Fits symbols [] [] (tt, tt)

  -- a symbol stands among the given ones, with white space about it
  abbrev pub is_given : Str → List Str → Bool
  is_given x [] = false
  is_given x (symbol ∷ symbols) = str_eq (strip symbol) x || is_given x symbols

  filter_loop-mem :
      (x : Str) (symbols canonical skipped : List Str)
      → c.limit ≡ none
      → mem x (filter_loop fnmatch c symbols canonical skipped).0
        ≡ (mem x canonical || (is_given x symbols && is_wanted x))
  unfolding filter_loop mem
  filter_loop-mem x [] canonical skipped unlimited = ground arith
  filter_loop-mem x (symbol ∷ symbols) canonical skipped unlimited =
      let text = strip symbol in
      let here = str_eq_iff text x in
      let more = mem-append x canonical (text ∷ []) in
      let with = filter_loop-mem x symbols (canonical ++ text ∷ []) skipped unlimited in
      let without = filter_loop-mem x symbols canonical skipped unlimited in
      let skipping = filter_loop-mem x symbols canonical (skipped ++ text ∷ []) unlimited in
      let same : str_eq text x ≡ true
          → (is_wanted text ≡ is_wanted x) × (mem text canonical ≡ mem x canonical) =
        λ e. (ap is_wanted (here.0 e), ap (λ s. mem s canonical) (here.0 e)) in
      elim (verdict-cases text canonical) [
        | inl (v, wanted, fresh) ↦
            rw (v, filter_loop) (rw unlimited (ground (arith, with, more, same)))
        | inr (inl v, why) ↦ rw (v, filter_loop) (ground (arith, without, same))
        | inr (inr v, why) ↦ rw (v, filter_loop) (ground (arith, skipping, same))
      ]

  -- Without a limit, exactly the given symbols are chosen that the arguments ask for.
  pub filter_symbols-mem :
      (x : Str) (symbols : List Str)
      → c.limit ≡ none
      → mem x (filter_symbols fnmatch c symbols).0 ≡ (is_given x symbols && is_wanted x)
  unfolding filter_symbols mem
  filter_symbols-mem x symbols unlimited = filter_loop-mem x symbols [] [] unlimited
