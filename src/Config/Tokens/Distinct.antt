-- ===== src/Config/Tokens/Distinct.antt =====
-- What the lists of texts in the settings hold (src/config.py).
use xiaoy_md.Prelude.{
  ◌≡◌, ◌⊎◌, refl, ap, Bool, true, false, not, ◌&&◌, ◌||◌, List, [], ◌∷◌, ◌++◌, arith, ltb, ◌==◌,
  length, if◌then◌else◌, Bool-cases, inl, inr,
}
use xiaoy_md.Text.{Str, codes, str_eq, str_eq_iff, is_empty, strip}
use xiaoy_md.Dict.{mem, add}
use xiaoy_md.Dict.Sets.{mem-append, mem-add, Unique, Unique-add}
use xiaoy_md.Config.Tokens.{
  add_token, dedupe_loop, dedupe_seq, split_all, join, all_single, normalize_ops_tokens, uppers,
  normalize_ops_cors_methods,
}

-- x is one of the items, stripped
abbrev pub is_stripped : Str → List Str → Bool
is_stripped x [] = false
is_stripped x (item ∷ seq) = str_eq (strip item) x || is_stripped x seq

empty_eq : (x y : Str) → str_eq x y ≡ true → is_empty x ≡ is_empty y
empty_eq x y h = ap is_empty ((str_eq_iff x y).0 h)

dedupe_loop-mem :
    (x : Str) (seq items : List Str)
    → mem x (dedupe_loop seq items) ≡ (mem x items || (not (is_empty x) && is_stripped x seq))
unfolding dedupe_loop add_token
dedupe_loop-mem x [] items = ground arith
dedupe_loop-mem x (item ∷ seq) items = ground (
  arith,
  dedupe_loop-mem x seq items,
  dedupe_loop-mem x seq (add (strip item) items),
  mem-add x (strip item) items,
  empty_eq (strip item) x,
)

dedupe_loop-Unique : (seq items : List Str) → Unique items → Unique (dedupe_loop seq items)
unfolding dedupe_loop add_token
dedupe_loop-Unique [] items u = u
dedupe_loop-Unique (item ∷ seq) items u =
    dedupe_loop-Unique seq (add_token item items)
      (ground (arith, Unique-add (strip item) items u, u))

-- The tokens of the operations API are different texts, and are exactly the texts, not empty, that
-- stand stripped between the commas and line ends of the configured values, where a text that came
-- as the list of its characters counts as that text.
pub normalize_ops_tokens-mem :
    (x : Str) (raw : List Str)
    → Unique (normalize_ops_tokens raw)
      × (mem x (normalize_ops_tokens raw) ≡ (
          not (is_empty x)
          && is_stripped x
              (split_all (if ltb 1 (length raw) && all_single raw then join raw ∷ [] else raw))))
unfolding normalize_ops_tokens mem
normalize_ops_tokens-mem x raw =
    let values = split_all (if ltb 1 (length raw) && all_single raw then join raw ∷ [] else raw) in
    (dedupe_loop-Unique values [] tt, dedupe_loop-mem x values [])

with_options :
    (methods : List Str)
    → mem (codes "*") methods ≡ false
    → (mem (codes "OPTIONS") (methods ++ codes "OPTIONS" ∷ []) ≡ true)
      × (mem (codes "*") (methods ++ codes "OPTIONS" ∷ []) ≡ false)
unfolding mem str_eq
with_options methods s = (
  ground (arith, mem-append (codes "OPTIONS") methods (codes "OPTIONS" ∷ [])),
  ground (arith, s, mem-append (codes "*") methods (codes "OPTIONS" ∷ [])),
)

-- The allowed methods are never empty, and they are GET alone, a star alone, or a list with OPTIONS
-- and without a star.
pub normalize_ops_cors_methods-cases :
    (raw : List Str)
    → (normalize_ops_cors_methods raw ≡ codes "GET" ∷ [])
      ⊎ ((normalize_ops_cors_methods raw ≡ codes "*" ∷ [])
          ⊎ ((mem (codes "OPTIONS") (normalize_ops_cors_methods raw) ≡ true)
              × (mem (codes "*") (normalize_ops_cors_methods raw) ≡ false)))
unfolding normalize_ops_cors_methods
normalize_ops_cors_methods-cases raw =
    let methods = uppers (dedupe_seq raw) in
    elim (Bool-cases (length methods == 0)) [
      | inl e ↦ inl (rw (normalize_ops_cors_methods, e) refl)
      | inr e ↦ elim (Bool-cases (mem (codes "*") methods)) [
        | inl s ↦ inr (inl (rw (normalize_ops_cors_methods, e, s) refl))
        | inr s ↦ elim (Bool-cases (mem (codes "OPTIONS") methods)) [
          | inl o ↦ inr (inr (rw (normalize_ops_cors_methods, e, s, o) (o, s)))
          | inr o ↦ inr (inr (rw (normalize_ops_cors_methods, e, s, o) (with_options methods s)))
        ]
      ]
    ]
