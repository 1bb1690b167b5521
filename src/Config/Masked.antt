-- ===== src/Config/Masked.antt =====
-- What a masked secret shows (src/config.py, `_mask_secret`).
use xiaoy_md.Prelude.{
  ℕ, ◌+◌, ◌-◌, ◌/◌, ◌≤◌, ◌<◌, ◌≡◌, ◌⊎◌, refl, inl, inr, false, List, [], ◌∷◌, ◌++◌, some, max, ltb,
  leb, length, take, drop, arith, Bool-cases,
}
use xiaoy_md.Text.{Str, codes, is_empty}
use xiaoy_md.Config.{mask_secret}

drop-length : {A : Type 0} (xs : List A) → drop (length xs) xs ≡ []
drop-length [] = refl
drop-length (x ∷ xs) = drop-length xs

-- a masked text: the first p and the items from q on around dots or stars, which hide at least one
-- item and show at most six
pub record IsMasked (value masked : Str) : Type 0 where
  pub p : ℕ
  pub q : ℕ
  pub cover : Str
  pub covered : (cover ≡ codes "***") ⊎ (cover ≡ codes "...")
  pub shape : masked ≡ take p value ++ (cover ++ drop q value)
  pub hides : p < q
  pub within : q ≤ length value
  pub shows : p + (length value - q) ≤ 6

not_empty : (value : Str) → is_empty value ≡ false → 0 < length value
not_empty [] h = absurd (cc h)
not_empty (c ∷ value) h = omega arith

shown :
    (p : ℕ) (value : Str)
    → p + 2 < length value
    → p ≤ 4
    → (masked : Str) × (some (take p value ++ (codes "..." ++ drop (length value - 2) value))
        ≡ some masked)
      × IsMasked value masked
shown p value lt le = (
  take p value ++ (codes "..." ++ drop (length value - 2) value),
  refl,
  record {
    p = p;
    q = length value - 2;
    cover = codes "...";
    covered = inr refl;
    shape = refl;
    hides = omega (arith, lt);
    within = omega arith;
    shows = omega (arith, lt, le);
  },
)

-- A secret that is not empty is masked by a text that shows some first and some last characters of
-- it around stars or dots: at most six, and never all of them.
pub mask_secret-IsMasked :
    (value : Str)
    → is_empty value ≡ false
    → (masked : Str) × (mask_secret (some value) ≡ some masked) × IsMasked value masked
unfolding mask_secret
mask_secret-IsMasked value h = elim (Bool-cases (leb (length value) 4)) [
  | inl e ↦
      rw (h, e)
        (
          codes "***",
          refl,
          record {
            p = 0;
            q = length value;
            cover = codes "***";
            covered = inl refl;
            shape = rw (drop-length value) refl;
            hides = not_empty value h;
            within = omega arith;
            shows = omega arith;
          },
        )
  | inr e ↦ elim (Bool-cases (ltb 8 (length value))) [
    | inl l ↦ rw (h, e, l) (shown 4 value (ground (arith, l)) (omega arith))
    | inr l ↦
        rw (h, e, l)
          (shown (max 2 (length value / 2)) value (ground (arith, e, l)) (ground (arith, e, l)))
  ]
]
