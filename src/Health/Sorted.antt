-- ===== src/Health/Sorted.antt =====
-- Sorting keeps the items and their number.
use xiaoy_md.Prelude.{
  ◌≡◌, refl, ap, inl, inr, Bool-cases, suc, Bool, ◌&&◌, List, [], ◌∷◌, arith, length, keep_if, not,
  ◌+◌,
}
use xiaoy_md.Text.{Str, str_eq, str_eq_iff}
use xiaoy_md.Dict.{mem}
use xiaoy_md.Health.Evaluate.{insert_sorted, sorted}

mem-insert_sorted : (x y : Str) (ys : List Str) → mem x (insert_sorted y ys) ≡ mem x (y ∷ ys)
unfolding insert_sorted mem
mem-insert_sorted x y [] = refl
mem-insert_sorted x y (z ∷ ys) = ground (arith, mem-insert_sorted x y ys)

pub mem-sorted : (x : Str) (ys : List Str) → mem x (sorted ys) ≡ mem x ys
unfolding sorted mem
mem-sorted x [] = refl
mem-sorted x (y ∷ ys) = ground (arith, mem-sorted x ys, mem-insert_sorted x y (sorted ys))

length-insert_sorted : (y : Str) (ys : List Str) → length (insert_sorted y ys) ≡ suc (length ys)
unfolding insert_sorted
length-insert_sorted y [] = refl
length-insert_sorted y (z ∷ ys) = ground (arith, length-insert_sorted y ys)

pub length-sorted : (ys : List Str) → length (sorted ys) ≡ length ys
unfolding sorted
length-sorted [] = refl
length-sorted (y ∷ ys) = ground (arith, length-sorted ys, length-insert_sorted y (sorted ys))

-- a test that depends on the text alone
pub mem-keep_if :
    (p : Str → Bool) (x : Str) (ys : List Str) → mem x (keep_if p ys) ≡ (p x && mem x ys)
unfolding mem
mem-keep_if p x [] = ground arith
mem-keep_if p x (y ∷ ys) = elim (Bool-cases (str_eq y x)) [
  | inl e ↦ let q : p y ≡ p x = ap p ((str_eq_iff y x).0 e) in ground (arith, q, mem-keep_if p x ys)
  | inr e ↦ ground (arith, mem-keep_if p x ys)
]

-- what passes and what does not
pub length-keep_if-not :
    (p : Str → Bool) (ys : List Str)
    → length (keep_if p ys) + length (keep_if (λ s. not (p s)) ys) ≡ length ys
length-keep_if-not p [] = refl
length-keep_if-not p (y ∷ ys) = ground (arith, length-keep_if-not p ys)
