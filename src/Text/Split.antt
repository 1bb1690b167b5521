-- ===== src/Text/Split.antt =====
-- Splitting at the first or the last separator, and joining again.
use xiaoy_md.Prelude.{
  ℕ, ◌≡◌, ◌≢◌, refl, true, false, [], ◌∷◌, ◌++◌, none, some, arith, Option-cases, inl, inr,
}
use xiaoy_md.Text.{Str, has_char, split_first, split_last}

pub split_first_join :
    (c : ℕ) (s : Str) {a b : Str}
    → split_first c s ≡ some (a, b)
    → (s ≡ a ++ c ∷ b) × (has_char c a ≡ false)
unfolding split_first has_char
split_first_join c [] h = cc
split_first_join c (d ∷ s) h = elim (Option-cases (split_first c s)) [
  | inl e ↦ ground (arith, e)
  | inr (p, e) ↦ ground (arith, e, split_first_join c s e)
]

has_char_of_none : (c : ℕ) (s : Str) → split_last c s ≡ none → has_char c s ≡ false
unfolding split_last has_char
has_char_of_none c [] h = refl
has_char_of_none c (d ∷ s) h = ground (arith, has_char_of_none c s)

pub split_last_join :
    (c : ℕ) (s : Str) {a b : Str}
    → split_last c s ≡ some (a, b)
    → (s ≡ a ++ c ∷ b) × (has_char c b ≡ false)
unfolding split_last has_char
split_last_join c [] h = cc
split_last_join c (d ∷ s) h = elim (Option-cases (split_last c s)) [
  | inl e ↦ ground (arith, e, has_char_of_none c s e)
  | inr (p, e) ↦ ground (arith, e, split_last_join c s e)
]

pub split_last-eq-none : (c : ℕ) (s : Str) → has_char c s ≡ false → split_last c s ≡ none
unfolding split_last has_char
split_last-eq-none c [] h = refl
split_last-eq-none c (d ∷ s) h = ground (arith, split_last-eq-none c s)

-- the last separator is found, whatever stands before it
pub split_last-append :
    (c : ℕ) (a b : Str) → has_char c b ≡ false → split_last c (a ++ c ∷ b) ≡ some (a, b)
unfolding split_last has_char
split_last-append c [] b h = rw (split_last-eq-none c b h) (ground arith)
split_last-append c (d ∷ a) b h = rw (split_last-append c a b h)

pub split_last-has_char : (c : ℕ) (s : Str) → has_char c s ≡ true → split_last c s ≢ none
unfolding split_last has_char
split_last-has_char c [] h = cc
split_last-has_char c (d ∷ s) h = ground (arith, split_last-has_char c s)
