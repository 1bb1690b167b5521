-- ===== src/Env/Quotes.antt =====
-- What is left of a quoted text (scripts/operations/validate_env.py).
use xiaoy_md.Prelude.{ℕ, ◌≡◌, refl, Bool, true, false, not, ◌&&◌, [], ◌∷◌, ◌++◌, arith, ◌==◌}
use xiaoy_md.Text.{Str, is_space, lstrip, rstrip, strip}
use xiaoy_md.Env.File.{lstrip_char, rstrip_char, strip_char, unquote}

-- a text that ends neither way in the character
abbrev pub bare_start : ℕ → Str → Bool
bare_start c [] = true
bare_start c (d ∷ s) = not (d == c)

abbrev pub bare_end : ℕ → Str → Bool
bare_end c [] = true
bare_end c (d ∷ []) = not (d == c)
bare_end c (d ∷ e ∷ s) = bare_end c (e ∷ s)

rstrip_char-bare : (c : ℕ) (s : Str) → bare_end c s ≡ true → rstrip_char c s ≡ s
unfolding rstrip_char
rstrip_char-bare c [] h = refl
rstrip_char-bare c (d ∷ []) h = ground arith
rstrip_char-bare c (d ∷ e ∷ s) h = rw (rstrip_char-bare c (e ∷ s) h) refl

pub strip_char-bare :
    (c : ℕ) (s : Str) → bare_start c s ≡ true → bare_end c s ≡ true → strip_char c s ≡ s
unfolding strip_char lstrip_char
strip_char-bare c [] h g = unfold rstrip_char in refl
strip_char-bare c (d ∷ s) h g = ground (arith, rstrip_char-bare c (d ∷ s))

rstrip_char-append : (c : ℕ) (s : Str) → bare_end c s ≡ true → rstrip_char c (s ++ c ∷ []) ≡ s
unfolding rstrip_char
rstrip_char-append c [] h = ground arith
rstrip_char-append c (d ∷ []) h = ground arith
rstrip_char-append c (d ∷ e ∷ s) h = rw (rstrip_char-append c (e ∷ s) h) refl

-- a quoted text without its quotes
pub strip_char-quoted :
    (c : ℕ) (s : Str)
    → bare_start c s ≡ true
    → bare_end c s ≡ true
    → strip_char c (c ∷ (s ++ c ∷ [])) ≡ s
unfolding strip_char lstrip_char
strip_char-quoted c [] h g = unfold rstrip_char in ground arith
strip_char-quoted c (d ∷ s) h g = ground (arith, rstrip_char-append c (d ∷ s))

pub rstrip-last : (s : Str) (c : ℕ) → is_space c ≡ false → rstrip (s ++ c ∷ []) ≡ s ++ c ∷ []
unfolding rstrip
rstrip-last [] c h = ground arith
rstrip-last (d ∷ []) c h = ground arith
rstrip-last (d ∷ e ∷ s) c h = rw (rstrip-last (e ∷ s) c h) refl

-- a text between two characters that are no spaces
pub strip-between :
    (a b : ℕ) (s : Str)
    → is_space a ≡ false
    → is_space b ≡ false
    → strip (a ∷ (s ++ b ∷ [])) ≡ a ∷ (s ++ b ∷ [])
unfolding strip lstrip
strip-between a b s h g = rw h (rstrip-last (a ∷ s) b g)

-- a value that quotes keep
abbrev pub is_bare : Str → Bool
is_bare value =
    bare_start b'"' value && bare_end b'"' value && bare_start b'\'' value && bare_end b'\'' value

pub quote_space : is_space b'"' ≡ false
unfolding is_space
quote_space = refl

abbrev pub quoted : Str → Str
quoted value = b'"' ∷ (value ++ b'"' ∷ [])

pub unquote-quoted : (value : Str) → is_bare value ≡ true → unquote (quoted value) ≡ value
unfolding unquote
unquote-quoted value h = rw (strip-between b'"' b'"' value quote_space quote_space) (
    rw (strip_char-quoted b'"' value (ground arith) (ground arith))
      (strip_char-bare b'\'' value (ground arith) (ground arith)))
