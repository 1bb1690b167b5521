-- ===== src/Domain/Symbols.antt =====
-- What `validate_symbol` lets through.
use xiaoy_md.Prelude.{
  ℕ, zero, suc, ◌≤◌, ◌≡◌, ◌↔◌, refl, sym, true, false, [], ◌∷◌, arith, ◌==◌, length, All,
}
use xiaoy_md.Text.{Str, is_empty, is_space, strip, lstrip, rstrip}
use xiaoy_md.Text.Strip.{NoTrailingSpace, strip_idem, strip-NoTrailingSpace}
use xiaoy_md.Domain.{
  is_alnum, is_symbol_char, matches_tail, matches_pattern, valid, validate_symbol,
}

-- The shape of a symbol: a letter or digit, and up to 29 characters of the larger class.
abbrev pub IsSymbol : Str → Type 0
IsSymbol [] = ⊥
IsSymbol (c ∷ s) = (is_alnum c ≡ true) × (length s ≤ 29) × All (λ d. is_symbol_char d ≡ true) s

-- no newline at the end
abbrev NoNewline : Str → Type 0
NoNewline [] = Unit
NoNewline (c ∷ []) = (c == 10) ≡ false
NoNewline (c ∷ d ∷ s) = NoNewline (d ∷ s)

matches_tail_sound :
    (n : ℕ) (s : Str)
    → NoNewline s
    → matches_tail n s ≡ true
    → (length s ≤ n) × All (λ d. is_symbol_char d ≡ true) s
unfolding matches_tail
matches_tail_sound n [] nl h = (omega arith, tt)
matches_tail_sound zero (c ∷ []) nl h = ground arith
matches_tail_sound zero (c ∷ d ∷ s) nl h = ground arith
matches_tail_sound (suc n) (c ∷ []) nl h = ground (arith)
matches_tail_sound (suc n) (c ∷ d ∷ s) nl h = ground (arith, matches_tail_sound n (d ∷ s) nl)

matches_tail_complete :
    (n : ℕ) (s : Str)
    → length s ≤ n
    → All (λ d. is_symbol_char d ≡ true) s
    → matches_tail n s ≡ true
unfolding matches_tail
matches_tail_complete n [] len h = refl
matches_tail_complete zero (c ∷ s) len h = absurd (omega arith)
matches_tail_complete (suc n) (c ∷ s) len h =
    ground (arith, matches_tail_complete n s (omega arith) h.1)

NoTrailingSpace-NoNewline : (s : Str) → NoTrailingSpace s → NoNewline s
NoTrailingSpace-NoNewline [] h = tt
NoTrailingSpace-NoNewline (c ∷ []) h = unfold is_space in ground arith
NoTrailingSpace-NoNewline (c ∷ d ∷ s) h = NoTrailingSpace-NoNewline (d ∷ s) h

NoNewline-tail : (c : ℕ) (s : Str) → NoNewline (c ∷ s) → NoNewline s
NoNewline-tail c [] h = tt
NoNewline-tail c (d ∷ s) h = h

-- On a text with no newline at its end the pattern matches exactly the symbols.
matches_pattern_sound : (s : Str) → NoNewline s → matches_pattern s ≡ true → IsSymbol s
unfolding matches_pattern
matches_pattern_sound [] nl h = cc
matches_pattern_sound (c ∷ s) nl h = ground (arith, matches_tail_sound 29 s (NoNewline-tail c s nl))

matches_pattern_complete : (s : Str) → IsSymbol s → matches_pattern s ≡ true
unfolding matches_pattern
matches_pattern_complete [] h = elim h [ ]
matches_pattern_complete (c ∷ s) h = ground (arith, matches_tail_complete 29 s h.1 h.2)

validate_symbol_parts :
    (v s : Str) → validate_symbol v ≡ valid s → (s ≡ strip v) × (matches_pattern (strip v) ≡ true)
unfolding validate_symbol
validate_symbol_parts v s h = ground arith

strip_empty : (s : Str) → matches_pattern (strip s) ≡ true → is_empty s ≡ false
unfolding matches_pattern strip
strip_empty [] h = cc
strip_empty (c ∷ s) h = refl

validate_symbol_join :
    (v s : Str) → s ≡ strip v → matches_pattern (strip v) ≡ true → validate_symbol v ≡ valid s
unfolding validate_symbol matches_pattern
validate_symbol_join v s e h = ground (arith, strip_empty v h)

-- A text is accepted exactly when what is left of it without the space around it is a letter or
-- digit with up to 29 letters, digits, dots, dashes or underscores behind it, and that is what the
-- model stores.
pub validate_symbol-IsSymbol :
    (v s : Str) → (validate_symbol v ≡ valid s) ↔ ((s ≡ strip v) × IsSymbol s)
validate_symbol-IsSymbol v s = (sound, complete)
  where
    sound : validate_symbol v ≡ valid s → (s ≡ strip v) × IsSymbol s
    sound h =
        let (e, m) = validate_symbol_parts v s h in
        (
          e,
          rw e (
              matches_pattern_sound (strip v)
                (NoTrailingSpace-NoNewline (strip v) (strip-NoTrailingSpace v)) m),
        )

    complete : (s ≡ strip v) × IsSymbol s → validate_symbol v ≡ valid s
    complete (e, m) = validate_symbol_join v s e (matches_pattern_complete (strip v) (rw e at m))

symbol_char_space : (c : ℕ) → is_symbol_char c ≡ true → is_space c ≡ false
unfolding is_symbol_char is_alnum is_space
symbol_char_space c h = ground (arith, h)

rstrip-symbol : (s : Str) → All (λ d. is_symbol_char d ≡ true) s → rstrip s ≡ s
unfolding rstrip
rstrip-symbol [] h = refl
rstrip-symbol (c ∷ []) h = rw (symbol_char_space c h.0) refl
rstrip-symbol (c ∷ d ∷ s) h = rw (rstrip-symbol (d ∷ s) h.1) refl

strip-symbol : (s : Str) → IsSymbol s → strip s ≡ s
unfolding strip lstrip
strip-symbol [] h = refl
strip-symbol (c ∷ s) h =
    let all : All (λ d. is_symbol_char d ≡ true) (c ∷ s) =
      (unfold is_symbol_char in ground (arith, h.0), h.2) in
    rw (symbol_char_space c all.0) (rstrip-symbol (c ∷ s) all)

-- A symbol is accepted as it is.
pub validate_symbol-accepts : (s : Str) → IsSymbol s → validate_symbol s ≡ valid s
validate_symbol-accepts s h = (validate_symbol-IsSymbol s s).1 (sym (strip-symbol s h), h)

-- What the model stores is accepted again, unchanged.
validate_symbol_idem : (v s : Str) → validate_symbol v ≡ valid s → validate_symbol s ≡ valid s
validate_symbol_idem v s h =
    let (e, m) = (validate_symbol-IsSymbol v s).0 h in
    (validate_symbol-IsSymbol s s).1 (rw e (sym (strip_idem v)), m)
