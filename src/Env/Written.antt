-- ===== src/Env/Written.antt =====
-- Reading back the text of an environment file (scripts/operations/validate_env.py).
use xiaoy_md.Prelude.{
  ℕ, ◌≡◌, refl, ap, ◌∙◌, Bool, true, false, not, ◌&&◌, [], ◌∷◌, ◌++◌, arith, ◌==◌, Bool-cases, inl,
  inr, ==_iff,
}
use xiaoy_md.Text.{Str, is_space}
use xiaoy_md.Dict.{Dict}
use xiaoy_md.Dict.Laws.{Distinct}
use xiaoy_md.Env.File.{parse_env_lines, universal_newlines, file_lines, parse_env_file}
use xiaoy_md.Env.Quotes.{is_bare, quoted}
use xiaoy_md.Env.Lines.{is_plain, is_key, line_of, lines_of, is_written, parse_env_lines-lines_of}

-- a text without a line break
abbrev pub is_line : Str → Bool
is_line [] = true
is_line (c ∷ s) = not (c == 10) && not (c == 13) && is_line s

universal_newlines-line :
    (line rest : Str)
    → is_line line ≡ true
    → universal_newlines (line ++ 10 ∷ rest) ≡ line ++ 10 ∷ universal_newlines rest
unfolding universal_newlines
universal_newlines-line [] rest h = refl
universal_newlines-line (c ∷ line) rest h = ground (arith, universal_newlines-line line rest)

file_lines-line :
    (line rest : Str)
    → is_line line ≡ true
    → file_lines (line ++ 10 ∷ rest) ≡ line ∷ file_lines rest
unfolding file_lines
file_lines-line [] rest h = refl
file_lines-line (c ∷ line) rest h = ground (arith, file_lines-line line rest)

is_line-append : (a b : Str) → is_line a ≡ true → is_line b ≡ true → is_line (a ++ b) ≡ true
is_line-append [] b h g = g
is_line-append (c ∷ a) b h g = ground (arith, is_line-append a b)

break_is_space : (is_space 10 ≡ true) × (is_space 13 ≡ true)
unfolding is_space
break_is_space = (refl, refl)

-- a character that is no space is no line break
no_break : (c : ℕ) → is_space c ≡ false → (c == 10) ≡ false × ((c == 13) ≡ false)
no_break c h = (
  elim (Bool-cases (c == 10)) [
    | inr e ↦ e
    | inl e ↦ absurd (cc (h, ap is_space ((==_iff c 10).0 e), break_is_space.0))
  ],
  elim (Bool-cases (c == 13)) [
    | inr e ↦ e
    | inl e ↦ absurd (cc (h, ap is_space ((==_iff c 13).0 e), break_is_space.1))
  ],
)

is_line-plain : (key : Str) → is_plain key ≡ true → is_line key ≡ true
is_line-plain [] h = refl
is_line-plain (c ∷ key) h = ground (arith, no_break c, is_line-plain key)

is_plain-key : (key : Str) → is_key key ≡ true → is_plain key ≡ true
is_plain-key [] h = refl
is_plain-key (c ∷ key) h = ground arith

is_line-quoted : (value : Str) → is_line value ≡ true → is_line (b'=' ∷ quoted value) ≡ true
is_line-quoted value h = is_line-append value (b'"' ∷ []) h refl

is_line-line_of :
    (key value : Str)
    → is_key key ≡ true
    → is_line value ≡ true
    → is_line (line_of key value) ≡ true
is_line-line_of key value h g =
    is_line-append key (b'=' ∷ quoted value) (is_line-plain key (is_plain-key key h))
      (is_line-quoted value g)

-- the text of a file with these entries
abbrev pub text_of : Dict Str → Str
text_of [] = []
text_of ((key, value) ∷ entries) = line_of key value ++ 10 ∷ text_of entries

-- the keys and values can be written, each entry in a line
abbrev pub is_writable : Dict Str → Bool
is_writable [] = true
is_writable ((key, value) ∷ entries) =
    is_key key && is_bare value && is_line value && is_writable entries

is_writable-is_written :
    (entries : Dict Str) → is_writable entries ≡ true → is_written entries ≡ true
is_writable-is_written [] h = refl
is_writable-is_written ((key, value) ∷ entries) h = ground (arith, is_writable-is_written entries)

lines_of-text :
    (entries : Dict Str)
    → is_writable entries ≡ true
    → file_lines (universal_newlines (text_of entries)) ≡ lines_of entries
lines_of-text [] h = unfold file_lines universal_newlines in refl
lines_of-text ((key, value) ∷ entries) h =
    let line = is_line-line_of key value (ground arith) (ground arith) in
    ap file_lines (universal_newlines-line (line_of key value) (text_of entries) line)
    ∙ file_lines-line (line_of key value) (universal_newlines (text_of entries)) line
    ∙ ap (λ lines. line_of key value ∷ lines) (lines_of-text entries (ground arith))

-- The text of an environment file with a line `key="value"` for each entry is read back as the
-- dictionary that it was written from, when the keys differ, are not empty, have no space and no `=`
-- and do not start with `#`, and no value starts or ends with a quote or has a line break (`\n` or
-- `\r`) in it; the values may hold spaces, `#` and `=`.
pub parse_env_file-text_of :
    (entries : Dict Str)
    → is_writable entries ≡ true
    → Distinct entries
    → parse_env_file (text_of entries) ≡ entries
unfolding parse_env_file
parse_env_file-text_of entries h d =
    ap (λ lines. parse_env_lines lines []) (lines_of-text entries h)
    ∙ parse_env_lines-lines_of entries (is_writable-is_written entries h) d
