-- ===== src/Env/Lines.antt =====
-- Reading back the lines of an environment file (scripts/operations/validate_env.py).
use xiaoy_md.Prelude.{
  ℕ, ◌≡◌, refl, ap, sym, ◌∙◌, Bool, true, false, not, ◌&&◌, List, [], ◌∷◌, ◌++◌, append-nil,
  append_assoc, some, arith, ◌==◌, ==_iff, if◌then◌else◌, Bool-cases, inl, inr,
}
use xiaoy_md.Text.{
  Str, codes, str_eq_iff, is_empty, is_space, lstrip, rstrip, strip, has_char, split_first,
}
use xiaoy_md.Dict.{Dict, insert, keys, mem}
use xiaoy_md.Dict.Laws.{Distinct}
use xiaoy_md.Dict.Sets.{mem-append}
use xiaoy_md.FullFeed.Reasons.{starts_with}
use xiaoy_md.Env.File.{split_entry, drop_export, env_entry, put_entry, parse_env_lines}
use xiaoy_md.Env.Quotes.{strip-between, is_bare, quote_space, quoted, unquote-quoted}

-- a key without spaces and `=`, not empty, that is no comment
abbrev pub is_plain : Str → Bool
is_plain [] = true
is_plain (c ∷ s) = not (is_space c) && not (c == b'=') && is_plain s

abbrev pub is_key : Str → Bool
is_key [] = false
is_key (c ∷ s) = not (c == b'#') && is_plain (c ∷ s)

split_first-key :
    (key value : Str)
    → is_plain key ≡ true
    → split_first b'=' (key ++ b'=' ∷ value) ≡ some (key, value)
unfolding split_first
split_first-key [] value h = ground arith
split_first-key (c ∷ key) value h = ground (arith, split_first-key key value)

rstrip_cons : (c : ℕ) (s : Str) → is_space c ≡ false → rstrip s ≡ s → rstrip (c ∷ s) ≡ c ∷ s
unfolding rstrip
rstrip_cons c s h e = rw (e, h) (go s)
  where
    go : (r : Str) → (if is_empty r && false then [] else c ∷ r) ≡ c ∷ r
    go [] = refl
    go (d ∷ r) = refl

rstrip-plain : (key : Str) → is_plain key ≡ true → rstrip key ≡ key
rstrip-plain [] h = unfold rstrip in refl
rstrip-plain (c ∷ key) h = rstrip_cons c key (ground arith) (rstrip-plain key (ground arith))

lstrip_cons : (c : ℕ) (s : Str) → is_space c ≡ false → lstrip (c ∷ s) ≡ c ∷ s
unfolding lstrip
lstrip_cons c s h = rw h refl

strip_start : (c : ℕ) (s : Str) → is_space c ≡ false → strip (c ∷ s) ≡ rstrip (c ∷ s)
unfolding strip
strip_start c s h = ap rstrip (lstrip_cons c s h)

strip-plain : (key : Str) → is_plain key ≡ true → strip key ≡ key
strip-plain [] h = unfold strip lstrip rstrip in refl
strip-plain (c ∷ key) h = strip_start c key (ground arith) ∙ rstrip-plain (c ∷ key) h

space_is_space : is_space b' ' ≡ true
unfolding is_space
space_is_space = refl

no_blank : (c : ℕ) → is_space c ≡ false → (c == b' ') ≡ false
no_blank c h = elim (Bool-cases (c == b' ')) [
  | inr e ↦ e
  | inl e ↦ absurd (cc (h, ap is_space ((==_iff c b' ').0 e), space_is_space))
]

-- such a key does not run on into `export `
starts_with-key :
    (key rest pre : Str)
    → is_plain key ≡ true
    → has_char b'=' pre ≡ false
    → starts_with (key ++ b'=' ∷ rest) (pre ++ b' ' ∷ []) ≡ false
unfolding has_char
starts_with-key [] rest [] h g = refl
starts_with-key [] rest (d ∷ pre) h g = ground arith
starts_with-key (c ∷ key) rest [] h g = ground (arith, no_blank c)
starts_with-key (c ∷ key) rest (d ∷ pre) h g = ground (arith, starts_with-key key rest pre)

-- the line of an entry
abbrev pub line_of : Str → Str → Str
line_of key value = key ++ b'=' ∷ quoted value

strip-line_of :
    (c : ℕ) (key value : Str)
    → is_space c ≡ false
    → strip (line_of (c ∷ key) value) ≡ line_of (c ∷ key) value
strip-line_of c key value h =
    let e = append_assoc key (b'=' ∷ b'"' ∷ value) (b'"' ∷ []) in
    ap (λ t. strip (c ∷ t)) (sym e)
    ∙ strip-between c b'"' (key ++ b'=' ∷ b'"' ∷ value) h quote_space
    ∙ ap (λ t. c ∷ t) e

export_plain : has_char b'=' (codes "export") ≡ false
unfolding has_char
export_plain = refl

comment_free :
    (c : ℕ) (rest : Str) → (c == b'#') ≡ false → starts_with (c ∷ rest) (codes "#") ≡ false
comment_free c rest h = ground (arith, h)

env_entry-line_of :
    (key value : Str)
    → is_key key ≡ true
    → is_bare value ≡ true
    → env_entry (line_of key value) ≡ some (key, value)
unfolding env_entry drop_export split_entry
env_entry-line_of [] value h g = cc
env_entry-line_of (c ∷ key) value h g = rw (strip-line_of c key value (ground arith)) (
    rw (comment_free c (key ++ b'=' ∷ quoted value) (ground arith)) (
      rw (starts_with-key (c ∷ key) (quoted value) (codes "export") (ground arith) export_plain) (
        rw (split_entry, split_first-key (c ∷ key) (quoted value) (ground arith))
          (rw (strip-plain (c ∷ key) (ground arith), unquote-quoted value g) refl))))

-- the lines of a dictionary whose keys and values can be written
abbrev pub lines_of : Dict Str → List Str
lines_of [] = []
lines_of ((key, value) ∷ entries) = line_of key value ∷ lines_of entries

abbrev pub is_written : Dict Str → Bool
is_written [] = true
is_written ((key, value) ∷ entries) = is_key key && is_bare value && is_written entries

insert-fresh :
    (key value : Str) (values : Dict Str)
    → mem key (keys values) ≡ false
    → insert key value values ≡ values ++ (key, value) ∷ []
unfolding insert mem
insert-fresh key value [] h = refl
insert-fresh key value ((j, w) ∷ values) h = ground (arith, insert-fresh key value values)

keys-append : (a b : Dict Str) → keys (a ++ b) ≡ keys a ++ keys b
keys-append [] b = refl
keys-append ((k, v) ∷ a) b = ap (λ t. k ∷ t) (keys-append a b)

key-fresh :
    (key value : Str) (values entries : Dict Str)
    → Distinct (values ++ (key, value) ∷ entries)
    → mem key (keys values) ≡ false
unfolding mem
key-fresh key value [] entries d = refl
key-fresh key value ((j, w) ∷ values) entries d =
    let named : mem j (keys values ++ key ∷ keys entries) ≡ false =
      ap (mem j) (sym (keys-append values ((key, value) ∷ entries))) ∙ d.0 in
    ground (
      arith,
      named,
      mem-append j (keys values) (key ∷ keys entries),
      str_eq_iff j key,
      str_eq_iff key j,
      key-fresh key value values entries d.1,
    )

parse_env_lines-from :
    (entries values : Dict Str)
    → is_written entries ≡ true
    → Distinct (values ++ entries)
    → parse_env_lines (lines_of entries) values ≡ values ++ entries
unfolding parse_env_lines put_entry
parse_env_lines-from [] values h d = sym (append-nil values)
parse_env_lines-from ((key, value) ∷ entries) values h d =
    let e = append_assoc values ((key, value) ∷ []) entries in
    ap (λ entry. parse_env_lines (lines_of entries) (put_entry entry values))
      (env_entry-line_of key value (ground arith) (ground arith))
    ∙ ap (parse_env_lines (lines_of entries))
        (insert-fresh key value values (key-fresh key value values entries d))
    ∙ parse_env_lines-from entries (values ++ (key, value) ∷ []) (ground arith) (rw e d)
    ∙ e

-- Lines `key="value"` are read as the dictionary that they come from, when the keys differ and can be
-- written and no value starts or ends with a quote.
pub parse_env_lines-lines_of :
    (entries : Dict Str)
    → is_written entries ≡ true
    → Distinct entries
    → parse_env_lines (lines_of entries) [] ≡ entries
parse_env_lines-lines_of entries h d = parse_env_lines-from entries [] h d
