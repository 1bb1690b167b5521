-- ===== src/Env/File.antt =====
-- The file of the environment and its merge with the environment of the process
-- (scripts/operations/validate_env.py). The text of the file is given.
use xiaoy_md.Prelude.{ℕ, List, [], ◌∷◌, Option, none, some, ◌&&◌, ◌==◌, drop, if◌then◌else◌}
use xiaoy_md.Text.{Str, codes, is_empty, strip, split_first}
use xiaoy_md.Dict.{Dict, insert}
use xiaoy_md.FullFeed.Reasons.{starts_with}

-- `s.lstrip(c)`, `s.rstrip(c)` and `s.strip(c)`
unfoldable pub lstrip_char : ℕ → Str → Str
lstrip_char c [] = []
lstrip_char c (d ∷ s) = if d == c then lstrip_char c s else d ∷ s

unfoldable pub rstrip_char : ℕ → Str → Str
rstrip_char c [] = []
rstrip_char c (d ∷ s) = let r = rstrip_char c s in if is_empty r && d == c then [] else d ∷ r

unfoldable pub strip_char : ℕ → Str → Str
strip_char c s = rstrip_char c (lstrip_char c s)

-- `value.strip().strip('"').strip("'")`
unfoldable pub unquote : Str → Str
unquote value = strip_char b'\'' (strip_char b'"' (strip value))

-- the key and the value around the first `=`
unfoldable pub split_entry : Str → Option (Str × Str)
split_entry line = elim (split_first b'=' line) [
  | none ↦ none
  | some (key, value) ↦ some (strip key, unquote value)
]

-- `line[len("export "):]`, where the line starts with it
unfoldable pub drop_export : Str → Str
drop_export line = if starts_with line (codes "export ") then drop 7 line else line

-- what a line of the file sets
unfoldable pub env_entry : Str → Option (Str × Str)
env_entry raw_line =
    let line = strip raw_line in
    if is_empty line
    then none
    else if starts_with line (codes "#")
    then none
    else split_entry (drop_export line)

unfoldable pub put_entry : Option (Str × Str) → Dict Str → Dict Str
put_entry none values = values
put_entry (some (key, value)) values = insert key value values

-- the loop of `_parse_env_file`, from the values before the lines
unfoldable pub parse_env_lines : List Str → Dict Str → Dict Str
parse_env_lines [] values = values
parse_env_lines (raw_line ∷ lines) values =
    parse_env_lines lines (put_entry (env_entry raw_line) values)

-- the text as it is read: `\r\n` and `\r` are line breaks like `\n`
unfoldable pub universal_newlines : Str → Str
universal_newlines [] = []
universal_newlines (c ∷ s) =
    let rest = universal_newlines s in
    if c == 13 then (if starts_with s (10 ∷ []) then rest else 10 ∷ rest) else c ∷ rest

-- `for raw_line in handle`: the lines, without the break at their end, which `strip` drops
unfoldable pub file_lines : Str → List Str
file_lines [] = []
file_lines (c ∷ s) =
    let rest = file_lines s in
    if c == 10 then [] ∷ rest else elim rest [ [] ↦ (c ∷ []) ∷ [] | l ∷ lines ↦ (c ∷ l) ∷ lines ]

-- `_parse_env_file`, for the text of the file
unfoldable pub parse_env_file : Str → Dict Str
parse_env_file content = parse_env_lines (file_lines (universal_newlines content)) []

-- `_normalize_env`, from the values before
unfoldable pub normalize_env : Dict Str → Dict Str → Dict Str
normalize_env [] values = values
normalize_env ((key, value) ∷ env) values =
    normalize_env env (if is_empty key then values else insert (strip key) value values)

-- `env_data.update(file_env)`
unfoldable pub update : Dict Str → Dict Str → Dict Str
update env [] = env
update env ((key, value) ∷ more) = update (insert key value env) more

-- the argument `--source`: none, a file that is not there, or a file with its text
pub data Source : Type 0 where
  no_source missing_file : Source
  file : Str → Source

-- `_collect_env`; none is EnvironmentFileMissingError
unfoldable pub collect_env : Dict Str → Source → Option (Dict Str)
collect_env environ no_source = some (normalize_env environ [])
collect_env environ missing_file = none
collect_env environ (file content) =
    some (update (normalize_env environ []) (normalize_env (parse_env_file content) []))
