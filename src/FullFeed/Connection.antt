-- ===== src/FullFeed/Connection.antt =====
-- The start of the full feed run (src/operations/full_feed_subscription.py): `_load_env_file`,
-- `_normalize_nats_url` and the checks of `main`, up to the call of `run_workflow`. The host name of
-- a URL is a parameter, as `urlparse` finds it.
pub mod Chosen
use xiaoy_md.Prelude.{
  ℕ, Bool, true, false, not, ◌&&◌, ◌||◌, List, [], ◌∷◌, Option, none, some, ℤ, pos, negsuc, ◌==◌,
  if◌then◌else◌,
}
use xiaoy_md.Text.{Str, codes, str_eq, is_empty, or_else, strip, split_first}
use xiaoy_md.Dict.{Dict, lookup, insert, mem}
use xiaoy_md.FullFeed.Reasons.{starts_with}
use xiaoy_md.Env.File.{split_entry, put_entry}

-- what a line of the file sets: only the three keys of NATS
unfoldable pub is_nats_key : Str → Bool
is_nats_key key = mem key (codes "NATS_URL" ∷ codes "NATS_USER" ∷ codes "NATS_PASSWORD" ∷ [])

unfoldable pub only_nats : Option (Str × Str) → Option (Str × Str)
only_nats none = none
only_nats (some (key, value)) = if is_nats_key key then some (key, value) else none

unfoldable pub nats_entry : Str → Option (Str × Str)
nats_entry line =
    let text = strip line in
    if is_empty text
    then none
    else if starts_with text (codes "#")
    then none
    else only_nats (split_entry text)

-- `_load_env_file`; a file that is not there has no lines
unfoldable pub load_env_file : List Str → Dict Str → Dict Str
load_env_file [] environ = environ
load_env_file (line ∷ lines) environ = load_env_file lines (put_entry (nats_entry line) environ)

-- the options of the command line, where they are given
pub record Options : Type 0 where
  pub nats_url : Option Str
  pub user : Option Str
  pub password : Option Str
  pub batch_size : ℤ
  pub request_attempts : ℤ
  pub retry_delay : ℤ
  pub metrics_port : ℤ
  pub metrics_disable : Bool
  pub window : Str
  pub config : Str

-- the parsed arguments: the defaults are read when the parser is built
pub record Arguments : Type 0 where
  pub nats_url : Str
  pub user : Option Str
  pub password : Option Str

abbrev pub first_some : Option Str → Option Str → Option Str
first_some (some s) o = some s
first_some none o = o

abbrev pub get_or : Option Str → Str → Str
get_or none default = default
get_or (some s) default = s

unfoldable pub default_url : Str
default_url = codes "nats://127.0.0.1:4222"

unfoldable pub parse_args : Options → Dict Str → Arguments
parse_args o environ = record {
  nats_url = get_or (first_some o.nats_url (lookup (codes "NATS_URL") environ)) default_url;
  user = first_some o.user (lookup (codes "NATS_USER") environ);
  password = first_some o.password (lookup (codes "NATS_PASSWORD") environ);
}

-- what the run connects with, or the usage error
pub data Start : Type 0 where
  usage_error : Str → Start
  started : Arguments → Dict Str → Start

abbrev pub is_negative : ℤ → Bool
is_negative (pos n) = false
is_negative (negsuc n) = true

abbrev pub below_one : ℤ → Bool
below_one (pos n) = n == 0
below_one (negsuc n) = true

-- the first check that fails
unfoldable pub usage : Options → Option Str
usage o =
    if not o.metrics_disable && is_negative o.metrics_port
    then some (codes "--metrics-port must be >= 0")
    else if below_one o.batch_size
    then some (codes "--batch-size must be >= 1")
    else if below_one o.request_attempts
    then some (codes "--nats-request-attempts must be >= 1")
    else if is_negative o.retry_delay
    then some (codes "--nats-request-retry-delay must be >= 0")
    else none

module _ (hostname : Str → Option (Option Str)) where
  -- `_normalize_nats_url`; no answer is a ValueError
  unfoldable pub normalize_nats_url : Str → Str
  normalize_nats_url url = elim (hostname url) [
    | none ↦ default_url
    | some none ↦ url
    | some (some host) ↦
        if mem host (codes "localhost" ∷ codes "127.0.0.1" ∷ []) then default_url else url
  ]

  -- the arguments behind the checks, with the environment as the file left it
  unfoldable pub chosen : Arguments → Dict Str → Arguments
  chosen args environ = record {
    nats_url =
        normalize_nats_url
          (or_else args.nats_url (get_or (lookup (codes "NATS_URL") environ) default_url));
    user = first_some args.user (lookup (codes "NATS_USER") environ);
    password = first_some args.password (lookup (codes "NATS_PASSWORD") environ);
  }

  -- `main`, with the lines of the file and the environment of the process
  unfoldable pub begin : Options → List Str → Dict Str → Start
  begin o lines environ =
      let args = parse_args o environ in
      let loaded = load_env_file lines environ in
      elim (usage o) [
        | some message ↦ usage_error message
        | none ↦ started (chosen args loaded) (
            insert (codes "SESSION_CONFIG") o.config
              (insert (codes "SESSION_WINDOW") o.window loaded))
      ]
