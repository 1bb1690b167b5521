-- ===== src/FullFeed/Connection/Chosen.antt =====
-- What the full feed run connects with (src/operations/full_feed_subscription.py).
use xiaoy_md.Prelude.{
  ◌≡◌, refl, ap, ◌∙◌, false, List, [], ◌∷◌, Option, none, some, arith, if◌then◌else◌,
}
use xiaoy_md.Text.{Str, codes, str_eq, is_empty, or_else}
use xiaoy_md.Dict.{Dict, lookup, insert}
use xiaoy_md.Dict.Laws.{lookup-insert}
use xiaoy_md.Env.File.{put_entry}
use xiaoy_md.FullFeed.Connection.{
  nats_entry, load_env_file, Options, first_some, get_or, default_url, parse_args, started, usage,
  normalize_nats_url, chosen, begin,
}

-- the value that a line gives a key
abbrev pub value_in : Str → Option (Str × Str) → Option Str
value_in key none = none
value_in key (some (k, value)) = if str_eq k key then some value else none

-- the value of the last line that names the key
abbrev pub last_value : Str → List Str → Option Str
last_value key [] = none
last_value key (line ∷ lines) = first_some (last_value key lines) (value_in key (nats_entry line))

first_some_assoc :
    (a b c : Option Str) → first_some a (first_some b c) ≡ first_some (first_some a b) c
first_some_assoc none b c = refl
first_some_assoc (some x) b c = refl

lookup-put_entry :
    (key : Str) (entry : Option (Str × Str)) (d : Dict Str)
    → lookup key (put_entry entry d) ≡ first_some (value_in key entry) (lookup key d)
unfolding put_entry
lookup-put_entry key none d = refl
lookup-put_entry key (some (k, value)) d = ground (arith, lookup-insert k key value d)

-- the environment behind the file
load_env_file-lookup :
    (key : Str) (lines : List Str) (environ : Dict Str)
    → lookup key (load_env_file lines environ)
      ≡ first_some (last_value key lines) (lookup key environ)
unfolding load_env_file
load_env_file-lookup key [] environ = refl
load_env_file-lookup key (line ∷ lines) environ =
    load_env_file-lookup key lines (put_entry (nats_entry line) environ)
    ∙ ap (first_some (last_value key lines)) (lookup-put_entry key (nats_entry line) environ)
    ∙ first_some_assoc (last_value key lines) (value_in key (nats_entry line)) (lookup key environ)

-- a value of the environment from before hides the one of the file
first_some_before :
    (a b c : Option Str)
    → first_some (first_some a b) (first_some c b) ≡ first_some a (first_some b c)
first_some_before (some x) b c = refl
first_some_before none (some y) c = refl
first_some_before none none none = refl
first_some_before none none (some z) = refl

or_else_nonempty : (a b : Str) → is_empty a ≡ false → or_else a b ≡ a
or_else_nonempty [] b h = cc
or_else_nonempty (c ∷ a) b h = refl

credential :
    (key : Str) (given : Option Str) (lines : List Str) (environ : Dict Str)
    → first_some (first_some given (lookup key environ)) (lookup key (load_env_file lines environ))
      ≡ first_some given (first_some (lookup key environ) (last_value key lines))
credential key given lines environ =
    ap (first_some (first_some given (lookup key environ))) (load_env_file-lookup key lines environ)
    ∙ first_some_before given (lookup key environ) (last_value key lines)

started-same :
    {u u' : Str} {n n' p p' : Option Str} {d : Dict Str}
    → u ≡ u'
    → n ≡ n'
    → p ≡ p'
    → started (record { nats_url = u; user = n; password = p }) d
      ≡ started (record { nats_url = u'; user = n'; password = p' }) d
started-same e f g = rw (e, f, g) refl

module _ (hostname : Str → Option (Option Str)) where
  -- When the arguments are right, and the URL that the command line or the environment gives, if
  -- any, is not empty, the run connects to that URL or to the default, normalised, whatever the
  -- file says; the user and the password are those of the command line, else those of the
  -- environment, else those of the last line of the file that names them.
  pub begin-started :
      (o : Options) (lines : List Str) (environ : Dict Str)
      → usage o ≡ none
      → is_empty (parse_args o environ).nats_url ≡ false
      → (loaded : Dict Str) × (begin hostname o lines environ
          ≡ started
              (record {
                nats_url = normalize_nats_url hostname (
                    get_or (first_some o.nats_url (lookup (codes "NATS_URL") environ)) default_url);
                user = first_some o.user (
                    first_some
                      (lookup (codes "NATS_USER") environ)
                      (last_value (codes "NATS_USER") lines));
                password = first_some o.password (
                    first_some
                      (lookup (codes "NATS_PASSWORD") environ)
                      (last_value (codes "NATS_PASSWORD") lines));
              })
              loaded)
  unfolding begin chosen parse_args
  begin-started o lines environ right named =
      let loaded = load_env_file lines environ in
      let url = get_or (first_some o.nats_url (lookup (codes "NATS_URL") environ)) default_url in
      (
        insert (codes "SESSION_CONFIG") o.config (insert (codes "SESSION_WINDOW") o.window loaded),
        rw (begin, right)
            (started-same
              (ap (normalize_nats_url hostname) (
                or_else_nonempty url (get_or (lookup (codes "NATS_URL") loaded) default_url) named))
              (credential (codes "NATS_USER") o.user lines environ)
              (credential (codes "NATS_PASSWORD") o.password lines environ)),
      )
