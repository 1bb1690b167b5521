-- ===== src/Publisher/Options.antt =====
-- The connection options and the health check of `NATSPublisher`
-- (src/infrastructure/nats_publisher.py): `_create_connection_options`, `_canonicalize_server_url`
-- and `health_check`. `urlparse` and `urlunparse` are parameters.
use xiaoy_md.Prelude.{
  ℕ, Bool, true, false, not, ◌||◌, List, [], ◌∷◌, ◌++◌, Option, none, some, if◌then◌else◌,
}
use xiaoy_md.Text.{Str, codes, str_eq, is_empty}
use xiaoy_md.FullFeed.Reasons.{lower}
use xiaoy_md.Publisher.Client.{Publisher}

-- what `urlparse` finds; the port as the text `:n`, empty where there is none
pub record Parsed : Type 0 where
  pub hostname : Option Str
  pub username : Option Str
  pub password : Option Str
  pub port : Str

abbrev pub text_of : Option Str → Str
text_of none = []
text_of (some s) = s

-- the text `user:password@`
unfoldable pub userinfo : Option Str → Option Str → Str
userinfo username password =
    if is_empty (text_of username)
    then []
    else text_of username
      ++ ((if is_empty (text_of password) then [] else b':' ∷ text_of password) ++ b'@' ∷ [])

unfoldable pub netloc : Parsed → Str
unfolding userinfo
netloc p = userinfo p.username p.password ++ (codes "127.0.0.1" ++ p.port)

pub record Urls : Type 0 where
  pub urlparse : Str → Option Parsed
  pub with_netloc : Str → Str → Str

-- the settings that are read
pub record ConnectionSettings : Type 0 where
  pub environment : Str
  pub nats_url : Str
  pub nats_client_id : Str
  pub nats_user : Option Str
  pub nats_password : Option Str

-- the options; times are whole milliseconds, and no timeout is the client's default
pub record ConnectionOptions : Type 0 where
  pub servers : List Str
  pub name : Str
  pub reconnect_time_wait : ℕ
  pub max_reconnect_attempts : ℕ
  pub connect_timeout : Option ℕ
  pub credentials : Option (Str × Str)

unfoldable pub is_development : ConnectionSettings → Bool
is_development s = str_eq (lower s.environment) (codes "development")

-- both have to be there, and not empty
unfoldable pub credentials_of : ConnectionSettings → Option (Str × Str)
credentials_of s =
    let user = text_of s.nats_user in
    let password = text_of s.nats_password in
    if is_empty user || is_empty password then none else some (user, password)

module _ (urls : Urls) where
  unfoldable pub canonical_host : Str → Parsed → Option Str → Str
  unfolding netloc
  canonical_host url p none = url
  canonical_host url p (some host) =
      if str_eq (lower host) (codes "localhost") then urls.with_netloc url (netloc p) else url

  -- `_canonicalize_server_url`; an empty host is no host
  unfoldable pub canonicalize_server_url : Str → Str
  unfolding canonical_host
  canonicalize_server_url url = elim (urls.urlparse url) [
    | none ↦ url
    | some p ↦ canonical_host url p p.hostname
  ]

  -- `_create_connection_options`
  unfoldable pub create_connection_options : ConnectionSettings → ConnectionOptions
  unfolding is_development credentials_of canonicalize_server_url
  create_connection_options s = record {
    servers = (if is_development s then s.nats_url else canonicalize_server_url s.nats_url) ∷ [];
    name = s.nats_client_id;
    reconnect_time_wait = if is_development s then 100 else 2000;
    max_reconnect_attempts = if is_development s then 1 else 10;
    connect_timeout = if is_development s then some 500 else none;
    credentials = credentials_of s;
  }

-- how the flush of a health check ends
pub data Flush : Type 0 where
  flushed flush_timeout flush_closed flush_error : Flush

unfoldable pub is_flushed : Flush → Bool
is_flushed flushed = true
is_flushed flush_timeout = false
is_flushed flush_closed = false
is_flushed flush_error = false

-- `health_check`: the answer, and whether its time is recorded
unfoldable pub health_check : Flush → Publisher → Bool × Bool
unfolding is_flushed
health_check f p =
    if not p.has_client || not p.connected then (false, false) else (is_flushed f, is_flushed f)
