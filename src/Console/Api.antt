-- ===== src/Console/Api.antt =====
-- The guard of the operations API (src/infrastructure/http/ops_api.py): `require_token` and the
-- tokens and origins of `create_app`.
pub mod Guarded
use xiaoy_md.Prelude.{
  ℕ, Bool, true, false, not, ◌||◌, List, [], ◌∷◌, ◌++◌, Option, none, some, if◌then◌else◌,
}
use xiaoy_md.Text.{Str, codes, str_eq, is_empty, split_first}
use xiaoy_md.Dict.{mem}
use xiaoy_md.FullFeed.Reasons.{lower}
use xiaoy_md.Console.Records.{RunbookRequest}
use xiaoy_md.Console.Reports.{Report}
use xiaoy_md.Console.State.{OperationsStatusState, last_items}
use xiaoy_md.Console.Service.{Call, Reply, execute}

-- HTTPException with its status, the preflight, or the token
pub data Access : Type 0 where
  refused : ℕ → Access
  preflight : Access
  granted : Str → Access

-- `allowed_tokens or set(resolved_settings.ops_api_tokens)`
unfoldable pub token_set : Option (List Str) → List Str → List Str
token_set none configured = configured
token_set (some []) configured = configured
token_set (some (t ∷ tokens)) configured = t ∷ tokens

-- `["*"]` where no origin, or any "*", is configured
unfoldable pub allow_origins : List Str → List Str
allow_origins [] = codes "*" ∷ []
allow_origins (origin ∷ origins) =
    if mem (codes "*") (origin ∷ origins) then codes "*" ∷ [] else origin ∷ origins

-- `authorization.partition(" ")`, the scheme and the token
unfoldable pub partition_space : Str → Str × Str
partition_space authorization = elim (split_first b' ' authorization) [
  | some (scheme, token) ↦ (scheme, token)
  | none ↦ (authorization, [])
]

unfoldable pub check_token : List Str → Str × Str → Access
check_token allowed (scheme, token) =
    if not (str_eq (lower scheme) (codes "bearer")) || is_empty token
    then refused 401
    else if mem token allowed
    then granted token
    else refused 403

-- the header is there and not empty
unfoldable pub check_header : List Str → Option Str → Access
unfolding check_token partition_space
check_header allowed none = refused 401
check_header allowed (some authorization) =
    if is_empty authorization
    then refused 401
    else check_token allowed (partition_space authorization)

unfoldable pub check_configured : List Str → Option Str → Access
unfolding check_header
check_configured [] authorization = refused 503
check_configured (t ∷ tokens) authorization = check_header (t ∷ tokens) authorization

-- `require_token`
unfoldable pub require_token : List Str → Str → Option Str → Access
unfolding check_configured
require_token allowed method authorization =
    if str_eq method (codes "OPTIONS") then preflight else check_configured allowed authorization

-- `get_status` behind the guard: the last ten records
unfoldable pub get_status :
    {Json : Type 0} → OperationsStatusState Json → OperationsStatusState Json
get_status s = record s { runbook_history = last_items 10 s.runbook_history }

-- the response of a route: an HTTP error, or what the service replies
pub data Response (Json : Type 0) : Type 0 where
  http_error : ℕ → Response Json
  replied : Reply Json → Response Json

module _ {Json : Type 0} (try_parse : Str → Option Json) (dumps : Report → Str) where
  unfoldable pub execute_behind :
      Access
      → Call
      → RunbookRequest
      → OperationsStatusState Json
      → Response Json × OperationsStatusState Json
  execute_behind (refused status) call payload s = (http_error status, s)
  execute_behind preflight call payload s =
      let (reply, s') = execute try_parse dumps call payload s in (replied reply, s')
  execute_behind (granted token) call payload s =
      let (reply, s') = execute try_parse dumps call payload s in (replied reply, s')

  -- `execute_runbook`, a POST
  unfoldable pub execute_runbook :
      List Str
      → Option Str
      → Call
      → RunbookRequest
      → OperationsStatusState Json
      → Response Json × OperationsStatusState Json
  execute_runbook allowed authorization call payload s =
      execute_behind (require_token allowed (codes "POST") authorization) call payload s
