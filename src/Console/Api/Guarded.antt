-- ===== src/Console/Api/Guarded.antt =====
-- Who passes the guard of the operations API (src/infrastructure/http/ops_api.py and src/config.py).
use xiaoy_md.Prelude.{
  ℕ, ◌≡◌, ◌⊎◌, refl, ap, Bool, true, false, not, ◌||◌, List, [], ◌∷◌, ◌++◌, Option, none, some,
  arith, if◌then◌else◌, Bool-cases, Option-cases, inl, inr,
}
use xiaoy_md.Text.{Str, codes, str_eq, str_eq_iff, is_empty, split_first}
use xiaoy_md.Text.Split.{split_first_join}
use xiaoy_md.Dict.{mem}
use xiaoy_md.FullFeed.Reasons.{lower}
use xiaoy_md.Console.Api.{
  Access, refused, granted, partition_space, check_token, check_header, check_configured,
  require_token, Response, http_error, replied, execute_behind, execute_runbook,
}
use xiaoy_md.Console.Records.{RunbookRequest}
use xiaoy_md.Console.Reports.{Report}
use xiaoy_md.Console.State.{OperationsStatusState}
use xiaoy_md.Console.Service.{Call, execute}

-- what a granted token was sent as
pub record Sent (allowed : List Str) (authorization : Option Str) (token : Str) : Type 0 where
  pub scheme : Str
  pub header : authorization ≡ some (scheme ++ b' ' ∷ token)
  pub bearer : lower scheme ≡ codes "bearer"
  pub known : mem token allowed ≡ true

-- refused, or granted for a header that was sent with the token
data Answered (allowed : List Str) (authorization : Option Str) : Access → Type 0 where
  was_refused : (status : ℕ) → Answered allowed authorization (refused status)
  was_granted :
      (token : Str)
      → Sent allowed authorization token
      → Answered allowed authorization (granted token)

partition_space-cases :
    (a : Str)
    → (partition_space a ≡ (a, []))
      ⊎ ((scheme : Str) × (token : Str) × (partition_space a ≡ (scheme, token))
          × (a ≡ scheme ++ b' ' ∷ token))
unfolding partition_space
partition_space-cases a = elim (Option-cases (split_first b' ' a)) [
  | inl e ↦ inl (rw (partition_space, e) refl)
  | inr ((scheme, token), e) ↦
      inr (scheme, token, rw (partition_space, e) refl, (split_first_join b' ' a e).0)
]

check_token-Answered :
    (allowed : List Str) (scheme token : Str) (authorization : Option Str)
    → authorization ≡ some (scheme ++ b' ' ∷ token)
    → Answered allowed authorization (check_token allowed (scheme, token))
unfolding check_token
check_token-Answered allowed scheme token authorization sent =
    elim (Bool-cases (not (str_eq (lower scheme) (codes "bearer")) || is_empty token)) [
      | inl bad ↦ rw (check_token, bad) (was_refused 401)
      | inr good ↦ elim (Bool-cases (mem token allowed)) [
        | inr unknown ↦ rw (check_token, good, unknown) (was_refused 403)
        | inl known ↦
            rw (check_token, good, known)
              (was_granted token (record {
                scheme = scheme;
                header = sent;
                bearer = (str_eq_iff (lower scheme) (codes "bearer")).0 (ground arith);
                known = known;
              }))
      ]
    ]

no_token : (allowed : List Str) (scheme : Str) → check_token allowed (scheme, []) ≡ refused 401
unfolding check_token
no_token allowed scheme = elim (Bool-cases (str_eq (lower scheme) (codes "bearer"))) [
  | inl e ↦ rw (check_token, e) refl
  | inr e ↦ rw (check_token, e) refl
]

if_Answered :
    {allowed : List Str} {authorization : Option Str} {x y : Access} (b : Bool)
    → Answered allowed authorization x
    → Answered allowed authorization y
    → Answered allowed authorization (if b then x else y)
if_Answered true h g = h
if_Answered false h g = g

check_header-Answered :
    (allowed : List Str) (authorization : Option Str)
    → Answered allowed authorization (check_header allowed authorization)
unfolding check_header
check_header-Answered allowed none = was_refused 401
check_header-Answered allowed (some a) =
    if_Answered (is_empty a) (was_refused 401) (elim (partition_space-cases a) [
      | inl e ↦ rw (ap (check_token allowed) e) (rw (no_token allowed a) (was_refused 401))
      | inr (scheme, token, e, sent) ↦
          rw (ap (check_token allowed) e)
            (check_token-Answered allowed scheme token (some a) (ap some sent))
    ])

require_token-Answered :
    (allowed : List Str) (authorization : Option Str)
    → Answered allowed authorization (require_token allowed (codes "POST") authorization)
unfolding require_token check_configured str_eq
require_token-Answered [] authorization = was_refused 503
require_token-Answered (t ∷ tokens) authorization = check_header-Answered (t ∷ tokens) authorization

module _ {Json : Type 0} (try_parse : Str → Option Json) (dumps : Report → Str) where
  -- a request was refused and changed nothing, or was sent with a token and executed
  abbrev pub Guarded :
      List Str
      → Option Str
      → Call
      → RunbookRequest
      → OperationsStatusState Json
      → Response Json × OperationsStatusState Json
      → Type 0
  Guarded allowed authorization call payload s result =
      ((status : ℕ) × (result ≡ (http_error status, s)))
      ⊎ ((token : Str) × Sent allowed authorization token
          × (result ≡ (
            replied (execute try_parse dumps call payload s).0,
            (execute try_parse dumps call payload s).1,
          )))

  execute_behind-Guarded :
      (allowed : List Str) (authorization : Option Str) (access : Access) (call : Call)
      (payload : RunbookRequest) (s : OperationsStatusState Json)
      → Answered allowed authorization access
      → Guarded allowed authorization call payload s
          (execute_behind try_parse dumps access call payload s)
  unfolding execute_behind
  execute_behind-Guarded allowed authorization access call payload s (was_refused status) =
      inl (status, refl)
  execute_behind-Guarded allowed authorization access call payload s (was_granted token sent) =
      inr (token, sent, refl)

  -- A request to execute a runbook is refused with an HTTP error and changes nothing of the status,
  -- or its header is a scheme that reads bearer in lower case, a space and an allowed token, and it
  -- is executed: without allowed tokens nothing is.
  pub execute_runbook-Guarded :
      (allowed : List Str) (authorization : Option Str) (call : Call) (payload : RunbookRequest)
      (s : OperationsStatusState Json)
      → Guarded allowed authorization call payload s
          (execute_runbook try_parse dumps allowed authorization call payload s)
  unfolding execute_runbook
  execute_runbook-Guarded allowed authorization call payload s =
      execute_behind-Guarded allowed authorization
        (require_token allowed (codes "POST") authorization) call payload s
        (require_token-Answered allowed authorization)
