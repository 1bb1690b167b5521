-- ===== src/Service/RateLimit.antt =====
-- `MarketDataService._check_rate_limit` (src/application/services.py): a bounded deque of the
-- times of the accepted operations. A time `ts > now - window` is written `now < ts + window`.
pub mod Window
pub mod Answers
use xiaoy_md.Prelude.{
  ℕ, ◌+◌, ◌-◌, Bool, true, false, List, [], ◌∷◌, ◌++◌, ltb, leb, length, drop, count_if,
  if◌then◌else◌,
}
use xiaoy_md.RateWindow.{admits}

-- `RATE_LIMIT_WINDOW_SECONDS` (in milliseconds) and `RATE_LIMIT_MAX_REQUESTS`
abbrev pub default_window : ℕ
default_window = 60000

abbrev pub default_max : ℕ
default_max = 50

-- `deque(maxlen=m).append(x)`: the oldest entries fall out at the left
unfoldable pub append_bounded {ℓ} : {A : Type ℓ} → ℕ → List A → A → List A
append_bounded m xs x = drop (length xs + 1 - m) (xs ++ x ∷ [])

-- the number of times after the cutoff
abbrev pub recent_count : ℕ → ℕ → List ℕ → ℕ
recent_count window now = count_if (λ ts. ltb now (ts + window))

-- the answer and the deque afterwards
unfoldable pub check_rate_limit : ℕ → ℕ → ℕ → List ℕ → Bool × List ℕ
unfolding append_bounded
check_rate_limit window limit now timestamps =
    if leb limit (recent_count window now timestamps)
    then (false, timestamps)
    else (true, append_bounded limit timestamps now)

-- the answers to a row of calls, made at the given times
unfoldable pub decide_all : ℕ → ℕ → List ℕ → List ℕ → List Bool
decide_all window limit [] timestamps = []
decide_all window limit (now ∷ times) timestamps =
    let (allowed, timestamps') = check_rate_limit window limit now timestamps in
    allowed ∷ decide_all window limit times timestamps'

-- the same calls under the specification, which keeps every grant
unfoldable pub admit_all : ℕ → ℕ → List ℕ → List ℕ → List Bool
admit_all window limit [] granted = []
admit_all window limit (now ∷ times) granted =
    let allowed = admits window limit granted now 1 in
    allowed ∷ admit_all window limit times (if allowed then granted ++ now ∷ [] else granted)

-- the times of the calls that were allowed
unfoldable pub allowed_at : List ℕ → List Bool → List ℕ
allowed_at [] answers = []
allowed_at (t ∷ times) [] = []
allowed_at (t ∷ times) (true ∷ answers) = t ∷ allowed_at times answers
allowed_at (t ∷ times) (false ∷ answers) = allowed_at times answers
