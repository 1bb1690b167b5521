-- ===== src/Service/Feed/Errors.antt =====
-- The totals of errors by component and severity, `error_totals` of the service
-- (src/application/services.py).
use xiaoy_md.Prelude.{ℕ, ◌+◌, ◌≡◌, false, ◌&&◌, List, [], ◌∷◌, arith, if◌then◌else◌}
use xiaoy_md.Text.{Str, str_eq, str_eq_iff}
use xiaoy_md.Service.Feed.{ErrorKey, bump}

-- `error_totals[key]`
unfoldable pub error_total : ErrorKey → List (ErrorKey × ℕ) → ℕ
error_total key [] = 0
error_total (component, severity) (((c, s), n) ∷ totals) =
    if str_eq c component && str_eq s severity then n else error_total (component, severity) totals

pub error_total-bump :
    (c s : Str) (n : ℕ) (totals : List (ErrorKey × ℕ))
    → error_total (c, s) (bump (c, s) n totals) ≡ error_total (c, s) totals + n
unfolding error_total bump
error_total-bump c s n [] = ground (arith, str_eq_iff c c, str_eq_iff s s)
error_total-bump c s n (((d, t), m) ∷ totals) = ground (arith, error_total-bump c s n totals)

pub error_total-bump_ne :
    (c d s t : Str) (n : ℕ) (totals : List (ErrorKey × ℕ))
    → str_eq c d ≡ false
    → error_total (d, t) (bump (c, s) n totals) ≡ error_total (d, t) totals
unfolding error_total bump
error_total-bump_ne c d s t n [] h = ground arith
error_total-bump_ne c d s t n (((e, u), m) ∷ totals) h =
    ground (
      arith,
      error_total-bump_ne c d s t n totals h,
      str_eq_iff e c,
      str_eq_iff e d,
      str_eq_iff c d,
    )
