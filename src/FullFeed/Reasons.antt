-- ===== src/FullFeed/Reasons.antt =====
-- The test of a rejection's reason in `run_workflow`
-- (src/operations/full_feed_subscription.py): `str.lower` and `in`.
use xiaoy_md.Prelude.{◌+◌, Bool, true, false, ◌&&◌, ◌||◌, [], ◌∷◌, leb, ◌==◌, if◌then◌else◌}
use xiaoy_md.Text.{Str, is_empty}

-- `reason.lower()`, on the letters that matter for the test
abbrev pub lower : Str → Str
lower [] = []
lower (c ∷ s) = (if leb b'A' c && leb c b'Z' then c + 32 else c) ∷ lower s

abbrev pub starts_with : Str → Str → Bool
starts_with s [] = true
starts_with [] (d ∷ t) = false
starts_with (c ∷ s) (d ∷ t) = c == d && starts_with s t

-- `t in s`
abbrev pub contains : Str → Str → Bool
contains [] t = is_empty t
contains (c ∷ s) t = starts_with (c ∷ s) t || contains s t
