-- ===== src/Domain.antt =====
-- The domain models (src/domain/models.py): the validated symbol and the subscription. The tick is
-- in Adapter.Translate.Market, which makes it.
pub mod Symbols
use xiaoy_md.Prelude.{
  ℕ, zero, suc, Bool, true, false, ◌&&◌, ◌||◌, List, [], ◌∷◌, leb, ◌==◌, if◌then◌else◌,
}
use xiaoy_md.Text.{Str, is_empty, strip}

-- [A-Za-z0-9]
unfoldable pub is_alnum : ℕ → Bool
is_alnum c = (leb b'A' c && leb c b'Z') || (leb b'a' c && leb c b'z') || (leb b'0' c && leb c b'9')

-- [A-Za-z0-9.\-_]
unfoldable pub is_symbol_char : ℕ → Bool
is_symbol_char c = is_alnum c || c == b'.' || c == b'-' || c == b'_'

-- what follows the first character: at most `n` more, then `$`, which also matches before a
-- newline at the end
unfoldable pub matches_tail : ℕ → Str → Bool
matches_tail n [] = true
matches_tail zero (c ∷ s) = c == 10 && is_empty s
matches_tail (suc n) (c ∷ s) = (c == 10 && is_empty s) || (is_symbol_char c && matches_tail n s)

-- `re.match(pattern, v)`
unfoldable pub matches_pattern : Str → Bool
matches_pattern [] = false
matches_pattern (c ∷ s) = is_alnum c && matches_tail 29 s

-- `InvalidSymbolError`, without and with the symbol
pub data Validated : Type 0 where
  valid : Str → Validated
  empty_symbol : Validated
  invalid_symbol : Str → Validated

-- `validate_symbol` of both models
unfoldable pub validate_symbol : Str → Validated
validate_symbol v =
    if is_empty v || is_empty (strip v)
    then empty_symbol
    else if matches_pattern (strip v)
    then valid (strip v)
    else invalid_symbol (strip v)

pub record MarketDataSubscription : Type 0 where
  pub subscription_id : Str
  pub symbol : Str
  pub exchange : Str
  pub active : Bool
