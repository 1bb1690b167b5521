-- ===== src/Tests/Symbols.antt =====
-- Symbols and subscriptions on small inputs.
use xiaoy_md.Prelude.{◌≡◌, ◌≢◌, ◌↔◌, refl, [], ◌∷◌}
use xiaoy_md.Text.{
  Str, codes, str_eq, is_space, lstrip, rstrip, strip, has_char, split_first, split_last,
}
use xiaoy_md.Text.Decimal.{decimal}
use xiaoy_md.Dict.{lookup, insert, erase, mem}
use xiaoy_md.Domain.{
  valid, empty_symbol, is_alnum, is_symbol_char, matches_tail, matches_pattern, validate_symbol,
}
use xiaoy_md.Domain.Symbols.{IsSymbol, validate_symbol-IsSymbol}
use xiaoy_md.Adapter.Live.{
  enqueue, request_subscribe, lstrip_dots, rstrip_dots, live_symbol, subscribe_live_hook,
}
use xiaoy_md.Adapter.Subscriptions.{
  State, key_error, split_symbol, record_new, existing, subscribe, unsubscribe, replay,
  resubscribe_all,
}
use xiaoy_md.Adapter.Subscriptions.Consistency.{IsConsistent}
use xiaoy_md.Adapter.Subscriptions.Preserved.{subscribe-IsConsistent, unsubscribe-IsConsistent}

program : Unit {0}
unfolding str_eq is_space lstrip rstrip strip has_char split_first split_last decimal lookup insert
    erase mem is_alnum is_symbol_char matches_tail matches_pattern validate_symbol enqueue
    request_subscribe lstrip_dots rstrip_dots live_symbol subscribe_live_hook split_symbol
    record_new existing subscribe unsubscribe replay resubscribe_all
program = tt

validate_symbol_run : validate_symbol (codes " rb2401.SHFE ") ≡ valid (codes "rb2401.SHFE")
unfolding program
validate_symbol_run = refl

validate_symbol_blank : validate_symbol (codes "  ") ≡ empty_symbol
unfolding program
validate_symbol_blank = refl

validate_symbol-IsSymbol_example :
    (validate_symbol (codes " rb2401 ") ≡ valid (codes "rb2401"))
    ↔ ((codes "rb2401" ≡ strip (codes " rb2401 ")) × IsSymbol (codes "rb2401"))
validate_symbol-IsSymbol_example = validate_symbol-IsSymbol (codes " rb2401 ") (codes "rb2401")

abbrev empty : State
empty = record {
  subs_by_id = [];
  sub_id_by_symbol = [];
  sub_seq = 0;
  live = record { seen = []; queue = [] };
}

empty-IsConsistent : IsConsistent empty
unfolding lookup
empty-IsConsistent = record {
  distinct_ids = tt;
  distinct_keys = tt;
  mapped = λ key id h. absurd (cc);
  named = λ id sub h. absurd (cc);
  fresh = λ n lt. refl;
}

abbrev rb : Str
rb = codes "rb2401.SHFE"

subscribe_run : (subscribe rb empty).1.sub_id_by_symbol ≡ (rb, codes "sub-1") ∷ []
unfolding program
subscribe_run = refl

subscribe-IsConsistent_example :
    IsConsistent (subscribe rb empty).1 × ((subscribe rb empty).0 ≢ key_error)
unfolding program
subscribe-IsConsistent_example = subscribe-IsConsistent rb empty refl empty-IsConsistent

unsubscribe-IsConsistent_example : IsConsistent (unsubscribe (codes "sub-1") (subscribe rb empty).1)
unsubscribe-IsConsistent_example =
    unsubscribe-IsConsistent (codes "sub-1") (subscribe rb empty).1 subscribe-IsConsistent_example.0

abbrev spaced : Str
spaced = codes "rb2401 .SHFE"

spaced-ne : strip (split_symbol (strip spaced)).0 ≢ (split_symbol (strip spaced)).0
unfolding program
spaced-ne h = cc h
