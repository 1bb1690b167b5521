-- ===== src/Adapter/Translate.antt =====
-- The translation of a vn.py tick (src/infrastructure/ctp_adapter.py): `normalize_address`, the
-- resolution of symbol and exchange, and `_build_raw_payload`. Floats are a type of numbers, times
-- their ISO text.
pub mod Market
use xiaoy_md.Prelude.{Bool, false, ◌||◌, [], ◌∷◌, ◌++◌, Option, none, some, ◌==◌, if◌then◌else◌}
use xiaoy_md.Text.{Str, codes, is_empty, or_else, has_char, split_first, split_last}
use xiaoy_md.Dict.{Dict, lookup, insert, set_default}
use xiaoy_md.FullFeed.Reasons.{starts_with}

unfoldable pub normalize_address : Str → Str
normalize_address addr =
    if starts_with addr (codes "tcp://") || starts_with addr (codes "ssl://")
    then addr
    else codes "tcp://" ++ addr

-- a value of the payload, over the numbers
pub data Value (N : Type 0) : Type 0 where
  null : Value N
  text : Str → Value N
  number : N → Value N

-- an attribute of a vn.py tick, as `_normalize_attribute` tells them apart: a time by its ISO text,
-- an enumeration by its value, where that is a text, and its name
pub data Attribute (N : Type 0) : Type 0 where
  missing : Attribute N
  time : Str → Attribute N
  enumeration : Option Str → Str → Attribute N
  real : N → Attribute N
  plain : Value N → Attribute N

-- what the code asks of a number: whether it is MAX_FLOAT or more, not a number, zero, and whether
-- the `Decimal` field of a pydantic model accepts it, which refuses a NaN and an infinity; and 0
pub record Floats (N : Type 0) : Type 0 where
  pub is_max : N → Bool
  pub is_nan : N → Bool
  pub is_zero : N → Bool
  pub is_finite : N → Bool
  pub zero_price : N

-- the attributes that are read by name, the text of the exchange's value among them, and all of
-- the instance's
pub record VnpyTick (N : Type 0) : Type 0 where
  pub symbol : Option Str
  pub vt_symbol : Option Str
  pub exchange : Option Str
  pub iso_time : Str
  pub date : Str
  pub clock_time : Str
  pub last_price : N
  pub bid_price_1 : Option N
  pub ask_price_1 : Option N
  pub volume : Option N
  pub attributes : Dict (Attribute N)

-- `_symbol_from_exchange`, for the text of the exchange
unfoldable pub symbol_from_exchange : Str → Option Str → Str × Option Str
symbol_from_exchange base none = (base, none)
symbol_from_exchange base (some raw) =
    let exchange : Str =
      if starts_with raw (codes "Exchange.")
      then elim (split_first b'.' raw) [ none ↦ raw | some (a, b) ↦ b ]
      else raw in
    if is_empty exchange || (has_char b'<' exchange || has_char b' ' exchange)
    then (base, none)
    else (if is_empty base then exchange else base ++ b'.' ∷ exchange, some exchange)

-- `a, b = s.rsplit(".", 1)`, where both are not empty
unfoldable pub split_pair : Str → Option (Str × Str)
unfolding split_last
split_pair s = elim (split_last b'.' s) [
  | none ↦ none
  | some (base, ex) ↦ if is_empty base || is_empty ex then none else some (base, ex)
]

-- a symbol without an exchange takes the one in its base symbol
unfoldable pub exchange_from_base : Str → Str × Option Str → Str × Option Str
unfolding split_pair
exchange_from_base base (vt, some ex) = (vt, some ex)
exchange_from_base base (vt, none) = elim (split_pair base) [
  | none ↦ (vt, none)
  | some (b, ex) ↦ (or_else vt (b ++ b'.' ∷ ex), some ex)
]

-- the part of a name behind its last dot
unfoldable pub last_part : Str → Option Str
unfolding split_last
last_part s = elim (split_last b'.' s) [ none ↦ none | some (a, b) ↦ some b ]

-- `_resolve_vt_symbol`
unfoldable pub resolve_vt_symbol : Option Str → Option Str → Str → Str × Option Str
resolve_vt_symbol none ex base = exchange_from_base base (symbol_from_exchange base ex)
resolve_vt_symbol (some []) ex base = exchange_from_base base (symbol_from_exchange base ex)
resolve_vt_symbol (some (c ∷ vt)) ex base = (c ∷ vt, last_part (c ∷ vt))

-- a base symbol that names its exchange gives it where none is known yet
unfoldable pub with_pair : Str → Str × Option Str → Option (Str × Str) → Str × Str × Option Str
with_pair base (vt, exchange) none = (base, vt, exchange)
with_pair base (vt, none) (some (b, ex)) = (b, or_else vt (b ++ b'.' ∷ ex), some ex)
with_pair base (vt, some known) (some (b, ex)) = (b, or_else vt (b ++ b'.' ∷ ex), some known)

-- the base symbol, the symbol and the exchange of a translated tick
unfoldable pub names_of : {N : Type 0} → VnpyTick N → Str × Str × Option Str
names_of t =
    let base : Str = elim t.symbol [ none ↦ [] | some s ↦ s ] in
    with_pair base (resolve_vt_symbol t.vt_symbol t.exchange base) (split_pair base)

module _ {N : Type 0} (floats : Floats N) where
  -- `_normalize_attribute`
  unfoldable pub normalize_attribute : Attribute N → Value N
  normalize_attribute missing = null
  normalize_attribute (time iso) = text iso
  normalize_attribute (enumeration none name) = text name
  normalize_attribute (enumeration (some value) name) = text value
  normalize_attribute (real n) = if floats.is_nan n || floats.is_max n then null else number n
  normalize_attribute (plain v) = v

  unfoldable pub is_private : Str → Bool
  is_private [] = false
  is_private (c ∷ key) = c == b'_'

  -- the attributes that are not private, normalized
  unfoldable pub public_payload : Dict (Attribute N) → Dict (Value N)
  unfolding is_private insert normalize_attribute
  public_payload [] = []
  public_payload ((key, value) ∷ rest) =
      let payload = public_payload rest in
      if is_private key then payload else (key, normalize_attribute value) ∷ payload

  -- `known or "UNKNOWN"`
  unfoldable pub known_exchange : Option (Value N) → Value N
  known_exchange none = text (codes "UNKNOWN")
  known_exchange (some null) = text (codes "UNKNOWN")
  known_exchange (some (text [])) = text (codes "UNKNOWN")
  known_exchange (some (text (c ∷ ex))) = text (c ∷ ex)
  known_exchange (some (number n)) = if floats.is_zero n then text (codes "UNKNOWN") else number n

  -- `normalized_exchange or known or "UNKNOWN"`
  unfoldable pub exchange_entry : Option Str → Option (Value N) → Value N
  unfolding known_exchange
  exchange_entry none known = known_exchange known
  exchange_entry (some []) known = known_exchange known
  exchange_entry (some (c ∷ ex)) known = text (c ∷ ex)

  -- the symbols of `_build_raw_payload`
  unfoldable pub put_symbols : Str → Str → Dict (Value N) → Dict (Value N)
  unfolding set_default insert
  put_symbols base vt payload =
      let named =
        if is_empty base
        then payload
        else insert (codes "base_symbol") (text base)
            (set_default (codes "symbol") (text base) payload) in
      insert (codes "vt_symbol") (text vt) named

  -- its times and its source
  unfoldable pub put_times : VnpyTick N → Dict (Value N) → Dict (Value N)
  unfolding set_default
  put_times t payload = set_default (codes "source") (text (codes "ctp")) (
      set_default (codes "time") (text t.clock_time) (
        set_default (codes "date") (text t.date) (
          set_default (codes "timestamp") (text t.iso_time)
            (set_default (codes "datetime") (text t.iso_time) payload))))

  unfoldable pub build_raw_payload : VnpyTick N → Str → Str → Option Str → Dict (Value N)
  build_raw_payload t base vt exchange =
      let payload = put_symbols base vt (public_payload t.attributes) in
      put_times t (
        insert (codes "exchange") (exchange_entry exchange (lookup (codes "exchange") payload))
          payload)
