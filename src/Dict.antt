-- ===== src/Dict.antt =====
-- Python's `dict` with text keys, in insertion order, and `set` as the list of its items in the
-- order of their insertion.
pub mod Laws
pub mod Sets
use xiaoy_md.Prelude.{Bool, true, false, List, [], ◌∷◌, ◌++◌, Option, none, some, if◌then◌else◌}
use xiaoy_md.Text.{Str, str_eq}

abbrev pub Dict {ℓ} : Type ℓ → Type ℓ
Dict V = List (Str × V)

module _ {ℓ} {V : Type ℓ} where
  -- `d.get(k)`
  unfoldable pub lookup : Str → Dict V → Option V
  lookup k [] = none
  lookup k ((j, v) ∷ d) = if str_eq j k then some v else lookup k d

  -- `d[k] = v`: a known key keeps its place
  unfoldable pub insert : Str → V → Dict V → Dict V
  insert k v [] = (k, v) ∷ []
  insert k v ((j, w) ∷ d) = if str_eq j k then (j, v) ∷ d else (j, w) ∷ insert k v d

  -- `d.pop(k, None)`, the rest
  unfoldable pub erase : Str → Dict V → Dict V
  erase k [] = []
  erase k ((j, w) ∷ d) = if str_eq j k then d else (j, w) ∷ erase k d

  -- `d.setdefault(k, v)`
  unfoldable pub set_default : Str → V → Dict V → Dict V
  unfolding lookup insert
  set_default k v d = elim (lookup k d) [ none ↦ insert k v d | some w ↦ d ]

  -- `d.values()`
  abbrev pub values : Dict V → List V
  values [] = []
  values ((k, v) ∷ d) = v ∷ values d

  abbrev pub keys : Dict V → List Str
  keys [] = []
  keys ((k, v) ∷ d) = k ∷ keys d

-- `x in s`
unfoldable pub mem : Str → List Str → Bool
mem x [] = false
mem x (y ∷ s) = if str_eq y x then true else mem x s

-- `s.add(x)`
unfoldable pub add : Str → List Str → List Str
unfolding mem
add x s = if mem x s then s else s ++ x ∷ []

-- `s.update(names)`
unfoldable pub add_each : List Str → List Str → List Str
unfolding add
add_each [] s = s
add_each (x ∷ names) s = add_each names (add x s)
