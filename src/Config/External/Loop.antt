-- ===== src/Config/External/Loop.antt =====
-- The loop that moves the keys of a map into a payload (src/config.py).
use xiaoy_md.Prelude.{
  ◌≡◌, ◌≢◌, refl, Bool, true, false, ◌&&◌, List, [], ◌∷◌, ◌++◌, Option, none, some, arith,
  if◌then◌else◌,
}
use xiaoy_md.Text.{Str, str_eq, str_eq_iff}
use xiaoy_md.Dict.{Dict, lookup, mem}
use xiaoy_md.Dict.Laws.{lookup-insert, lookup-insert_self, lookup-insert_ne, lookup-erase_ne}
use xiaoy_md.Dict.Sets.{mem-append}
use xiaoy_md.Config.External.{pop_first, put_attr, collect, put_payload}

-- the keys of all attributes
abbrev pub all_keys : Dict (List Str) → List Str
all_keys [] = []
all_keys ((attr, keys) ∷ mapping) = keys ++ all_keys mapping

-- no key of the row stands in the other one
abbrev pub disjoint : List Str → List Str → Bool
disjoint [] others = true
disjoint (key ∷ keys) others = if mem key others then false else disjoint keys others

-- an attribute stands once, and its keys are no keys of a later one
abbrev pub apart : Dict (List Str) → Bool
apart [] = true
apart ((attr, keys) ∷ mapping) = elim (lookup attr mapping) [
  | none ↦ if disjoint (all_keys mapping) keys then apart mapping else false
  | some other ↦ false
]

disjoint-append :
    (keys more others : List Str)
    → disjoint (keys ++ more) others ≡ (disjoint keys others && disjoint more others)
disjoint-append [] more others = refl
disjoint-append (key ∷ keys) more others = ground (arith, disjoint-append keys more others)

-- the keys of one attribute keep apart from what the keys of all do
pub disjoint-lookup :
    (attr : Str) (keys others : List Str) (mapping : Dict (List Str))
    → lookup attr mapping ≡ some keys
    → disjoint (all_keys mapping) others ≡ true
    → disjoint keys others ≡ true
unfolding lookup
disjoint-lookup attr keys others [] h g = ground arith
disjoint-lookup attr keys others ((other, first) ∷ mapping) h g = ground (
  arith,
  disjoint-append first (all_keys mapping) others,
  disjoint-lookup attr keys others mapping,
)

module _ {V : Type 0} where
  -- the value of the first key that is there
  abbrev pub first_of : List Str → Dict V → Option V
  first_of [] d = none
  first_of (key ∷ keys) d = elim (lookup key d) [ some v ↦ some v | none ↦ first_of keys d ]

  pop_first-value : (keys : List Str) (d : Dict V) → (pop_first keys d).0 ≡ first_of keys d
  unfolding pop_first
  pop_first-value [] d = refl
  pop_first-value (key ∷ keys) d = ground (arith, pop_first-value keys d)

  pop_first-frame :
      (j : Str) (keys : List Str) (d : Dict V)
      → mem j keys ≡ false
      → lookup j (pop_first keys d).1 ≡ lookup j d
  unfolding pop_first mem
  pop_first-frame j [] d h = refl
  pop_first-frame j (key ∷ keys) d h =
      ground (arith, lookup-erase_ne key j d, str_eq_iff key j, pop_first-frame j keys d)

  pub collect-frame :
      (j : Str) (mapping : Dict (List Str)) (p d : Dict V)
      → mem j (all_keys mapping) ≡ false
      → lookup j (collect mapping p d).1 ≡ lookup j d
  unfolding collect
  collect-frame j [] p d h = refl
  collect-frame j ((attr, keys) ∷ mapping) p d h = ground (
    arith,
    mem-append j keys (all_keys mapping),
    pop_first-frame j keys d,
    collect-frame j mapping (put_attr attr (pop_first keys d).0 p) (pop_first keys d).1,
  )

  first_of-frame :
      (keys popped : List Str) (d : Dict V)
      → disjoint keys popped ≡ true
      → first_of keys (pop_first popped d).1 ≡ first_of keys d
  first_of-frame [] popped d h = refl
  first_of-frame (key ∷ keys) popped d h =
      ground (arith, pop_first-frame key popped d, first_of-frame keys popped d)

  lookup-put_attr :
      (j attr : Str) (v : Option V) (p : Dict V)
      → str_eq attr j ≡ false
      → lookup j (put_attr attr v p) ≡ lookup j p
  unfolding put_attr
  lookup-put_attr j attr none p h = refl
  lookup-put_attr j attr (some v) p h = rw (lookup-insert attr j v p) (rw h refl)

  lookup-put_attr_self :
      (attr : Str) (v : Option V) (p : Dict V)
      → lookup attr p ≡ none
      → lookup attr (put_attr attr v p) ≡ v
  unfolding put_attr
  lookup-put_attr_self attr none p h = h
  lookup-put_attr_self attr (some v) p h = lookup-insert_self attr v p

  -- an attribute that the map does not name keeps its value
  collect-other :
      (j : Str) (mapping : Dict (List Str)) (p d : Dict V)
      → lookup j mapping ≡ none
      → lookup j (collect mapping p d).0 ≡ lookup j p
  unfolding collect lookup
  collect-other j [] p d h = refl
  collect-other j ((attr, keys) ∷ mapping) p d h = ground (
    arith,
    lookup-put_attr j attr (pop_first keys d).0 p,
    collect-other j mapping (put_attr attr (pop_first keys d).0 p) (pop_first keys d).1,
  )

  -- an attribute that the map names gets the value of the first of its keys that is there
  pub collect-named :
      (attr : Str) (keys : List Str) (mapping : Dict (List Str)) (p d : Dict V)
      → apart mapping ≡ true
      → lookup attr p ≡ none
      → lookup attr mapping ≡ some keys
      → lookup attr (collect mapping p d).0 ≡ first_of keys d
  unfolding collect lookup
  collect-named attr keys [] p d a n h = ground arith
  collect-named attr keys ((other, first) ∷ mapping) p d a n h =
      let v = (pop_first first d).0 in
      let rest = (pop_first first d).1 in
      ground (
        arith,
        str_eq_iff other attr,
        collect-other attr mapping (put_attr other v p) rest,
        lookup-put_attr_self attr v p,
        lookup-put_attr attr other v p,
        pop_first-value first d,
        disjoint-lookup attr keys first mapping,
        first_of-frame keys first d,
        collect-named attr keys mapping (put_attr other v p) rest,
      )

  pub lookup-nil : (attr : Str) → lookup {V = V} attr [] ≡ none
  unfolding lookup
  lookup-nil attr = refl

  pub lookup-put_payload_ne :
      (as_dict : Dict V → V) (j name : Str) (payload d : Dict V)
      → name ≢ j
      → lookup j (put_payload as_dict name payload d) ≡ lookup j d
  unfolding put_payload
  lookup-put_payload_ne as_dict j name [] d h = refl
  lookup-put_payload_ne as_dict j name (entry ∷ payload) d h =
      lookup-insert_ne name j (as_dict (entry ∷ payload)) d h

  -- a payload that holds something is stored
  pub lookup-put_payload :
      (as_dict : Dict V → V) (name attr : Str) (v : V) (payload d : Dict V)
      → lookup attr payload ≡ some v
      → lookup name (put_payload as_dict name payload d) ≡ some (as_dict payload)
  unfolding put_payload lookup
  lookup-put_payload as_dict name attr v [] d h = ground arith
  lookup-put_payload as_dict name attr v (entry ∷ payload) d h =
      lookup-insert_self name (as_dict (entry ∷ payload)) d

pub first_of-same :
    {V : Type 0} (keys others : List Str) (d e : Dict V)
    → disjoint keys others ≡ true
    → ((j : Str) → mem j others ≡ false → lookup j d ≡ lookup j e)
    → first_of keys d ≡ first_of keys e
first_of-same [] others d e h same = refl
first_of-same (key ∷ keys) others d e h same =
    ground (arith, same key, first_of-same keys others d e (ground arith) same)
