-- ===== src/Dict/Laws.antt =====
-- What a dictionary returns after an assignment and after a removal.
use xiaoy_md.Prelude.{◌≡◌, ◌≢◌, refl, true, false, [], ◌∷◌, none, some, arith, if◌then◌else◌}
use xiaoy_md.Text.{Str, str_eq, str_eq_iff}
use xiaoy_md.Dict.{Dict, lookup, insert, erase, keys, mem}

module _ {ℓ} {V : Type ℓ} where
  pub lookup-insert :
      (k j : Str) (v : V) (d : Dict V)
      → lookup j (insert k v d) ≡ (if str_eq k j then some v else lookup j d)
  unfolding lookup insert
  lookup-insert k j v [] = refl
  lookup-insert k j v ((i, w) ∷ d) =
      ground (arith, str_eq_iff k j, str_eq_iff i k, str_eq_iff i j, lookup-insert k j v d)

  pub lookup-insert_self : (k : Str) (v : V) (d : Dict V) → lookup k (insert k v d) ≡ some v
  lookup-insert_self k v d = ground (arith, lookup-insert k k v d, str_eq_iff k k)

  pub lookup-insert_ne :
      (k j : Str) (v : V) (d : Dict V) → k ≢ j → lookup j (insert k v d) ≡ lookup j d
  lookup-insert_ne k j v d h = ground (arith, lookup-insert k j v d, str_eq_iff k j)

  -- every key stands once
  abbrev pub Distinct : Dict V → Type 0
  Distinct [] = Unit
  Distinct ((k, v) ∷ d) = (mem k (keys d) ≡ false) × Distinct d

  pub mem-keys : (k : Str) (d : Dict V) → mem k (keys d) ≡ false → lookup k d ≡ none
  unfolding mem lookup
  mem-keys k [] h = refl
  mem-keys k ((j, w) ∷ d) h = ground (arith, mem-keys k d)

  pub lookup-erase_self : (k : Str) (d : Dict V) → Distinct d → lookup k (erase k d) ≡ none
  unfolding lookup erase
  lookup-erase_self k [] h = refl
  lookup-erase_self k ((j, w) ∷ d) h =
      ground (arith, str_eq_iff j k, lookup-erase_self k d h.1, mem-keys k d)

  pub lookup-erase_ne : (k j : Str) (d : Dict V) → k ≢ j → lookup j (erase k d) ≡ lookup j d
  unfolding lookup erase
  lookup-erase_ne k j [] h = refl
  lookup-erase_ne k j ((i, w) ∷ d) h =
      ground (arith, str_eq_iff i k, str_eq_iff i j, lookup-erase_ne k j d h)

  mem-keys-insert :
      (j k : Str) (v : V) (d : Dict V)
      → mem j (keys (insert k v d)) ≡ (if str_eq k j then true else mem j (keys d))
  unfolding mem insert
  mem-keys-insert j k v [] = refl
  mem-keys-insert j k v ((i, w) ∷ d) =
      ground (arith, str_eq_iff k j, str_eq_iff i k, str_eq_iff i j, mem-keys-insert j k v d)

  pub insert-Distinct : (k : Str) (v : V) (d : Dict V) → Distinct d → Distinct (insert k v d)
  unfolding insert mem
  insert-Distinct k v [] h = (refl, tt)
  insert-Distinct k v ((j, w) ∷ d) h =
      ground
        (arith, str_eq_iff j k, str_eq_iff k j, insert-Distinct k v d h.1, mem-keys-insert j k v d)

  mem-keys-erase :
      (j k : Str) (d : Dict V) → mem j (keys d) ≡ false → mem j (keys (erase k d)) ≡ false
  unfolding mem erase
  mem-keys-erase j k [] h = refl
  mem-keys-erase j k ((i, w) ∷ d) h = ground (arith, mem-keys-erase j k d)

  pub erase-Distinct : (k : Str) (d : Dict V) → Distinct d → Distinct (erase k d)
  unfolding erase
  erase-Distinct k [] h = tt
  erase-Distinct k ((j, w) ∷ d) h = ground (arith, erase-Distinct k d h.1, mem-keys-erase j k d)
