-- ===== src/Console/State/Trim.antt =====
-- What the cut of a cache keeps (src/application/ops_console.py): the last items, in their order.
use xiaoy_md.Prelude.{
  ℕ, zero, suc, ◌-◌, ◌≤◌, ◌≡◌, ◌≢◌, refl, ap, sym, ◌∙◌, [], ◌∷◌, ◌++◌, none, some, length, take,
  drop, arith, length-drop, append_assoc,
}
use xiaoy_md.Text.{Str, str_eq_iff}
use xiaoy_md.Dict.{Dict, lookup, insert, keys, mem}
use xiaoy_md.Dict.Laws.{Distinct, insert-Distinct, lookup-insert_ne}
use xiaoy_md.Dict.Sets.{mem-append}
use xiaoy_md.Console.State.{last_items, pick, cache}

module _ {V : Type 0} where
  take-drop : (n : ℕ) (d : Dict V) → take n d ++ drop n d ≡ d
  take-drop zero d = refl
  take-drop (suc n) [] = refl
  take-drop (suc n) (x ∷ d) = ap (λ t. x ∷ t) (take-drop n d)

  keys-drop : (n : ℕ) (d : Dict V) → keys (drop n d) ≡ drop n (keys d)
  keys-drop zero d = refl
  keys-drop (suc n) [] = refl
  keys-drop (suc n) ((k, v) ∷ d) = keys-drop n d

  keys-append : (a b : Dict V) → keys (a ++ b) ≡ keys a ++ keys b
  keys-append [] b = refl
  keys-append ((k, v) ∷ a) b = ap (λ t. k ∷ t) (keys-append a b)

  length-keys : (d : Dict V) → length (keys d) ≡ length d
  length-keys [] = refl
  length-keys ((k, v) ∷ d) = ap suc (length-keys d)

  pub drop-append : (n : ℕ) (a b : Dict V) → n ≤ length a → drop n (a ++ b) ≡ drop n a ++ b
  drop-append zero a b h = refl
  drop-append (suc n) [] b h = absurd (omega arith)
  drop-append (suc n) (x ∷ a) b h = drop-append n a b (omega arith)

  pub Distinct-drop : (n : ℕ) (d : Dict V) → Distinct d → Distinct (drop n d)
  Distinct-drop zero d h = h
  Distinct-drop (suc n) [] h = h
  Distinct-drop (suc n) (x ∷ d) h = Distinct-drop n d h.1

  pub lookup-append :
      (a b : Dict V) (k : Str) (v : V)
      → Distinct (a ++ (k, v) ∷ b)
      → lookup k (a ++ (k, v) ∷ b) ≡ some v
  unfolding lookup mem
  lookup-append [] b k v h = ground (arith, str_eq_iff k k)
  lookup-append ((j, w) ∷ a) b k v h = ground (
    arith,
    lookup-append a b k v h.1,
    str_eq_iff j k,
    str_eq_iff k k,
    str_eq_iff k j,
    keys-append a ((k, v) ∷ b),
    mem-append j (keys a) (k ∷ keys b),
    h.0,
  )

  pick-append : (a b : Dict V) → Distinct (a ++ b) → pick (keys b) (a ++ b) ≡ b
  unfolding pick
  pick-append a [] h = refl
  pick-append a ((k, v) ∷ b) h =
      rw (pick, lookup-append a b k v h)
        (ap (λ t. (k, v) ∷ t)
          (rw (sym (append_assoc a ((k, v) ∷ []) b))
            (pick-append (a ++ (k, v) ∷ []) b (rw (append_assoc a ((k, v) ∷ []) b) h))))

  pick-drop : (c : ℕ) (d : Dict V) → Distinct d → pick (drop c (keys d)) d ≡ drop c d
  pick-drop c d h =
      rw (take-drop c d, keys-drop c d) at
        (pick-append (take c d) (drop c d) (rw (take-drop c d) h))

  drop-none : (c : ℕ) (d : Dict V) → c ≡ 0 → drop c d ≡ d
  drop-none c d h = rw h refl

  -- setting an item that cuts the dictionary leaves its last items
  pub cache-drop :
      (n : ℕ) (k : Str) (v : V) (d : Dict V)
      → Distinct d
      → cache n k v d ≡ drop (length (insert k v d) - n) (insert k v d)
  unfolding cache last_items
  cache-drop n k v d h = ground (
    arith,
    drop-none (length (insert k v d) - n) (insert k v d),
    length-keys (insert k v d),
    pick-drop (length (insert k v d) - n) (insert k v d) (insert-Distinct k v d h),
  )

  pub length-cache :
      (n : ℕ) (k : Str) (v : V) (d : Dict V) → Distinct d → length (cache n k v d) ≤ n
  length-cache n k v d h = omega (
    arith,
    ap length (cache-drop n k v d h),
    length-drop (length (insert k v d) - n) (insert k v d),
  )

  pub cache-Distinct :
      (n : ℕ) (k : Str) (v : V) (d : Dict V) → Distinct d → Distinct (cache n k v d)
  cache-Distinct n k v d h =
      rw (cache-drop n k v d h)
        (Distinct-drop (length (insert k v d) - n) (insert k v d) (insert-Distinct k v d h))

  pub insert_new :
      (k : Str) (v : V) (d : Dict V) → lookup k d ≡ none → insert k v d ≡ d ++ (k, v) ∷ []
  unfolding lookup insert
  insert_new k v [] h = refl
  insert_new k v ((j, w) ∷ d) h = ground (arith, insert_new k v d)

  pub lookup-drop-none :
      (n : ℕ) (k : Str) (d : Dict V) → lookup k d ≡ none → lookup k (drop n d) ≡ none
  unfolding lookup
  lookup-drop-none zero k d h = h
  lookup-drop-none (suc n) k [] h = refl
  lookup-drop-none (suc n) k ((j, w) ∷ d) h = lookup-drop-none n k d (ground arith)

  pub lookup-cache-none :
      (n : ℕ) (j k : Str) (v : V) (d : Dict V)
      → Distinct d
      → k ≢ j
      → lookup j d ≡ none
      → lookup j (cache n k v d) ≡ none
  lookup-cache-none n j k v d u ne h = rw (cache-drop n k v d u) (
      lookup-drop-none (length (insert k v d) - n) j (insert k v d)
        (lookup-insert_ne k j v d ne ∙ h))
