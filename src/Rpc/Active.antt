-- ===== src/Rpc/Active.antt =====
-- What the answer to a request for the active subscriptions holds.
use xiaoy_md.Prelude.{
  ℕ, zero, suc, ◌≤◌, ◌≡◌, refl, inl, inr, List, [], ◌∷◌, ◌++◌, arith, ltb, Bool-cases, length, take,
  drop, length-take, length-drop, append-nil,
}
use xiaoy_md.Text.{Str}
use xiaoy_md.Rpc.{natural, Entry, normalized, listed, handle_active_subscriptions}

length-normalized : (entries : List Entry) → length (normalized entries) ≤ length entries
unfolding normalized
length-normalized [] = omega arith
length-normalized (e ∷ entries) = ground (arith, length-normalized entries)

take-drop {ℓ} : {A : Type ℓ} (n : ℕ) (xs : List A) → xs ≡ take n xs ++ drop n xs
take-drop zero xs = refl
take-drop (suc n) [] = refl
take-drop (suc n) (x ∷ xs) = ground (arith, take-drop n xs)

-- With a positive limit, the subscriptions in the answer are the first of the usable names, in
-- their order, never more than the limit nor than the total, and names are left out exactly when
-- the answer is marked as truncated.
handle_active_subscriptions-prefix :
    (limit : ℕ) (entries : List Entry)
    → 1 ≤ limit
    → let response = handle_active_subscriptions (natural limit) (listed entries) in
      ((rest : List Str) × (normalized entries ≡ response.subscriptions ++ rest)
        × (response.truncated ≡ ltb 0 (length rest)))
      × (length response.subscriptions ≤ limit)
      × (length response.subscriptions ≤ response.total)
unfolding handle_active_subscriptions
handle_active_subscriptions-prefix zero entries pos = absurd (omega arith)
handle_active_subscriptions-prefix (suc n) entries pos =
    elim (Bool-cases (ltb (suc n) (length (normalized entries)))) [
      | inl e ↦ (
        (
          drop (suc n) (normalized entries),
          ground (arith, take-drop (suc n) (normalized entries)),
          ground (arith, length-drop (suc n) (normalized entries)),
        ),
        ground (arith, length-take (suc n) (normalized entries)),
        ground (arith, length-take (suc n) (normalized entries), length-normalized entries),
      )
      | inr e ↦ (
        ([], ground (arith, append-nil (normalized entries)), ground arith),
        ground arith,
        ground (arith, length-normalized entries),
      )
    ]
