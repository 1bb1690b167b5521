-- ===== src/Adapter/Subscriptions/Keys.antt =====
-- Symbol keys and subscription ids are one to one with what they are made of.
use xiaoy_md.Prelude.{ℕ, ◌≡◌, refl, sym, ap, ◌∙◌, false, [], ◌∷◌, Option-cases, inl, inr}
use xiaoy_md.Text.{Str, has_char, split_last}
use xiaoy_md.Text.Decimal.{decimal_injective}
use xiaoy_md.Text.Split.{split_last-append, split_last_join}
use xiaoy_md.Adapter.Subscriptions.{join_key, split_symbol, sub_id}

tail_of : Str → Str
tail_of [] = []
tail_of (c ∷ s) = s

pub sub_id_injective : (m n : ℕ) → sub_id m ≡ sub_id n → m ≡ n
unfolding tail_of
sub_id_injective m n e = decimal_injective m n (ap (λ s. tail_of (tail_of (tail_of (tail_of s)))) e)

-- the exchange of a symbol has no dot
pub split_symbol-no_dot : (s : Str) → has_char b'.' (split_symbol s).1 ≡ false
unfolding split_symbol
split_symbol-no_dot s = elim (Option-cases (split_last b'.' s)) [
  | inl e ↦ rw (e, split_symbol) (unfold has_char in refl)
  | inr ((base, exchange), e) ↦ rw (e, split_symbol) (split_last_join b'.' s e).1
]

pub join_key_injective :
    (a b e f : Str)
    → has_char b'.' e ≡ false
    → has_char b'.' f ≡ false
    → join_key a e ≡ join_key b f
    → (a ≡ b) × (e ≡ f)
join_key_injective a b e f he hf h =
    let p =
      sym (split_last-append b'.' a e he)
      ∙ ap (split_last b'.') h
      ∙ split_last-append b'.' b f hf in
    (cc p, cc p)
