-- ===== src/Text/Decimal.antt =====
-- `str(n)` of a natural number, and that it is injective.
use xiaoy_md.Prelude.{
  ℕ, zero, suc, ◌+◌, ◌-◌, ◌*◌, ◌/◌, ◌%◌, ◌<◌, ◌≡◌, refl, ap, ◌∙◌, sym, [], ◌∷◌, ◌++◌, arith, ltb,
  if◌then◌else◌,
}
use xiaoy_md.Text.{Str}

-- On fuel: one round for each digit.
decimal_from : ℕ → ℕ → Str
decimal_from zero n = []
decimal_from (suc f) n =
    let rest = decimal_from f (n / 10) ++ (48 + n % 10) ∷ [] in
    if ltb n 10 then (48 + n) ∷ [] else rest

unfoldable pub decimal : ℕ → Str
unfolding decimal_from
decimal n = decimal_from (n + 1) n

-- the number that a row of digits stands for
value_from : ℕ → Str → ℕ
value_from acc [] = acc
value_from acc (c ∷ s) = value_from (acc * 10 + (c - 48)) s

value_from-append :
    (acc : ℕ) (s : Str) (c : ℕ) → value_from acc (s ++ c ∷ []) ≡ value_from acc s * 10 + (c - 48)
unfolding value_from
value_from-append acc [] c = refl
value_from-append acc (d ∷ s) c = value_from-append (acc * 10 + (d - 48)) s c

value-decimal_from : (f n : ℕ) → n < f → value_from 0 (decimal_from f n) ≡ n
unfolding decimal_from
value-decimal_from zero n h = absurd (omega arith)
value-decimal_from (suc f) n h = ground (
  arith,
  value_from-append 0 (decimal_from f (n / 10)) (48 + n % 10),
  value-decimal_from f (n / 10),
  single,
)
  where
    single : value_from 0 ((48 + n) ∷ []) ≡ n
    single = unfold value_from in omega arith

pub decimal_injective : (m n : ℕ) → decimal m ≡ decimal n → m ≡ n
unfolding decimal
decimal_injective m n e =
    sym (value-decimal_from (m + 1) m (omega arith))
    ∙ ap (value_from 0) e
    ∙ value-decimal_from (n + 1) n (omega arith)
