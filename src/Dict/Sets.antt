-- ===== src/Dict/Sets.antt =====
-- Membership in a set, and lists with no item twice.
use xiaoy_md.Prelude.{◌≡◌, refl, false, ◌||◌, List, [], ◌∷◌, ◌++◌, arith}
use xiaoy_md.Text.{Str, str_eq, str_eq_iff}
use xiaoy_md.Dict.{mem, add}

pub mem-append : (x : Str) (s t : List Str) → mem x (s ++ t) ≡ (mem x s || mem x t)
unfolding mem
mem-append x [] t = refl
mem-append x (y ∷ s) t = ground (arith, mem-append x s t)

pub mem-add : (x y : Str) (s : List Str) → mem x (add y s) ≡ (str_eq y x || mem x s)
unfolding add mem
mem-add x y s = ground (arith, mem-append x s (y ∷ []), str_eq_iff y x)

abbrev pub Unique : List Str → Type 0
Unique [] = Unit
Unique (x ∷ s) = (mem x s ≡ false) × Unique s

pub Unique-append_one : (s : List Str) (x : Str) → Unique s → mem x s ≡ false → Unique (s ++ x ∷ [])
unfolding mem
Unique-append_one [] x u h = (refl, tt)
Unique-append_one (y ∷ s) x u h =
    ground
      (arith, Unique-append_one s x u.1, mem-append y s (x ∷ []), str_eq_iff y x, str_eq_iff x y)

pub Unique-add : (x : Str) (s : List Str) → Unique s → Unique (add x s)
unfolding add
Unique-add x s u = ground (arith, Unique-append_one s x u)
