-- ===== src/Text/Strip.antt =====
-- `strip` leaves no space at either end, and changes nothing that has none.
use xiaoy_md.Prelude.{◌≡◌, refl, false, ◌&&◌, [], ◌∷◌, arith, Bool-cases, inl, inr, if◌then◌else◌}
use xiaoy_md.Text.{Str, is_empty, is_space, lstrip, rstrip, strip}

-- the first character, if any, is no space
abbrev pub NoLeadingSpace : Str → Type 0
NoLeadingSpace [] = Unit
NoLeadingSpace (c ∷ s) = is_space c ≡ false

lstrip-NoLeadingSpace : (s : Str) → NoLeadingSpace (lstrip s)
unfolding lstrip
lstrip-NoLeadingSpace [] = tt
lstrip-NoLeadingSpace (c ∷ s) = ground (arith, lstrip-NoLeadingSpace s)

lstrip_of_NoLeadingSpace : (s : Str) → NoLeadingSpace s → lstrip s ≡ s
unfolding lstrip
lstrip_of_NoLeadingSpace [] h = refl
lstrip_of_NoLeadingSpace (c ∷ s) h = ground arith

rstrip-NoLeadingSpace : (s : Str) → NoLeadingSpace s → NoLeadingSpace (rstrip s)
unfolding rstrip
rstrip-NoLeadingSpace [] h = tt
rstrip-NoLeadingSpace (c ∷ s) h = ground arith

rstrip_idem : (s : Str) → rstrip (rstrip s) ≡ rstrip s
unfolding rstrip
rstrip_idem [] = refl
rstrip_idem (c ∷ s) = ground (arith, rstrip_idem s)

pub strip-NoLeadingSpace : (s : Str) → NoLeadingSpace (strip s)
unfolding strip
strip-NoLeadingSpace s = rstrip-NoLeadingSpace (lstrip s) (lstrip-NoLeadingSpace s)

pub strip_idem : (s : Str) → strip (strip s) ≡ strip s
unfolding strip
strip_idem s =
    rw (lstrip_of_NoLeadingSpace (rstrip (lstrip s)) (strip-NoLeadingSpace s))
      (rstrip_idem (lstrip s))

-- the last character, if any, is no space
abbrev pub NoTrailingSpace : Str → Type 0
NoTrailingSpace [] = Unit
NoTrailingSpace (c ∷ []) = is_space c ≡ false
NoTrailingSpace (c ∷ d ∷ s) = NoTrailingSpace (d ∷ s)

rstrip-NoTrailingSpace : (s : Str) → NoTrailingSpace (rstrip s)
unfolding rstrip
rstrip-NoTrailingSpace [] = tt
rstrip-NoTrailingSpace (c ∷ s) = go (rstrip s) (rstrip-NoTrailingSpace s)
  where
    go :
        (r : Str)
        → NoTrailingSpace r
        → NoTrailingSpace (if is_empty r && is_space c then [] else c ∷ r)
    go [] h = elim (Bool-cases (is_space c)) [ inl e ↦ rw e tt | inr e ↦ rw e e ]
    go (d ∷ r) h = h

pub strip-NoTrailingSpace : (s : Str) → NoTrailingSpace (strip s)
unfolding strip
strip-NoTrailingSpace s = rstrip-NoTrailingSpace (lstrip s)
