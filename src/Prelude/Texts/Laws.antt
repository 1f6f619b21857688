-- ===== src/Prelude/Texts/Laws.antt =====
-- The equality of texts, and `lower` and `strip` done twice.
use Prim.Native.Nat.{ℕ}
use mathlib.Core.Path.{◌≡◌, refl, ap, ◌∙◌}
use mathlib.Core.Path.{ap₂}
use mathlib.Core.Logic.{inl, inr}
use mathlib.Core.Bool.{Bool, true, false, not}
use mathlib.Core.List.{[], ◌∷◌}
use native.Mathlib.Omega.{arith}
use trabalho_devops.Prelude.Tests.{Bool-cases}
use trabalho_devops.Prelude.Lists.{Text, text_eq}
use trabalho_devops.Prelude.Texts.{
  is_space, lower_char, lower, strip_left, keep_unless_blank, strip_right, strip,
}

pub text_eq_refl : (t : Text) → text_eq t t ≡ true
text_eq_refl [] = refl
text_eq_refl (c ∷ cs) = ground (arith, text_eq_refl cs)

pub text_eq_lem : (t u : Text) → text_eq t u ≡ true → t ≡ u
text_eq_lem [] [] h = refl
text_eq_lem (c ∷ cs) (d ∷ ds) h =
    ap₂ (λ (x : ℕ) (xs : Text). x ∷ xs) (ground arith) (text_eq_lem cs ds (ground arith))
text_eq_lem [] (d ∷ ds) h = absurd (ground arith)
text_eq_lem (c ∷ cs) [] h = absurd (ground arith)

lower_char-lower_char : (c : ℕ) → lower_char (lower_char c) ≡ lower_char c
lower_char-lower_char c = ground arith

pub is_space-lower_char : (c : ℕ) → is_space (lower_char c) ≡ is_space c
is_space-lower_char c = ground arith

lower-lower : (t : Text) → lower (lower t) ≡ lower t
lower-lower [] = refl
lower-lower (c ∷ cs) =
    ap₂ (λ (x : ℕ) (xs : Text). x ∷ xs) (lower_char-lower_char c) (lower-lower cs)

strip_left-lower : (t : Text) → strip_left (lower t) ≡ lower (strip_left t)
strip_left-lower [] = refl
strip_left-lower (c ∷ cs) = elim (Bool-cases (is_space c)) [
  | inl blank ↦ rw (is_space-lower_char c, blank) (strip_left-lower cs)
  | inr solid ↦ rw (is_space-lower_char c, solid) refl
]

pub keep_unless_blank-lower :
    (c : ℕ) (t : Text) → keep_unless_blank (lower_char c) (lower t) ≡ lower (keep_unless_blank c t)
keep_unless_blank-lower c [] = elim (Bool-cases (is_space c)) [
  | inl blank ↦ rw (is_space-lower_char c, blank) refl
  | inr solid ↦ rw (is_space-lower_char c, solid) refl
]
keep_unless_blank-lower c (d ∷ ds) = refl

strip_right-lower : (t : Text) → strip_right (lower t) ≡ lower (strip_right t)
strip_right-lower [] = refl
strip_right-lower (c ∷ cs) = rw (strip_right-lower cs) (keep_unless_blank-lower c (strip_right cs))

strip-lower : (t : Text) → strip (lower t) ≡ lower (strip t)
strip-lower t = rw (strip_left-lower t) (strip_right-lower (strip_left t))

-- The text does not begin with a space.
abbrev begins : Text → Bool
begins [] = true
begins (c ∷ cs) = not (is_space c)

begins-strip_left : (t : Text) → begins (strip_left t) ≡ true
begins-strip_left [] = refl
begins-strip_left (c ∷ cs) = elim (Bool-cases (is_space c)) [
  | inl blank ↦ rw blank (begins-strip_left cs)
  | inr solid ↦ rw (solid, solid) refl
]

begins-keep : (c : ℕ) (t : Text) → is_space c ≡ false → begins (keep_unless_blank c t) ≡ true
begins-keep c [] solid = rw (solid, solid) refl
begins-keep c (d ∷ ds) solid = rw solid refl

begins-strip_right : (t : Text) → begins t ≡ true → begins (strip_right t) ≡ true
begins-strip_right [] h = refl
begins-strip_right (c ∷ cs) h = begins-keep c (strip_right cs) (ground arith)

strip_left-begins : (t : Text) → begins t ≡ true → strip_left t ≡ t
strip_left-begins [] h = refl
strip_left-begins (c ∷ cs) h = ground arith

strip_right-keep :
    (c : ℕ) (t : Text)
    → strip_right t ≡ t
    → strip_right (keep_unless_blank c t) ≡ keep_unless_blank c t
strip_right-keep c [] h = elim (Bool-cases (is_space c)) [
  | inl blank ↦ rw blank refl
  | inr solid ↦ rw (solid, solid) refl
]
strip_right-keep c (d ∷ ds) h = rw h refl

strip_right-strip_right : (t : Text) → strip_right (strip_right t) ≡ strip_right t
strip_right-strip_right [] = refl
strip_right-strip_right (c ∷ cs) = strip_right-keep c (strip_right cs) (strip_right-strip_right cs)

strip-strip : (t : Text) → strip (strip t) ≡ strip t
strip-strip t =
    ap strip_right
      (strip_left-begins (strip t) (begins-strip_right (strip_left t) (begins-strip_left t)))
    ∙ strip_right-strip_right (strip_left t)

-- A text that has been stripped and lowered stays as it is when it is again.
pub lower-strip_twice : (t : Text) → lower (strip (lower (strip t))) ≡ lower (strip t)
lower-strip_twice t =
    ap lower (strip-lower (strip t)) ∙ lower-lower (strip (strip t)) ∙ ap lower (strip-strip t)
