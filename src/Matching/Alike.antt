-- ===== src/Matching/Alike.antt =====
-- Two texts that are the same up to case and outer spaces, and the words that two texts share.
use trabalho_devops.Prelude.{
  ℕ, ◌≡◌, ◌↔◌, ◌⊎◌, refl, sym, ap, ◌∙◌, inl, inr, true, List, [], ◌∷◌, Bool-cases, arith, Text,
  text_eq, text_eq_lem, text_eq_refl, lower, strip, is_space, lower_char, strip_left,
  keep_unless_blank, strip_right, is_space-lower_char, keep_unless_blank-lower,
}
use mathlib.Core.Path.{subst, ap₂}
use trabalho_devops.Matching.Tokens.{normalize_value, text_elem, insert_token, overlap}
use trabalho_devops.Matching.Scoring.{nonempty}

abbrev pub IsBlank : Text → Type 0
IsBlank [] = Unit
IsBlank (c ∷ cs) = (is_space c ≡ true) × IsBlank cs

-- Letter by letter the same but for case, up to spaces at the end.
pub data Agree : Text → Text → Type 0 where
  rest : {a b : Text} → IsBlank a → IsBlank b → Agree a b
  letter : {c d : ℕ} {a b : Text} → lower_char c ≡ lower_char d → Agree a b → Agree (c ∷ a) (d ∷ b)

-- The same, up to spaces at the beginning.
pub data Alike : Text → Text → Type 0 where
  within : {a b : Text} → Agree a b → Alike a b
  skip_left : {c : ℕ} {a b : Text} → is_space c ≡ true → Alike a b → Alike (c ∷ a) b
  skip_right : {d : ℕ} {a b : Text} → is_space d ≡ true → Alike a b → Alike a (d ∷ b)

strip_right-blank : (a : Text) → IsBlank a → strip_right a ≡ []
strip_right-blank [] h = refl
strip_right-blank (c ∷ cs) (h, hs) = rw (strip_right-blank cs hs, h) refl

strip_left-blank : (a : Text) → IsBlank a → strip_left a ≡ []
strip_left-blank [] h = refl
strip_left-blank (c ∷ cs) (h, hs) = rw h (strip_left-blank cs hs)

Agree-strip_right : (a b : Text) → Agree a b → lower (strip_right a) ≡ lower (strip_right b)
Agree-strip_right a b (rest p q) = ap lower (strip_right-blank a p ∙ sym (strip_right-blank b q))
Agree-strip_right (c ∷ a) (d ∷ b) (letter e i) =
    sym (keep_unless_blank-lower c (strip_right a))
    ∙ ap₂ keep_unless_blank e (Agree-strip_right a b i)
    ∙ keep_unless_blank-lower d (strip_right b)

Agree-strip_left : (a b : Text) → Agree a b → Agree (strip_left a) (strip_left b)
Agree-strip_left a b (rest p q) = rw (strip_left-blank a p, strip_left-blank b q) (rest tt tt)
Agree-strip_left (c ∷ a) (d ∷ b) (letter e i) =
    let both : is_space c ≡ is_space d =
      sym (is_space-lower_char c) ∙ ap is_space e ∙ is_space-lower_char d in
    elim (Bool-cases (is_space c)) [
      | inl blank ↦ rw (blank, sym both ∙ blank) (Agree-strip_left a b i)
      | inr solid ↦ rw (solid, sym both ∙ solid) (letter e i)
    ]

Alike-strip : (a b : Text) → Alike a b → lower (strip a) ≡ lower (strip b)
Alike-strip a b (within i) =
    Agree-strip_right (strip_left a) (strip_left b) (Agree-strip_left a b i)
Alike-strip (c ∷ a) b (skip_left s r) = rw s (Alike-strip a b r)
Alike-strip a (d ∷ b) (skip_right s r) = rw s (Alike-strip a b r)

Alike-right : (a b : Text) → Agree a (strip_left b) → Alike a b
Alike-right a [] h = within h
Alike-right a (d ∷ ds) h = elim (Bool-cases (is_space d)) [
  | inl blank ↦
      let e : strip_left (d ∷ ds) ≡ strip_left ds = rw blank refl in
      skip_right blank (Alike-right a ds (subst (Agree a) e h))
  | inr solid ↦ let e : strip_left (d ∷ ds) ≡ d ∷ ds = rw solid refl in within (subst (Agree a) e h)
]

Alike-left : (a b : Text) → Agree (strip_left a) (strip_left b) → Alike a b
Alike-left [] b h = Alike-right [] b h
Alike-left (c ∷ cs) b h = elim (Bool-cases (is_space c)) [
  | inl blank ↦
      let e : strip_left (c ∷ cs) ≡ strip_left cs = rw blank refl in
      skip_left blank (Alike-left cs b (subst (λ x. Agree x (strip_left b)) e h))
  | inr solid ↦
      let e : strip_left (c ∷ cs) ≡ c ∷ cs = rw solid refl in
      Alike-right (c ∷ cs) b (subst (λ x. Agree x (strip_left b)) e h)
]

IsBlank-strip_right : (b : Text) → lower (strip_right b) ≡ [] → IsBlank b
IsBlank-strip_right [] h = tt
IsBlank-strip_right (d ∷ ds) h =
    by_rest (strip_right ds) (λ e. IsBlank-strip_right ds (ap lower e)) h
  where
    by_rest :
        (t : Text) → (t ≡ [] → IsBlank ds) → lower (keep_unless_blank d t) ≡ [] → IsBlank (d ∷ ds)
    by_rest [] ih e = elim (Bool-cases (is_space d)) [
      | inl blank ↦ (blank, ih refl)
      | inr solid ↦ absurd (ground arith)
    ]
    by_rest (x ∷ xs) ih e = absurd (ground arith)

strip_right-Agree : (a b : Text) → lower (strip_right a) ≡ lower (strip_right b) → Agree a b
strip_right-Agree [] b h = rest tt (IsBlank-strip_right b (sym h))
strip_right-Agree (c ∷ cs) [] h = rest (IsBlank-strip_right (c ∷ cs) h) tt
strip_right-Agree (c ∷ cs) (d ∷ ds) h =
    by_rests (strip_right cs) (strip_right ds) refl refl (strip_right-Agree cs ds) h
  where
    both_blank :
        strip_right cs ≡ []
        → strip_right ds ≡ []
        → is_space c ≡ true
        → is_space d ≡ true
        → Agree (c ∷ cs) (d ∷ ds)
    both_blank p q x y =
        rest (x, IsBlank-strip_right cs (ap lower p)) (y, IsBlank-strip_right ds (ap lower q))

    by_rests :
        (t u : Text)
        → strip_right cs ≡ t
        → strip_right ds ≡ u
        → (lower (strip_right cs) ≡ lower (strip_right ds) → Agree cs ds)
        → lower (keep_unless_blank c t) ≡ lower (keep_unless_blank d u)
        → Agree (c ∷ cs) (d ∷ ds)
    by_rests [] [] p q ih e = elim (Bool-cases (is_space c)) [
      | inl x ↦ elim (Bool-cases (is_space d)) [
        | inl y ↦ both_blank p q x y
        | inr y ↦ absurd (ground (arith, x, y, e))
      ]
      | inr x ↦ elim (Bool-cases (is_space d)) [
        | inl y ↦ absurd (ground (arith, x, y, e))
        | inr y ↦ letter (ground (arith, x, y, e)) (ih (ap lower (p ∙ sym q)))
      ]
    ]
    by_rests [] (y ∷ ys) p q ih e = absurd (ground arith)
    by_rests (x ∷ xs) [] p q ih e = absurd (ground arith)
    by_rests (x ∷ xs) (y ∷ ys) p q ih e =
        let heads : lower_char c ≡ lower_char d = cc in
        let tails : lower (x ∷ xs) ≡ lower (y ∷ ys) = cc in
        letter heads (ih (ap lower p ∙ tails ∙ sym (ap lower q)))

-- The values are equal once they are normalized exactly if the texts are alike.
pub normalize_value-Alike :
    (a b : Text) → (text_eq (normalize_value a) (normalize_value b) ≡ true) ↔ Alike a b
unfolding normalize_value
normalize_value-Alike a b = (
  λ h. Alike-left a b (
      strip_right-Agree (strip_left a) (strip_left b)
        (text_eq_lem (lower (strip a)) (lower (strip b)) h)),
  λ r. rw (Alike-strip a b r) (text_eq_refl (lower (strip b))),
)

-- One of the tokens is this one.
abbrev pub IsAmong : Text → List Text → Type 0
IsAmong t [] = ⊥
IsAmong t (u ∷ us) = (t ≡ u) ⊎ IsAmong t us

text_elem-IsAmong : (t : Text) (us : List Text) → text_elem t us ≡ true → IsAmong t us
text_elem-IsAmong t [] h = absurd (ground arith)
text_elem-IsAmong t (u ∷ us) h = elim (Bool-cases (text_eq t u)) [
  | inl here ↦ inl (text_eq_lem t u here)
  | inr other ↦ inr (text_elem-IsAmong t us (ground arith))
]

IsAmong-text_elem : (t : Text) (us : List Text) → IsAmong t us → text_elem t us ≡ true
IsAmong-text_elem t [] h = absurd h
IsAmong-text_elem t (u ∷ us) (inl here) = rw (here, text_eq_refl u) refl
IsAmong-text_elem t (u ∷ us) (inr later) = ground (arith, IsAmong-text_elem t us later)

insert_token-nonempty : (t : Text) (us : List Text) → nonempty (insert_token t us) ≡ true
insert_token-nonempty t [] = refl
insert_token-nonempty t (u ∷ us) = ground arith

-- A token of both.
abbrev pub Shared : List Text → List Text → Type 0
Shared ts us = (t : Text) × IsAmong t ts × IsAmong t us

overlap-Shared : (ts us : List Text) → nonempty (overlap ts us) ≡ true → Shared ts us
unfolding overlap
overlap-Shared [] us h = absurd (ground arith)
overlap-Shared (t ∷ ts) us h = elim (Bool-cases (text_elem t us)) [
  | inl here ↦ (t, inl refl, text_elem-IsAmong t us here)
  | inr other ↦
      let (x, among, there) = overlap-Shared ts us (ground (arith, h, other)) in
      (x, inr among, there)
]

Shared-overlap :
    (t : Text) (ts us : List Text) → IsAmong t ts → IsAmong t us → nonempty (overlap ts us) ≡ true
unfolding overlap
Shared-overlap t [] us h there = absurd h
Shared-overlap t (u ∷ ts) us (inl same) there =
    let found : text_elem u us ≡ true =
      subst (λ x. text_elem x us ≡ true) same (IsAmong-text_elem t us there) in
    rw found (insert_token-nonempty u _)
Shared-overlap t (u ∷ ts) us (inr later) there = elim (Bool-cases (text_elem u us)) [
  | inl here ↦ rw here (insert_token-nonempty u _)
  | inr other ↦ rw other (Shared-overlap t ts us later there)
]

pub overlap_iff : (ts us : List Text) → (nonempty (overlap ts us) ≡ true) ↔ Shared ts us
overlap_iff ts us = (overlap-Shared ts us, λ (t, among, there). Shared-overlap t ts us among there)
