-- ===== src/Gateway/Templates.antt =====
-- The templates of the public routes (app/api/public.py): each forwards to its own service the path
-- that it has matched.
use trabalho_devops.Prelude.{
  ◌≡◌, refl, sym, ap, ◌∙◌, String, Text, text_eq, text_eq_lem, codes, Bool, true, false, ◌||◌, ◌&&◌,
  Option, none, some, List, [], ◌∷◌, All, if◌then◌else◌, arith,
}
use mathlib.Core.Path.{ap₂}
use trabalho_devops.Gateway.Models.{Method, post, ServiceName, auth, item, matching, recovery}
use trabalho_devops.Gateway.Routes.{
  Piece, fixed, param, Endpoint, forwarding, blocking, Route, public_routes, method_in, match_path,
  fill, with_param,
}

-- The service of a public path, by its first piece.
abbrev pub owns : ServiceName → List Text → Bool
owns s [] = false
owns auth (x ∷ xs) = text_eq x (codes "auth")
owns item (x ∷ xs) = text_eq x (codes "items")
owns matching (x ∷ xs) = text_eq x (codes "matches")
owns recovery (x ∷ xs) = text_eq x (codes "recovery-cases")

-- The two calls that need no token.
abbrev pub is_public : Method → List Text → Bool
is_public post (x ∷ y ∷ []) =
    text_eq x (codes "auth") && (text_eq y (codes "register") || text_eq y (codes "login"))
is_public _ _ = false

then_some :
    {A : Type 0} (c : Bool) (o : Option A) (a : A)
    → (if c then o else none) ≡ some a
    → (c ≡ true) × (o ≡ some a)
then_some true o a h = (refl, h)
then_some false o a h = absurd (ground arith)

else_some :
    {A : Type 0} (c : Bool) (o : Option A) (a : A) → (if c then none else o) ≡ some a → o ≡ some a
else_some true o a h = absurd (ground arith)
else_some false o a h = h

with_param-some :
    (x : Text) (o : Option (List Text)) (values : List Text)
    → with_param x o ≡ some values
    → (ws : List Text) × (o ≡ some ws) × (values ≡ x ∷ ws)
with_param-some x none values h = absurd (ground arith)
with_param-some x (some ws) values h = (ws, refl, ground arith)

-- The path that is put together from the values of a path's parameters is the path.
pub fill-match_path :
    (ps : List Piece) (xs values : List Text)
    → match_path ps false xs ≡ some values
    → fill ps values ≡ xs
fill-match_path [] [] values h = refl
fill-match_path [] (x ∷ xs) values h = absurd (ground arith)
fill-match_path (fixed t ∷ ps) [] values h = absurd (ground arith)
fill-match_path (param ∷ ps) [] values h = absurd (ground arith)
fill-match_path (fixed t ∷ ps) (x ∷ xs) values h =
    let (same, rest) = then_some _ _ values h in
    ap₂ (λ (y : Text) (ys : List Text). y ∷ ys) (sym (text_eq_lem x (codes t) same))
      (fill-match_path ps xs values rest)
fill-match_path (param ∷ ps) (x ∷ xs) values h =
    let (ws, rest, e) = with_param-some x _ values (else_some _ _ values h) in
    ap (fill (param ∷ ps)) e ∙ ap (λ (ys : List Text). x ∷ ys) (fill-match_path ps xs ws rest)

-- A route asks for a token, or it is one of the two that need none.
pub data IsGuarded : Bool → List Method → List Piece → Type 0 where
  by_roles : {ms : List Method} {ps : List Piece} → IsGuarded true ms ps
  by_name :
      {a b : String}
      → is_public post (codes a ∷ codes b ∷ []) ≡ true
      → IsGuarded false (post ∷ []) (fixed a ∷ fixed b ∷ [])

-- The template begins with the service's first piece.
abbrev begins : ServiceName → List Piece → Bool
begins s [] = false
begins s (fixed a ∷ ps) = owns s (codes a ∷ [])
begins s (param ∷ ps) = false

-- A route that forwards keeps the path, without the prefix, to its service.
abbrev pub IsKeptBy : Route → Endpoint → Type 0
IsKeptBy r blocking = Unit
IsKeptBy r (forwarding guarded s ps) =
    (r.template ≡ fixed "api" ∷ ps)
    × (r.below ≡ false)
    × (begins s ps ≡ true)
    × IsGuarded guarded r.methods ps

abbrev pub IsKept : Route → Type 0
IsKept r = IsKeptBy r r.endpoint

pub public_routes-IsKept : All IsKept public_routes
unfolding public_routes
public_routes-IsKept = (
  (refl, refl, refl, by_name refl),
  (
    (refl, refl, refl, by_name refl),
    (
      (refl, refl, refl, by_roles),
      (
        (refl, refl, refl, by_roles),
        (
          (refl, refl, refl, by_roles),
          (
            (refl, refl, refl, by_roles),
            (
              (refl, refl, refl, by_roles),
              (
                (refl, refl, refl, by_roles),
                (
                  (refl, refl, refl, by_roles),
                  (
                    (refl, refl, refl, by_roles),
                    (
                      (refl, refl, refl, by_roles),
                      (
                        (refl, refl, refl, by_roles),
                        (
                          (refl, refl, refl, by_roles),
                          ((refl, refl, refl, by_roles), ((refl, refl, refl, by_roles), (tt, tt))),
                        ),
                      ),
                    ),
                  ),
                ),
              ),
            ),
          ),
        ),
      ),
    ),
  ),
)

pub owns-fill :
    (s : ServiceName) (ps : List Piece) (values : List Text)
    → begins s ps ≡ true
    → owns s (fill ps values) ≡ true
owns-fill s [] values h = absurd (ground arith)
owns-fill s (param ∷ ps) values h = absurd (ground arith)
owns-fill auth (fixed a ∷ ps) values h = h
owns-fill item (fixed a ∷ ps) values h = h
owns-fill matching (fixed a ∷ ps) values h = h
owns-fill recovery (fixed a ∷ ps) values h = h

pub post_only : (m : Method) → method_in m (post ∷ []) ≡ true → m ≡ post
post_only m h = ground arith
