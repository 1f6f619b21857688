-- ===== src/Auth/Directory.antt =====
-- The table of users under its two indexes.
use trabalho_devops.Prelude.{
  ℕ, ◌==◌, ◌≡◌, text_eq_refl, false, ◌||◌, inl, inr, Bool-cases, none, some, List, [], ◌∷◌, All,
  arith,
}
use mathlib.Core.Path.{subst}
use trabalho_devops.Table.{find, insert}
use trabalho_devops.Auth.Models.{User, user_key, conflicts, conflicts_any, violates_indexes}
use trabalho_devops.Auth.Service.{find_email, normalize_email}

abbrev pub IsNormal : User → Type 0
IsNormal u = normalize_email u.email ≡ u.email

conflicts_any-find :
    (k : ℕ) (u v : User) (us : List User)
    → find user_key k us ≡ some u
    → conflicts_any v us ≡ false
    → conflicts v u ≡ false
conflicts_any-find k u v [] h c = absurd (ground arith)
conflicts_any-find k u v (x ∷ xs) h c = elim (Bool-cases (x.id == k)) [
  | inl here ↦ ground arith
  | inr there ↦ conflicts_any-find k u v xs (ground arith) (ground arith)
]

-- A stored user is found by its own e-mail address.
pub find_email-find :
    (k : ℕ) (u : User) (us : List User)
    → violates_indexes us ≡ false
    → find user_key k us ≡ some u
    → find_email u.email us ≡ some u
find_email-find k u [] v h = absurd (ground arith)
find_email-find k u (x ∷ xs) v h = elim (Bool-cases (x.id == k)) [
  | inl here ↦ ground (arith, text_eq_refl x.email)
  | inr there ↦ ground (arith, find_email-find k u xs, conflicts_any-find k u x xs)
]

conflicts_any-insert :
    (v u : User) (us : List User)
    → conflicts_any v (insert u us) ≡ (conflicts_any v us || conflicts v u)
conflicts_any-insert v u [] = ground arith
conflicts_any-insert v u (x ∷ xs) = ground (arith, conflicts_any-insert v u xs)

-- One that has been inserted is found by its identifier, and by its e-mail address.
pub find-insert :
    (u : User) (us : List User)
    → violates_indexes (insert u us) ≡ false
    → find user_key u.id (insert u us) ≡ some u
find-insert u [] v = ground arith
find-insert u (x ∷ xs) v = ground (arith, find-insert u xs, conflicts_any-insert x u xs)

pub find_email-insert :
    (u : User) (us : List User)
    → find_email u.email us ≡ none
    → find_email u.email (insert u us) ≡ some u
find_email-insert u [] h = ground (arith, text_eq_refl u.email)
find_email-insert u (x ∷ xs) h = ground (arith, find_email-insert u xs)

pub All-insert :
    (P : User → Type 0) (u : User) (us : List User) → All P us → P u → All P (insert u us)
All-insert P u [] ps p = (p, tt)
All-insert P u (x ∷ xs) (q, qs) p = (q, All-insert P u xs qs p)

pub All-find :
    (P : User → Type 0) (k : ℕ) (u : User) (us : List User)
    → All P us
    → find user_key k us ≡ some u
    → P u
All-find P k u [] ps h = absurd (ground arith)
All-find P k u (x ∷ xs) (q, qs) h = elim (Bool-cases (x.id == k)) [
  | inl here ↦ subst P (ground arith) q
  | inr there ↦ All-find P k u xs qs (ground arith)
]
