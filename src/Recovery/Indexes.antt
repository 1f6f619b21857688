-- ===== src/Recovery/Indexes.antt =====
-- The unique indexes of `recovery_cases` under insertion and update.
use trabalho_devops.Prelude.{
  ℕ, ◌==◌, ◌≡◌, refl, Bool, true, false, ◌&&◌, ◌||◌, not, Option, none, some, if◌then◌else◌, List,
  [], ◌∷◌, arith,
}
use trabalho_devops.Table.{find, save, insert, IsUnique}
use trabalho_devops.Recovery.Models.{
  RecoveryCase, case_key, is_active, conflicts, conflicts_any, violates_indexes,
}
use trabalho_devops.Recovery.Records.{find_match, find_active}

-- No case of another id conflicts with `c`.
abbrev pub clear : RecoveryCase → List RecoveryCase → Bool
clear c [] = true
clear c (x ∷ xs) = (x.id == c.id || not (conflicts x c)) && clear c xs

conflicts_any-insert :
    (c x : RecoveryCase) (xs : List RecoveryCase)
    → conflicts_any x (insert c xs) ≡ (conflicts_any x xs || conflicts x c)
conflicts_any-insert c x [] = ground arith
conflicts_any-insert c x (y ∷ ys) = ground (arith, conflicts_any-insert c x ys)

-- A case of a match that has none, for a found item with no active case, may be inserted.
pub insert-violates :
    (c : RecoveryCase) (cs : List RecoveryCase)
    → find_match c.match_id cs ≡ none
    → find_active c.found_item_id cs ≡ none
    → violates_indexes cs ≡ false
    → violates_indexes (insert c cs) ≡ false
insert-violates c [] m f v = refl
insert-violates c (x ∷ xs) m f v = ground (arith, conflicts_any-insert c x xs, insert-violates c xs)

conflicts_any-save :
    (c x : RecoveryCase) (xs : List RecoveryCase)
    → conflicts_any x xs ≡ false
    → conflicts x c ≡ false
    → conflicts_any x (save case_key c xs) ≡ false
conflicts_any-save c x [] a b = refl
conflicts_any-save c x (y ∷ ys) a b = ground (arith, conflicts_any-save c x ys)

clear-conflicts_any :
    (c : RecoveryCase) (xs : List RecoveryCase)
    → find case_key c.id xs ≡ none
    → clear c xs ≡ true
    → conflicts_any c xs ≡ false
clear-conflicts_any c [] a h = refl
clear-conflicts_any c (x ∷ xs) a h = ground (arith, clear-conflicts_any c xs)

-- A case that no other conflicts with may be saved.
pub save-violates :
    (c : RecoveryCase) (cs : List RecoveryCase)
    → IsUnique case_key cs
    → clear c cs ≡ true
    → violates_indexes cs ≡ false
    → violates_indexes (save case_key c cs) ≡ false
save-violates c [] u h v = refl
save-violates c (x ∷ xs) u h v =
    ground (arith, save-violates c xs u.1, conflicts_any-save c x xs, clear-conflicts_any c xs)

conflicts_any-clear :
    (x : RecoveryCase) (xs : List RecoveryCase) → conflicts_any x xs ≡ false → clear x xs ≡ true
conflicts_any-clear x [] h = refl
conflicts_any-clear x (y ∷ ys) h = ground (arith, conflicts_any-clear x ys)

conflicts_any-find :
    (x c : RecoveryCase) (xs : List RecoveryCase)
    → conflicts_any x xs ≡ false
    → find case_key c.id xs ≡ some c
    → conflicts x c ≡ false
conflicts_any-find x c [] h e = absurd (ground arith)
conflicts_any-find x c (y ∷ ys) h e = ground (arith, conflicts_any-find x c ys)

-- No case conflicts with a stored one.
pub stored-clear :
    (c : RecoveryCase) (cs : List RecoveryCase)
    → violates_indexes cs ≡ false
    → find case_key c.id cs ≡ some c
    → clear c cs ≡ true
stored-clear c [] v e = refl
stored-clear c (x ∷ xs) v e =
    ground (arith, stored-clear c xs, conflicts_any-find x c xs, conflicts_any-clear x xs)

module _ (c c' : RecoveryCase) (i : c'.id ≡ c.id) (m : c'.match_id ≡ c.match_id)
    (f : c'.found_item_id ≡ c.found_item_id) where
  conflicts-inactive :
      (x : RecoveryCase)
      → is_active c'.status ≡ false
      → conflicts x c ≡ false
      → conflicts x c' ≡ false
  conflicts-inactive x a h = rw (m, f, a) (ground arith)

  conflicts-active :
      (x : RecoveryCase)
      → is_active c.status ≡ true
      → conflicts x c ≡ false
      → conflicts x c' ≡ false
  conflicts-active x a h = rw (m, f) (ground arith)

  conflicts-free :
      (x : RecoveryCase)
      → (x.found_item_id == c.found_item_id && is_active x.status) ≡ false
      → conflicts x c ≡ false
      → conflicts x c' ≡ false
  conflicts-free x a h = rw (m, f) (ground arith)

  step-clear :
      (x : RecoveryCase) (rest rest' : Bool)
      → (conflicts x c ≡ false → conflicts x c' ≡ false)
      → (rest ≡ true → rest' ≡ true)
      → ((x.id == c.id || not (conflicts x c)) && rest) ≡ true
      → ((x.id == c'.id || not (conflicts x c')) && rest') ≡ true
  step-clear x rest rest' keep more h =
      rw i (joined (x.id == c.id) (conflicts x c) (conflicts x c') rest rest' keep more h)
    where
      joined :
          (same old new r r' : Bool)
          → (old ≡ false → new ≡ false)
          → (r ≡ true → r' ≡ true)
          → ((same || not old) && r) ≡ true
          → ((same || not new) && r') ≡ true
      joined true old new true r' k l e = l refl
      joined true old new false r' k l e = cc
      joined false true new r r' k l e = cc
      joined false false new true r' k l e = rw (k refl, l refl)
      joined false false new false r' k l e = cc

  -- A change that leaves the match and the item alone keeps the others clear: if the case is not
  -- active after it, or was so before, or if no active case has its item.
  pub inactive-clear :
      (cs : List RecoveryCase)
      → is_active c'.status ≡ false
      → clear c cs ≡ true
      → clear c' cs ≡ true
  inactive-clear [] a h = refl
  inactive-clear (x ∷ xs) a h =
      step-clear x (clear c xs) (clear c' xs) (conflicts-inactive x a) (inactive-clear xs a) h

  pub active-clear :
      (cs : List RecoveryCase) → is_active c.status ≡ true → clear c cs ≡ true → clear c' cs ≡ true
  active-clear [] a h = refl
  active-clear (x ∷ xs) a h =
      step-clear x (clear c xs) (clear c' xs) (conflicts-active x a) (active-clear xs a) h

  pub free-clear :
      (cs : List RecoveryCase)
      → find_active c.found_item_id cs ≡ none
      → clear c cs ≡ true
      → clear c' cs ≡ true
  free-clear [] a h = refl
  free-clear (x ∷ xs) a h =
      step-clear x (clear c xs) (clear c' xs)
        (conflicts-free x (
          head_free (x.found_item_id == c.found_item_id && is_active x.status)
            (find_active c.found_item_id xs) a))
        (free-clear xs (
          tail_free (x.found_item_id == c.found_item_id && is_active x.status)
            (find_active c.found_item_id xs) a))
        h
    where
      head_free :
          (b : Bool) (o : Option RecoveryCase) → (if b then some x else o) ≡ none → b ≡ false
      head_free true o e = cc
      head_free false o e = refl

      tail_free : (b : Bool) (o : Option RecoveryCase) → (if b then some x else o) ≡ none → o ≡ none
      tail_free true o e = cc
      tail_free false o e = e

-- The active case that is found is stored, active, and has the item.
pub find_active-find :
    (f : ℕ) (cs : List RecoveryCase) (a : RecoveryCase)
    → IsUnique case_key cs
    → find_active f cs ≡ some a
    → (find case_key a.id cs ≡ some a) × (is_active a.status ≡ true)
find_active-find f [] a u h = absurd (ground arith)
find_active-find f (x ∷ xs) a u h = ground (arith, find_active-find f xs a u.1)

pub find_match-find :
    (m : ℕ) (cs : List RecoveryCase) (a : RecoveryCase)
    → IsUnique case_key cs
    → find_match m cs ≡ some a
    → (find case_key a.id cs ≡ some a) × (a.match_id ≡ m)
find_match-find m [] a u h = absurd (ground arith)
find_match-find m (x ∷ xs) a u h = ground (arith, find_match-find m xs a u.1)
