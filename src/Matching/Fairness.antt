-- ===== src/Matching/Fairness.antt =====
-- What holds of the sessions of matching-service: each suggestion that waits for a decision is of a
-- candidate pair, by the current projections of its items.
use trabalho_devops.Prelude.{
  [], ℕ, ◌+◌, ◌≤◌, ◌==◌, ◌≡◌, refl, inl, inr, true, Option, none, some, arith, Bool-cases,
}
use mathlib.Core.Path.{subst}
use trabalho_devops.Store.{Env, Session}
use trabalho_devops.Store.Later.{Later}
use trabalho_devops.Table.{find, save, insert, IsUnique}
use trabalho_devops.Table.Laws.{find-save, find-insert, save-IsUnique, insert-IsUnique}
use trabalho_devops.Matching.Models.{
  projection_key, MatchSuggestion, match_key, is_suggested, MatchDb, Tables,
}
use trabalho_devops.Matching.Decisions.{still_candidate}

-- The keys of the two tables, and the identifiers still to be drawn.
pub record IsKeyed (env : Env) (t : Tables) : Type 0 where
  pub projections : IsUnique projection_key t.projections
  pub suggestions : IsUnique match_key t.suggestions
  pub fresh : (n : ℕ) → env.drawn ≤ n → find match_key (env.uuids n) t.suggestions ≡ none

-- A suggestion that waits has the property.
abbrev pub Waiting : (MatchSuggestion → Type 0) → Tables → Type 0
Waiting P t =
    (k : ℕ) (m : MatchSuggestion)
    → find match_key k t.suggestions ≡ some m
    → is_suggested m.status ≡ true
    → P m

-- The verdict on the pair of the suggestion.
abbrev pub IsFairIn : Tables → MatchSuggestion → Type 0
IsFairIn t m = still_candidate m (record { outbox = []; processed = []; tables = t }) ≡ true

abbrev pub AllFair : Tables → Type 0
AllFair t = Waiting (IsFairIn t) t

pub record IsSound (s : Session MatchDb) : Type 0 where
  pub distinct : (i j : ℕ) → s.env.uuids i ≡ s.env.uuids j → i ≡ j
  pub committed_keyed : IsKeyed s.env s.committed.tables
  pub committed_fair : AllFair s.committed.tables
  pub working_keyed : IsKeyed s.env s.working.tables
  pub working_fair : AllFair s.working.tables

-- A suggestion in the place of the one with its id.
abbrev pub with_saved : MatchSuggestion → Tables → Tables
with_saved m t = record t { suggestions = save match_key m t.suggestions }

abbrev pub with_inserted : MatchSuggestion → Tables → Tables
with_inserted m t = record t { suggestions = insert m t.suggestions }

pub saved-IsKeyed :
    (env env' : Env) (m : MatchSuggestion) (t : Tables)
    → Later env env'
    → IsKeyed env t
    → IsKeyed env' (with_saved m t)
saved-IsKeyed env env' m t l k = record {
  projections = k.projections;
  suggestions = save-IsUnique match_key m t.suggestions k.suggestions;
  fresh = λ n h. rw l.uuids (
      ground (
        arith,
        find-save match_key m (env.uuids n) t.suggestions,
        k.fresh n (omega (arith, l.drawn)),
      ));
}

-- A new suggestion under an identifier that is drawn.
pub inserted-IsKeyed :
    (env env' : Env) (m : MatchSuggestion) (t : Tables)
    → ((i j : ℕ) → env.uuids i ≡ env.uuids j → i ≡ j)
    → env'.uuids ≡ env.uuids
    → env.drawn + 1 ≤ env'.drawn
    → m.id ≡ env.uuids env.drawn
    → IsKeyed env t
    → IsKeyed env' (with_inserted m t)
inserted-IsKeyed env env' m t distinct same next id k = record {
  projections = k.projections;
  suggestions =
      insert-IsUnique match_key m t.suggestions (rw id (k.fresh env.drawn (omega arith)))
        k.suggestions;
  fresh = λ n h. rw same (
      ground (
        arith,
        find-insert match_key m (env.uuids n) t.suggestions,
        k.fresh n (omega (arith, next)),
        distinct env.drawn n,
      ));
}

-- What is saved or inserted has the property if it waits.
pub saved-Waiting :
    (P : MatchSuggestion → Type 0) (m : MatchSuggestion) (t : Tables)
    → (is_suggested m.status ≡ true → P m)
    → Waiting P t
    → Waiting P (with_saved m t)
saved-Waiting P m t new old k x here waits = elim (Bool-cases (m.id == k)) [
  | inl mine ↦
      let one : m ≡ x = ground (arith, here, find-save match_key m k t.suggestions) in
      subst P one (new (ground arith))
  | inr other ↦ old k x (ground (arith, here, find-save match_key m k t.suggestions)) waits
]

pub inserted-Waiting :
    (P : MatchSuggestion → Type 0) (m : MatchSuggestion) (t : Tables)
    → P m
    → Waiting P t
    → Waiting P (with_inserted m t)
inserted-Waiting P m t new old k x here waits = split (find match_key k t.suggestions) refl
  where
    split : (o : Option MatchSuggestion) → find match_key k t.suggestions ≡ o → P x
    split none e =
        let one : m ≡ x = ground (arith, here, find-insert match_key m k t.suggestions) in
        subst P one new
    split (some y) e = old k x (ground (arith, here, find-insert match_key m k t.suggestions)) waits
