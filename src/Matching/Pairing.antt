-- ===== src/Matching/Pairing.antt =====
-- One pair of items: `settle_pair` keeps the suggestions fair.
use trabalho_devops.Prelude.{
  ℕ, ◌≡◌, refl, ap, ◌∙◌, inl, inr, true, Option, none, some, List, [], ◌∷◌, arith, Bool-cases,
}
use mathlib.Core.Path.{ap₂}
use trabalho_devops.Exec.{Result, ok}
use trabalho_devops.Store.{Session}
use trabalho_devops.Table.{find, IsUnique}
use trabalho_devops.Messaging.{Settings}
use trabalho_devops.Matching.Models.{
  ItemProjection, projection_key, MatchStatus, suggested, accepted, rejected, expired,
  MatchSuggestion, match_key, is_suggested, MatchDb, Error,
}
use trabalho_devops.Matching.Scoring.{Verdict, is_match_candidate_pair}
use trabalho_devops.Matching.Records.{find_pair}
use trabalho_devops.Matching.Suggest.{drop_pair, suggest_existing, suggest_pair}
use trabalho_devops.Matching.Fairness.{
  IsKeyed, IsFairIn, AllFair, saved-IsKeyed, inserted-IsKeyed, saved-Waiting, inserted-Waiting,
}
use trabalho_devops.Matching.Expiry.{Kept, Kept-refl}

-- The suggestion that is found for a pair is stored, and is of the pair.
find_pair-find :
    (l f : ℕ) (ms : List MatchSuggestion) (m : MatchSuggestion)
    → IsUnique match_key ms
    → find_pair l f ms ≡ some m
    → (find match_key m.id ms ≡ some m) × (m.lost_item_id ≡ l) × (m.found_item_id ≡ f)
find_pair-find l f [] m u h = absurd (ground arith)
find_pair-find l f (x ∷ xs) m u h = ground (arith, find_pair-find l f xs m u.1)

-- A part of the code that returns, keeps the database, and leaves the suggestions fair.
abbrev pub Fair : {A : Type 0} → Session MatchDb → Result Error A × Session MatchDb → Type 0
Fair {A} s (r, s') = ((a : A) × (r ≡ ok a)) × Kept s s' × AllFair s'.working.tables

module _ (s : Session MatchDb) (k : IsKeyed s.env s.working.tables)
    (fair : AllFair s.working.tables) where
  stay : Kept s s
  stay = Kept-refl s k

  pub drop_pair-Fair : (o : Option MatchSuggestion) → Fair s (drop_pair o s)
  unfolding drop_pair
  drop_pair-Fair none = ((0, refl), stay, fair)
  drop_pair-Fair (some m) = elim (Bool-cases (is_suggested m.status)) [
    | inl waits ↦
        let gone : MatchSuggestion = record m {
          status = expired;
          updated_at = s.env.times s.env.ticks;
        } in
        rw waits (
          (0, refl),
          record {
            committed = refl;
            later = record { uuids = refl; drawn = omega arith };
            projections = refl;
            processed = refl;
            keyed =
                saved-IsKeyed s.env _ gone s.working.tables
                  (record { uuids = refl; drawn = omega arith }) k;
          },
          saved-Waiting (IsFairIn s.working.tables) gone s.working.tables (λ w. cc) fair,
        )
    | inr decided ↦ rw decided ((0, refl), stay, fair)
  ]

  module _ (settings : Settings) (verdict : Verdict) where
    suggest_existing-Fair :
        (m : MatchSuggestion) (st : MatchStatus)
        → IsFairIn s.working.tables m
        → Fair s (suggest_existing settings verdict m st s)
    unfolding suggest_existing
    suggest_existing-Fair m suggested good =
        let m' : MatchSuggestion = record m {
          score = verdict.score;
          criteria_snapshot_json = verdict.snapshot;
          updated_at = s.env.times s.env.ticks;
        } in
        (
          (0, refl),
          record {
            committed = refl;
            later = record { uuids = refl; drawn = omega arith };
            projections = refl;
            processed = refl;
            keyed =
                saved-IsKeyed s.env _ m' s.working.tables
                  (record { uuids = refl; drawn = omega arith }) k;
          },
          saved-Waiting (IsFairIn s.working.tables) m' s.working.tables (λ w. good) fair,
        )
    suggest_existing-Fair m expired good =
        let m' : MatchSuggestion = record m {
          status = suggested;
          score = verdict.score;
          criteria_snapshot_json = verdict.snapshot;
          decided_by_user_id = none;
          updated_at = s.env.times s.env.ticks;
        } in
        (
          (1, refl),
          record {
            committed = refl;
            later = record { uuids = refl; drawn = omega arith };
            projections = refl;
            processed = refl;
            keyed =
                saved-IsKeyed s.env _ m' s.working.tables
                  (record { uuids = refl; drawn = omega arith }) k;
          },
          saved-Waiting (IsFairIn s.working.tables) m' s.working.tables (λ w. good) fair,
        )
    suggest_existing-Fair m accepted good = ((0, refl), stay, fair)
    suggest_existing-Fair m rejected good = ((0, refl), stay, fair)

    module _ (l f : ItemProjection)
        (l_here : find projection_key l.id s.working.tables.projections ≡ some l)
        (f_here : find projection_key f.id s.working.tables.projections ≡ some f)
        (distinct : (i j : ℕ) → s.env.uuids i ≡ s.env.uuids j → i ≡ j) where
      -- A suggestion of the pair is fair.
      pair-IsFairIn :
          (m : MatchSuggestion)
          → (is_match_candidate_pair (some l) (some f)).is_candidate ≡ true
          → m.lost_item_id ≡ l.id
          → m.found_item_id ≡ f.id
          → IsFairIn s.working.tables m
      pair-IsFairIn m good a b =
          ap₂ (λ x y. (is_match_candidate_pair x y).is_candidate)
            (ap (λ i. find projection_key i s.working.tables.projections) a ∙ l_here)
            (ap (λ i. find projection_key i s.working.tables.projections) b ∙ f_here)
          ∙ good

      pub suggest_pair-Fair :
          (o : Option MatchSuggestion)
          → find_pair l.id f.id s.working.tables.suggestions ≡ o
          → (is_match_candidate_pair (some l) (some f)).is_candidate ≡ true
          → Fair s (suggest_pair settings l f verdict o s)
      unfolding suggest_pair
      suggest_pair-Fair none e good =
          let m' : MatchSuggestion = record {
            id = s.env.uuids s.env.drawn;
            lost_item_id = l.id;
            found_item_id = f.id;
            score = verdict.score;
            criteria_snapshot_json = verdict.snapshot;
            status = suggested;
            decided_by_user_id = none;
            created_at = s.env.times s.env.ticks;
            updated_at = s.env.times s.env.ticks;
          } in
          (
            (1, refl),
            record {
              committed = refl;
              later = record { uuids = refl; drawn = omega arith };
              projections = refl;
              processed = refl;
              keyed =
                  inserted-IsKeyed s.env _ m' s.working.tables distinct refl (omega arith) refl k;
            },
            inserted-Waiting (IsFairIn s.working.tables) m' s.working.tables
                (pair-IsFairIn m' good refl refl) fair,
          )
      suggest_pair-Fair (some m) e good =
          let (_, a, b) = find_pair-find l.id f.id s.working.tables.suggestions m k.suggestions e in
          suggest_existing-Fair m m.status (pair-IsFairIn m good a b)
