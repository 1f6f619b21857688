-- ===== src/Matching/Expiry.antt =====
-- The loop of `expire_invalid_matches_for_item`, suggestion by suggestion.
use trabalho_devops.Prelude.{
  ℕ, ◌==◌, ◌≡◌, refl, sym, ◌∙◌, ◌⊎◌, inl, inr, Bool, true, some, List, [], ◌∷◌, arith,
  if◌then◌else◌, Bool-cases, All,
}
use mathlib.Core.Path.{subst, ap₂}
use trabalho_devops.Exec.{ok, pure}
use trabalho_devops.Store.{Session}
use trabalho_devops.Store.Later.{Later}
use trabalho_devops.Table.{find, save, dict_get}
use trabalho_devops.Table.Laws.{key-find, find-save}
use trabalho_devops.Matching.Models.{
  ItemProjection, projection_key, expired, MatchSuggestion, match_key, is_suggested, MatchDb,
  Tables,
}
use trabalho_devops.Matching.Scoring.{is_match_candidate_pair}
use trabalho_devops.Matching.Service.{expire_match, expire_each}
use trabalho_devops.Matching.Fairness.{IsKeyed, Waiting, IsFairIn, AllFair, saved-IsKeyed}

-- What a part of the service's code keeps: the database, and the source of identifiers.
pub record Kept (s s' : Session MatchDb) : Type 0 where
  pub committed : s'.committed ≡ s.committed
  pub later : Later s.env s'.env
  pub projections : s'.working.tables.projections ≡ s.working.tables.projections
  pub processed : s'.working.processed ≡ s.working.processed
  pub keyed : IsKeyed s'.env s'.working.tables

-- The verdict on a suggestion by the projections that were read, and by all.
abbrev pub Loaded : List ItemProjection → List ItemProjection → MatchSuggestion → Type 0
Loaded read projections m =
    (dict_get projection_key m.lost_item_id read ≡ find projection_key m.lost_item_id projections)
    × (dict_get projection_key m.found_item_id read
        ≡ find projection_key m.found_item_id projections)

pub Kept-refl : (s : Session MatchDb) → IsKeyed s.env s.working.tables → Kept s s
Kept-refl s k = record {
  committed = refl;
  later = record { uuids = refl; drawn = omega arith };
  projections = refl;
  processed = refl;
  keyed = k;
}

pub Kept-trans : (s s' s'' : Session MatchDb) → Kept s s' → Kept s' s'' → Kept s s''
Kept-trans s s' s'' a b = record {
  committed = b.committed ∙ a.committed;
  later = record {
    uuids = b.later.uuids ∙ a.later.uuids;
    drawn = omega (arith, a.later.drawn, b.later.drawn);
  };
  projections = b.projections ∙ a.projections;
  processed = b.processed ∙ a.processed;
  keyed = b.keyed;
}

-- Fair already, or still to be looked at.
abbrev Pending : List MatchSuggestion → Tables → MatchSuggestion → Type 0
Pending ms t m = IsFairIn t m ⊎ (find match_key m.id ms ≡ some m)

module _ (read : List ItemProjection) where
  abbrev passes : MatchSuggestion → Bool
  passes m =
      (is_match_candidate_pair (dict_get projection_key m.lost_item_id read)
        (dict_get projection_key m.found_item_id read)).is_candidate

  abbrev one : MatchSuggestion → Session MatchDb → Session MatchDb
  one m s = ((if passes m then pure tt else expire_match m) s).1

  one-Kept :
      (m : MatchSuggestion) (s : Session MatchDb)
      → IsKeyed s.env s.working.tables
      → Kept s (one m s)
  unfolding expire_match
  one-Kept m s k = elim (Bool-cases (passes m)) [
    | inl good ↦ rw (good, one) (Kept-refl s k)
    | inr bad ↦
        rw (bad, one)
          (record {
            committed = refl;
            later = record { uuids = refl; drawn = omega arith };
            projections = refl;
            processed = refl;
            keyed =
                saved-IsKeyed s.env _
                  (record m { status = expired; updated_at = s.env.times s.env.ticks })
                  s.working.tables (record { uuids = refl; drawn = omega arith }) k;
          })
  ]

  -- The head of the list is looked at.
  one-Pending :
      (m : MatchSuggestion) (ms : List MatchSuggestion) (s : Session MatchDb)
      → Loaded read s.working.tables.projections m
      → Waiting (Pending (m ∷ ms) s.working.tables) s.working.tables
      → Waiting (Pending ms (one m s).working.tables) (one m s).working.tables
  unfolding expire_match
  one-Pending m ms s l pending = elim (Bool-cases (passes m)) [
    | inl good ↦
        rw (good, one)
          (λ k x here waits. elim (pending k x here waits) [
            | inl fair ↦ inl fair
            | inr listed ↦ next_fair x listed (fair_by good)
          ])
    | inr bad ↦
        rw (bad, one)
          (λ k x here waits. elim (Bool-cases (m.id == k)) [
            | inl mine ↦ absurd (
                expired_waits (record m { status = expired; updated_at = s.env.times s.env.ticks })
                  k x refl mine here waits)
            | inr other ↦
                let there : find match_key k s.working.tables.suggestions ≡ some x = ground (
                  arith,
                  here,
                  find-save match_key
                      (record m { status = expired; updated_at = s.env.times s.env.ticks }) k
                      s.working.tables.suggestions,
                ) in
                elim (pending k x there waits) [
                  | inl fair ↦ inl fair
                  | inr listed ↦ inr (
                      ground
                        (arith, listed, key-find match_key k s.working.tables.suggestions x there))
                ]
          ])
  ]
    where
      fair_by : passes m ≡ true → IsFairIn s.working.tables m
      fair_by good =
          ap₂ (λ lost_item found_item. (is_match_candidate_pair lost_item found_item).is_candidate)
            (sym l.0) (sym l.1)
          ∙ good

      next_fair :
          (x : MatchSuggestion)
          → find match_key x.id (m ∷ ms) ≡ some x
          → IsFairIn s.working.tables m
          → Pending ms s.working.tables x
      next_fair x listed fair = elim (Bool-cases (m.id == x.id)) [
        | inl same ↦ let e : m ≡ x = ground arith in inl (subst (IsFairIn s.working.tables) e fair)
        | inr other ↦ inr (ground (arith, listed))
      ]

      expired_waits :
          (m' : MatchSuggestion) (k : ℕ) (x : MatchSuggestion)
          → m'.status ≡ expired
          → (m'.id == k) ≡ true
          → find match_key k (save match_key m' s.working.tables.suggestions) ≡ some x
          → is_suggested x.status ≡ true
          → ⊥
      expired_waits m' k x e mine here waits =
          ground (arith, find-save match_key m' k s.working.tables.suggestions)

  abbrev run : List MatchSuggestion → Session MatchDb → Session MatchDb
  run ms s = (expire_each read ms s).1

  expire_each-cons :
      (m : MatchSuggestion) (ms : List MatchSuggestion) (s : Session MatchDb)
      → expire_each read (m ∷ ms) s ≡ expire_each read ms (one m s)
  unfolding expire_each expire_match
  expire_each-cons m ms s = elim (Bool-cases (passes m)) [
    | inl good ↦ rw (good, one) refl
    | inr bad ↦ rw (bad, one) refl
  ]

  pub expire_each-AllFair :
      (ms : List MatchSuggestion) (s : Session MatchDb)
      → IsKeyed s.env s.working.tables
      → All (Loaded read s.working.tables.projections) ms
      → Waiting (Pending ms s.working.tables) s.working.tables
      → ((expire_each read ms s).0 ≡ ok tt) × Kept s (run ms s) × AllFair (run ms s).working.tables
  unfolding expire_each
  expire_each-AllFair [] s k l pending = (
    refl,
    Kept-refl s k,
    λ j m here waits. elim (pending j m here waits) [
      | inl fair ↦ fair
      | inr listed ↦ absurd (ground arith)
    ],
  )
  expire_each-AllFair (m ∷ ms) s k l pending =
      let a = one-Kept m s k in
      let (done, b, fair) =
        expire_each-AllFair ms (one m s) a.keyed
          (subst (λ ps. All (Loaded read ps) ms) (sym a.projections) l.1)
          (one-Pending m ms s l.0 pending) in
      subst (λ x. (x.0 ≡ ok tt) × Kept s x.1 × AllFair x.1.working.tables)
        (sym (expire_each-cons m ms s)) (done, Kept-trans s (one m s) (run ms (one m s)) a b, fair)
