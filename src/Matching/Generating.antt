-- ===== src/Matching/Generating.antt =====
-- `generate_match_suggestions_for_item`: what it suggests is of a candidate pair.
use trabalho_devops.Prelude.{
  ℕ, ◌+◌, ◌==◌, ◌&&◌, not, ◌≡◌, refl, sym, ap, ◌∙◌, inl, inr, Bool, Option, none, some, List, [],
  ◌∷◌, arith, if◌then◌else◌, Bool-cases, All, select,
}
use mathlib.Core.Path.{subst}
use trabalho_devops.Exec.{pure, ◌>>=◌}
use trabalho_devops.Exec.Laws.{bind-eq}
use trabalho_devops.Store.{Session}
use trabalho_devops.Table.{find, order_by}
use trabalho_devops.Table.Laws.{find-select, select-IsUnique, order_by-IsUnique, find-All, key-find}
use trabalho_devops.Messaging.{Settings}
use trabalho_devops.Matching.Models.{
  ItemClassification, lost, found, classification_eq, ItemProjection, projection_key, MatchDb,
}
use trabalho_devops.Matching.Scoring.{is_match_candidate_pair}
use trabalho_devops.Matching.Records.{find_pair}
use trabalho_devops.Matching.Suggest.{
  opposite, normalize_pair, settle_pair, generate_each, generate_match_suggestions_for_item,
}
use trabalho_devops.Matching.Fairness.{IsKeyed, AllFair}
use trabalho_devops.Matching.Expiry.{Kept-refl, Kept-trans}
use trabalho_devops.Matching.Pairing.{Fair, drop_pair-Fair, suggest_pair-Fair}

module _ (settings : Settings) where
  -- The rows of the table that the two items are, and the identifiers.
  settle_pair-Fair :
      (l f : ItemProjection) (s : Session MatchDb)
      → IsKeyed s.env s.working.tables
      → AllFair s.working.tables
      → ((i j : ℕ) → s.env.uuids i ≡ s.env.uuids j → i ≡ j)
      → find projection_key l.id s.working.tables.projections ≡ some l
      → find projection_key f.id s.working.tables.projections ≡ some f
      → Fair s (settle_pair settings (l, f) s)
  unfolding settle_pair
  settle_pair-Fair l f s k fair distinct l_here f_here =
      let verdict = is_match_candidate_pair (some l) (some f) in
      let existing = find_pair l.id f.id s.working.tables.suggestions in
      elim (Bool-cases verdict.is_candidate) [
        | inl good ↦ rw good (
            suggest_pair-Fair s k fair settings verdict l f l_here f_here distinct existing refl
              good)
        | inr bad ↦ rw bad (drop_pair-Fair s k fair existing)
      ]

  abbrev Stored : List ItemProjection → ItemProjection → Type 0
  Stored rows p = find projection_key p.id rows ≡ some p

  settle_normalized-Fair :
      (item candidate : ItemProjection) (s : Session MatchDb)
      → IsKeyed s.env s.working.tables
      → AllFair s.working.tables
      → ((i j : ℕ) → s.env.uuids i ≡ s.env.uuids j → i ≡ j)
      → Stored s.working.tables.projections item
      → Stored s.working.tables.projections candidate
      → Fair s (settle_pair settings (normalize_pair item candidate) s)
  settle_normalized-Fair item candidate s k fair distinct here there = by_class item.classification
    where
      by_class :
          (c : ItemClassification)
          → Fair s (
              settle_pair settings
                (elim c [ lost ↦ (item, candidate) | found ↦ (candidate, item) ])
                s)
      by_class lost = settle_pair-Fair item candidate s k fair distinct here there
      by_class found = settle_pair-Fair candidate item s k fair distinct there here

  pub generate_each-Fair :
      (item : ItemProjection) (candidates : List ItemProjection) (s : Session MatchDb)
      → IsKeyed s.env s.working.tables
      → AllFair s.working.tables
      → ((i j : ℕ) → s.env.uuids i ≡ s.env.uuids j → i ≡ j)
      → Stored s.working.tables.projections item
      → All (Stored s.working.tables.projections) candidates
      → Fair s (generate_each settings item candidates s)
  unfolding generate_each
  generate_each-Fair item [] s k fair distinct here there = ((0, refl), Kept-refl s k, fair)
  generate_each-Fair item (c ∷ cs) s k fair distinct here there =
      let ((n, done), a, fair1) = settle_normalized-Fair item c s k fair distinct here there.0 in
      let s1 = (settle_pair settings (normalize_pair item c) s).1 in
      let ((m, done'), b, fair2) =
        generate_each-Fair item cs s1 a.keyed fair1 (rw a.later.uuids distinct)
          (subst (λ ps. Stored ps item) (sym a.projections) here)
          (subst (λ ps. All (Stored ps) cs) (sym a.projections) there.1) in
      let first =
        bind-eq (settle_pair settings (normalize_pair item c))
          (λ one. generate_each settings item cs >>= λ more. pure (one + more)) s n done in
      let second = bind-eq (generate_each settings item cs) (λ more. pure (n + more)) s1 m done' in
      subst (Fair s) (sym (first ∙ second)) ((n + m, refl), Kept-trans s s1 _ a b, fair2)

  pub generate_match_suggestions_for_item-Fair :
      (item : ItemProjection) (s : Session MatchDb)
      → IsKeyed s.env s.working.tables
      → AllFair s.working.tables
      → ((i j : ℕ) → s.env.uuids i ≡ s.env.uuids j → i ≡ j)
      → Stored s.working.tables.projections item
      → Fair s (generate_match_suggestions_for_item settings item s)
  unfolding generate_match_suggestions_for_item
  generate_match_suggestions_for_item-Fair item s k fair distinct here =
      generate_each-Fair item candidates s k fair distinct here all-Stored
    where
      wanted : ItemProjection → Bool
      wanted p =
          classification_eq p.classification (opposite item.classification) && not (p.id == item.id)

      chosen : List ItemProjection
      chosen = select wanted s.working.tables.projections

      candidates : List ItemProjection
      candidates = order_by (λ (p : ItemProjection). p.created_at) chosen

      only :
          (o : Option ItemProjection) (p : ItemProjection)
          → elim o as (λ _. Option ItemProjection) [
            | none ↦ none
            | some a ↦ if wanted a then some a else none
          ]
            ≡ some p
          → o ≡ some p
      only none p e = e
      only (some a) p e = ground arith

      all-Stored : All (Stored s.working.tables.projections) candidates
      all-Stored =
          let u =
            select-IsUnique projection_key wanted s.working.tables.projections k.projections in
          let (v, same) =
            order_by-IsUnique projection_key (λ (p : ItemProjection). p.created_at) chosen u in
          find-All projection_key (Stored s.working.tables.projections) candidates v (λ j p e.
            let stored = only (find projection_key j s.working.tables.projections) p (
              sym (
                sym e
                ∙ same j
                ∙ find-select projection_key wanted j s.working.tables.projections
                    k.projections)) in
            ap (λ i. find projection_key i s.working.tables.projections)
              (key-find projection_key j s.working.tables.projections p stored)
            ∙ stored)
