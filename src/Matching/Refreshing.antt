-- ===== src/Matching/Refreshing.antt =====
-- `consume_item_event` leaves only suggestions of candidate pairs to wait.
use trabalho_devops.Prelude.{
  ℕ, ◌==◌, ◌||◌, ◌≡◌, refl, sym, ap, ◌∙◌, ◌⊎◌, inl, inr, Bool, true, false, Option, none, some,
  List, arith, if◌then◌else◌, Bool-cases, Option-cases, leb,
}
use mathlib.Core.Path.{subst, ap₂}
use trabalho_devops.Exec.{Result, ok, err, pure, continue, ◌>>◌}
use trabalho_devops.Exec.Laws.{bind-eq}
use trabalho_devops.Store.{Env, Session}
use trabalho_devops.Table.{find, IsUnique}
use trabalho_devops.Table.Laws.{find-save, find-insert, save-IsUnique, insert-IsUnique, key-find}
use trabalho_devops.Messaging.{Settings, EventEnvelope}
use trabalho_devops.Matching.Models.{
  ItemProjection, projection_key, ItemEventPayload, MatchSuggestion, match_key, MatchDb, Error,
}
use trabalho_devops.Matching.Scoring.{is_match_candidate_pair, is_item_eligible}
use trabalho_devops.Matching.Service.{
  projection_of, upsert_found, upsert_item_projection, expire_invalid_matches_for_item,
}
use trabalho_devops.Matching.Suggest.{
  generate_match_suggestions_for_item, refresh_matches, finish_event, process_item_event,
}
use trabalho_devops.Matching.Fairness.{IsKeyed, Waiting, IsFairIn, AllFair, IsSound}
use trabalho_devops.Matching.Expiry.{Kept, Kept-refl, Kept-trans}
use trabalho_devops.Matching.Expiring.{Involves, expire_invalid_matches_for_item-AllFair}
use trabalho_devops.Matching.Pairing.{Fair}
use trabalho_devops.Matching.Generating.{generate_match_suggestions_for_item-Fair}

-- One projection has been put into the table: a new one, or in the place of an older one.
pub record Upserted (p : ItemProjection) (s s' : Session MatchDb) : Type 0 where
  committed : s'.committed ≡ s.committed
  env : s'.env ≡ s.env
  suggestions : s'.working.tables.suggestions ≡ s.working.tables.suggestions
  unique : IsUnique projection_key s'.working.tables.projections
  here : find projection_key p.id s'.working.tables.projections ≡ some p
  others :
      (j : ℕ)
      → (p.id == j) ≡ false
      → find projection_key j s'.working.tables.projections
        ≡ find projection_key j s.working.tables.projections

-- What `upsert_item_projection` may do.
unfoldable pub UpsertEnds :
    Session MatchDb → Result Error (ItemProjection × Bool) × Session MatchDb → Type 0
UpsertEnds s (err e, s') = s' ≡ s
UpsertEnds s (ok (p, false), s') = s' ≡ s
UpsertEnds s (ok (p, true), s') = Upserted p s s'

module _ (envelope : EventEnvelope ItemEventPayload) (s : Session MatchDb)
    (u : IsUnique projection_key s.working.tables.projections) where
  upsert_found-UpsertEnds :
      (o : Option ItemProjection)
      → find projection_key envelope.aggregate_id s.working.tables.projections ≡ o
      → UpsertEnds s (upsert_found envelope o s)
  unfolding upsert_found UpsertEnds
  upsert_found-UpsertEnds none absent =
      elim (Option-cases (find projection_key envelope.payload.id s.working.tables.projections)) [
        | inl free ↦
            let p = projection_of envelope envelope.payload.id in
            rw free (record {
              committed = refl;
              env = refl;
              suggestions = refl;
              unique = insert-IsUnique projection_key p s.working.tables.projections free u;
              here = ground (arith, find-insert projection_key p p.id s.working.tables.projections);
              others = λ j e.
                  ground (arith, find-insert projection_key p j s.working.tables.projections);
            })
        | inr (q, taken) ↦ rw taken refl
      ]
  upsert_found-UpsertEnds (some q) found =
      let p = projection_of envelope q.id in
      elim (Bool-cases (leb envelope.aggregate_version q.version)) [
        | inl stale ↦ rw stale refl
        | inr newer ↦ rw newer (record {
          committed = refl;
          env = refl;
          suggestions = refl;
          unique = save-IsUnique projection_key p s.working.tables.projections u;
          here = ground (
            arith,
            found,
            key-find projection_key envelope.aggregate_id s.working.tables.projections q found,
            find-save projection_key p p.id s.working.tables.projections,
          );
          others = λ j e. ground (arith, find-save projection_key p j s.working.tables.projections);
        })
      ]

  pub upsert_item_projection-UpsertEnds : UpsertEnds s (upsert_item_projection envelope s)
  unfolding upsert_item_projection
  upsert_item_projection-UpsertEnds = upsert_found-UpsertEnds _ refl

-- Only the suggestions of the item are in doubt afterwards.
Upserted-Waiting :
    (p : ItemProjection) (s s' : Session MatchDb)
    → Upserted p s s'
    → AllFair s.working.tables
    → Waiting (λ m. IsFairIn s'.working.tables m ⊎ Involves p.id m) s'.working.tables
Upserted-Waiting p s s' a fair k m here waits =
    elim (Bool-cases (m.lost_item_id == p.id || m.found_item_id == p.id)) [
      | inl mine ↦ inr mine
      | inr other ↦ inl (
          ap₂ (λ x y. (is_match_candidate_pair x y).is_candidate)
            (a.others m.lost_item_id (ground arith)) (a.others m.found_item_id (ground arith))
          ∙ fair k m (ap (find match_key k) (sym a.suggestions) ∙ here) waits)
    ]

module _ (settings : Settings) where
  refresh_matches-Fair :
      (item : ItemProjection) (s : Session MatchDb)
      → IsKeyed s.env s.working.tables
      → ((i j : ℕ) → s.env.uuids i ≡ s.env.uuids j → i ≡ j)
      → find projection_key item.id s.working.tables.projections ≡ some item
      → Waiting (λ m. IsFairIn s.working.tables m ⊎ Involves item.id m) s.working.tables
      → Fair s (refresh_matches settings item s)
  unfolding refresh_matches
  refresh_matches-Fair item s k distinct here doubt =
      let (done, a, fair) = expire_invalid_matches_for_item-AllFair item.id s k doubt in
      let s1 = (expire_invalid_matches_for_item item.id s).1 in
      subst (Fair s) (sym (bind-eq (expire_invalid_matches_for_item item.id) (λ _. rest) s tt done))
        (after_expiry s1 a fair)
    where
      rest : Session MatchDb → Result Error ℕ × Session MatchDb
      rest =
          if is_item_eligible item
          then generate_match_suggestions_for_item settings item
          else pure 0

      after_expiry :
          (s1 : Session MatchDb) → Kept s s1 → AllFair s1.working.tables → Fair s (rest s1)
      after_expiry s1 a fair = elim (Bool-cases (is_item_eligible item)) [
        | inl eligible ↦
            let (done, b, fair') =
              generate_match_suggestions_for_item-Fair settings item s1 a.keyed fair
                (rw a.later.uuids distinct)
                (subst (λ ps. find projection_key item.id ps ≡ some item) (sym a.projections)
                  here) in
            rw (eligible, rest) (done, Kept-trans s s1 _ a b, fair')
        | inr idle ↦ rw (idle, rest) ((0, refl), a, fair)
      ]

  -- The session once the event has been registered and all is committed.
  finish_event-IsSound :
      (typed : EventEnvelope ItemEventPayload) (item_id : ℕ) (s : Session MatchDb)
      → ((i j : ℕ) → s.env.uuids i ≡ s.env.uuids j → i ≡ j)
      → IsKeyed s.env s.working.tables
      → AllFair s.working.tables
      → IsSound (finish_event settings typed item_id s).1
  unfolding finish_event
  finish_event-IsSound typed item_id s distinct k fair = record {
    distinct = distinct;
    committed_keyed = k;
    committed_fair = fair;
    working_keyed = k;
    working_fair = fair;
  }

  module _ (typed : EventEnvelope ItemEventPayload) where
    abbrev pub after_upsert :
        ItemProjection × Bool
        → Session MatchDb
        → Result Error (List MatchSuggestion) × Session MatchDb
    after_upsert upserted =
        (if upserted.1 then refresh_matches settings upserted.0 else pure 0)
        >> finish_event settings typed upserted.0.id

    -- The session in which the event is finished.
    unfoldable pub Refreshed : ItemProjection → Bool → Session MatchDb → Type 0
    Refreshed p newer s' =
        (s'' : Session MatchDb) × ((after_upsert (p, newer) s').1
          ≡ (finish_event settings typed p.id s'').1)
        × Kept s' s''
        × AllFair s''.working.tables
        × ((i j : ℕ) → s''.env.uuids i ≡ s''.env.uuids j → i ≡ j)

    pub after_upsert-Refreshed :
        (s : Session MatchDb)
        → IsSound s
        → (p : ItemProjection) (newer : Bool) (s' : Session MatchDb)
        → UpsertEnds s (ok (p, newer), s')
        → Refreshed p newer s'
    unfolding UpsertEnds Refreshed
    after_upsert-Refreshed s v p false s' e = (
      s',
      refl,
      Kept-refl s' (subst (λ x. IsKeyed x.env x.working.tables) (sym e) v.working_keyed),
      subst (λ x. AllFair x.working.tables) (sym e) v.working_fair,
      subst (λ x. (i j : ℕ) → x.env.uuids i ≡ x.env.uuids j → i ≡ j) (sym e) v.distinct,
    )
    after_upsert-Refreshed s v p true s' a =
        let distinct =
          subst (λ (x : Env). (i j : ℕ) → x.uuids i ≡ x.uuids j → i ≡ j) (sym a.env) v.distinct in
        let k : IsKeyed s'.env s'.working.tables = record {
          projections = a.unique;
          suggestions = subst (IsUnique match_key) (sym a.suggestions) v.working_keyed.suggestions;
          fresh = λ n h. rw (a.env, a.suggestions) (v.working_keyed.fresh n (rw⁻¹ a.env h));
        } in
        let ((n, done), b, fair) =
          refresh_matches-Fair p s' k distinct a.here (Upserted-Waiting p s s' a v.working_fair) in
        (
          (refresh_matches settings p s').1,
          ap (λ x. x.1)
              (bind-eq (refresh_matches settings p) (λ _. finish_event settings typed p.id) s' n
                done),
          b,
          fair,
          rw b.later.uuids distinct,
        )

    after_upsert-IsSound :
        (p : ItemProjection) (newer : Bool) (s' : Session MatchDb)
        → Refreshed p newer s'
        → IsSound (after_upsert (p, newer) s').1
    unfolding Refreshed
    after_upsert-IsSound p newer s' (s'', e, b, fair, distinct) =
        subst IsSound (sym e) (finish_event-IsSound typed p.id s'' distinct b.keyed fair)

    pub process_item_event-IsSound :
        (s : Session MatchDb) → IsSound s → IsSound (process_item_event settings typed s).1
    unfolding process_item_event UpsertEnds
    process_item_event-IsSound s v =
        by_end (upsert_item_projection typed s).0 (upsert_item_projection typed s).1
          (upsert_item_projection-UpsertEnds typed s v.working_keyed.projections)
      where
        by_end :
            (r : Result Error (ItemProjection × Bool)) (s' : Session MatchDb)
            → UpsertEnds s (r, s')
            → IsSound (continue r after_upsert s').1
        by_end (err e) s' h = subst IsSound (sym h) v
        by_end (ok (p, newer)) s' h =
            after_upsert-IsSound p newer s' (after_upsert-Refreshed s v p newer s' h)
