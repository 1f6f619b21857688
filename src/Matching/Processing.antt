-- ===== src/Matching/Processing.antt =====
-- What the processing of a valid item event leaves in the database of matching-service: the
-- projections as `upsert_item_projection` has them, and the event among the processed ones.
use trabalho_devops.Prelude.{
  ℕ, ◌==◌, ◌≡◌, refl, ap, ◌∙◌, inl, inr, Bool, true, false, Option, none, some, arith, leb,
  if◌then◌else◌, Bool-cases,
}
use trabalho_devops.Exec.{Result, ok, err, continue}
use trabalho_devops.Store.{Session}
use trabalho_devops.Table.{find, insert}
use trabalho_devops.Table.Laws.{find-save, find-insert, key-find}
use trabalho_devops.Messaging.{Settings, EventEnvelope, ProcessedEvent}
use trabalho_devops.Matching.Models.{
  ItemProjection, projection_key, ItemEventPayload, MatchDb, Error,
}
use trabalho_devops.Matching.Service.{projection_of, upsert_found, upsert_item_projection}
use trabalho_devops.Matching.Suggest.{finish_event, process_item_event}
use trabalho_devops.Matching.Fairness.{IsSound}
use trabalho_devops.Matching.Refreshing.{
  UpsertEnds, upsert_item_projection-UpsertEnds, after_upsert, Refreshed, after_upsert-Refreshed,
}

-- The projection of an item after the event, from the one before.
abbrev pub upserted : EventEnvelope ItemEventPayload → Option ItemProjection → ItemProjection
upserted typed none = projection_of typed typed.payload.id
upserted typed (some q) =
    if leb typed.aggregate_version q.version then q else projection_of typed q.id

abbrev pub processed_row : EventEnvelope ItemEventPayload → ProcessedEvent
processed_row typed = record {
  event_id = typed.event_id;
  event_type = typed.event_type;
  aggregate_id = typed.aggregate_id;
}

module _ (typed : EventEnvelope ItemEventPayload) (same_id : typed.payload.id ≡ typed.aggregate_id)
    (s : Session MatchDb) where
  abbrev before : Option ItemProjection
  before = find projection_key typed.aggregate_id s.working.tables.projections

  upsert_found_returns :
      (o : Option ItemProjection)
      → before ≡ o
      → (p : ItemProjection) × (newer : Bool) × ((upsert_found typed o s).0 ≡ ok (p, newer))
  unfolding upsert_found
  upsert_found_returns none absent =
      (projection_of typed typed.payload.id, true, ground (arith, same_id, absent))
  upsert_found_returns (some q) found = elim (Bool-cases (leb typed.aggregate_version q.version)) [
    | inl stale ↦ (q, false, rw stale)
    | inr newer ↦ (projection_of typed q.id, true, rw newer)
  ]

  upsert_found_processed :
      (o : Option ItemProjection)
      → (upsert_found typed o s).1.working.processed ≡ s.working.processed
  unfolding upsert_found
  upsert_found_processed none = ground arith
  upsert_found_processed (some q) = ground arith

  upsert_found-find :
      (o : Option ItemProjection)
      → before ≡ o
      → (k : ℕ)
      → find projection_key k (upsert_found typed o s).1.working.tables.projections ≡ (
          if typed.aggregate_id == k
          then some (upserted typed o)
          else find projection_key k s.working.tables.projections)
  unfolding upsert_found
  upsert_found-find none absent k = ground (
    arith,
    same_id,
    absent,
    find-insert projection_key (projection_of typed typed.payload.id) k
        s.working.tables.projections,
  )
  upsert_found-find (some q) found k = ground (
    arith,
    found,
    key-find projection_key typed.aggregate_id s.working.tables.projections q found,
    find-save projection_key (projection_of typed q.id) k s.working.tables.projections,
  )

  module _ (settings : Settings) (v : IsSound s) where
    process_ends :
        (r : Result Error (ItemProjection × Bool)) (s' : Session MatchDb) (p : ItemProjection)
        (newer : Bool)
        → r ≡ ok (p, newer)
        → UpsertEnds s (r, s')
        → let after = (continue r (after_upsert settings typed) s').1 in
          (after.committed ≡ after.working)
          × (after.working.processed ≡ insert (processed_row typed) s'.working.processed)
          × (after.working.tables.projections ≡ s'.working.tables.projections)
    unfolding Refreshed finish_event
    process_ends (err e) s' p newer returned ends = absurd (ground arith)
    process_ends (ok (p', newer')) s' p newer returned ends =
        let (s'', e, b, fair, distinct) =
          after_upsert-Refreshed settings typed s v p' newer' s' ends in
        rw e (refl, ap (insert (processed_row typed)) b.processed, b.projections)

    -- The event has been committed as processed, and the projection of its item alone is as the
    -- event makes it.
    pub process_item_event-find :
        let after = (process_item_event settings typed s).1 in
        (after.committed ≡ after.working)
        × (after.working.processed ≡ insert (processed_row typed) s.working.processed)
        × ((k : ℕ)
            → find projection_key k after.working.tables.projections ≡ (
                if typed.aggregate_id == k
                then some (upserted typed before)
                else find projection_key k s.working.tables.projections))
    unfolding process_item_event upsert_item_projection
    process_item_event-find =
        let (p, newer, returned) = upsert_found_returns before refl in
        let (done, processed, projections) =
          process_ends (upsert_found typed before s).0 (upsert_found typed before s).1 p newer
            returned (upsert_item_projection-UpsertEnds typed s v.working_keyed.projections) in
        (
          done,
          processed ∙ ap (insert (processed_row typed)) (upsert_found_processed before),
          λ k. ap (find projection_key k) projections ∙ upsert_found-find before refl k,
        )
