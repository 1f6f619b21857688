-- ===== src/Matching/Deliveries.antt =====
-- Deliveries of a feed's events to matching-service, in any order and as often as the broker likes,
-- with decisions in between.
use trabalho_devops.Prelude.{
  ℕ, ◌≡◌, ◌≢◌, ◌⊎◌, refl, sym, ◌∙◌, ap, inl, inr, Option, none, some, List, [], ◌∷◌, All, arith,
  Option-cases,
}
use mathlib.Core.Path.{subst}
use trabalho_devops.Store.{Env, Session, close}
use trabalho_devops.Table.{find, insert}
use trabalho_devops.Table.Laws.{find-insert}
use trabalho_devops.Messaging.{Settings, EventEnvelope, ProcessedEvent}
use trabalho_devops.Matching.Models.{
  ItemProjection, projection_key, ItemEventPayload, accepted, rejected, MatchDb,
}
use trabalho_devops.Matching.Service.{accept_match, reject_match}
use trabalho_devops.Matching.Suggest.{process_item_event, consume_item_event}
use trabalho_devops.Matching.Fairness.{IsSound}
use trabalho_devops.Matching.Delivery.{typed, processed_key}
use trabalho_devops.Matching.Processing.{process_item_event-find, processed_row}
use trabalho_devops.Matching.Feed.{Feed}
use trabalho_devops.Matching.Tracking.{Shows, IsTracking, processed-IsTracking}
use trabalho_devops.Matching.Requests.{
  Request, item_event, accept, reject, handle, serve, new_session, close-IsSound, handle-IsSound,
  new_session-IsSound,
}
use trabalho_devops.Matching.Untouched.{SameItems, decide-SameItems}

abbrev pub IsProcessed : ℕ → MatchDb → Type 0
IsProcessed id d = find processed_key id d.processed ≢ none

module _ {J : Type 0} where
  -- The event is among those that are delivered.
  abbrev pub IsDelivered : EventEnvelope J → List (Request J) → Type 0
  IsDelivered e [] = ⊥
  IsDelivered e (r ∷ rs) = (r ≡ item_event e) ⊎ IsDelivered e rs

module _ {J : Type 0} (settings : Settings) (model_validate : J → Option ItemEventPayload) (k : ℕ)
    (latest : ItemEventPayload) (feed : Feed model_validate k latest) where
  abbrev pub IsExpected : Request J → Type 0
  IsExpected (item_event e) = feed.IsSent e
  IsExpected (accept id payload) = Unit
  IsExpected (reject id payload) = Unit

  abbrev Tracking : MatchDb → Type 0
  Tracking = IsTracking settings model_validate k latest feed

  -- From one database to the next.
  record Advanced (r : Request J) (d d' : MatchDb) : Type 0 where
    pub tracking : Tracking d'
    pub kept : (id : ℕ) → IsProcessed id d → IsProcessed id d'
    pub handled : (e : EventEnvelope J) → r ≡ item_event e → IsProcessed e.event_id d'

  SameItems-Advanced :
      (r : Request J) (d d' : MatchDb)
      → SameItems d d'
      → Tracking d
      → ((e : EventEnvelope J) → r ≡ item_event e → IsProcessed e.event_id d)
      → Advanced r d d'
  SameItems-Advanced r d d' (processed, projections) t known = record {
    tracking = record {
      not_ahead = λ q h. t.not_ahead q (ap (find projection_key k) (sym projections) ∙ h);
      reached = λ e sent about seen.
          let (q, here, le) = t.reached e sent about (λ absent. seen (rw processed absent)) in
          (q, rw projections here, le);
    };
    kept = λ id seen absent. seen (rw (← processed) absent);
    handled = λ e same absent. known e same (rw (← processed) absent);
  }

  registered_kept :
      (row : ProcessedEvent) (d d' : MatchDb)
      → d'.processed ≡ insert row d.processed
      → ((id : ℕ) → IsProcessed id d → IsProcessed id d') × IsProcessed row.event_id d'
  registered_kept row d d' registered = (
    λ id seen absent.
        seen (ground (arith, find-insert processed_key row id d.processed, registered, absent)),
    λ absent.
        ground (arith, find-insert processed_key row row.event_id d.processed, registered, absent),
  )

  module _ (s : Session MatchDb) (v : IsSound s) (clean : s.committed ≡ s.working)
      (t : Tracking s.working) where
    process-Advanced :
        (e : EventEnvelope J)
        → feed.IsSent e
        → (p : ItemEventPayload) → model_validate e.payload ≡ some p
        → p.id ≡ e.aggregate_id
        → p.version ≡ e.aggregate_version
        → Advanced
            (item_event e)
            s.working
            (process_item_event settings (typed settings model_validate e p) s).1.committed
    process-Advanced e sent p valid same_id same_version =
        let event = typed settings model_validate e p in
        let after = (process_item_event settings event s).1 in
        let (done, registered, rows) = process_item_event-find event same_id s settings v in
        let (kept, known) =
          registered_kept (processed_row event) s.working after.working registered in
        subst (Advanced (item_event e) s.working) (sym done) (record {
          tracking =
              processed-IsTracking settings model_validate k latest feed e sent p valid same_id
                same_version s.working after.working rows registered t;
          kept = kept;
          handled = λ e' same.
              let one : e ≡ e' = cc in
              subst (λ (x : EventEnvelope J). IsProcessed x.event_id after.working) one known;
        })

    consume-Advanced :
        (e : EventEnvelope J)
        → feed.IsSent e
        → Advanced
            (item_event e)
            s.working
            (consume_item_event settings model_validate e s).1.committed
    unfolding consume_item_event
    consume-Advanced e sent =
        let (p, valid, same_id, same_version) = feed.received e sent in
        elim (Option-cases (find processed_key e.event_id s.working.processed)) [
          | inl fresh ↦
              rw (feed.event_type e sent, valid, fresh)
                (process-Advanced e sent p valid same_id same_version)
          | inr (row, seen) ↦
              rw (feed.event_type e sent, valid, seen, clean)
                (SameItems-Advanced (item_event e) s.working s.working (refl, refl) t
                  (λ e' same absent.
                    let one : e ≡ e' = cc in
                    ground (arith, seen, absent, ap (λ (x : EventEnvelope J). x.event_id) one)))
        ]

    handle-Advanced :
        (r : Request J)
        → IsExpected r
        → Advanced r s.working (handle settings model_validate r s).committed
    unfolding handle accept_match reject_match
    handle-Advanced (item_event e) sent = consume-Advanced e sent
    handle-Advanced (accept id payload) expected =
        SameItems-Advanced (accept id payload) s.working
          (accept_match settings id payload s).1.committed
          (decide-SameItems settings s clean accepted "MatchAccepted" "match.accepted" id payload
            refl)
          t (λ e same. cc)
    handle-Advanced (reject id payload) expected =
        SameItems-Advanced (reject id payload) s.working
          (reject_match settings id payload s).1.committed
          (decide-SameItems settings s clean rejected "MatchRejected" "match.rejected" id payload
            refl)
          t (λ e same. cc)

  -- After a sequence of deliveries and decisions, every delivered event has been processed.
  serve-Advanced :
      (rs : List (Request J)) (s : Session MatchDb)
      → All IsExpected rs
      → IsSound s
      → Tracking s.committed
      → let d = (serve settings model_validate rs s).committed in
        Tracking d
        × ((id : ℕ) → IsProcessed id s.committed → IsProcessed id d)
        × ((e : EventEnvelope J) → IsDelivered e rs → IsProcessed e.event_id d)
  unfolding serve
  serve-Advanced [] s expected v t = (t, λ id seen. seen, λ e none. absurd none)
  serve-Advanced (r ∷ rs) s (expected, others) v t =
      let before = close-IsSound s v in
      let s' = handle settings model_validate r (close s) in
      let a = handle-Advanced (close s) before refl t r expected in
      let (tracking, kept, processed) =
        serve-Advanced rs (close s') others
          (close-IsSound s' (handle-IsSound settings model_validate r (close s) before))
          a.tracking in
      (
        tracking,
        λ id seen. kept id (a.kept id seen),
        λ e delivered. elim delivered [
          | inl now ↦ kept e.event_id (a.handled e now)
          | inr later ↦ processed e later
        ],
      )

  -- Once the event with the latest version has been delivered, the projection shows its state.
  pub serve-Shows :
      (rs : List (Request J)) (env : Env)
      → ((i j : ℕ) → env.uuids i ≡ env.uuids j → i ≡ j)
      → All IsExpected rs
      → (e : EventEnvelope J) → feed.IsSent e
      → e.aggregate_id ≡ k
      → e.aggregate_version ≡ latest.version
      → IsDelivered e rs
      → (q : ItemProjection) × (find projection_key k
            (serve settings model_validate rs (new_session env)).committed.tables.projections
          ≡ some q)
        × Shows latest q
  serve-Shows rs env distinct expected e sent about newest delivered =
      let (t, kept, processed) =
        serve-Advanced rs (new_session env) expected (new_session-IsSound env distinct) (record {
          not_ahead = λ q h. absurd (ground arith);
          reached = λ e' sent' about' seen. absurd (seen refl);
        }) in
      let (q, here, reached) = t.reached e sent about (processed e delivered) in
      let (behind, shows) = t.not_ahead q here in
      (q, here, shows (omega (arith, behind, reached, newest)))
