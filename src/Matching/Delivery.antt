-- ===== src/Matching/Delivery.antt =====
-- The second delivery of an item event.
use trabalho_devops.Prelude.{
  ℕ, ◌≡◌, ◌≢◌, sym, ap, ◌∙◌, ◌||◌, Bool, Option, none, List, arith, str_eq, inl, inr, Option-cases,
  Bool-cases, if◌then◌else◌,
}
use mathlib.Core.Path.{subst}
use trabalho_devops.Exec.{ok, pure, ◌>>◌}
use trabalho_devops.Exec.Laws.{bind-ok}
use trabalho_devops.Store.{Session, close, in_session}
use trabalho_devops.Table.{find}
use trabalho_devops.Table.Laws.{find-insert}
use trabalho_devops.Messaging.{Settings, EventEnvelope, ProcessedEvent}
use trabalho_devops.Matching.Models.{ItemEventPayload, ItemProjection, MatchSuggestion, MatchDb}
use trabalho_devops.Matching.Records.{Op}
use trabalho_devops.Matching.Service.{upsert_item_projection}
use trabalho_devops.Matching.Suggest.{
  refresh_matches, finish_event, process_item_event, consume_item_event,
}

abbrev pub processed_key : ProcessedEvent → ℕ
processed_key p = p.event_id

-- The event is registered in the database.
abbrev IsRegistered : ℕ → Session MatchDb → Type 0
IsRegistered k s = find processed_key k s.committed.processed ≢ none

module _ (settings : Settings) where
  finish_event_registers :
      (typed : EventEnvelope ItemEventPayload) (item_id : ℕ) (s : Session MatchDb)
      → IsRegistered typed.event_id (finish_event settings typed item_id s).1
  unfolding finish_event
  finish_event_registers typed item_id s = ground (
    arith,
    find-insert processed_key
        (record {
          event_id = typed.event_id;
          event_type = typed.event_type;
          aggregate_id = typed.aggregate_id;
        })
        typed.event_id s.working.processed,
  )

  process_item_event_registers :
      (typed : EventEnvelope ItemEventPayload) (s : Session MatchDb) (out : List MatchSuggestion)
      → (process_item_event settings typed s).0 ≡ ok out
      → IsRegistered typed.event_id (process_item_event settings typed s).1
  unfolding process_item_event
  process_item_event_registers typed s out h =
      let (upserted, _, done, state) =
        bind-ok after_upsert (upsert_item_projection typed) s out h in
      let (_, _, _, state') =
        bind-ok (λ _. finish upserted) (refresh upserted) (upsert_item_projection typed s).1 out
          done in
      subst (IsRegistered typed.event_id) (sym (state ∙ state')) (
        finish_event_registers typed upserted.0.id
          (refresh upserted (upsert_item_projection typed s).1).1)
    where
      refresh : ItemProjection × Bool → Op ℕ
      refresh upserted = if upserted.1 then refresh_matches settings upserted.0 else pure 0

      finish : ItemProjection × Bool → Op (List MatchSuggestion)
      finish upserted = finish_event settings typed upserted.0.id

      after_upsert : ItemProjection × Bool → Op (List MatchSuggestion)
      after_upsert upserted = refresh upserted >> finish upserted

  module _ {J : Type 0} (model_validate : J → Option ItemEventPayload)
      (envelope : EventEnvelope J) where
    abbrev pub consume : Op (List MatchSuggestion)
    consume = consume_item_event settings model_validate envelope

    -- The event with its payload validated.
    abbrev pub typed : ItemEventPayload → EventEnvelope ItemEventPayload
    typed p = record {
      event_id = envelope.event_id;
      event_type = envelope.event_type;
      aggregate_id = envelope.aggregate_id;
      aggregate_version = envelope.aggregate_version;
      occurred_at = envelope.occurred_at;
      correlation_id = envelope.correlation_id;
      causation_id = envelope.causation_id;
      payload = p;
    }

    consume_processed :
        (s : Session MatchDb) → IsRegistered envelope.event_id s → (consume (close s)).1 ≡ close s
    unfolding consume_item_event
    consume_processed s h = ground arith

    consume_registers :
        (s : Session MatchDb) (out : List MatchSuggestion)
        → (consume (close s)).0 ≡ ok out
        → IsRegistered envelope.event_id (consume (close s)).1
    unfolding consume_item_event
    consume_registers s out h =
        elim (Bool-cases
          (str_eq envelope.event_type "ItemCreated" || str_eq envelope.event_type "ItemUpdated")) [
            | inr wrong ↦ absurd (ground arith)
            | inl right ↦ elim (Option-cases (model_validate envelope.payload)) [
              | inl invalid ↦ absurd (ground arith)
              | inr (p, valid) ↦
                  elim (Option-cases (find processed_key envelope.event_id s.committed.processed)) [
                    | inr (q, seen) ↦
                        let there : IsRegistered envelope.event_id s = λ absent. ground arith in
                        subst (IsRegistered envelope.event_id) (sym (consume_processed s there))
                          there
                    | inl fresh ↦
                        let e : consume (close s)
                            ≡ process_item_event settings (typed p) (close s) =
                          rw (right, valid, fresh) in
                        subst (λ x. IsRegistered envelope.event_id x.1) (sym e)
                          (process_item_event_registers (typed p) (close s) out
                            (ap (λ x. x.0) (sym e) ∙ h))
                  ]
            ]
          ]

    -- Once an item event has been consumed with success in a session of its own, its redelivery in
    -- another session changes nothing: no projection, no suggestion, no event of the outbox, and no
    -- identifier is drawn.
    pub consume_item_event_redelivered :
        (s : Session MatchDb) (out : List MatchSuggestion)
        → (in_session consume s).0 ≡ ok out
        → (in_session consume (in_session consume s).1).1 ≡ (in_session consume s).1
    consume_item_event_redelivered s out h =
        ap close (consume_processed (in_session consume s).1 (consume_registers s out h))
