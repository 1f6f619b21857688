-- ===== src/Recovery/Delivery.antt =====
-- What one delivery of a MatchAccepted event does: when the call of item-service fails, and when
-- the event comes again.
use mathlib.Core.Path.{subst}
use trabalho_devops.Prelude.{
  ℕ, ◌≡◌, ◌≢◌, refl, sym, ap, ◌∙◌, Bool-cases, Option-cases, str_eq, inl, inr, Bool, true, false,
  Option, none, some, arith, String,
}
use trabalho_devops.Exec.{Result, ok, err, continue}
use trabalho_devops.Store.{Session, close}
use trabalho_devops.Table.{find}
use trabalho_devops.Table.Laws.{find-insert}
use trabalho_devops.Messaging.{Settings, EventEnvelope, ProcessedEvent}
use trabalho_devops.Recovery.Models.{
  RecoveryCase, violates_indexes, SagaStep, MatchAcceptedPayload, Error, Node, RecoveryDb,
  ItemRecoveryClient,
}
use trabalho_devops.Recovery.Records.{find_match}
use trabalho_devops.Recovery.Service.{prepare_case, abandon_opening, conclude_opening}
use trabalho_devops.Recovery.Consume.{
  after_call, open_at_item_service, keep_case, open_new_case, choose, consume_typed,
  consume_match_accepted, stands,
}
use trabalho_devops.Recovery.Calling.{
  opening_request, opening_step, opening_node, open_at_item_service_lem,
  open_at_item_service_refused,
}

abbrev pub processed_key : ProcessedEvent → ℕ
processed_key p = p.event_id

-- A session of its own for each delivery, which is closed at the end.
abbrev pub closed : {R W : Type 0} → Node R W → Node R W
closed n = record n { session = close n.session }

abbrev pub in_node :
    {R W A : Type 0} → (Node R W → Result Error A × Node R W) → Node R W → Result Error A × Node R W
in_node body n = let (r, n') = body (closed n) in (r, closed n')

-- The event is registered in the database.
abbrev pub IsRegistered : {R : Type 0} → ℕ → Session (RecoveryDb R) → Type 0
IsRegistered k s = find processed_key k s.committed.processed ≢ none

module _ {R W : Type 0} (settings : Settings) (client : ItemRecoveryClient R W)
    (envelope : EventEnvelope MatchAcceptedPayload) where
  conclude_opening_registers :
      (c : RecoveryCase) (step : SagaStep R) (answer : R) (s : Session (RecoveryDb R))
      (out : RecoveryCase)
      → (conclude_opening settings envelope c step answer s).0 ≡ ok out
      → IsRegistered envelope.event_id (conclude_opening settings envelope c step answer s).1
  unfolding conclude_opening
  conclude_opening_registers c step answer s out h = ground (
    arith,
    find-insert processed_key
        (record {
          event_id = envelope.event_id;
          event_type = envelope.event_type;
          aggregate_id = envelope.aggregate_id;
        })
        envelope.event_id s.working.processed,
  )

  after_call_registers :
      (c : RecoveryCase) (step : SagaStep R) (outcome : Result String R) (n : Node R W)
      (out : RecoveryCase)
      → (after_call settings client envelope c step outcome n).0 ≡ ok out
      → IsRegistered envelope.event_id
          (after_call settings client envelope c step outcome n).1.session
  unfolding abandon_opening
  after_call_registers c step (ok answer) n out h =
      conclude_opening_registers c step answer n.session out h
  after_call_registers c step (err exc) n out h = cc

  module _ (c : RecoveryCase) (n : Node R W) where
    open_at_item_service_registers :
        (out : RecoveryCase)
        → (open_at_item_service settings client envelope c n).0 ≡ ok out
        → IsRegistered envelope.event_id
            (open_at_item_service settings client envelope c n).1.session
    open_at_item_service_registers out h =
        elim (Bool-cases (violates_indexes n.session.working.tables.cases)) [
          | inl bad ↦
              absurd (ground (arith, open_at_item_service_refused settings client envelope c n bad))
          | inr good ↦
              let e = open_at_item_service_lem settings client envelope c n good in
              subst (λ x. IsRegistered envelope.event_id x.1.session) (sym e)
                (after_call_registers c (opening_step settings client envelope c n)
                  (client.open_recovery (opening_request settings client envelope c n) n.remote).0
                  (opening_node settings client envelope c n) out (ap (λ x. x.0) (sym e) ∙ h))
        ]

  prepared_registers :
      (r : Result Error RecoveryCase) (s : Session (RecoveryDb R)) (w : W) (out : RecoveryCase)
      → (continue {S = Node R W} r
          (open_at_item_service settings client envelope)
          (record { session = s; remote = w })).0
        ≡ ok out
      → IsRegistered envelope.event_id
          (continue r
            (open_at_item_service settings client envelope)
            (record { session = s; remote = w })).1.session
  prepared_registers (ok c) s w out h = open_at_item_service_registers c _ out h
  prepared_registers (err e) s w out h = cc

  keep_registers :
      (existing : Option RecoveryCase) (n : Node R W) (out : RecoveryCase)
      → (keep_case settings client envelope existing n).0 ≡ ok out
      → IsRegistered envelope.event_id (keep_case settings client envelope existing n).1.session
  unfolding keep_case
  keep_registers existing n out h = ground (
    arith,
    find-insert processed_key
        (record {
          event_id = envelope.event_id;
          event_type = envelope.event_type;
          aggregate_id = envelope.aggregate_id;
        })
        envelope.event_id n.session.working.processed,
  )

  choose_registers :
      (o : Option ProcessedEvent) (standing : Bool) (existing : Option RecoveryCase) (n : Node R W)
      (out : RecoveryCase)
      → n.session.committed ≡ n.session.working
      → find processed_key envelope.event_id n.session.working.processed ≡ o
      → let x =
          choose settings client
            (elim o [ none ↦ false | some _ ↦ true ])
            standing
            envelope
            existing
            n in
        x.0 ≡ ok out → IsRegistered envelope.event_id x.1.session
  choose_registers (some p) standing none n out clean e h = cc
  choose_registers (some p) standing (some c) n out clean e h = λ absent. ground arith
  choose_registers none true existing n out clean e h = keep_registers existing n out h
  choose_registers none false existing n out clean e h =
      unfold open_new_case in
      (let (r, s) = prepare_case envelope existing n.session in
        prepared_registers r s n.remote out h)

  consume_typed_registers :
      (n : Node R W) (out : RecoveryCase)
      → n.session.committed ≡ n.session.working
      → (consume_typed settings client envelope n).0 ≡ ok out
      → IsRegistered envelope.event_id (consume_typed settings client envelope n).1.session
  unfolding consume_typed
  consume_typed_registers n out clean h =
      choose_registers (find processed_key envelope.event_id n.session.working.processed)
        (stands (find_match envelope.payload.id n.session.working.tables.cases))
        (find_match envelope.payload.id n.session.working.tables.cases) n out clean refl h

module _ {R W J : Type 0} (settings : Settings) (client : ItemRecoveryClient R W)
    (model_validate : J → Option MatchAcceptedPayload) (envelope : EventEnvelope J) where
  abbrev consume : Node R W → Result Error RecoveryCase × Node R W
  consume = consume_match_accepted settings client model_validate envelope

  -- The event with its payload validated.
  abbrev typed : MatchAcceptedPayload → EventEnvelope MatchAcceptedPayload
  typed p = record {
    event_id = envelope.event_id;
    event_type = envelope.event_type;
    aggregate_id = envelope.aggregate_id;
    aggregate_version = envelope.aggregate_version;
    occurred_at = envelope.occurred_at;
    correlation_id = envelope.correlation_id;
    causation_id = envelope.causation_id;
    payload = p;
  }

  -- An event that has been processed changes nothing, neither here nor at item-service.
  pub consume_processed :
      (n : Node R W)
      → find processed_key envelope.event_id n.session.working.processed ≢ none
      → (consume n).1 ≡ n
  unfolding consume_match_accepted
  consume_processed n h = ground arith

  -- One that has been consumed with success is processed, in the database.
  pub consume_registers :
      (n : Node R W) (c : RecoveryCase)
      → n.session.committed ≡ n.session.working
      → (consume n).0 ≡ ok c
      → find processed_key envelope.event_id (consume n).1.session.committed.processed ≢ none
  unfolding consume_match_accepted
  consume_registers n c clean h = elim (Bool-cases (str_eq envelope.event_type "MatchAccepted")) [
    | inr wrong ↦ absurd (ground arith)
    | inl right ↦ elim (Option-cases (model_validate envelope.payload)) [
      | inl invalid ↦ absurd (ground arith)
      | inr (p, valid) ↦
          let e : consume n ≡ consume_typed settings client (typed p) n = rw (right, valid) in
          subst (λ x. IsRegistered envelope.event_id x.1.session) (sym e)
            (consume_typed_registers settings client (typed p) n c clean
              (ap (λ x. x.0) (sym e) ∙ h))
    ]
  ]

  -- Once MatchAccepted has been consumed with success in a session of its own, its redelivery in
  -- another session changes nothing: no table, no identifier drawn, no call of item-service.
  pub consume_redelivered :
      (n : Node R W) (c : RecoveryCase)
      → (in_node consume n).0 ≡ ok c
      → (in_node consume (in_node consume n).1).1 ≡ (in_node consume n).1
  consume_redelivered n c h =
      ap closed (consume_processed (in_node consume n).1 (consume_registers (closed n) c refl h))
