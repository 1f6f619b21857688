-- ===== src/Saga/Opening.antt =====
-- The opening of a recovery case at both of its ends: the case in recovery-case-service, and the
-- items in item-service.
use trabalho_devops.Prelude.{ℕ, ◌+◌, ◌≡◌, refl, sym, String, true, some, List, [], ◌∷◌, arith}
use mathlib.Core.Path.{subst}
use trabalho_devops.Exec.{Result, ok, err}
use trabalho_devops.Store.{close}
use trabalho_devops.Table.{find, save, IsUnique}
use trabalho_devops.Table.Laws.{find-save}
use trabalho_devops.Messaging.{Settings, EventEnvelope}
use trabalho_devops.Item.Models.{Item, item_key, ItemDb, RecoveryOpenRequest, in_recovery}
use trabalho_devops.Item.Rules.{by_open}
use trabalho_devops.Item.Service.{open_recovery}
use trabalho_devops.Item.Loop.{AllMayMove, AllMoved}
use trabalho_devops.Item.Recovery.{open_recovery-Settled}
use trabalho_devops.Item.Api.{RecoveryOperationResponse, open_recovery_endpoint}
use trabalho_devops.Recovery.Models.{
  RecoveryCase, case_key, in_progress, MatchAcceptedPayload, Error, Node,
}
use trabalho_devops.Recovery.Records.{start_saga_step, is_retryable_failed_open}
use trabalho_devops.Recovery.Service.{conclude_opening, abandon_opening}
use trabalho_devops.Recovery.Consume.{after_call, open_at_item_service}
use trabalho_devops.Recovery.Calling.{
  opening_step, opening_node, opening_request, open_at_item_service_lem,
}
use trabalho_devops.Recovery.Indexes.{active-clear, stored-clear, save-violates}
use trabalho_devops.Recovery.Opening.{failed_case, failed_case_retryable}
use trabalho_devops.Recovery.Preparing.{IsPrepared}
use trabalho_devops.Saga.Answers.{Ended, answered-Ended}
use trabalho_devops.Saga.Client.{answered, Link, http_client}

abbrev pub opened : List Item → RecoveryOperationResponse
opened items = record { operation = "open"; items = items }

module _ (settings : Settings) (envelope : EventEnvelope MatchAcceptedPayload) (c : RecoveryCase)
    (n : Node RecoveryOperationResponse Link) where
  abbrev pub ids : List ℕ
  ids = c.lost_item_id ∷ c.found_item_id ∷ []

  -- The items before and after.
  abbrev pub before : ItemDb
  before = n.remote.items.committed

  abbrev call : Result String RecoveryOperationResponse × Link
  call =
      (http_client settings).open_recovery
        (opening_request settings (http_client settings) envelope c n) n.remote

  call-Ended :
      IsUnique item_key before.tables.items
      → n.remote.fates n.remote.calls ≡ answered
      → Ended by_open in_recovery ids before call.1.items.committed call.0
  unfolding http_client open_recovery_endpoint
  call-Ended unique fate =
      let payload : RecoveryOpenRequest = record {
        item_ids = ids;
        actor_user_id = c.opened_by_user_id;
        reason = some "Recovery case opened from MatchAccepted";
      } in
      let (r, s) = open_recovery settings payload (close n.remote.items) in
      rw fate (
        answered-Ended by_open in_recovery "open" ids before s _ r
          (open_recovery-Settled settings n.remote.items unique payload))

  -- The case as the two ends of the opening leave it.
  abbrev opened_case : RecoveryCase
  opened_case = record c {
    status = in_progress;
    updated_at = n.session.env.times (n.session.env.ticks + 1);
  }

  -- The case is IN_PROGRESS and the items have been moved, or the case may be opened again, and
  -- they have not.
  abbrev pub Agrees : Result Error RecoveryCase × Node RecoveryOperationResponse Link → Type 0
  Agrees (ok out, n') =
      (out.status ≡ in_progress)
      × (find case_key c.id n'.session.committed.tables.cases ≡ some out)
      × AllMayMove by_open in_recovery ids before
      × AllMoved in_recovery ids before n'.remote.items.committed
  Agrees (err e, n') =
      ((out : RecoveryCase) × (find case_key c.id n'.session.committed.tables.cases ≡ some out)
        × (is_retryable_failed_open out ≡ true))
      × (¬ AllMayMove by_open in_recovery ids before)
      × (n'.remote.items.committed ≡ before)

  module _ (prepared : IsPrepared c n.session) where
    saved :
        (c' : RecoveryCase)
        → c'.id ≡ c.id
        → find case_key c.id (save case_key c' n.session.working.tables.cases) ≡ some c'
    saved c' same =
        ground (arith, find-save case_key c' c.id n.session.working.tables.cases, prepared.here)

    concluded :
        (answer : RecoveryOperationResponse) (link : Link)
        → Ended by_open in_recovery ids before link.items.committed (ok answer)
        → Agrees (
            after_call settings
              (http_client settings)
              envelope
              c
              (opening_step settings (http_client settings) envelope c n)
              (ok answer)
              (record (opening_node settings (http_client settings) envelope c n) {
                remote = link;
              }))
    unfolding conclude_opening start_saga_step
    concluded answer link ended =
        let cases = n.session.working.tables.cases in
        let orderly = prepared.sound.working in
        let free =
          active-clear c opened_case refl refl refl cases (rw prepared.status refl)
            (stored-clear c cases orderly.exclusive prepared.here) in
        let allowed = save-violates opened_case cases orderly.unique free orderly.exclusive in
        rw allowed (refl, saved opened_case refl, ended.0, ended.1)

    abandoned :
        (exc : String) (link : Link)
        → Ended {A = RecoveryOperationResponse} by_open in_recovery ids before link.items.committed
            (err exc)
        → Agrees (
            after_call settings
              (http_client settings)
              envelope
              c
              (opening_step settings (http_client settings) envelope c n)
              (err exc)
              (record (opening_node settings (http_client settings) envelope c n) {
                remote = link;
              }))
    unfolding abandon_opening start_saga_step
    abandoned exc link ended = (
      (
        failed_case settings (http_client settings) envelope c n exc,
        saved (failed_case settings (http_client settings) envelope c n exc) refl,
        failed_case_retryable settings (http_client settings) envelope c n exc,
      ),
      ended.0,
      ended.1,
    )

    by_outcome :
        (outcome : Result String RecoveryOperationResponse) (link : Link)
        → Ended by_open in_recovery ids before link.items.committed outcome
        → Agrees (
            after_call settings
              (http_client settings)
              envelope
              c
              (opening_step settings (http_client settings) envelope c n)
              outcome
              (record (opening_node settings (http_client settings) envelope c n) {
                remote = link;
              }))
    by_outcome (ok answer) link ended = concluded answer link ended
    by_outcome (err exc) link ended = abandoned exc link ended

    -- If the call of item-service is answered, and the ids of its items are unique, the opening of a
    -- case that has been prepared ends in one of two ways: it returns, the committed case is
    -- IN_PROGRESS, and exactly its two items have been moved to IN_RECOVERY, which they could be; or
    -- it raises, the committed case is one that the next MatchAccepted may open again, one of the
    -- items is missing or could not be moved, and item-service's database is as it was.
    pub open_at_item_service-Agrees :
        IsUnique item_key before.tables.items
        → n.remote.fates n.remote.calls ≡ answered
        → Agrees (open_at_item_service settings (http_client settings) envelope c n)
    open_at_item_service-Agrees unique fate =
        subst Agrees
          (sym (
            open_at_item_service_lem settings (http_client settings) envelope c n
              prepared.sound.working.exclusive))
          (by_outcome call.0 call.1 (call-Ended unique fate))
