-- ===== src/Recovery/Statuses.antt =====
-- What the endpoints of recovery-case-service answer to a request that ends a case.
use trabalho_devops.Prelude.{
  ℕ, ◌≡◌, refl, sym, ◌⊎◌, inl, inr, Bool, true, false, Option, some, none, Option-cases, String,
}
use mathlib.Core.Path.{subst}
use trabalho_devops.Exec.{Result, ok, err, reraised}
use trabalho_devops.Table.{find}
use trabalho_devops.Messaging.{Settings}
use trabalho_devops.Recovery.Models.{
  RecoveryCase, RecoveryCaseStatus, case_key, cancelled, open_case, in_progress, completed,
  case_status_eq, is_active, SagaStep, started, RequestPayload, RecoveryCaseCancelRequest,
  RecoveryCaseCompleteRequest, Node, ItemRecoveryClient, violates_indexes,
}
use trabalho_devops.Recovery.Records.{cancel_step_name, complete_step_name, start_saga_step}
use trabalho_devops.Recovery.Decide.{
  after_cancel, after_complete, cancel_recovery_case, complete_recovery_case, abandon_step,
  conclude_cancelling, conclude_completing,
}
use trabalho_devops.Recovery.Api.{
  case_status_code, cancel_recovery_case_endpoint, complete_recovery_case_endpoint,
}

-- The answer by the case that there is and the statuses that the request takes: 404 without one,
-- 400 if it has another status, and else the case with its new status, or 502.
abbrev pub Answered :
    (RecoveryCaseStatus → Bool)
    → RecoveryCaseStatus
    → Option RecoveryCase
    → Result ℕ RecoveryCase
    → Type 0
Answered takes target none r = r ≡ err 404
Answered takes target (some c) (ok c') = (takes c.status ≡ true) × (c'.status ≡ target)
Answered takes target (some c) (err code) =
    ((takes c.status ≡ false) × (code ≡ 400)) ⊎ ((takes c.status ≡ true) × (code ≡ 502))

abbrev pub is_in_progress : RecoveryCaseStatus → Bool
is_in_progress st = case_status_eq st in_progress

module _ {R W : Type 0} (settings : Settings) (client : ItemRecoveryClient R W) where
  -- The step that is started.
  abbrev step_of : ℕ → ℕ → String → RequestPayload → ℕ → SagaStep R
  step_of id case_id name request now = record {
    id = id;
    case_id = case_id;
    step_name = name;
    step_status = started;
    request_payload = request;
    response_payload = none;
    occurred_at = now;
  }

  after_cancel-Answered :
      (payload : RecoveryCaseCancelRequest) (c : RecoveryCase) (step : SagaStep R)
      (outcome : Result String R) (n : Node R W)
      → is_active c.status ≡ true
      → Answered is_active cancelled
          (some c)
          (reraised case_status_code (after_cancel settings client payload c step outcome n).0)
  unfolding abandon_step conclude_cancelling
  after_cancel-Answered payload c step (err exc) n a = inr (a, refl)
  after_cancel-Answered payload c step (ok answer) n a = (a, refl)

  after_complete-Answered :
      (c : RecoveryCase) (step : SagaStep R) (outcome : Result String R) (n : Node R W)
      → is_in_progress c.status ≡ true
      → Answered is_in_progress completed
          (some c)
          (reraised case_status_code (after_complete settings client c step outcome n).0)
  unfolding abandon_step conclude_completing
  after_complete-Answered c step (err exc) n a = inr (a, refl)
  after_complete-Answered c step (ok answer) n a = (a, refl)

  module _ (id : ℕ) (n : Node R W) (v : violates_indexes n.session.working.tables.cases ≡ false)
      (c : RecoveryCase) (found : find case_key id n.session.working.tables.cases ≡ some c) where
    cancel_found-Answered :
        (payload : RecoveryCaseCancelRequest) (st : RecoveryCaseStatus)
        → c.status ≡ st
        → Answered is_active cancelled
            (some c)
            (reraised case_status_code (cancel_recovery_case settings client id payload n).0)
    unfolding cancel_recovery_case start_saga_step
    cancel_found-Answered payload cancelled e = rw (found, e) (inl (refl, refl))
    cancel_found-Answered payload completed e = rw (found, e) (inl (refl, refl))
    cancel_found-Answered payload open_case e =
        rw (found, e, v)
          (after_cancel-Answered payload (record c { status = open_case })
            (step_of _ _ cancel_step_name _ _) _ _ refl)
    cancel_found-Answered payload in_progress e =
        rw (found, e, v)
          (after_cancel-Answered payload (record c { status = in_progress })
            (step_of _ _ cancel_step_name _ _) _ _ refl)

    complete_found-Answered :
        (payload : RecoveryCaseCompleteRequest) (st : RecoveryCaseStatus)
        → c.status ≡ st
        → Answered is_in_progress completed
            (some c)
            (reraised case_status_code (complete_recovery_case settings client id payload n).0)
    unfolding complete_recovery_case start_saga_step
    complete_found-Answered payload cancelled e = rw (found, e) (inl (refl, refl))
    complete_found-Answered payload completed e = rw (found, e) (inl (refl, refl))
    complete_found-Answered payload open_case e = rw (found, e) (inl (refl, refl))
    complete_found-Answered payload in_progress e =
        rw (found, e, v)
          (after_complete-Answered (record c { status = in_progress })
            (step_of _ _ complete_step_name _ _) _ _ refl)

  module _ (id : ℕ) (n : Node R W)
      (v : violates_indexes n.session.working.tables.cases ≡ false) where
    cancel_recovery_case-Answered :
        (payload : RecoveryCaseCancelRequest)
        → Answered is_active cancelled
            (find case_key id n.session.working.tables.cases)
            (reraised case_status_code (cancel_recovery_case settings client id payload n).0)
    unfolding cancel_recovery_case
    cancel_recovery_case-Answered payload =
        elim (Option-cases (find case_key id n.session.working.tables.cases)) [
          | inl absent ↦ rw absent refl
          | inr (c, found) ↦
              subst
                (λ o.
                  Answered is_active cancelled o (
                    reraised case_status_code
                      (cancel_recovery_case settings client id payload n).0))
                (sym found) (cancel_found-Answered id n v c found payload c.status refl)
        ]

    complete_recovery_case-Answered :
        (payload : RecoveryCaseCompleteRequest)
        → Answered is_in_progress completed
            (find case_key id n.session.working.tables.cases)
            (reraised case_status_code (complete_recovery_case settings client id payload n).0)
    unfolding complete_recovery_case
    complete_recovery_case-Answered payload =
        elim (Option-cases (find case_key id n.session.working.tables.cases)) [
          | inl absent ↦ rw absent refl
          | inr (c, found) ↦
              subst
                (λ o. Answered is_in_progress completed o (
                  reraised case_status_code
                    (complete_recovery_case settings client id payload n).0))
                (sym found) (complete_found-Answered id n v c found payload c.status refl)
        ]

    -- If the cases respect the unique indexes, and the call of item-service returns a response that
    -- validates or raises an ItemServiceIntegrationError, ending a case answers 404 without such a case, and 400
    -- if the case cannot end so: to cancel one it must be OPEN or IN_PROGRESS, to complete one
    -- IN_PROGRESS. Else it returns the case CANCELLED or COMPLETED, or answers 502. With such a call it
    -- never answers with the 500 of an exception that it does not catch.
    pub endings-Answered :
        (cancelling : RecoveryCaseCancelRequest) (completing : RecoveryCaseCompleteRequest)
        → Answered is_active cancelled
            (find case_key id n.session.working.tables.cases)
            (cancel_recovery_case_endpoint settings client id cancelling n).0
          × Answered is_in_progress completed
              (find case_key id n.session.working.tables.cases)
              (complete_recovery_case_endpoint settings client id completing n).0
    unfolding cancel_recovery_case_endpoint complete_recovery_case_endpoint
    endings-Answered cancelling completing =
        (cancel_recovery_case-Answered cancelling, complete_recovery_case-Answered completing)
