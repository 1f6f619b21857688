-- ===== src/Recovery/Ending.antt =====
-- `cancel_recovery_case` and `complete_recovery_case` keep the unique indexes respected.
use trabalho_devops.Prelude.{ℕ, ◌≡◌, refl, sym, inl, inr, some, String, Option-cases}
use mathlib.Core.Path.{subst}
use trabalho_devops.Exec.{Result, ok, err}
use trabalho_devops.Table.{find}
use trabalho_devops.Table.Laws.{key-find}
use trabalho_devops.Messaging.{Settings}
use trabalho_devops.Recovery.Models.{
  RecoveryCase, RecoveryCaseStatus, case_key, cancelled, open_case, in_progress, completed,
  SagaStep, cancel_request, complete_request, RecoveryCaseCancelRequest,
  RecoveryCaseCompleteRequest, Node, ItemRecoveryClient,
}
use trabalho_devops.Recovery.Records.{cancel_step_name, complete_step_name, start_saga_step}
use trabalho_devops.Recovery.Calling.{cancelling, completing, step_of}
use trabalho_devops.Recovery.Decide.{
  after_cancel, after_complete, cancel_recovery_case, complete_recovery_case,
}
use trabalho_devops.Recovery.Invariant.{IsSound}
use trabalho_devops.Recovery.Sound.{
  start_saga_step-IsSound, abandon_step-IsSound, conclude_cancelling-IsSound,
  conclude_completing-IsSound,
}

module _ {R W : Type 0} (settings : Settings) (client : ItemRecoveryClient R W) where
  module _ (c : RecoveryCase) (n : Node R W)
      (here : find case_key c.id n.session.working.tables.cases ≡ some c)
      (v : IsSound n.session) where
    after_cancel-IsSound :
        (payload : RecoveryCaseCancelRequest) (step : SagaStep R) (outcome : Result String R)
        → IsSound (after_cancel settings client payload c step outcome n).1.session
    after_cancel-IsSound payload step (err exc) = abandon_step-IsSound c n.session here v step exc
    after_cancel-IsSound payload step (ok answer) =
        conclude_cancelling-IsSound c n.session here v step settings payload answer

    after_complete-IsSound :
        (step : SagaStep R) (outcome : Result String R)
        → IsSound (after_complete settings client c step outcome n).1.session
    after_complete-IsSound step (err exc) = abandon_step-IsSound c n.session here v step exc
    after_complete-IsSound step (ok answer) =
        conclude_completing-IsSound c n.session here v step settings answer

  -- Either operation on a case that it refuses leaves the session alone; on one that it takes, the
  -- saga step is started first.
  module _ (id : ℕ) (n : Node R W) (v : IsSound n.session) (c : RecoveryCase)
      (found : find case_key id n.session.working.tables.cases ≡ some c) where
    here : find case_key c.id n.session.working.tables.cases ≡ some c
    here =
        subst (λ k. find case_key k n.session.working.tables.cases ≡ some c)
          (sym (key-find case_key id n.session.working.tables.cases c found)) found

    cancel_found-IsSound :
        (payload : RecoveryCaseCancelRequest) (st : RecoveryCaseStatus)
        → c.status ≡ st
        → IsSound (cancel_recovery_case settings client id payload n).1.session
    unfolding cancel_recovery_case start_saga_step
    cancel_found-IsSound payload cancelled e = rw (found, e) v
    cancel_found-IsSound payload completed e = rw (found, e) v
    cancel_found-IsSound payload open_case e =
        rw (found, e, v.working.exclusive)
          (after_cancel-IsSound c _ here
            (start_saga_step-IsSound c.id _ (cancel_request (cancelling c payload)) n.session v)
            payload (step_of n.session c cancel_step_name (cancel_request (cancelling c payload)))
            _)
    cancel_found-IsSound payload in_progress e =
        rw (found, e, v.working.exclusive)
          (after_cancel-IsSound c _ here
            (start_saga_step-IsSound c.id _ (cancel_request (cancelling c payload)) n.session v)
            payload (step_of n.session c cancel_step_name (cancel_request (cancelling c payload)))
            _)

    complete_found-IsSound :
        (payload : RecoveryCaseCompleteRequest) (st : RecoveryCaseStatus)
        → c.status ≡ st
        → IsSound (complete_recovery_case settings client id payload n).1.session
    unfolding complete_recovery_case start_saga_step
    complete_found-IsSound payload cancelled e = rw (found, e) v
    complete_found-IsSound payload completed e = rw (found, e) v
    complete_found-IsSound payload open_case e = rw (found, e) v
    complete_found-IsSound payload in_progress e =
        rw (found, e, v.working.exclusive)
          (after_complete-IsSound c _ here
            (start_saga_step-IsSound c.id _ (complete_request (completing c payload)) n.session v)
            (step_of n.session c complete_step_name (complete_request (completing c payload))) _)

  pub cancel_recovery_case-IsSound :
      (id : ℕ) (payload : RecoveryCaseCancelRequest) (n : Node R W)
      → IsSound n.session
      → IsSound (cancel_recovery_case settings client id payload n).1.session
  unfolding cancel_recovery_case
  cancel_recovery_case-IsSound id payload n v =
      elim (Option-cases (find case_key id n.session.working.tables.cases)) [
        | inl absent ↦ rw absent v
        | inr (c, found) ↦ cancel_found-IsSound id n v c found payload c.status refl
      ]

  pub complete_recovery_case-IsSound :
      (id : ℕ) (payload : RecoveryCaseCompleteRequest) (n : Node R W)
      → IsSound n.session
      → IsSound (complete_recovery_case settings client id payload n).1.session
  unfolding complete_recovery_case
  complete_recovery_case-IsSound id payload n v =
      elim (Option-cases (find case_key id n.session.working.tables.cases)) [
        | inl absent ↦ rw absent v
        | inr (c, found) ↦ complete_found-IsSound id n v c found payload c.status refl
      ]
