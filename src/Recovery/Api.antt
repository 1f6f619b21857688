-- ===== src/Recovery/Api.antt =====
-- The endpoints of app/api/recovery_cases.py that end a case. `RecoveryCaseResponse` has the fields
-- of a case.
use trabalho_devops.Prelude.{ℕ}
use trabalho_devops.Exec.{Exec, reraise}
use trabalho_devops.Messaging.{Settings}
use trabalho_devops.Recovery.Models.{
  RecoveryCase, RecoveryCaseCancelRequest, RecoveryCaseCompleteRequest, Node, ItemRecoveryClient,
  Error, invalid_transition, conflict, not_found, validation_error, integrity_error, integration,
}
use trabalho_devops.Recovery.Decide.{cancel_recovery_case, complete_recovery_case}

-- The `except` clauses of both; the framework answers any other exception with 500.
abbrev pub case_status_code : Error → ℕ
case_status_code not_found = 404
case_status_code conflict = 400
case_status_code invalid_transition = 400
case_status_code (integration text) = 502
case_status_code validation_error = 500
case_status_code integrity_error = 500

module _ {R W : Type 0} (settings : Settings) (client : ItemRecoveryClient R W) where
  unfoldable pub cancel_recovery_case_endpoint :
      ℕ → RecoveryCaseCancelRequest → Exec ℕ (Node R W) RecoveryCase
  cancel_recovery_case_endpoint case_id payload =
      reraise case_status_code (cancel_recovery_case settings client case_id payload)

  unfoldable pub complete_recovery_case_endpoint :
      ℕ → RecoveryCaseCompleteRequest → Exec ℕ (Node R W) RecoveryCase
  complete_recovery_case_endpoint case_id payload =
      reraise case_status_code (complete_recovery_case settings client case_id payload)
