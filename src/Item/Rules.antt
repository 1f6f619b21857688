-- ===== src/Item/Rules.antt =====
-- The diagram that `validate_transition` enforces, as a relation.
use trabalho_devops.Prelude.{String, ◌≡◌, refl, ◌↔◌, arith}
use trabalho_devops.Exec.{ok}
use trabalho_devops.Item.Models.{
  ItemStatus, available, matched, in_recovery, recovered, cancelled, closed,
}
use trabalho_devops.Item.Transitions.{validate_transition}

pub data Mode : Type 0 where
  by_user by_open by_cancel by_complete : Mode

abbrev pub mode_name : Mode → String
mode_name by_user = "public"
mode_name by_open = "internal_open"
mode_name by_cancel = "internal_cancel"
mode_name by_complete = "internal_complete"

-- Where an item may be matched or withdrawn: it is not in anybody's hands.
pub data IsIdle : ItemStatus → Type 0 where
  idle_available : IsIdle available
  idle_matched : IsIdle matched

pub data Allowed : Mode → ItemStatus → ItemStatus → Type 0 where
  match_item : Allowed by_user available matched
  unmatch_item : Allowed by_user matched available
  cancel_item : {s : ItemStatus} → IsIdle s → Allowed by_user s cancelled
  close_item : {s : ItemStatus} → IsIdle s → Allowed by_user s closed
  close_recovered : Allowed by_user recovered closed
  open_case : {s : ItemStatus} → IsIdle s → Allowed by_open s in_recovery
  cancel_case : {s : ItemStatus} → IsIdle s → Allowed by_cancel in_recovery s
  complete_case : Allowed by_complete in_recovery recovered

ruleset diagram = (
  match_item, unmatch_item, cancel_item, close_item, close_recovered, open_case, cancel_case,
  complete_case, idle_available, idle_matched,
)

pub validate_transition-Allowed :
    (m : Mode) (current target : ItemStatus)
    → validate_transition current target (mode_name m) ≡ ok tt
    → Allowed m current target
unfolding validate_transition
validate_transition-Allowed by_user current target h = grind (arith, diagram)
validate_transition-Allowed by_open current target h = grind (arith, diagram)
validate_transition-Allowed by_cancel current target h = grind (arith, diagram)
validate_transition-Allowed by_complete current target h = grind (arith, diagram)

pub Allowed-validate_transition :
    (m : Mode) (current target : ItemStatus)
    → Allowed m current target
    → validate_transition current target (mode_name m) ≡ ok tt
unfolding validate_transition
Allowed-validate_transition m current target match_item = refl
Allowed-validate_transition m current target unmatch_item = refl
Allowed-validate_transition m current target (cancel_item idle_available) = refl
Allowed-validate_transition m current target (cancel_item idle_matched) = refl
Allowed-validate_transition m current target (close_item idle_available) = refl
Allowed-validate_transition m current target (close_item idle_matched) = refl
Allowed-validate_transition m current target close_recovered = refl
Allowed-validate_transition m current target (open_case idle_available) = refl
Allowed-validate_transition m current target (open_case idle_matched) = refl
Allowed-validate_transition m current target (cancel_case idle_available) = refl
Allowed-validate_transition m current target (cancel_case idle_matched) = refl
Allowed-validate_transition m current target complete_case = refl

-- `validate_transition` accepts a change of status in one of its four modes exactly when the
-- diagram has it: users move an item between AVAILABLE and MATCHED, and cancel or close it from
-- either, or close it once RECOVERED; a recovery is opened from either, cancelled back to either,
-- and completed to RECOVERED.
pub validate_transition_iff :
    (m : Mode) (current target : ItemStatus)
    → (validate_transition current target (mode_name m) ≡ ok tt) ↔ Allowed m current target
validate_transition_iff m current target =
    (validate_transition-Allowed m current target, Allowed-validate_transition m current target)
