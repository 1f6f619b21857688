-- ===== src/Item/Transitions.antt =====
-- The status rules of app/services/item_service.py: TERMINAL_STATUSES, PUBLIC_TRANSITIONS and
-- `validate_transition`.
use trabalho_devops.Prelude.{
  String, Bool, true, false, ◌||◌, not, List, [], ◌∷◌, str_eq, if◌then◌else◌,
}
use trabalho_devops.Exec.{Result, ok, err}
use trabalho_devops.Item.Models.{
  ItemStatus, available, matched, in_recovery, recovered, cancelled, closed, status_eq, Error,
  invalid_transition,
}

-- `status in {…}`
abbrev pub status_in : ItemStatus → List ItemStatus → Bool
status_in s [] = false
status_in s (t ∷ ts) = status_eq s t || status_in s ts

abbrev pub terminal_statuses : List ItemStatus
terminal_statuses = cancelled ∷ closed ∷ []

abbrev pub public_transitions : ItemStatus → List ItemStatus
public_transitions available = matched ∷ cancelled ∷ closed ∷ []
public_transitions matched = available ∷ cancelled ∷ closed ∷ []
public_transitions in_recovery = []
public_transitions recovered = closed ∷ []
public_transitions cancelled = []
public_transitions closed = []

-- `if test: raise InvalidItemTransitionError(…)`, then the rest
abbrev refuse_if : Bool → Result Error (Unit {0}) → Result Error (Unit {0})
refuse_if true rest = err invalid_transition
refuse_if false rest = rest

unfoldable pub validate_transition : ItemStatus → ItemStatus → String → Result Error (Unit {0})
validate_transition current_status target_status transition_mode =
    refuse_if (status_in current_status terminal_statuses) (
      if str_eq transition_mode "public"
      then refuse_if (not (status_in target_status (public_transitions current_status))) (ok tt)
      else if str_eq transition_mode "internal_open"
      then refuse_if (not (status_in current_status (available ∷ matched ∷ [])))
          (refuse_if (not (status_eq target_status in_recovery)) (ok tt))
      else if str_eq transition_mode "internal_cancel"
      then refuse_if (not (status_eq current_status in_recovery))
          (refuse_if (not (status_in target_status (available ∷ matched ∷ []))) (ok tt))
      else if str_eq transition_mode "internal_complete"
      then refuse_if (not (status_eq current_status in_recovery))
          (refuse_if (not (status_eq target_status recovered)) (ok tt))
      else err invalid_transition)
