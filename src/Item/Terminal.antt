-- ===== src/Item/Terminal.antt =====
-- The statuses that no operation leaves.
use trabalho_devops.Prelude.{ℕ, String, ◌≡◌, ◌⊎◌, inl, inr, Option, arith}
use trabalho_devops.Exec.{err}
use trabalho_devops.Store.{Session}
use trabalho_devops.Messaging.{Settings}
use trabalho_devops.Item.Models.{ItemStatus, cancelled, closed, Item, ItemDb, invalid_transition}
use trabalho_devops.Item.Transitions.{validate_transition}
use trabalho_devops.Item.Service.{apply_status_transition}

module _ (settings : Settings) where
  -- A transition of a CANCELLED or CLOSED item is refused, whatever its target and its mode, one
  -- that no caller uses included: InvalidItemTransitionError is raised, and neither a row nor an
  -- identifier nor a time is spent.
  pub apply_status_transition_terminal :
      (item : Item) (target : ItemStatus) (reason : String) (actor : Option ℕ) (mode : String)
      (s : Session ItemDb)
      → (item.status ≡ cancelled) ⊎ (item.status ≡ closed)
      → apply_status_transition settings item target reason actor mode s
        ≡ (err invalid_transition, s)
  unfolding apply_status_transition validate_transition
  apply_status_transition_terminal item target reason actor mode s (inl h) = ground arith
  apply_status_transition_terminal item target reason actor mode s (inr h) = ground arith
