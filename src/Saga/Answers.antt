-- ===== src/Saga/Answers.antt =====
-- How a call of item-service's internal interface ends, when it is answered.
use trabalho_devops.Prelude.{ℕ, ◌≡◌, String, List}
use trabalho_devops.Exec.{Result, ok, err, continue, pure, reraised}
use trabalho_devops.Store.{Session}
use trabalho_devops.Item.Models.{Item, ItemStatus, ItemDb}
use trabalho_devops.Item.Models as Items
use trabalho_devops.Item.Rules.{Mode}
use trabalho_devops.Item.Loop.{AllMayMove, AllMoved}
use trabalho_devops.Item.Recovery.{Settled}
use trabalho_devops.Item.Api.{RecoveryOperationResponse, recovery_status}
use trabalho_devops.Saga.Client.{response_of}

-- item-service has moved all of the items, or refused and moved none.
abbrev pub Ended :
    {A : Type 0} → Mode → ItemStatus → List ℕ → ItemDb → ItemDb → Result String A → Type 0
Ended m target ids d d' (ok _) = AllMayMove m target ids d × AllMoved target ids d d'
Ended m target ids d d' (err _) = (¬ AllMayMove m target ids d) × (d' ≡ d)

pub answered-Ended :
    (m : Mode) (target : ItemStatus) (operation : String) (ids : List ℕ) (d : ItemDb)
    (s : Session ItemDb) (text : String) (r : Result Items.Error (List Item))
    → Settled m target ids d s.committed r
    → let (answer, s') =
        continue {B = RecoveryOperationResponse}
          (reraised recovery_status r)
          (λ items. pure (record { operation = operation; items = items }))
          s in
      Ended {A = RecoveryOperationResponse} m target ids d s'.committed (response_of text answer)
answered-Ended m target operation ids d s text (ok items) h = h
answered-Ended m target operation ids d s text (err e) h = h
