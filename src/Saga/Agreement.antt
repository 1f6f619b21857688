-- ===== src/Saga/Agreement.antt =====
-- What the two ends of a cancellation or a completion agree on: the case in recovery-case-service, and
-- the items in item-service.
use trabalho_devops.Prelude.{ℕ, ◌≡◌, refl, String, Bool, true, false, some, List, [], ◌∷◌, arith}
use mathlib.Core.Path.{subst}
use trabalho_devops.Exec.{Result, ok, err}
use trabalho_devops.Store.{Session, close}
use trabalho_devops.Table.{find, save}
use trabalho_devops.Table.Laws.{find-save, key-find}
use trabalho_devops.Messaging.{Settings}
use trabalho_devops.Item.Models.{ItemStatus, ItemDb, recovered}
use trabalho_devops.Item.Rules.{Mode, by_cancel, by_complete}
use trabalho_devops.Item.Loop.{AllMayMove, AllMoved}
use trabalho_devops.Item.Api.{RecoveryOperationResponse}
use trabalho_devops.Recovery.Models.{
  RecoveryCase, RecoveryCaseStatus, case_key, case_status_eq, is_active, in_progress, cancelled,
  completed, SagaStep, Error, Node, RecoveryDb, RecoveryCaseCancelRequest,
}
use trabalho_devops.Recovery.Decide.{
  abandon_step, conclude_cancelling, conclude_completing, after_cancel, after_complete,
}
use trabalho_devops.Saga.Answers.{Ended}
use trabalho_devops.Saga.Client.{Link, http_client}

abbrev pub items_of : RecoveryCase → List ℕ
items_of c = c.lost_item_id ∷ c.found_item_id ∷ []

abbrev pub is_in_progress : RecoveryCaseStatus → Bool
is_in_progress status = case_status_eq status in_progress

module _ (n : Node RecoveryOperationResponse Link) where
  abbrev pub cases : List RecoveryCase
  cases = n.session.committed.tables.cases

  abbrev pub items : ItemDb
  items = n.remote.items.committed

  -- The node in a session of its own.
  abbrev pub begun : Node RecoveryOperationResponse Link
  begun = record n { session = close n.session }

module _ (id : ℕ) (n : Node RecoveryOperationResponse Link) where
  -- The case `c` is the stored one, in a status from which it may end, and so are its items.
  abbrev pub IsEndable : (RecoveryCaseStatus → Bool) → Mode → ItemStatus → RecoveryCase → Type 0
  IsEndable may m target c =
      (find case_key id (cases n) ≡ some c)
      × (may c.status ≡ true)
      × AllMayMove m target (items_of c) (items n)

  -- The case has ended and its items have been moved, which they could be; or the one or the other
  -- could not be, and neither has changed.
  abbrev pub Concurs :
      (RecoveryCaseStatus → Bool)
      → Mode
      → ItemStatus
      → RecoveryCaseStatus
      → Result Error RecoveryCase × Node RecoveryOperationResponse Link
      → Type 0
  Concurs may m target ended (ok out, n') =
      (c : RecoveryCase) × IsEndable may m target c
      × (out.status ≡ ended)
      × (find case_key id n'.session.committed.tables.cases ≡ some out)
      × AllMoved target (items_of c) (items n) n'.remote.items.committed
  Concurs may m target ended (err e, n') =
      (¬ ((c : RecoveryCase) × IsEndable may m target c))
      × (n'.session.committed.tables.cases ≡ cases n)
      × (n'.remote.items.committed ≡ items n)

  module _ (c : RecoveryCase) (found : find case_key id (cases n) ≡ some c) where
    pub refused :
        (may : RecoveryCaseStatus → Bool) (m : Mode) (target : ItemStatus)
        → may c.status ≡ false
        → ¬ ((c' : RecoveryCase) × IsEndable may m target c')
    refused may m target bad (c', e) =
        let same : c' ≡ c = ground (arith, found, e.0) in
        absurd (ground (arith, bad, subst (λ (x : RecoveryCase). may x.status ≡ true) same e.1))

    stuck :
        (may : RecoveryCaseStatus → Bool) (m : Mode) (target : ItemStatus)
        → ¬ AllMayMove m target (items_of c) (items n)
        → ¬ ((c' : RecoveryCase) × IsEndable may m target c')
    stuck may m target bad (c', e) =
        let same : c' ≡ c = ground (arith, found, e.0) in
        bad (subst (λ (x : RecoveryCase). AllMayMove m target (items_of x) (items n)) same e.2)

    module _ (settings : Settings) (s : Session (RecoveryDb RecoveryOperationResponse))
        (same : s.working.tables.cases ≡ cases n) (step : SagaStep RecoveryOperationResponse) where
      saved :
          (c' : RecoveryCase)
          → c'.id ≡ c.id
          → find case_key id (save case_key c' s.working.tables.cases) ≡ some c'
      saved c' one =
          rw same
            (ground (arith, find-save case_key c' id (cases n), key-find case_key id (cases n) c))

      pub after_cancel-Concurs :
          (payload : RecoveryCaseCancelRequest) (target : ItemStatus)
          (outcome : Result String RecoveryOperationResponse) (link : Link)
          → is_active c.status ≡ true
          → Ended by_cancel target (items_of c) (items n) link.items.committed outcome
          → Concurs is_active by_cancel target cancelled (
              after_cancel settings
                (http_client settings)
                payload
                c
                step
                outcome
                (record { session = s; remote = link }))
      unfolding abandon_step conclude_cancelling
      after_cancel-Concurs payload target (ok answer) link may ended =
          (c, (found, may, ended.0), refl, saved _ refl, ended.1)
      after_cancel-Concurs payload target (err exc) link may ended =
          (stuck is_active by_cancel target ended.0, same, ended.1)

      pub after_complete-Concurs :
          (outcome : Result String RecoveryOperationResponse) (link : Link)
          → is_in_progress c.status ≡ true
          → Ended by_complete recovered (items_of c) (items n) link.items.committed outcome
          → Concurs is_in_progress by_complete recovered completed (
              after_complete settings
                (http_client settings)
                c
                step
                outcome
                (record { session = s; remote = link }))
      unfolding abandon_step conclude_completing
      after_complete-Concurs (ok answer) link may ended =
          (c, (found, may, ended.0), refl, saved _ refl, ended.1)
      after_complete-Concurs (err exc) link may ended =
          (stuck is_in_progress by_complete recovered ended.0, same, ended.1)
