-- ===== src/Recovery/Sound.antt =====
-- The parts of the operations of recovery-case-service that write cases keep the unique indexes
-- respected.
use trabalho_devops.Prelude.{ℕ, ◌≡◌, refl, sym, ◌⊎◌, inl, inr, true, some, arith, String, text_or}
use Prim.Native.String.{◌++◌}
use mathlib.Core.Path.{subst}
use trabalho_devops.Store.{Session}
use trabalho_devops.Table.{find, save}
use trabalho_devops.Messaging.{Settings, EventEnvelope}
use trabalho_devops.Recovery.Models.{
  RecoveryCase, case_key, cancelled, in_progress, completed, is_active, SagaStep, RequestPayload,
  MatchAcceptedPayload, RecoveryDb, RecoveryCaseCancelRequest,
}
use trabalho_devops.Recovery.Records.{open_failure_prefix, start_saga_step}
use trabalho_devops.Recovery.Service.{abandon_opening, conclude_opening}
use trabalho_devops.Recovery.Decide.{abandon_step, conclude_cancelling, conclude_completing}
use trabalho_devops.Recovery.Indexes.{
  clear, save-violates, stored-clear, inactive-clear, active-clear,
}
use trabalho_devops.Store.Later.{Later}
use trabalho_devops.Recovery.Invariant.{
  IsOrderly, IsSound, next-IsSound, save-IsOrderly, Later-IsOrderly,
}

module _ {R : Type 0} where
  -- A saga step that is started writes no case.
  pub start_saga_step-IsSound :
      (id : ℕ) (name : String) (request : RequestPayload) (s : Session (RecoveryDb R))
      → IsSound s
      → IsSound (start_saga_step id name request s).1
  unfolding start_saga_step
  start_saga_step-IsSound id name request s v =
      next-IsSound s _ (record { uuids = refl; drawn = omega arith })
        (Later-IsOrderly s.env _ s.working.tables.cases
          (record { uuids = refl; drawn = omega arith }) v.working)
        (inl refl) v

  module _ (c : RecoveryCase) (s : Session (RecoveryDb R))
      (here : find case_key c.id s.working.tables.cases ≡ some c) (v : IsSound s) where
    -- The session after the case has been saved as `c'`.
    pub saved-IsSound :
        (c' : RecoveryCase) (s' : Session (RecoveryDb R))
        → clear c' s.working.tables.cases ≡ true
        → s'.working.tables.cases ≡ save case_key c' s.working.tables.cases
        → (s'.committed.tables.cases ≡ s.committed.tables.cases)
          ⊎ (s'.committed.tables.cases ≡ s'.working.tables.cases)
        → Later s.env s'.env
        → IsSound s'
    saved-IsSound c' s' free w o l =
        next-IsSound s s' l
          (subst (IsOrderly s'.env) (sym w)
            (save-IsOrderly s.env s'.env c' s.working.tables.cases l free v.working))
          o v

    pub clear_here : clear c s.working.tables.cases ≡ true
    clear_here = stored-clear c s.working.tables.cases v.working.exclusive here

    pub abandon_opening-IsSound :
        (step : SagaStep R) (exc : String) → IsSound (abandon_opening c step exc s).1
    unfolding abandon_opening
    abandon_opening-IsSound step exc =
        let closed : RecoveryCase = record c {
          status = cancelled;
          cancellation_reason = some (open_failure_prefix ++ " " ++ exc);
          updated_at = s.env.times s.env.ticks;
        } in
        saved-IsSound closed (abandon_opening c step exc s).1
          (inactive-clear c closed refl refl refl s.working.tables.cases refl clear_here) refl
          (inr refl) (record { uuids = refl; drawn = omega arith })

    pub conclude_opening-IsSound :
        (step : SagaStep R) (settings : Settings) (envelope : EventEnvelope MatchAcceptedPayload)
        (answer : R)
        → is_active c.status ≡ true
        → IsSound (conclude_opening settings envelope c step answer s).1
    unfolding conclude_opening
    conclude_opening-IsSound step settings envelope answer active =
        let opened : RecoveryCase = record c {
          status = in_progress;
          updated_at = s.env.times s.env.ticks;
        } in
        let free = active-clear c opened refl refl refl s.working.tables.cases active clear_here in
        let allowed =
          save-violates opened s.working.tables.cases v.working.unique free v.working.exclusive in
        rw allowed (
          saved-IsSound opened _ free refl (inr refl)
            (record { uuids = refl; drawn = omega arith }))

    pub abandon_step-IsSound :
        (step : SagaStep R) (exc : String) → IsSound (abandon_step step exc s).1
    unfolding abandon_step
    abandon_step-IsSound step exc =
        next-IsSound s _ (record { uuids = refl; drawn = omega arith }) v.working (inr refl) v

    pub conclude_cancelling-IsSound :
        (step : SagaStep R) (settings : Settings) (payload : RecoveryCaseCancelRequest) (answer : R)
        → IsSound (conclude_cancelling settings payload c step answer s).1
    unfolding conclude_cancelling
    conclude_cancelling-IsSound step settings payload answer =
        let ended : RecoveryCase = record c {
          status = cancelled;
          cancellation_reason = some (text_or payload.reason "Recovery case cancelled");
          updated_at = s.env.times s.env.ticks;
        } in
        saved-IsSound ended _
          (inactive-clear c ended refl refl refl s.working.tables.cases refl clear_here) refl
          (inr refl) (record { uuids = refl; drawn = omega arith })

    pub conclude_completing-IsSound :
        (step : SagaStep R) (settings : Settings) (answer : R)
        → IsSound (conclude_completing settings c step answer s).1
    unfolding conclude_completing
    conclude_completing-IsSound step settings answer =
        let ended : RecoveryCase = record c {
          status = completed;
          completed_at = some (s.env.times s.env.ticks);
          updated_at = s.env.times s.env.ticks;
        } in
        saved-IsSound ended _
          (inactive-clear c ended refl refl refl s.working.tables.cases refl clear_here) refl
          (inr refl) (record { uuids = refl; drawn = omega arith })
