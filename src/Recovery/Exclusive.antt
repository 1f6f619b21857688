-- ===== src/Recovery/Exclusive.antt =====
-- The requests that change the database of recovery-case-service, each run as
-- app/api/recovery_cases.py and app/messaging/consumer.py run it: in a session of its own, which is
-- closed at the end.
use trabalho_devops.Prelude.{
  ◌≡◌, refl, sym, inl, inr, Bool, true, false, none, some, arith, Option, String, Option-cases,
}
use mathlib.Core.Path.{subst}
use trabalho_devops.Exec.{Result, ok, err, continue}
use trabalho_devops.Store.{Session}
use trabalho_devops.Messaging.{Settings, EventEnvelope}
use trabalho_devops.Recovery.Models.{
  RecoveryCase, SagaStep, MatchAcceptedPayload, RecoveryDb, Error, Node, ItemRecoveryClient,
}
use trabalho_devops.Recovery.Records.{find_match, find_active, start_saga_step}
use trabalho_devops.Recovery.Service.{prepare_case}
use trabalho_devops.Recovery.Consume.{
  after_call, open_at_item_service, keep_case, open_new_case, choose, consume_typed,
}
use trabalho_devops.Recovery.Calling.{opening_step, opening_node, open_at_item_service_lem}
use trabalho_devops.Recovery.Indexes.{find_match-find}
use trabalho_devops.Recovery.Invariant.{IsSound, next-IsSound}
use trabalho_devops.Recovery.Sound.{
  start_saga_step-IsSound, abandon_opening-IsSound, conclude_opening-IsSound,
}
use trabalho_devops.Recovery.Preparing.{
  IsPrepared, Prepared, prepare_case-idle, prepare_case-busy, prepare_case-again,
}

module _ {R W : Type 0} (settings : Settings) (client : ItemRecoveryClient R W) where
  module _ (envelope : EventEnvelope MatchAcceptedPayload) where
    after_call-IsSound :
        (c : RecoveryCase) (step : SagaStep R) (outcome : Result String R) (n : Node R W)
        → IsPrepared c n.session
        → IsSound (after_call settings client envelope c step outcome n).1.session
    after_call-IsSound c step (err exc) n p =
        abandon_opening-IsSound c n.session p.here p.sound step exc
    after_call-IsSound c step (ok answer) n p =
        conclude_opening-IsSound c n.session p.here p.sound step settings envelope answer
          (rw p.status refl)

    open_at_item_service-IsSound :
        (c : RecoveryCase) (n : Node R W)
        → IsPrepared c n.session
        → IsSound (open_at_item_service settings client envelope c n).1.session
    unfolding start_saga_step
    open_at_item_service-IsSound c n p =
        subst (λ x. IsSound x.1.session)
          (sym (open_at_item_service_lem settings client envelope c n p.sound.working.exclusive))
          (after_call-IsSound c (opening_step settings client envelope c n) _
            (opening_node settings client envelope c n)
            record {
              here = p.here;
              status = p.status;
              sound = start_saga_step-IsSound _ _ _ n.session p.sound;
            })

    continue-IsSound :
        (r : Result Error RecoveryCase) (s : Session (RecoveryDb R)) (w : W)
        → Prepared (r, s)
        → IsSound
            (continue r
              (open_at_item_service settings client envelope)
              (record { session = s; remote = w })).1.session
    continue-IsSound (ok c) s w p = open_at_item_service-IsSound c _ p
    continue-IsSound (err e) s w p = p

    keep_case-IsSound :
        (existing : Option RecoveryCase) (n : Node R W)
        → IsSound n.session
        → IsSound (keep_case settings client envelope existing n).1.session
    unfolding keep_case
    keep_case-IsSound none n v =
        next-IsSound n.session _ (record { uuids = refl; drawn = omega arith }) v.working (inr refl)
          v
    keep_case-IsSound (some c) n v =
        next-IsSound n.session _ (record { uuids = refl; drawn = omega arith }) v.working (inr refl)
          v

    prepare_case-Prepared :
        (s : Session (RecoveryDb R)) (existing : Option RecoveryCase)
        → IsSound s
        → find_match envelope.payload.id s.working.tables.cases ≡ existing
        → Prepared (prepare_case envelope existing s)
    prepare_case-Prepared s none v e =
        elim (Option-cases (find_active envelope.payload.found_item_id s.working.tables.cases)) [
          | inl idle ↦ prepare_case-idle envelope s v e idle
          | inr (a, busy) ↦ prepare_case-busy envelope s v a busy
        ]
    prepare_case-Prepared s (some c) v e =
        prepare_case-again envelope s v c
          (find_match-find envelope.payload.id s.working.tables.cases c v.working.unique e).0

    choose-IsSound :
        (seen standing : Bool) (n : Node R W) (existing : Option RecoveryCase)
        → IsSound n.session
        → find_match envelope.payload.id n.session.working.tables.cases ≡ existing
        → IsSound (choose settings client seen standing envelope existing n).1.session
    choose-IsSound true standing n none v e = v
    choose-IsSound true standing n (some c) v e = v
    choose-IsSound false true n existing v e = keep_case-IsSound existing n v
    choose-IsSound false false n existing v e =
        unfold open_new_case in
        (let (r, s) = prepare_case envelope existing n.session in
          continue-IsSound r s n.remote (prepare_case-Prepared n.session existing v e))

    pub consume_typed-IsSound :
        (n : Node R W)
        → IsSound n.session
        → IsSound (consume_typed settings client envelope n).1.session
    unfolding consume_typed
    consume_typed-IsSound n v = choose-IsSound _ _ n _ v refl
