-- ===== src/Recovery/Preparing.antt =====
-- `prepare_case` keeps the unique indexes respected: what it stores conflicts with no other case.
use trabalho_devops.Prelude.{
  ◌+◌, ◌≡◌, refl, inl, inr, true, none, some, arith, Option-cases, Bool-cases, ◌==◌,
}
use mathlib.Core.Path.{subst}
use trabalho_devops.Exec.{Result, ok, err}
use trabalho_devops.Store.{Session}
use trabalho_devops.Table.{find, save}
use trabalho_devops.Table.Laws.{find-save, find-insert}
use trabalho_devops.Messaging.{EventEnvelope}
use trabalho_devops.Recovery.Models.{
  RecoveryCase, case_key, open_case, is_active, MatchAcceptedPayload, RecoveryDb, Error,
}
use trabalho_devops.Recovery.Records.{find_match, find_active}
use trabalho_devops.Recovery.Service.{prepare_case}
use trabalho_devops.Recovery.Indexes.{clear, active-clear, free-clear, find_active-find}
use trabalho_devops.Recovery.Invariant.{IsSound, next-IsSound, insert-IsOrderly, Later-IsOrderly}
use trabalho_devops.Recovery.Sound.{saved-IsSound, clear_here}

module _ {R : Type 0} where
  -- The case that `prepare_case` returns is stored, and is open.
  pub record IsPrepared (c : RecoveryCase) (s : Session (RecoveryDb R)) : Type 0 where
    pub here : find case_key c.id s.working.tables.cases ≡ some c
    pub status : c.status ≡ open_case
    pub sound : IsSound s

  -- After a part that returns a case: it is prepared; after one that raises, the session is sound.
  abbrev pub Prepared : Result Error RecoveryCase × Session (RecoveryDb R) → Type 0
  Prepared (ok c, s) = IsPrepared c s
  Prepared (err e, s) = IsSound s

  module _ (envelope : EventEnvelope MatchAcceptedPayload) (s : Session (RecoveryDb R))
      (v : IsSound s) where
    pub prepare_case-idle :
        find_match envelope.payload.id s.working.tables.cases ≡ none
        → find_active envelope.payload.found_item_id s.working.tables.cases ≡ none
        → Prepared (prepare_case envelope none s)
    unfolding prepare_case
    prepare_case-idle absent idle =
        let c : RecoveryCase = record {
          id = s.env.uuids s.env.drawn;
          match_id = envelope.payload.id;
          lost_item_id = envelope.payload.lost_item_id;
          found_item_id = envelope.payload.found_item_id;
          status = open_case;
          opened_by_user_id = envelope.payload.decided_by_user_id;
          cancellation_reason = none;
          completed_at = none;
          created_at = s.env.times s.env.ticks;
          updated_at = s.env.times (s.env.ticks + 1);
        } in
        rw idle (record {
          here = ground (
            arith,
            find-insert case_key c c.id s.working.tables.cases,
            v.working.fresh s.env.drawn,
          );
          status = refl;
          sound =
              next-IsSound s _ (record { uuids = refl; drawn = omega arith })
                (insert-IsOrderly s.env _ c s.working.tables.cases v.distinct refl refl refl absent
                  idle v.working)
                (inl refl) v;
        })

    pub prepare_case-busy :
        (a : RecoveryCase)
        → find_active envelope.payload.found_item_id s.working.tables.cases ≡ some a
        → Prepared (prepare_case envelope none s)
    unfolding prepare_case
    prepare_case-busy a busy = rw busy (
        next-IsSound s _ (record { uuids = refl; drawn = omega arith })
          (Later-IsOrderly s.env _ s.working.tables.cases
            (record { uuids = refl; drawn = omega arith }) v.working)
          (inl refl) v)

    -- The failed case is opened again if no other case of its item is active.
    pub prepare_case-again :
        (c : RecoveryCase)
        → find case_key c.id s.working.tables.cases ≡ some c
        → Prepared (prepare_case envelope (some c) s)
    unfolding prepare_case
    prepare_case-again c here =
        let again : RecoveryCase = record c {
          status = open_case;
          cancellation_reason = none;
          updated_at = s.env.times s.env.ticks;
        } in
        let kept = clear_here c s here v in
        let saved = λ (free : clear again s.working.tables.cases ≡ true).
          saved-IsSound c s here v again
            (record s {
              working = record s.working {
                tables = record s.working.tables {
                  cases = save case_key again s.working.tables.cases;
                };
              };
              env = record s.env { ticks = s.env.ticks + 1 };
            })
            free refl (inl refl) (record { uuids = refl; drawn = omega arith }) in
        elim (Option-cases (find_active c.found_item_id s.working.tables.cases)) [
          | inl idle ↦ rw idle (record {
            here = ground (arith, find-save case_key again c.id s.working.tables.cases);
            status = refl;
            sound = saved (free-clear c again refl refl refl s.working.tables.cases idle kept);
          })
          | inr (a, busy) ↦
              let stored =
                find_active-find c.found_item_id s.working.tables.cases a v.working.unique busy in
              elim (Bool-cases (a.id == c.id)) [
                | inl same ↦
                    let one : a ≡ c = ground (arith, here, stored.0) in
                    rw (busy, same)
                      (record {
                        here = ground (arith, find-save case_key again c.id s.working.tables.cases);
                        status = refl;
                        sound = saved (
                            active-clear c again refl refl refl s.working.tables.cases
                              (subst (λ x. is_active x.status ≡ true) one stored.1) kept);
                      })
                | inr other ↦
                    rw (busy, other)
                      (next-IsSound s _ (record { uuids = refl; drawn = omega arith })
                        (Later-IsOrderly s.env _ s.working.tables.cases
                          (record { uuids = refl; drawn = omega arith }) v.working)
                        (inl refl) v)
              ]
        ]
