-- ===== src/Recovery/Invariant.antt =====
-- What holds of the sessions of recovery-case-service: ids are unique, and the unique indexes are
-- respected, so that a match has one case and a found item one active case at most.
use trabalho_devops.Prelude.{ℕ, true, ◌+◌, ◌≤◌, ◌≡◌, ◌⊎◌, inl, inr, false, none, List, arith}
use trabalho_devops.Store.{Env, Session}
use trabalho_devops.Store.Later.{Later}
use trabalho_devops.Table.{find, save, insert, IsUnique}
use trabalho_devops.Table.Laws.{find-save, find-insert, save-IsUnique, insert-IsUnique}
use trabalho_devops.Recovery.Models.{RecoveryCase, case_key, violates_indexes, RecoveryDb}
use trabalho_devops.Recovery.Records.{find_match, find_active}
use trabalho_devops.Recovery.Indexes.{clear, save-violates, insert-violates}

-- The cases of a table, with the identifiers still to be drawn.
pub record IsOrderly (env : Env) (cases : List RecoveryCase) : Type 0 where
  pub unique : IsUnique case_key cases
  pub exclusive : violates_indexes cases ≡ false
  pub fresh : (n : ℕ) → env.drawn ≤ n → find case_key (env.uuids n) cases ≡ none

pub record IsSound {R : Type 0} (s : Session (RecoveryDb R)) : Type 0 where
  pub distinct : (i j : ℕ) → s.env.uuids i ≡ s.env.uuids j → i ≡ j
  pub committed : IsOrderly s.env s.committed.tables.cases
  pub working : IsOrderly s.env s.working.tables.cases

pub Later-IsOrderly :
    (env env' : Env) (cases : List RecoveryCase)
    → Later env env'
    → IsOrderly env cases
    → IsOrderly env' cases
Later-IsOrderly env env' cases l o = record {
  unique = o.unique;
  exclusive = o.exclusive;
  fresh = λ n h. rw l.uuids (o.fresh n (omega (arith, l.drawn)));
}

pub save-IsOrderly :
    (env env' : Env) (c : RecoveryCase) (cases : List RecoveryCase)
    → Later env env'
    → clear c cases ≡ true
    → IsOrderly env cases
    → IsOrderly env' (save case_key c cases)
save-IsOrderly env env' c cases l free o = record {
  unique = save-IsUnique case_key c cases o.unique;
  exclusive = save-violates c cases o.unique free o.exclusive;
  fresh = λ n h. rw l.uuids (
      ground (arith, find-save case_key c (env.uuids n) cases, o.fresh n (omega (arith, l.drawn))));
}

-- A new case under the identifier that was drawn.
pub insert-IsOrderly :
    (env env' : Env) (c : RecoveryCase) (cases : List RecoveryCase)
    → ((i j : ℕ) → env.uuids i ≡ env.uuids j → i ≡ j)
    → env'.uuids ≡ env.uuids
    → env'.drawn ≡ env.drawn + 1
    → c.id ≡ env.uuids env.drawn
    → find_match c.match_id cases ≡ none
    → find_active c.found_item_id cases ≡ none
    → IsOrderly env cases
    → IsOrderly env' (insert c cases)
insert-IsOrderly env env' c cases distinct same next id m f o = record {
  unique = insert-IsUnique case_key c cases (rw id (o.fresh env.drawn (omega arith))) o.unique;
  exclusive = insert-violates c cases m f o.exclusive;
  fresh = λ n h. rw same (
      ground (
        arith,
        find-insert case_key c (env.uuids n) cases,
        o.fresh n (omega arith),
        distinct env.drawn n,
      ));
}

-- The next session, by what became of the two tables of cases.
pub next-IsSound :
    {R : Type 0} (s s' : Session (RecoveryDb R))
    → Later s.env s'.env
    → IsOrderly s'.env s'.working.tables.cases
    → (s'.committed.tables.cases ≡ s.committed.tables.cases)
      ⊎ (s'.committed.tables.cases ≡ s'.working.tables.cases)
    → IsSound s
    → IsSound s'
next-IsSound s s' l w (inl old) v = record {
  distinct = rw l.uuids v.distinct;
  committed = rw old (Later-IsOrderly s.env s'.env s.committed.tables.cases l v.committed);
  working = w;
}
next-IsSound s s' l w (inr new) v = record {
  distinct = rw l.uuids v.distinct;
  committed = rw new w;
  working = w;
}
