-- ===== src/Store.antt =====
-- What every service's code runs in: a database session with its transaction, the clock and the
-- source of random identifiers.
pub mod Later
pub mod Outcomes
use trabalho_devops.Prelude.{ℕ, ◌+◌}
use trabalho_devops.Exec.{Exec, ok}

-- `uuid.uuid4` and `datetime.now`: the values that the successive calls return.
pub record Env : Type 0 where
  pub uuids : ℕ → ℕ
  pub drawn : ℕ
  pub times : ℕ → ℕ
  pub ticks : ℕ

-- A SQLAlchemy session: `working` is what the session sees, `committed` what the database keeps.
pub record Session (D : Type 0) : Type 0 where
  pub committed : D
  pub working : D
  pub env : Env

module _ {E D : Type 0} where
  abbrev pub uuid4 : Exec E (Session D) ℕ
  uuid4 s =
      (ok (s.env.uuids s.env.drawn), record s { env = record s.env { drawn = s.env.drawn + 1 } })

  abbrev pub utc_now : Exec E (Session D) ℕ
  utc_now s =
      (ok (s.env.times s.env.ticks), record s { env = record s.env { ticks = s.env.ticks + 1 } })

  -- The rows that the session sees.
  abbrev pub query : {A : Type 0} → (D → A) → Exec E (Session D) A
  query f s = (ok (f s.working), s)

  abbrev pub write : (D → D) → Exec E (Session D) (Unit {0})
  write f s = (ok tt, record s { working = f s.working })

  -- `session.commit()`
  abbrev pub commit : Exec E (Session D) (Unit {0})
  commit s = (ok tt, record s { committed = s.working })

  -- `session.rollback()`
  abbrev pub rollback : Exec E (Session D) (Unit {0})
  rollback s = (ok tt, record s { working = s.committed })

-- `session.close()`, as `get_db` and the consumers call it at the end, whatever was raised.
abbrev pub close : {D : Type 0} → Session D → Session D
close s = record s { working = s.committed }

-- One request: the body in a new session on the database, which is closed at the end.
abbrev pub in_session : {E D A : Type 0} → Exec E (Session D) A → Exec E (Session D) A
in_session body s = let (r, s') = body (close s) in (r, close s')
