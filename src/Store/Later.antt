-- ===== src/Store/Later.antt =====
-- The passing of time: identifiers are drawn in their order.
use trabalho_devops.Prelude.{◌≤◌, ◌≡◌}
use trabalho_devops.Store.{Env}

-- Later values of the source of identifiers.
pub record Later (env env' : Env) : Type 0 where
  pub uuids : env'.uuids ≡ env.uuids
  pub drawn : env.drawn ≤ env'.drawn
