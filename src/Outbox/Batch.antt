-- ===== src/Outbox/Batch.antt =====
-- One batch of the outbox publisher, row by row.
use trabalho_devops.Prelude.{
  ℕ, ◌+◌, ◌==◌, ◌≡◌, refl, sym, ◌∙◌, inl, inr, String, some, List, [], ◌∷◌, arith, Bool-cases,
}
use mathlib.Core.Path.{subst}
use trabalho_devops.Exec.{Result, ok, err, Exec, continue, pure}
use trabalho_devops.Table.{find, save}
use trabalho_devops.Table.Laws.{key-find, find-save}
use trabalho_devops.Messaging.{Settings, OutboxEvent, event_key}
use trabalho_devops.Outbox.{settle, publish_each, Relay, go_on}
use trabalho_devops.Outbox.Steps.{Step, Kept, settle-Step, settle_committed}
use trabalho_devops.Outbox.Pending.{IsBatch, rest-IsBatch}

module _ {P : Type 0} (settings : Settings) where
  -- Row by row, between two tables.
  abbrev pub AllKept :
      (OutboxEvent P → Type 0) → List (OutboxEvent P) → List (OutboxEvent P) → Type 0
  AllKept may rows rows' =
      (k : ℕ) → Kept settings may (find event_key k rows) (find event_key k rows')

  -- One row has taken a step.
  saved-AllKept :
      (e e' : OutboxEvent P) (es rows : List (OutboxEvent P))
      → e'.id ≡ e.id
      → Step settings e e'
      → IsBatch (e ∷ es) rows
      → AllKept (λ x. find event_key x.id (e ∷ es) ≡ some x) rows (save event_key e' rows)
  saved-AllKept e e' es rows i step b k = elim (Bool-cases (e.id == k)) [
    | inl here ↦ inr (
      e,
      e',
      b.1 k e (ground arith),
      ground (arith, find-save event_key e' k rows, b.1 k e, i),
      ground arith,
      step,
    )
    | inr other ↦ inl (ground (arith, find-save event_key e' k rows, i))
  ]

  -- And then others.
  then-AllKept :
      (e e' : OutboxEvent P) (es rows rows' : List (OutboxEvent P))
      → e'.id ≡ e.id
      → Step settings e e'
      → IsBatch (e ∷ es) rows
      → AllKept (λ x. find event_key x.id es ≡ some x) (save event_key e' rows) rows'
      → AllKept (λ x. find event_key x.id (e ∷ es) ≡ some x) rows rows'
  then-AllKept e e' es rows rows' i step b rest k = elim (Bool-cases (e.id == k)) [
    | inl here ↦ elim (rest k) [
      | inl kept ↦ inr (
        e,
        e',
        b.1 k e (ground arith),
        ground (arith, kept, find-save event_key e' k rows, b.1 k e, i),
        ground arith,
        step,
      )
      | inr (x, x', before, after, taken, later) ↦ absurd (
          ground (
            arith,
            before,
            taken,
            key-find event_key x.id es x,
            key-find event_key k (save event_key e' rows) x,
            b.0.0,
          ))
    ]
    | inr other ↦ elim (rest k) [
      | inl kept ↦ inl (kept ∙ ground (arith, find-save event_key e' k rows, i))
      | inr (x, x', before, after, taken, later) ↦ inr (
        x,
        x',
        ground (arith, before, find-save event_key e' k rows, i),
        after,
        ground (arith, taken, key-find event_key k (save event_key e' rows) x, before),
        later,
      )
    ]
  ]

module _ {P T B : Type 0} (settings : Settings)
    (publish : OutboxEvent P → Exec String B (Unit {0})) where
  abbrev pub rows_of : Relay P T B → List (OutboxEvent P)
  rows_of r = r.session.working.outbox

  -- Counting leaves the state as it is.
  pub go_on-state :
      (u : Unit {0}) (rest : Exec String (Relay P T B) ℕ) (r : Relay P T B)
      → (go_on settings publish (ok u) rest r).1 ≡ (rest r).1
  go_on-state u rest r = by_result (rest r).0 (rest r).1
    where
      by_result :
          (o : Result String ℕ) (r' : Relay P T B)
          → (continue o (λ count. pure (count + 1)) r').1 ≡ r'
      by_result (ok n) r' = refl
      by_result (err e) r' = refl

  pub publish_each-AllKept :
      (es : List (OutboxEvent P)) (r : Relay P T B)
      → IsBatch es (rows_of r)
      → AllKept settings
          (λ x. find event_key x.id es ≡ some x)
          (rows_of r)
          (rows_of (publish_each settings publish es r).1)
  unfolding publish_each
  publish_each-AllKept [] r b = λ k. inl refl
  publish_each-AllKept (e ∷ es) r b =
      after (publish e r.broker).0 (publish e r.broker).1 (λ r' c. publish_each-AllKept es r' c)
    where
      after :
          (outcome : Result String (Unit {0})) (broker : B)
          → ((r' : Relay P T B)
              → IsBatch es (rows_of r')
              → AllKept settings
                  (λ x. find event_key x.id es ≡ some x)
                  (rows_of r')
                  (rows_of (publish_each settings publish es r').1))
          → AllKept settings
              (λ x. find event_key x.id (e ∷ es) ≡ some x)
              (rows_of r)
              (rows_of
                (go_on settings publish outcome (publish_each settings publish es) (record {
                  session = (settle settings e outcome r.session).1;
                  broker = broker;
                })).1)
      after (ok u) broker rest =
          let (e', step, i, saved, _) =
            settle-Step settings e (ok u) r.session (b.1 e.id e (ground arith)) in
          let r' : Relay P T B = record {
            session = (settle settings e (ok u) r.session).1;
            broker = broker;
          } in
          subst
            (λ x.
              AllKept settings (λ x. find event_key x.id (e ∷ es) ≡ some x) (rows_of r) (rows_of x))
            (sym (go_on-state u (publish_each settings publish es) r'))
            (then-AllKept settings e e' es (rows_of r) _ i step b (
              subst
                (λ rows.
                  AllKept settings (λ x. find event_key x.id es ≡ some x) rows
                    (rows_of (publish_each settings publish es r').1))
                saved
                (rest r' (subst (IsBatch es) (sym saved) (rest-IsBatch e e' es (rows_of r) i b)))))
      after (err exc) broker rest =
          let (e', step, i, saved, _) =
            settle-Step settings e (err exc) r.session (b.1 e.id e (ground arith)) in
          subst (AllKept settings (λ x. find event_key x.id (e ∷ es) ≡ some x) (rows_of r))
            (sym saved) (saved-AllKept settings e e' es (rows_of r) i step b)

  -- Every step is committed.
  pub publish_each-committed :
      (es : List (OutboxEvent P)) (r : Relay P T B)
      → r.session.committed ≡ r.session.working
      → (publish_each settings publish es r).1.session.committed
        ≡ (publish_each settings publish es r).1.session.working
  unfolding publish_each
  publish_each-committed [] r h = h
  publish_each-committed (e ∷ es) r h =
      after (publish e r.broker).0 (publish e r.broker).1 (λ r' c. publish_each-committed es r' c)
    where
      IsClean : Relay P T B → Type 0
      IsClean x = x.session.committed ≡ x.session.working

      after :
          (outcome : Result String (Unit {0})) (broker : B)
          → ((r' : Relay P T B) → IsClean r' → IsClean (publish_each settings publish es r').1)
          → IsClean
              (go_on settings publish outcome
                (publish_each settings publish es)
                (record { session = (settle settings e outcome r.session).1; broker = broker })).1
      after (ok u) broker rest =
          let r' : Relay P T B = record {
            session = (settle settings e (ok u) r.session).1;
            broker = broker;
          } in
          subst IsClean (sym (go_on-state u (publish_each settings publish es) r'))
            (rest r' (settle_committed settings e (ok u) r.session))
      after (err exc) broker rest = settle_committed settings e (err exc) r.session
