-- ===== src/Outbox/Pending.antt =====
-- The rows that the outbox publisher loads: due events of the table, each once.
use trabalho_devops.Prelude.{
  ℕ, zero, suc, ◌≡◌, refl, ap, sym, ◌∙◌, Bool, true, false, Option, none, some, List, [], ◌∷◌,
  arith, if◌then◌else◌, take, select,
}
use mathlib.Core.Path.{subst}
use trabalho_devops.Table.{find, save, order_by, IsUnique}
use trabalho_devops.Table.Laws.{find-save, find-select, select-IsUnique, order_by-IsUnique}
use trabalho_devops.Messaging.{OutboxEvent, event_key}
use trabalho_devops.Outbox.{is_due}

module _ {P : Type 0} where
  -- Events of the outbox, each once.
  abbrev pub IsBatch : List (OutboxEvent P) → List (OutboxEvent P) → Type 0
  IsBatch es rows =
      IsUnique event_key es
      × ((k : ℕ) (e : OutboxEvent P)
          → find event_key k es ≡ some e
          → find event_key k rows ≡ some e)

  -- The rest of a batch is one of the table in which its first event has been marked.
  pub rest-IsBatch :
      (e e' : OutboxEvent P) (es rows : List (OutboxEvent P))
      → e'.id ≡ e.id
      → IsBatch (e ∷ es) rows
      → IsBatch es (save event_key e' rows)
  rest-IsBatch e e' es rows i b =
      (b.0.1, λ k x h. ground (arith, find-save event_key e' k rows, b.0.0, b.1 k x, h, i))

  find-taken :
      (n k : ℕ) (xs : List (OutboxEvent P)) (e : OutboxEvent P)
      → IsUnique event_key xs
      → find event_key k (take n xs) ≡ some e
      → find event_key k xs ≡ some e
  find-taken zero k xs e u h = absurd (ground arith)
  find-taken (suc n) k [] e u h = absurd (ground arith)
  find-taken (suc n) k (x ∷ xs) e u h = ground (arith, find-taken n k xs e u.1)

  find-untaken :
      (n k : ℕ) (xs : List (OutboxEvent P))
      → find event_key k xs ≡ none
      → find event_key k (take n xs) ≡ none
  find-untaken zero k xs h = refl
  find-untaken (suc n) k [] h = refl
  find-untaken (suc n) k (x ∷ xs) h = ground (arith, find-untaken n k xs)

  take-IsUnique :
      (n : ℕ) (xs : List (OutboxEvent P)) → IsUnique event_key xs → IsUnique event_key (take n xs)
  take-IsUnique zero xs u = tt
  take-IsUnique (suc n) [] u = tt
  take-IsUnique (suc n) (x ∷ xs) u = (find-untaken n x.id xs u.0, take-IsUnique n xs u.1)

  -- What the query returns is a batch, of due events.
  pub pending-IsBatch :
      (now limit : ℕ) (rows : List (OutboxEvent P))
      → IsUnique event_key rows
      → let es =
          take limit (order_by (λ (e : OutboxEvent P). e.occurred_at) (select (is_due now) rows)) in
        IsBatch es rows
        × ((k : ℕ) (e : OutboxEvent P) → find event_key k es ≡ some e → is_due now e ≡ true)
  pending-IsBatch now limit rows u =
      let due = select (is_due now) rows in
      let (v, same) =
        order_by-IsUnique event_key (λ (e : OutboxEvent P). e.occurred_at) due
          (select-IsUnique event_key (is_due now) rows u) in
      let sorted = order_by (λ (e : OutboxEvent P). e.occurred_at) due in
      let selected =
        λ (k : ℕ) (e : OutboxEvent P) (h : find event_key k (take limit sorted) ≡ some e).
          sym (same k ∙ find-select event_key (is_due now) k rows u)
          ∙ find-taken limit k sorted e v h in
      (
        (
          take-IsUnique limit sorted v,
          λ k e h. (inspect (find event_key k rows) now e (selected k e h)).0,
        ),
        λ k e h. (inspect (find event_key k rows) now e (selected k e h)).1,
      )
    where
      guarded :
          (b : Bool) (a e : OutboxEvent P)
          → (if b then some a else none) ≡ some e
          → (b ≡ true) × (a ≡ e)
      guarded true a e h = (refl, ground arith)
      guarded false a e h = absurd (ground arith)

      inspect :
          (o : Option (OutboxEvent P)) (now : ℕ) (e : OutboxEvent P)
          → elim o as (λ _. Option (OutboxEvent P)) [
            | none ↦ none
            | some a ↦ if is_due now a then some a else none
          ]
            ≡ some e
          → (o ≡ some e) × (is_due now e ≡ true)
      inspect none now e h = absurd (ground arith)
      inspect (some a) now e h =
          let (due, one) = guarded (is_due now a) a e h in
          (ap some one, subst (λ x. is_due now x ≡ true) one due)
