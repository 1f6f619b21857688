-- ===== src/Outbox/Counting.antt =====
-- The rows of the outbox that wait: what publishing one of them changes.
use trabalho_devops.Prelude.{
  ℕ, zero, suc, ◌+◌, ◌≤◌, ◌≡◌, ◌∙◌, refl, ◌⊎◌, inl, inr, true, false, Bool-cases, ◌==◌, some, List,
  [], ◌∷◌, arith, take, select, length, if◌then◌else◌,
}
use trabalho_devops.Table.{find, save, order_by, insert_by, IsUnique}
use trabalho_devops.Table.Laws.{find-save, save-IsUnique}
use trabalho_devops.Messaging.{OutboxEvent, pending, published, failed, event_key}
use trabalho_devops.Outbox.{is_open, is_due, as_published}

module _ {P : Type 0} where
  -- The rows that wait.
  abbrev pub open_count : List (OutboxEvent P) → ℕ
  open_count [] = 0
  open_count (e ∷ es) = let rest = open_count es in if is_open e.status then suc rest else rest

  open_count-save :
      (e e' : OutboxEvent P) (rows : List (OutboxEvent P))
      → IsUnique event_key rows
      → find event_key e.id rows ≡ some e
      → e'.id ≡ e.id
      → is_open e.status ≡ true
      → is_open e'.status ≡ false
      → open_count (save event_key e' rows) + 1 ≡ open_count rows
  open_count-save e e' [] u here i o c = absurd (ground arith)
  open_count-save e e' (x ∷ xs) u here i o c = ground (arith, open_count-save e e' xs u.1)

  pub open_count-find :
      (k : ℕ) (e : OutboxEvent P) (rows : List (OutboxEvent P))
      → find event_key k rows ≡ some e
      → is_open e.status ≡ true
      → 1 ≤ open_count rows
  open_count-find k e [] h o = absurd (ground arith)
  open_count-find k e (x ∷ xs) h o = ground (arith, open_count-find k e xs)

  -- A row that waits, and whose time has come whatever the clock says.
  abbrev pub IsReady : (ℕ → ℕ) → OutboxEvent P → Type 0
  IsReady times e =
      ((e.status ≡ pending) ⊎ (e.status ≡ failed)) × ((t : ℕ) → e.available_at ≤ times t)

  pub IsReady-is_due :
      (times : ℕ → ℕ) (t : ℕ) (e : OutboxEvent P)
      → IsReady times e
      → (is_open e.status ≡ true) × (is_due (times t) e ≡ true)
  IsReady-is_due times t e (inl waits, le) = ground (arith, le t, waits)
  IsReady-is_due times t e (inr waits, le) = ground (arith, le t, waits)

  -- No row waits, if no row that is found does.
  pub open_count-none :
      (rows : List (OutboxEvent P))
      → IsUnique event_key rows
      → ((k : ℕ) (e : OutboxEvent P) → find event_key k rows ≡ some e → is_open e.status ≡ false)
      → open_count rows ≡ 0
  open_count-none [] u closed = refl
  open_count-none (x ∷ xs) u closed =
      let rest = open_count-none xs u.1 (λ k e h. closed k e (ground (arith, u.0, h))) in
      ground (arith, rest, closed x.id x)

  pub none_due :
      (now : ℕ) (rows : List (OutboxEvent P)) → open_count rows ≡ 0 → select (is_due now) rows ≡ []
  none_due now [] done = refl
  none_due now (x ∷ xs) done = ground (arith, none_due now xs)

  pub length-select :
      (now k : ℕ) (e : OutboxEvent P) (rows : List (OutboxEvent P))
      → find event_key k rows ≡ some e
      → is_due now e ≡ true
      → 1 ≤ length (select (is_due now) rows)
  length-select now k e [] h due = absurd (ground arith)
  length-select now k e (x ∷ xs) h due = ground (arith, length-select now k e xs)

  length-insert_by :
      (rank : OutboxEvent P → ℕ) (x : OutboxEvent P) (xs : List (OutboxEvent P))
      → length (insert_by rank x xs) ≡ length xs + 1
  length-insert_by rank x [] = refl
  length-insert_by rank x (y ∷ ys) = ground (arith, length-insert_by rank x ys)

  pub length-order_by :
      (rank : OutboxEvent P → ℕ) (xs : List (OutboxEvent P)) → length (order_by rank xs) ≡ length xs
  length-order_by rank [] = refl
  length-order_by rank (x ∷ xs) =
      ground (arith, length-order_by rank xs, length-insert_by rank x (order_by rank xs))

  pub take-nil : (n : ℕ) → ◌≡◌ {A = List (OutboxEvent P)} (take n []) []
  take-nil zero = refl
  take-nil (suc n) = refl

  pub length-take :
      (n : ℕ) (xs : List (OutboxEvent P)) → 1 ≤ n → 1 ≤ length xs → 1 ≤ length (take n xs)
  length-take zero xs h l = absurd (omega arith)
  length-take (suc n) [] h l = absurd (omega arith)
  length-take (suc n) (x ∷ xs) h l = omega arith

  -- From one table to a later one: a row stays as it was, or has been published.
  abbrev pub Progress : List (OutboxEvent P) → List (OutboxEvent P) → Type 0
  Progress rows rows' =
      (k : ℕ)
      → (find event_key k rows' ≡ find event_key k rows)
        ⊎ ((e' : OutboxEvent P) × (find event_key k rows' ≡ some e') × (e'.status ≡ published))

  -- `n` rows fewer wait.
  pub record Advance (n : ℕ) (rows rows' : List (OutboxEvent P)) : Type 0 where
    pub count : open_count rows' + n ≡ open_count rows
    pub unique : IsUnique event_key rows'
    pub progress : Progress rows rows'

  pub Progress-trans :
      (rows rows' rows'' : List (OutboxEvent P))
      → Progress rows rows'
      → Progress rows' rows''
      → Progress rows rows''
  Progress-trans rows rows' rows'' a b k = elim (b k) [
    | inr later ↦ inr later
    | inl same ↦ elim (a k) [
      | inl before ↦ inl (same ∙ before)
      | inr (e', here, done) ↦ inr (e', same ∙ here, done)
    ]
  ]

  pub then-Advance :
      (n m : ℕ) (rows rows' rows'' : List (OutboxEvent P))
      → Advance n rows rows'
      → Advance m rows' rows''
      → Advance (n + m) rows rows''
  then-Advance n m rows rows' rows'' first rest = record {
    count = omega (arith, first.count, rest.count);
    unique = rest.unique;
    progress = Progress-trans rows rows' rows'' first.progress rest.progress;
  }

  pub saved-Advance :
      (t : ℕ) (e : OutboxEvent P) (rows : List (OutboxEvent P))
      → IsUnique event_key rows
      → find event_key e.id rows ≡ some e
      → is_open e.status ≡ true
      → Advance 1 rows (save event_key (as_published t e) rows)
  saved-Advance t e rows u here o = record {
    count = open_count-save e (as_published t e) rows u here refl o refl;
    unique = save-IsUnique event_key (as_published t e) rows u;
    progress = λ k. elim (Bool-cases (e.id == k)) [
      | inl same ↦ inr (
        as_published t e,
        ground (arith, find-save event_key (as_published t e) k rows, here),
        refl,
      )
      | inr other ↦ inl (ground (arith, find-save event_key (as_published t e) k rows))
    ];
  }
