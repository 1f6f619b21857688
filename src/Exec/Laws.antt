-- ===== src/Exec/Laws.antt =====
-- Rules for the sequencing of two steps: what a property of the state, and what a result, is in
-- terms of the steps.
use trabalho_devops.Prelude.{
  Option, none, some, ◌≡◌, refl, ap, ◌⊎◌, inl, inr, Bool, true, false, arith,
}
use trabalho_devops.Exec.{
  Result, ok, err, Exec, pure, or_raise, continue, raise_if, raise_unless, ◌>>=◌, ◌>>◌,
}

module _ {E S A B : Type 0} (f : A → Exec E S B) where
  continue-keeps :
      (P : S → Type 0) (r : Result E A) (s : S)
      → ((e : E) → r ≡ err e → P s)
      → ((a : A) → r ≡ ok a → P (f a s).1)
      → P (continue r f s).1
  continue-keeps P (ok a) s raised returned = returned a refl
  continue-keeps P (err e) s raised returned = raised e refl

  continue-ok :
      (r : Result E A) (s : S) (b : B)
      → (continue r f s).0 ≡ ok b
      → (a : A) × (r ≡ ok a) × ((f a s).0 ≡ ok b) × ((continue r f s).1 ≡ (f a s).1)
  continue-ok (ok a) s b h = (a, refl, h, refl)
  continue-ok (err e) s b h = absurd (ground arith)

  module _ (m : Exec E S A) (s : S) where
    -- A property of the state holds at the end, if it does where the first step raises and where
    -- the second ends after the first has returned.
    pub bind-keeps :
        (P : S → Type 0)
        → ((e : E) → (m s).0 ≡ err e → P (m s).1)
        → ((a : A) → (m s).0 ≡ ok a → P (f a (m s).1).1)
        → P ((m >>= f) s).1
    bind-keeps P = continue-keeps P (m s).0 (m s).1

    -- Both steps of a sequence that returns have returned.
    pub bind-ok :
        (b : B)
        → ((m >>= f) s).0 ≡ ok b
        → (a : A) × ((m s).0 ≡ ok a)
          × ((f a (m s).1).0 ≡ ok b)
          × (((m >>= f) s).1 ≡ (f a (m s).1).1)
    bind-ok = continue-ok (m s).0 (m s).1

module _ {E S B : Type 0} (P : S → Type 0) (e : E) (k : Exec E S B) (s : S) where
  -- A guard that raises leaves the state alone.
  pub raise_if-keeps : (c : Bool) → P s → (c ≡ false → P (k s).1) → P ((raise_if c e >> k) s).1
  raise_if-keeps true before after = before
  raise_if-keeps false before after = after refl

  pub raise_unless-keeps :
      (c : Bool) → P s → (c ≡ true → P (k s).1) → P ((raise_unless c e >> k) s).1
  raise_unless-keeps true before after = after refl
  raise_unless-keeps false before after = before

module _ {E S A B : Type 0} (m : Exec E S A) (f : A → Exec E S B) (s : S) where
  -- A sequence whose first step returns goes on with the second.
  pub bind-eq : (a : A) → (m s).0 ≡ ok a → (m >>= f) s ≡ f a (m s).1
  bind-eq a h = ap (λ r. continue r f (m s).1) h

  -- One whose first step raises is over.
  pub bind-eq_err : (e : E) → (m s).0 ≡ err e → (m >>= f) s ≡ (err e, (m s).1)
  bind-eq_err e h = ap (λ r. continue r f (m s).1) h

pub Result-cases :
    {E A : Type 0} (r : Result E A) → ((a : A) × (r ≡ ok a)) ⊎ ((e : E) × (r ≡ err e))
Result-cases (ok a) = inl (a, refl)
Result-cases (err e) = inr (e, refl)

module _ {E S A : Type 0} (P : S → Type 0) (e : E) (s : S) where
  -- A look-up that raises where there is nothing leaves the state alone.
  pub or_raise-keeps : (o : Option A) → P s → P (or_raise o e s).1
  or_raise-keeps none p = p
  or_raise-keeps (some a) p = p

-- A result that is only rewritten leaves the state as it came.
pub continue-pure :
    {E S A B : Type 0} (f : A → B) (r : Result E A) (s : S) → (continue r (λ a. pure (f a)) s).1 ≡ s
continue-pure f (ok a) s = refl
continue-pure f (err e) s = refl

-- A look-up that returns has found something, and a guard that lets the rest return is passed.
pub or_raise-ok :
    {E S A : Type 0} (e : E) (s : S) (o : Option A) (a : A) → (or_raise o e s).0 ≡ ok a → o ≡ some a
or_raise-ok e s none a h = absurd (ground arith)
or_raise-ok e s (some b) a h = ground arith

pub raise_if-ok :
    {E S B : Type 0} (e : E) (k : Exec E S B) (s : S) (c : Bool) (b : B)
    → ((raise_if c e >> k) s).0 ≡ ok b
    → (c ≡ false) × ((k s).0 ≡ ok b)
raise_if-ok e k s true b h = absurd (ground arith)
raise_if-ok e k s false b h = (refl, h)
