-- ===== src/Exec.antt =====
-- A Python function that reads and writes a state and may raise. What was written before a raise
-- stays written, so the state comes back beside the exception too.
pub mod Laws
use trabalho_devops.Prelude.{◌≡◌, refl, Bool, true, false, Option, none, some}

pub data Result (E A : Type 0) : Type 0 where
  ok : A → Result E A
  err : E → Result E A

abbrev pub Exec : Type 0 → Type 0 → Type 0 → Type 0
Exec E S A = S → Result E A × S

module _ {E S A : Type 0} where
  abbrev pub pure : A → Exec E S A
  pure a s = (ok a, s)

  abbrev pub raise : E → Exec E S A
  raise e s = (err e, s)

  -- `if x is None: raise e`
  abbrev pub or_raise : Option A → E → Exec E S A
  or_raise none e s = (err e, s)
  or_raise (some a) e s = (ok a, s)

module _ {E S A B : Type 0} where
  abbrev pub continue : Result E A → (A → Exec E S B) → Exec E S B
  continue (ok a) f s = f a s
  continue (err e) f s = (err e, s)

  infixl 10 ◌>>=◌ ◌>>◌
  abbrev pub ◌>>=◌ : Exec E S A → (A → Exec E S B) → Exec E S B
  ◌>>=◌ m f s = let (r, s') = m s in continue r f s'

  abbrev pub ◌>>◌ : Exec E S A → Exec E S B → Exec E S B
  ◌>>◌ m k s = let (r, s') = m s in continue r (λ _. k) s'

module _ {E S : Type 0} where
  abbrev pub modify : (S → S) → Exec E S (Unit {0})
  modify f s = (ok tt, f s)

  -- `if c: raise e`
  abbrev pub raise_if : Bool → E → Exec E S (Unit {0})
  raise_if true e s = (err e, s)
  raise_if false e s = (ok tt, s)

  abbrev pub raise_unless : Bool → E → Exec E S (Unit {0})
  raise_unless true e s = (ok tt, s)
  raise_unless false e s = (err e, s)

abbrev pub reraised : {E F A : Type 0} → (E → F) → Result E A → Result F A
reraised f (ok a) = ok a
reraised f (err e) = err (f e)

-- `try: m except …: raise f(exc)`
abbrev pub reraise : {E F S A : Type 0} → (E → F) → Exec E S A → Exec F S A
reraise f m s = let (r, s') = m s in (reraised f r, s')
