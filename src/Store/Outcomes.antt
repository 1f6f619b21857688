-- ===== src/Store/Outcomes.antt =====
-- How a transaction ends: it returns and all that it wrote is committed, or it raises and the
-- database is as it was. Rules for the steps of one.
use trabalho_devops.Prelude.{◌≡◌, refl, ◌∙◌, Bool, true, false}
use trabalho_devops.Exec.{
  Result, ok, err, Exec, pure, continue, raise_if, raise_unless, reraise, reraised, ◌>>=◌, ◌>>◌,
}
use trabalho_devops.Store.{Session, commit}

abbrev pub RaisesOnly : {E A : Type 0} → (E → Type 0) → Result E A → Type 0
RaisesOnly P (ok a) = Unit
RaisesOnly P (err e) = P e

module _ {D : Type 0} where
  -- From the session `s` to `s'`, where an exception is one of `P`.
  abbrev pub Outcome : {E A : Type 0} → (E → Type 0) → Session D → Session D → Result E A → Type 0
  Outcome P s s' (ok a) = s'.committed ≡ s'.working
  Outcome P s s' (err e) = P e × (s'.committed ≡ s.committed)

  module _ {E : Type 0} (P : E → Type 0) where
    -- A whole transaction.
    abbrev pub Ends : {A : Type 0} → Exec E (Session D) A → Type 0
    Ends m = (s : Session D) → Outcome P s (m s).1 (m s).0

    -- A part that commits nothing.
    abbrev pub Checks : {A : Type 0} → Exec E (Session D) A → Type 0
    Checks m = (s : Session D) → RaisesOnly P (m s).0 × ((m s).1.committed ≡ s.committed)

    module _ {A B : Type 0} (f : A → Exec E (Session D) B) where
      continue-Outcome :
          (r : Result E A) (s s' : Session D)
          → RaisesOnly P r
          → s'.committed ≡ s.committed
          → ((a : A) → Ends (f a))
          → Outcome P s (continue r f s').1 (continue r f s').0
      continue-Outcome (err e) s s' p same rest = (p, same)
      continue-Outcome (ok a) s s' p same rest = from (f a s').0 (f a s').1 (rest a s')
        where
          from : (r : Result E B) (s'' : Session D) → Outcome P s' s'' r → Outcome P s s'' r
          from (ok b) s'' o = o
          from (err e) s'' (q, kept) = (q, kept ∙ same)

      pub bind-Ends :
          (m : Exec E (Session D) A) → Checks m → ((a : A) → Ends (f a)) → Ends (m >>= f)
      bind-Ends m first rest s =
          let (p, same) = first s in continue-Outcome (m s).0 s (m s).1 p same rest

      continue-Checks :
          (r : Result E A) (s s' : Session D)
          → RaisesOnly P r
          → s'.committed ≡ s.committed
          → ((a : A) → Checks (f a))
          → RaisesOnly P (continue r f s').0 × ((continue r f s').1.committed ≡ s.committed)
      continue-Checks (err e) s s' p same rest = (p, same)
      continue-Checks (ok a) s s' p same rest = ((rest a s').0, (rest a s').1 ∙ same)

      pub bind-Checks :
          (m : Exec E (Session D) A) → Checks m → ((a : A) → Checks (f a)) → Checks (m >>= f)
      bind-Checks m first rest s =
          let (p, same) = first s in continue-Checks (m s).0 s (m s).1 p same rest

    -- A guard before the rest of a transaction.
    pub raise_if-Ends :
        {B : Type 0} (c : Bool) (e : E) (k : Exec E (Session D) B)
        → P e
        → Ends k
        → Ends (raise_if c e >> k)
    raise_if-Ends true e k p rest s = (p, refl)
    raise_if-Ends false e k p rest s = rest s

    pub raise_unless-Ends :
        {B : Type 0} (c : Bool) (e : E) (k : Exec E (Session D) B)
        → P e
        → Ends k
        → Ends (raise_unless c e >> k)
    raise_unless-Ends true e k p rest s = rest s
    raise_unless-Ends false e k p rest s = (p, refl)

    pub commit-Ends : {A : Type 0} (a : A) → Ends (commit >> pure a)
    commit-Ends a s = refl

  module _ {E F A : Type 0} (P : F → Type 0) (f : E → F) (m : Exec E (Session D) A) where
    -- A translated exception.
    pub reraise-Ends : Ends (λ e. P (f e)) m → Ends P (reraise f m)
    reraise-Ends ends s = by_result (m s).0 (m s).1 (ends s)
      where
        by_result :
            (r : Result E A) (s' : Session D)
            → Outcome (λ e. P (f e)) s s' r
            → Outcome P s s' (reraised f r)
        by_result (ok a) s' o = o
        by_result (err e) s' o = o

  module _ {E A B : Type 0} (P : E → Type 0) (g : A → B) (m : Exec E (Session D) A) where
    -- A rewritten result.
    pub pure-Ends : Ends P m → Ends P (m >>= λ a. pure (g a))
    pure-Ends ends s = by_result (m s).0 (m s).1 (ends s)
      where
        by_result :
            (r : Result E A) (s' : Session D)
            → Outcome P s s' r
            → Outcome P s (continue r (λ a. pure (g a)) s').1 (continue r (λ a. pure (g a)) s').0
        by_result (ok a) s' o = o
        by_result (err e) s' o = o
