-- ===== src/Keys.antt =====
-- The laws of `from_keys`, Python's way to drop repeated numbers.
use trabalho_devops.Prelude.{ℕ, ◌≡◌, false, not, ◌&&◌, List, [], ◌∷◌, elem, from_keys, arith}

-- No number stands twice.
abbrev pub IsDistinct : List ℕ → Type 0
IsDistinct [] = Unit
IsDistinct (n ∷ ns) = (elem n ns ≡ false) × IsDistinct ns

-- The numbers of `ns` that `seen` lacks are kept.
pub elem-from_keys :
    (k : ℕ) (seen ns : List ℕ) → elem k (from_keys seen ns) ≡ (not (elem k seen) && elem k ns)
elem-from_keys k seen [] = ground arith
elem-from_keys k seen (n ∷ ns) = ground (arith, elem-from_keys k (n ∷ seen) ns)

pub from_keys-IsDistinct : (seen ns : List ℕ) → IsDistinct (from_keys seen ns)
from_keys-IsDistinct seen [] = tt
from_keys-IsDistinct seen (n ∷ ns) =
    ground (arith, from_keys-IsDistinct (n ∷ seen) ns, elem-from_keys n (n ∷ seen) ns)
