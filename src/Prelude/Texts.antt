-- ===== src/Prelude/Texts.antt =====
-- Python's `lower` and `strip`, on texts of Latin-1 code points: the part of them that is about
-- these.
pub mod Laws
use Prim.Native.Nat.{ℕ, ◌+◌}
use Prim.Native.Char.{code}
use Prim.Native.String.{String}
use mathlib.Core.Bool.{Bool, not, ◌&&◌, ◌||◌}
use mathlib.Core.List.{[], ◌∷◌, map}
use trabalho_devops.Prelude.Tests.{leb, ◌==◌, if◌then◌else◌}
use trabalho_devops.Prelude.Lists.{Text}

-- The code points of a constant.
abbrev pub codes : String → Text
codes String.[] = []
codes (String.◌∷◌ c s) = code c ∷ codes s

abbrev pub between : ℕ → ℕ → ℕ → Bool
between low high c = leb low c && leb c high

-- `str.isspace` of one character
abbrev pub is_space : ℕ → Bool
is_space c = between 9 13 c || between 28 32 c || c == 133 || c == 160

abbrev pub lower_char : ℕ → ℕ
lower_char c = if between 65 90 c || (between 192 222 c && not (c == 215)) then c + 32 else c

abbrev pub lower : Text → Text
lower value = map lower_char value

abbrev pub strip_left : Text → Text
strip_left [] = []
strip_left (c ∷ cs) = let rest = strip_left cs in if is_space c then rest else c ∷ cs

-- A text of spaces only is stripped to the empty one.
abbrev pub keep_unless_blank : ℕ → Text → Text
keep_unless_blank c [] = if is_space c then [] else c ∷ []
keep_unless_blank c (d ∷ ds) = c ∷ d ∷ ds

abbrev pub strip_right : Text → Text
strip_right [] = []
strip_right (c ∷ cs) = keep_unless_blank c (strip_right cs)

-- `value.strip()`
abbrev pub strip : Text → Text
strip value = strip_right (strip_left value)

-- `value.partition(c)`: what stands before and after the first `c`.
abbrev pub partition : ℕ → Text → Text × Text
partition c [] = ([], [])
partition c (d ∷ ds) =
    let (before, after) = partition c ds in if d == c then ([], ds) else (d ∷ before, after)
