-- ===== src/Base/Texts.antt =====
-- Lists of texts, and lists of values that are found by a text: `includes`, `Map` and `Set`.
use mathlib.Core.Path.{◌≡◌, refl}
use mathlib.Core.Bool.{Bool, true, false, ◌||◌}
use mathlib.Core.List.{List, [], ◌∷◌, ◌++◌}
use Prim.Native.Nat.{ℕ}
use Prim.Native.Char.{code}
use Prim.Native.String.{String}
use native.Mathlib.Omega.{arith}
use text.Mathlib.TextEquality.{eq_iff}
use tuxwall.Base.Tests.{str_eq, or-eq-false}

abbrev pub contains : List String → String → Bool
contains [] s = false
contains (t ∷ ts) s = str_eq t s || contains ts s

abbrev pub Distinct : List String → Type 0
Distinct [] = Unit
Distinct (s ∷ ss) = (contains ss s ≡ false) × Distinct ss

pub str_eq_refl : (s : String) → str_eq s s ≡ true
str_eq_refl s = (eq_iff s s).1 refl

pub str_eq_comm : (s t : String) → str_eq s t ≡ str_eq t s
str_eq_comm s t = ground (arith, eq_iff s t, eq_iff t s)

pub contains-snoc :
    (ss : List String) (s t : String) → contains (ss ++ s ∷ []) t ≡ (contains ss t || str_eq s t)
contains-snoc [] s t = ground arith
contains-snoc (u ∷ ss) s t = ground (arith, contains-snoc ss s t)

pub Distinct-snoc :
    (ss : List String) (s : String) → contains ss s ≡ false → Distinct ss → Distinct (ss ++ s ∷ [])
Distinct-snoc [] s h d = (refl, tt)
Distinct-snoc (u ∷ ss) s h d =
    let (a, b) = or-eq-false (str_eq u s) _ h in
    (ground (arith, contains-snoc ss s u, str_eq_comm s u, a, d.0), Distinct-snoc ss s b d.1)

-- The character codes of a text.
abbrev pub codes : String → List ℕ
codes String.[] = []
codes (String.◌∷◌ c s) = code c ∷ codes s
