-- ===== src/Base/Texts.antt =====
-- Slices of strings: `slices.Contains` and the laws of `select` on them.
use Prim.Native.String.{String, ◌++◌ as str_append}
use mathlib.Core.Path.{◌≡◌}
use mathlib.Core.Bool.{Bool, false, ◌||◌}
use mathlib.Core.List.{List, [], ◌∷◌}
use native.Mathlib.Omega.{arith}
use text.Mathlib.Text.{◌==◌}
use text.Mathlib.TextEquality.{eq_iff}
use uni_core.Base.Tests.{if◌then◌else◌, select}

unfoldable pub contains : List String → String → Bool
contains [] s = false
contains (x ∷ xs) s = x == s || contains xs s

-- A string passes through `select` exactly when it is there and passes the test.
pub contains-select :
    (p : String → Bool) (xs : List String) (s : String)
    → contains (select p xs) s ≡ (if p s then contains xs s else false)
unfolding contains
contains-select p [] s = ground arith
contains-select p (x ∷ xs) s = ground (arith, contains-select p xs s, eq_iff x s)

-- strings.Join
unfoldable pub join : String → List String → String
join separator [] = ""
join separator (s ∷ []) = s
join separator (s ∷ t ∷ rest) = str_append s (str_append separator (join separator (t ∷ rest)))
