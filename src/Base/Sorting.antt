-- ===== src/Base/Sorting.antt =====
-- `slices.Sort` on strings, by insertion.
use Prim.Native.String.{String, compare}
use mathlib.Core.List.{List, [], ◌∷◌}
use text.Mathlib.Text.{is_le}
use uni_core.Base.Tests.{if◌then◌else◌}

unfoldable pub insert_sorted : String → List String → List String
insert_sorted s [] = s ∷ []
insert_sorted s (t ∷ rest) =
    let later = insert_sorted s rest in if is_le (compare s t) then s ∷ t ∷ rest else t ∷ later

unfoldable pub sort : List String → List String
unfolding insert_sorted
sort [] = []
sort (s ∷ rest) = insert_sorted s (sort rest)
