-- ===== src/Base/DictLaws.antt =====
-- Association lists with one entry for each key, as a Go map has, and the number of their entries.
use Prim.Native.Nat.{suc, ◌≤◌}
use Prim.Native.String.{String}
use mathlib.Core.Path.{◌≡◌, refl}
use mathlib.Core.Logic.{inl, inr}
use mathlib.Core.Bool.{true, false}
use mathlib.Core.Option.{none, some}
use mathlib.Core.List.{[], ◌∷◌}
use native.Mathlib.Omega.{arith}
use text.Mathlib.Text.{◌==◌}
use text.Mathlib.TextEquality.{eq_iff}
use text.Mathlib.TextPositions.{eq_refl}
use uni_core.Base.Tests.{if◌then◌else◌, length, Bool-cases}
use uni_core.Base.Dicts.{Dict, lookup, insert, has, lookup-insert}

module _ {ℓ} {V : Type ℓ} where
  abbrev pub IsMap : Dict V → Type ℓ
  IsMap [] = Unit
  IsMap ((k, v) ∷ m) = (lookup k m ≡ none) × IsMap m

  pub insert-IsMap : (k : String) (v : V) (m : Dict V) → IsMap m → IsMap (insert k v m)
  unfolding insert lookup
  insert-IsMap k v [] h = (refl, tt)
  insert-IsMap k v ((j, w) ∷ m) h =
      ground (arith, eq_iff j k, eq_iff k j, lookup-insert k j v m, insert-IsMap k v m h.1)

  pub lookup-cons_self : (k : String) (v : V) (m : Dict V) → lookup k ((k, v) ∷ m) ≡ some v
  unfolding lookup
  lookup-cons_self k v m = rw (eq_refl k)

  -- In a map the entries behind the first one are found past it.
  pub lookup-cons_of_some :
      (j k : String) (w v : V) (m : Dict V)
      → lookup j m ≡ none
      → lookup k m ≡ some v
      → lookup k ((j, w) ∷ m) ≡ some v
  unfolding lookup
  lookup-cons_of_some j k w v m fresh e = ground (arith, eq_iff j k)

  pub remove : String → Dict V → Dict V
  remove k [] = []
  remove k ((j, w) ∷ m) = let rest = remove k m in if j == k then m else (j, w) ∷ rest

  lookup-remove_ne :
      (k j : String) (m : Dict V) → (k == j) ≡ false → lookup j (remove k m) ≡ lookup j m
  unfolding lookup remove
  lookup-remove_ne k j [] h = refl
  lookup-remove_ne k j ((i, w) ∷ m) h =
      ground (arith, eq_iff i k, eq_iff i j, eq_iff k j, lookup-remove_ne k j m h)

  length-remove : (k : String) (m : Dict V) → has k m ≡ true → suc (length (remove k m)) ≡ length m
  unfolding lookup remove
  length-remove k [] h = cc
  length-remove k ((i, w) ∷ m) h = ground (arith, length-remove k m)

-- Every key of `m` is a key of `o`.
abbrev pub Covers {ℓ} : {V W : Type ℓ} → Dict V → Dict W → Type 0
Covers m o = (k : String) → has k m ≡ true → has k o ≡ true

module _ {ℓ} {V W : Type ℓ} where
  Covers-remove :
      (k : String) (m : Dict V) (o : Dict W) → has k m ≡ false → Covers m o → Covers m (remove k o)
  Covers-remove k m o absent c j p = ground (arith, eq_iff k j, lookup-remove_ne k j o, c j p)

  Covers-tail : (k : String) (v : V) (m : Dict V) (o : Dict W) → Covers ((k, v) ∷ m) o → Covers m o
  unfolding lookup
  Covers-tail k v m o c j p = c j (ground (arith, p))

  pub length-le-of_Covers : (m : Dict V) (o : Dict W) → IsMap m → Covers m o → length m ≤ length o
  length-le-of_Covers [] o h c = omega arith
  length-le-of_Covers ((k, v) ∷ m) o h c =
      let present : has k o ≡ true = c k (unfold lookup in ground (arith, eq_refl k)) in
      let fresh : has k m ≡ false = rw h.0 in
      omega (
        arith,
        length-remove k o present,
        length-le-of_Covers m (remove k o) h.1 (Covers-remove k m o fresh (Covers-tail k v m o c)),
      )

  -- Tables of one size, of which the first covers the other way, have the same keys.
  pub Covers-back :
      (m : Dict V) (o : Dict W)
      → IsMap m
      → Covers m o
      → length m ≡ length o
      → (k : String) → has k o ≡ true
      → has k m ≡ true
  Covers-back m o h c e k p = elim (Bool-cases (has k m)) [
    | inl there ↦ there
    | inr absent ↦ absurd (
        omega (
          arith,
          length-remove k o p,
          length-le-of_Covers m (remove k o) h (Covers-remove k m o absent c),
        ))
  ]
