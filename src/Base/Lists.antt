-- ===== src/Base/Lists.antt =====
-- Lists read by an index that counts down.
use Prim.Native.Nat.{◌+◌, ◌<◌}
use mathlib.Core.Path.{◌≡◌, refl, ap, subst}
use mathlib.Core.Option.{some}
use mathlib.Core.List.{List, [], ◌∷◌, ◌++◌, reverse, reverse-cons, append_assoc}
use native.Mathlib.Omega.{arith}
use uni_core.Base.Tests.{length, get_elem?}

pub get_elem?-append {ℓ} :
    {A : Type ℓ} (xs ys : List A) (a : A) → get_elem? (xs ++ a ∷ ys) (length xs) ≡ some a
get_elem?-append [] ys a = refl
get_elem?-append (x ∷ xs) ys a = get_elem?-append xs ys a

pub length-append {ℓ} : {A : Type ℓ} (xs ys : List A) → length (xs ++ ys) ≡ length xs + length ys
length-append [] ys = omega arith
length-append (x ∷ xs) ys = omega (arith, length-append xs ys)

pub length-reverse {ℓ} : {A : Type ℓ} (xs : List A) → length (reverse xs) ≡ length xs
length-reverse [] = refl
length-reverse (x ∷ xs) =
    omega
      (arith, ap length (reverse-cons x xs), length-append (reverse xs) (x ∷ []), length-reverse xs)

module _ {ℓ} {A : Type ℓ} where
  pub shift : (r : A) (rs ys : List A) → reverse (r ∷ rs) ++ ys ≡ reverse rs ++ r ∷ ys
  shift r rs ys = rw (reverse-cons r rs) (append_assoc (reverse rs) (r ∷ []) ys)

  pub at_end : (r : A) (rs ys : List A) → get_elem? (reverse rs ++ r ∷ ys) (length rs) ≡ some r
  at_end r rs ys =
      subst (λ n. get_elem? (reverse rs ++ r ∷ ys) n ≡ some r) (length-reverse rs)
        (get_elem?-append (reverse rs) ys r)

  pub in_range : (r : A) (rs ys : List A) → length rs < length (reverse rs ++ r ∷ ys)
  in_range r rs ys = omega (arith, length-append (reverse rs) (r ∷ ys), length-reverse rs)
