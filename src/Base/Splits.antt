-- ===== src/Base/Splits.antt =====
-- strings.Split at one character: the first part of a text and those after it.
use Prim.Native.Char.{Char}
use Prim.Native.String.{String, ◌++◌ as str_append}
use mathlib.Core.Path.{◌≡◌, refl, sym, ap, ◌∙◌}
use mathlib.Core.Bool.{Bool, true, false, not, ◌&&◌, ◌||◌}
use mathlib.Core.List.{List, [], ◌∷◌}
use native.Mathlib.Omega.{arith}
use text.Mathlib.Text.{◌==◌}
use text.Mathlib.TextEquality.{eq_iff}
use text.Mathlib.TextLemmas.{nil-append, cons-append}
use uni_core.Base.Texts.{join}

abbrev pub single : Char → String
single c = String.◌∷◌ c String.[]

abbrev pub cut : Char → Bool → String × List String → String × List String
cut c true (part, parts) = (String.[], part ∷ parts)
cut c false (part, parts) = (String.◌∷◌ c part, parts)

module _ (separator : Char) where
  abbrev pub is_separator : Char → Bool
  is_separator c = single c == single separator

  unfoldable pub split : String → String × List String
  split String.[] = (String.[], [])
  split (String.◌∷◌ c s) = cut c (is_separator c) (split s)

  abbrev pub has_separator : String → Bool
  has_separator String.[] = false
  has_separator (String.◌∷◌ c s) = is_separator c || has_separator s

  abbrev pub joined : String × List String → String
  joined (part, parts) = join (single separator) (part ∷ parts)

  abbrev pub all_clean : List String → Bool
  all_clean [] = true
  all_clean (s ∷ ss) = not (has_separator s) && all_clean ss

  abbrev pub clean : String × List String → Bool
  clean (part, parts) = not (has_separator part) && all_clean parts

  joined-cut :
      (c : Char) (b : Bool) (p : String × List String)
      → is_separator c ≡ b
      → joined (cut c b p) ≡ String.◌∷◌ c (joined p)
  unfolding join
  joined-cut c true (part, parts) e =
      let rest = join (single separator) (part ∷ parts) in
      nil-append (str_append (single separator) rest)
      ∙ sym (ap (λ r. str_append r rest) ((eq_iff (single c) (single separator)).0 e))
      ∙ cons-append c String.[] rest
      ∙ ap (λ r. String.◌∷◌ c r) (nil-append rest)
  joined-cut c false (part, []) e = refl
  joined-cut c false (part, q ∷ r) e =
      cons-append c part (str_append (single separator) (join (single separator) (q ∷ r)))

  -- The parts of a text, joined, are the text.
  pub joined-split : (s : String) → joined (split s) ≡ s
  unfolding split join
  joined-split String.[] = refl
  joined-split (String.◌∷◌ c s) =
      joined-cut c (is_separator c) (split s) refl ∙ ap (String.◌∷◌ c) (joined-split s)

  clean-cut :
      (c : Char) (b : Bool) (p : String × List String)
      → is_separator c ≡ b
      → clean p ≡ true
      → clean (cut c b p) ≡ true
  clean-cut c true (part, parts) e h = h
  clean-cut c false (part, parts) e h = ground (arith)

  -- No part of a text has a separator.
  pub clean-split : (s : String) → clean (split s) ≡ true
  unfolding split
  clean-split String.[] = refl
  clean-split (String.◌∷◌ c s) = clean-cut c (is_separator c) (split s) refl (clean-split s)

  split-cons :
      (c : Char) (s : String)
      → is_separator c ≡ false
      → split (String.◌∷◌ c s) ≡ cut c false (split s)
  unfolding split
  split-cons c s e = ap (λ b. cut c b (split s)) e

  -- A text without a separator is its only part.
  pub split-clean : (s : String) → has_separator s ≡ false → split s ≡ (s, [])
  unfolding split
  split-clean String.[] h = refl
  split-clean (String.◌∷◌ c s) h =
      split-cons c s (ground (arith)) ∙ ap (cut c false) (split-clean s (ground (arith)))

  split-separator : (v : String) → split (String.◌∷◌ separator v) ≡ ("", (split v).0 ∷ (split v).1)
  unfolding split
  split-separator v =
      ap (λ b. cut separator b (split v)) ((eq_iff (single separator) (single separator)).1 refl)

  -- A text without a separator is the first part of one that it starts, before a separator.
  pub split-append :
      (n v : String)
      → has_separator n ≡ false
      → split (str_append n (str_append (single separator) v)) ≡ (n, (split v).0 ∷ (split v).1)
  unfolding split
  split-append String.[] v h =
      ap split (
        nil-append (str_append (single separator) v)
        ∙ cons-append separator "" v
        ∙ ap (String.◌∷◌ separator) (nil-append v))
      ∙ split-separator v
  split-append (String.◌∷◌ c n) v h =
      ap split (cons-append c n (str_append (single separator) v))
      ∙ split-cons c (str_append n (str_append (single separator) v)) (ground (arith))
      ∙ ap (cut c false) (split-append n v (ground (arith)))
