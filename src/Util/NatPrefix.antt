-- ===== src/Util/NatPrefix.antt =====
-- GetNATPrefix of pkg/util/util.go. The package's variable is the state, and what the HTTP request and
-- the decoding of its body give is an argument: an error, or the address in the body, which is empty if
-- the body has none.
use Prim.Native.Char.{Char}
use text.Mathlib.TextLemmas.{nil-append, cons-append, cons≢nil}
use uni_core.Base.{
  String, str_append, ◌≡◌, refl, ap, ◌∙◌, Bool, true, false, not, ◌==◌, eq_iff, arith,
  if◌then◌else◌,
}
use uni_core.Errors.{Result, ok, err}

abbrev remembered : String → Result String → Result String × String
remembered nat_prefix (err e) = (err e, nat_prefix)
remembered nat_prefix (ok ip) = (ok (str_append ip "/32"), str_append ip "/32")

unfoldable get_nat_prefix : String → Result String → Result String × String
get_nat_prefix nat_prefix answer =
    if not (nat_prefix == "") then (ok nat_prefix, nat_prefix) else remembered nat_prefix answer

nonempty : (c : Char) (s : String) → (String.◌∷◌ c s == "") ≡ false
nonempty c s = by_cases (String.◌∷◌ c s == "") refl
  where
    by_cases : (b : Bool) → (String.◌∷◌ c s == "") ≡ b → b ≡ false
    by_cases true e = absurd (cons≢nil ((eq_iff (String.◌∷◌ c s) "").0 e))
    by_cases false e = refl

-- No address gives an empty prefix.
prefix-nonempty : (ip : String) → (str_append ip "/32" == "") ≡ false
prefix-nonempty String.[] = ap (λ s. s == "") (nil-append "/32")
prefix-nonempty (String.◌∷◌ c s) =
    ap (λ t. t == "") (cons-append c s "/32") ∙ nonempty c (str_append s "/32")

get_nat_prefix-nonempty :
    (p q : String) (later : Result String)
    → (p == "") ≡ false
    → ok p ≡ ok q
    → get_nat_prefix p later ≡ (ok q, q)
unfolding get_nat_prefix
get_nat_prefix-nonempty p q later e h =
    ap (λ b. if not b then (ok p, p) else remembered p later) e ∙ cc

-- A prefix that a call returned is what all later calls return, whatever the service answers.
get_nat_prefix-kept :
    (nat_prefix p : String) (answer later : Result String)
    → (get_nat_prefix nat_prefix answer).0 ≡ ok p
    → get_nat_prefix (get_nat_prefix nat_prefix answer).1 later ≡ (ok p, p)
unfolding get_nat_prefix
get_nat_prefix-kept nat_prefix p answer later h = by_cases (nat_prefix == "") answer refl h
  where
    first : Bool → Result String → Result String × String
    first b answer = if not b then (ok nat_prefix, nat_prefix) else remembered nat_prefix answer

    by_cases :
        (b : Bool) (answer : Result String)
        → (nat_prefix == "") ≡ b
        → (first b answer).0 ≡ ok p
        → get_nat_prefix (first b answer).1 later ≡ (ok p, p)
    by_cases true (err x) e h = ground (arith)
    by_cases true (ok ip) e h =
        get_nat_prefix-nonempty (str_append ip "/32") p later (prefix-nonempty ip) h
    by_cases false answer e h = get_nat_prefix-nonempty nat_prefix p later e h

-- An answer without an address is kept as a prefix, too.
get_nat_prefix-no_address :
    (later : Result String) → get_nat_prefix (get_nat_prefix "" (ok "")).1 later ≡ (ok "/32", "/32")
unfolding get_nat_prefix
get_nat_prefix-no_address later = refl
