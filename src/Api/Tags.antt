-- ===== src/Api/Tags.antt =====
-- Tags and their list operations (pkg/apis/unikorn/v1alpha1/helpers.go). A nil list is none.
use uni_core.Base.{
  String, ◌≡◌, refl, Bool, true, false, ◌&&◌, ◌||◌, not, Option, none, some, List, [], ◌∷◌, ◌==◌,
  if◌then◌else◌, eq_iff, arith,
}

pub record Tag : Type 0 where
  pub name : String
  pub value : String

unfoldable pub tag_contains : List Tag → Tag → Bool
tag_contains [] tag = false
tag_contains (temp ∷ t) tag =
    (temp.name == tag.name && temp.value == tag.value) || tag_contains t tag

unfoldable pub contains_all : List Tag → List Tag → Bool
unfolding tag_contains
contains_all t [] = true
contains_all t (tag ∷ o) =
    let rest = contains_all t o in if not (tag_contains t tag) then false else rest

unfoldable pub find_tag : List Tag → String → Option String
find_tag [] name = none
find_tag (tag ∷ t) name = if tag.name == name then some tag.value else find_tag t name

tag_contains-congr :
    (a : List Tag) (x t : Tag)
    → x.name ≡ t.name
    → x.value ≡ t.value
    → tag_contains a x ≡ true
    → tag_contains a t ≡ true
unfolding tag_contains
tag_contains-congr a x t e f h = rw (← e, ← f) h

-- A list that contains all of another contains each of its tags.
pub tag_contains-of_contains_all :
    (a b : List Tag) (t : Tag)
    → contains_all a b ≡ true
    → tag_contains b t ≡ true
    → tag_contains a t ≡ true
unfolding contains_all
tag_contains-of_contains_all a [] t h k = cc
tag_contains-of_contains_all a (x ∷ b) t h k = ground (
  arith,
  tag_contains-congr a x t,
  tag_contains-of_contains_all a b t,
  eq_iff x.name t.name,
  eq_iff x.value t.value,
)

pub contains_all_trans :
    (a b c : List Tag) → contains_all a b ≡ true → contains_all b c ≡ true → contains_all a c ≡ true
unfolding contains_all
contains_all_trans a b [] h k = refl
contains_all_trans a b (tag ∷ c) h k =
    ground (arith, tag_contains-of_contains_all a b tag h, contains_all_trans a b c h)
