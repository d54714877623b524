-- ===== src/Server/Selector.antt =====
-- pkg/server/util/tags.go: the tags that a query selects by. A nil list is empty.
use uni_core.Base.{
  String, str_append, ◌≡◌, refl, sym, ap, subst, ◌∙◌, ◌↔◌, true, false, Option, none, some, List,
  [], ◌∷◌, join, split, has_separator, clean, joined, joined-split, clean-split, split-clean,
  split-append, arith,
}
use uni_core.Errors.{Result, ok, err, ◌>>=◌}
use uni_core.Api.Tags.{Tag}
use uni_core.Server.Errors.{as_go, oauth2_invalid_request}

abbrev tag_of : String × List String → Result Tag
tag_of (name, []) = err (as_go (oauth2_invalid_request ("tag decode failed" ∷ [])))
tag_of (name, value ∷ []) = ok (record { name = name; value = value })
tag_of (name, value ∷ more ∷ rest) = err (as_go (oauth2_invalid_request ("tag decode failed" ∷ [])))

unfoldable decode_tags : List String → Result (List Tag)
unfolding split
decode_tags [] = ok []
decode_tags (tag ∷ tags) =
    tag_of (split "=" tag) >>= (λ t. decode_tags tags >>= (λ ts. ok (t ∷ ts)))

unfoldable pub decode_tag_selector_param : Option (List String) → Result (List Tag)
unfolding decode_tags
decode_tag_selector_param none = ok []
decode_tag_selector_param (some tags) = decode_tags tags

-- The text is the tag's name and value, neither of which has an equals sign, around one.
abbrev pub IsTagText : String → Tag → Type 0
IsTagText s t =
    (s ≡ str_append t.name (str_append "=" t.value))
    × ((has_separator "=" t.name ≡ false) × (has_separator "=" t.value ≡ false))

abbrev pub AreTagTexts : List String → List Tag → Type 0
AreTagTexts [] [] = Unit
AreTagTexts [] (t ∷ ts) = ⊥
AreTagTexts (s ∷ ss) [] = ⊥
AreTagTexts (s ∷ ss) (t ∷ ts) = IsTagText s t × AreTagTexts ss ts

same_tag : {a b : Tag} → ok a ≡ ok b → a ≡ b
same_tag h = cc

text_of_parts :
    (s : String) (t : Tag) (p : String × List String)
    → joined "=" p ≡ s
    → clean "=" p ≡ true
    → tag_of p ≡ ok t
    → IsTagText s t
unfolding join
text_of_parts s t (name, []) j c h = ground (arith)
text_of_parts s t (name, value ∷ []) j c h =
    subst (IsTagText s) (same_tag h) (sym j, (ground (arith), ground (arith)))
text_of_parts s t (name, value ∷ more ∷ rest) j c h = ground (arith)

-- A text gives a tag exactly when it is the tag's.
tag_of-split : (s : String) (t : Tag) → tag_of (split "=" s) ≡ ok t ↔ IsTagText s t
tag_of-split s t = (
  text_of_parts s t (split "=" s) (joined-split "=" s) (clean-split "=" s),
  λ w.
      ap (λ r. tag_of (split "=" r)) w.0
      ∙ ap tag_of (split-append "=" t.name t.value w.1.0)
      ∙ ap (λ p. tag_of (t.name, p.0 ∷ p.1)) (split-clean "=" t.value w.1.1),
)

-- The first tag and those after it, put together.
abbrev both : Result Tag → Result (List Tag) → Result (List Tag)
both r rs = r >>= (λ t. rs >>= (λ ts. ok (t ∷ ts)))

both-nil : (r : Result Tag) (rs : Result (List Tag)) → ¬ (both r rs ≡ ok [])
both-nil (err e) rs h = ground (arith)
both-nil (ok t) (err e) h = ground (arith)
both-nil (ok t) (ok ts) h = ground (arith)

both-cons :
    (r : Result Tag) (rs : Result (List Tag)) (t : Tag) (ts : List Tag)
    → both r rs ≡ ok (t ∷ ts) ↔ ((r ≡ ok t) × (rs ≡ ok ts))
both-cons (err e) rs t ts = (λ h. ground (arith), λ w. ground (arith))
both-cons (ok u) (err e) t ts = (λ h. ground (arith), λ w. ground (arith))
both-cons (ok u) (ok us) t ts = (λ h. (cc, cc), λ w. cc)

decode_tags-ok : (ss : List String) (ts : List Tag) → decode_tags ss ≡ ok ts ↔ AreTagTexts ss ts
unfolding decode_tags
decode_tags-ok [] [] = (λ h. tt, λ h. refl)
decode_tags-ok [] (t ∷ ts) = (λ h. ground (arith), λ h. absurd h)
decode_tags-ok (s ∷ ss) [] = (both-nil (tag_of (split "=" s)) (decode_tags ss), λ h. absurd h)
decode_tags-ok (s ∷ ss) (t ∷ ts) =
    let pair = both-cons (tag_of (split "=" s)) (decode_tags ss) t ts in
    let rest = decode_tags-ok ss ts in
    let first = tag_of-split s t in
    (λ h. (first.0 (pair.0 h).0, rest.0 (pair.0 h).1), λ w. pair.1 (first.1 w.0, rest.1 w.1))

-- DecodeTagSelectorParam decodes texts to tags exactly when there are as many texts as tags and
-- each text is its tag's name, an equals sign and the tag's value, where neither name nor value
-- has an equals sign; so what is printed so is read back.
pub decode_tag_selector_param-ok :
    (ss : List String) (ts : List Tag)
    → decode_tag_selector_param (some ss) ≡ ok ts ↔ AreTagTexts ss ts
unfolding decode_tag_selector_param
decode_tag_selector_param-ok = decode_tags-ok
