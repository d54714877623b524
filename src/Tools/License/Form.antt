-- ===== src/Tools/License/Form.antt =====
-- hack/check_license/main.go: the lines of a comment that passes.
use text.Mathlib.Text.{starts_with}
use uni_core.Base.{ℕ, String, ◌≡◌, true, not, some, List, [], ◌∷◌, ◌++◌, split, ◌==◌}
use uni_core.Tools.License.{
  Texts, Copyright, Checked, fail_if, all_match, last_checked, last_year, no_space,
  apache2_license_header, bad_copyright,
}

-- The lines are so many, one, a blank one and one more.
abbrev pub four : List String → String → String → String → List String
four front last blank rest = front ++ last ∷ blank ∷ rest ∷ []

module _ (t : Texts) (this_year : ℕ) where
  -- What is checked once the lines are in this form.
  abbrev checks : List String → String → String → Checked
  checks front last blank = fail_if (not (blank == "")) no_space (
      fail_if (not (all_match t this_year (front ++ last ∷ []))) bad_copyright
        (last_checked t this_year (some last)))

  -- Copyrights, of which the last is of this year and of the organization, and a blank line, and one
  -- more line, of which nothing is said.
  pub record IsLicensed (lines : List String) : Type 0 where
    pub front : List String
    pub last : String
    pub rest : String
    pub copyright : Copyright
    pub form : lines ≡ four front last "" rest
    pub matching : all_match t this_year (front ++ last ∷ []) ≡ true
    pub groups : t.find_submatch last ≡ some copyright
    pub year : t.atoi (last_year t this_year copyright) ≡ some this_year
    pub organization : copyright.organization ≡ "Nscale."

  -- A C comment that ends, but for space, with the license, after the lines above.
  abbrev pub IsLicense : String → Type 0
  IsLicense comment =
      (starts_with comment "/*" ≡ true)
      × ((header : String) × (t.before_suffix (t.trim_space (t.within comment))
              apache2_license_header
            ≡ some header)
          × IsLicensed ((split "\n" header).0 ∷ (split "\n" header).1))
