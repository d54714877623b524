-- ===== src/Tools/License.antt =====
-- hack/check_license/main.go: whether the Go files start with a license. A file is what the parser and
-- the file system give of it; the regular expression's matches and the number of a text are arguments.
pub mod Form
use text.Mathlib.Text.{starts_with}
use uni_core.Base.{
  ℕ, zero, suc, ◌-◌, String, Bool, true, false, not, ◌||◌, Option, none, some, List, [], ◌∷◌,
  length, get_elem?, split, is_some, nat_eq, ltb, ◌==◌, if◌then◌else◌,
}

-- The groups of the expression for a copyright: the first year, the last one or the empty string, and
-- the organization.
pub record Copyright : Type 0 where
  pub first : String
  pub last : String
  pub organization : String

-- Of the standard library: the groups where the expression matches, strconv.Atoi, strings.TrimSpace,
-- what is before a suffix, strings.Contains, and the text within a comment's delimiters.
pub record Texts : Type 0 where
  pub find_submatch : String → Option Copyright
  pub atoi : String → Option ℕ
  pub trim_space : String → String
  pub before_suffix : String → String → Option String
  pub contains_text : String → String → Bool
  pub within : String → String

-- The failures, without their text.
pub data Failure : Type 0 where
  not_c_style no_license no_copyright no_space bad_copyright bad_year other_year : Failure
  other_organization no_comments parse_error : Failure

-- The result of a check, or a panic on an index out of range.
pub data Checked : Type 0 where
  passed : Checked
  failed : Failure → Checked
  panics : Checked

abbrev pub fail_if : Bool → Failure → Checked → Checked
fail_if true f later = failed f
fail_if false f later = later

abbrev pub take : ℕ → List String → List String
take zero xs = []
take (suc n) [] = []
take (suc n) (x ∷ xs) = x ∷ take n xs

abbrev pub apache2_license_header : String
apache2_license_header =
    "Licensed under the Apache License, Version 2.0 (the \"License\");\nyou may not use this file except in compliance with the License.\nYou may obtain a copy of the License at\n\n    http://www.apache.org/licenses/LICENSE-2.0\n\nUnless required by applicable law or agreed to in writing, software\ndistributed under the License is distributed on an \"AS IS\" BASIS,\nWITHOUT WARRANTIES OR CONDITIONS OF ANY KIND, either express or implied.\nSee the License for the specific language governing permissions and\nlimitations under the License."

-- A Go file: the first comments of its comment groups, or none where it does not parse, and the text of
-- the file, or none where it cannot be read.
pub record GoFile : Type 0 where
  pub comments : Option (List String)
  pub data_text : Option String

module _ (t : Texts) (this_year : ℕ) where
  abbrev pub all_match : List String → Bool
  all_match [] = true
  all_match (line ∷ lines) = if not (is_some (t.find_submatch line)) then false else all_match lines

  abbrev pub year_checked : Option ℕ → Copyright → Checked
  year_checked none c = failed bad_year
  year_checked (some year) c =
      fail_if (not (nat_eq year this_year)) other_year
        (fail_if (not (c.organization == "Nscale.")) other_organization passed)

  abbrev pub last_year : Copyright → String
  last_year c = if not (c.last == "") then c.last else c.first

  -- Where the expression does not match, its groups are nil.
  abbrev pub groups_checked : Option Copyright → Checked
  groups_checked none = panics
  groups_checked (some c) = year_checked (t.atoi (last_year c)) c

  abbrev pub last_checked : Option String → Checked
  last_checked none = panics
  last_checked (some line) = groups_checked (t.find_submatch line)

  abbrev pub space_checked : Option String → List String → ℕ → Checked
  space_checked none copyrights last = panics
  space_checked (some line) copyrights last = fail_if (not (line == "")) no_space (
      fail_if (not (all_match copyrights)) bad_copyright (last_checked (get_elem? copyrights last)))

  unfoldable pub check_lines : List String → Checked
  check_lines lines =
      let last_header_line = length lines - 2 in
      fail_if (ltb (length lines) 3) no_copyright (
        space_checked (get_elem? lines last_header_line) (take last_header_line lines)
          (last_header_line - 1))

  abbrev pub header_checked : Option String → Checked
  header_checked none = failed no_license
  header_checked (some header) = let (part, parts) = split "\n" header in check_lines (part ∷ parts)

  unfoldable pub check_license : String → Checked
  unfolding check_lines
  check_license comment =
      fail_if (not (starts_with comment "/*")) not_c_style
        (header_checked (t.before_suffix (t.trim_space (t.within comment)) apache2_license_header))

  abbrev comment_is_go_build : String → Bool
  comment_is_go_build comment = starts_with comment "//go:build"

  abbrev second_checked : List String → Checked
  second_checked [] = panics
  second_checked (comment ∷ rest) = check_license comment

  -- The first comment, or the second one where the first is a build constraint; without a second one the
  -- index is out of range.
  unfoldable check_go_license_in_comments : List String → Checked
  unfolding check_license
  check_go_license_in_comments [] = failed no_comments
  check_go_license_in_comments (first ∷ rest) =
      if comment_is_go_build first then second_checked rest else check_license first

  abbrev check_go_license_file : Option (List String) → Checked
  check_go_license_file none = failed parse_error
  check_go_license_file (some comments) = check_go_license_in_comments comments

  abbrev any_contains : List String → Bool
  any_contains [] = false
  any_contains (line ∷ lines) = t.contains_text line "Code generated by" || any_contains lines

  abbrev lines_of : String → List String
  lines_of text = let (part, parts) = split "\n" text in part ∷ parts

  -- The text is not read where the file is; none is an error.
  abbrev ignore_file : Option String → Option Bool
  ignore_file none = none
  ignore_file (some text) = some (any_contains (lines_of text))

  -- Whether there were errors, if nothing panics.
  abbrev and_then : Checked → Option Bool → Option Bool
  and_then panics later = none
  and_then passed later = later
  and_then (failed f) none = none
  and_then (failed f) (some has_errors) = some true

  abbrev error_and : Option Bool → Option Bool
  error_and none = none
  error_and (some has_errors) = some true

  abbrev one_file : Option Bool → GoFile → Option Bool → Option Bool
  one_file none file later = error_and (and_then (check_go_license_file file.comments) later)
  one_file (some true) file later = later
  one_file (some false) file later = and_then (check_go_license_file file.comments) later

  -- Whether the tool exits with an error.
  unfoldable check_go_license : List GoFile → Option Bool
  unfolding check_go_license_in_comments
  check_go_license [] = some false
  check_go_license (file ∷ files) =
      one_file (ignore_file file.data_text) file (check_go_license files)
