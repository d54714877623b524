-- ===== src/Server/Errors/Challenge.antt =====
-- pkg/server/errors/errors.go: the WWW-Authenticate header of an error.
use uni_core.Base.{
  String, str_append, Option, none, some, List, [], map, Dict, lookup, insert, join,
}
use uni_core.Base.Sorting.{sort}
use uni_core.Server.Errors.{HttpError, new_error, with_header}

-- The fields of each challenge.
abbrev pub WwwAuthenticateHeader : Type 0
WwwAuthenticateHeader = Dict (Dict String)

abbrev pub new_www_authenticate_header : WwwAuthenticateHeader
new_www_authenticate_header = []

abbrev fields_at : Option (Dict String) → Dict String
fields_at none = []
fields_at (some fields) = fields

unfoldable pub add_field : WwwAuthenticateHeader → String → String → String → WwwAuthenticateHeader
add_field header challenge key value =
    insert challenge (insert key value (fields_at (lookup challenge header))) header

abbrev value_at : Option String → String
value_at none = ""
value_at (some value) = value

abbrev field_of : Dict String → String → String
field_of fields key =
    str_append key (str_append "=\"" (str_append (value_at (lookup key fields)) "\""))

abbrev challenge_of : WwwAuthenticateHeader → String → String
challenge_of header challenge =
    let fields = fields_at (lookup challenge header) in
    str_append challenge
      (str_append " " (join "," (map (field_of fields) (sort (map (λ e. e.0) fields)))))

unfoldable pub encode : WwwAuthenticateHeader → String
encode header = join ", " (map (challenge_of header) (sort (map (λ e. e.0) header)))

-- `host` is that of the request. fmt.Sprint joins strings without spaces.
unfoldable pub access_denied : String → List String → HttpError
unfolding add_field encode
access_denied host operands =
    let first = add_field new_www_authenticate_header "Bearer" "error" "access_denied" in
    let second = add_field first "Bearer" "error_description" (join "" operands) in
    let metadata =
      str_append "https://" (str_append host "/.well-known/openid-protected-resource") in
    let header = add_field second "Bearer" "resource_metadata" metadata in
    with_header (new_error 401 "access_denied" operands) "WWW-Authenticate" (encode header)
