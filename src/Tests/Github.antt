-- ===== src/Tests/Github.antt =====
-- The GitHub stand-in from its empty start: two issues, a patch, and requests that are refused.
use claude_studio.Prelude.{
  ◌+◌, ◌≡◌, refl, String, str_eq, eq_iff, false, ◌&&◌, Option, none, some, [], ◌∷◌, arith, ◌==◌,
  if◌then◌else◌, ℕ,
}
use claude_studio.Python.Json.{Json, str, obj, end, field}
use claude_studio.Prelude.Int.{pos}
use claude_studio.Python.Result.{ok, err, type_error}
use claude_studio.Python.Text.{strip}
use claude_studio.Python.Dict.{find}
use claude_studio.Github.Path.{issues, issue, route, show, number_of, digits_value}
use claude_studio.Github.Path.Laws.{
  IsName, full_name, issues_path, issue_path, route-issues_path, route-issue_path,
}
use claude_studio.Github.Api.{
  Issue, Server, Request, get_method, post_method, patch_method, serve, do_patch, issue_json,
  unauthorized, auth_ok, stored, count, read_json, do_post, new_issue,
}
use claude_studio.Github.Api.Store.{IsValid}
use claude_studio.Github.Api.Auth.{is_401, serve-unauthorized, serve-admitted}
use claude_studio.Github.Api.Methods.{IsSafe, serve_all, serve_all-IsSafe, do_post-created}

route_test : route "/repos/o/r/issues/042" ≡ issue "o" "r" 42
unfolding route number_of digits_value
route_test = refl

show_test : show 1203 ≡ "1203"
unfolding show
show_test = refl

pub o_IsName : IsName "o"
o_IsName = ((omega arith, tt), ground (arith, eq_iff "o" ""))

pub r_IsName : IsName "r"
r_IsName = ((omega arith, tt), ground (arith, eq_iff "r" ""))

route-issue_path_example : route (issue_path (full_name "o" "r") 42) ≡ issue "o" "r" 42
route-issue_path_example = route-issue_path "o" "r" 42 o_IsName r_IsName

route-issues_path_example : route (issues_path (full_name "o" "r")) ≡ issues "o" "r"
route-issues_path_example = route-issues_path "o" "r" o_IsName r_IsName

-- `json.loads` on the one body of these requests.
abbrev loads : String → Option Json
loads s = if str_eq s "T" then some (obj (field "title" (str "Bug") end)) else none

abbrev request : String → Option String → String → Request
request path token content = record {
  path = path;
  authorization = token;
  content_length = ok (pos 1);
  content = some content;
}

abbrev pub empty : Server
empty = record { issues = []; counter = [] }

pub empty-IsValid : IsValid empty
unfolding stored find
empty-IsValid = record { counted = λ key n i h. cc; numbered = λ key n i h. cc }

abbrev post : Request
post = request "/repos/o/r/issues" (some "token t") "T"

abbrev first : Issue
first = record {
  number = 1;
  title = str "Bug";
  body = str "";
  state = str "open";
  html_url = "https://github.com/o/r/issues/1";
}

serve_all-IsSafe_example : IsSafe empty (
    serve_all loads
      ((post_method, post)
        ∷ (post_method, post)
        ∷ (patch_method, request "/repos/o/r/issues/1" (some "token t") "T")
        ∷ (get_method, request "/health" none "")
        ∷ [])
      empty)
serve_all-IsSafe_example = serve_all-IsSafe loads _ empty empty-IsValid

serve-unauthorized_example :
    serve loads patch_method (request "/repos/o/r/issues/1" none "T") empty
    ≡ (ok unauthorized, empty)
serve-unauthorized_example =
    serve-unauthorized loads patch_method (request "/repos/o/r/issues/1" none "T") empty refl refl

serve-admitted_example :
    is_401 (serve loads get_method (request "/repos/o/r/issues/1" (some " t") "") empty).0 ≡ false
serve-admitted_example =
    serve-admitted loads get_method (request "/repos/o/r/issues/1" (some " t") "") empty refl

-- A header of spaces is no token.
blank_test :
    serve loads patch_method (request "/repos/o/r/issues/1" (some "  ") "T") empty
    ≡ (ok unauthorized, empty)
unfolding serve do_patch auth_ok strip
blank_test = refl

-- A malformed length raises before anything is changed.
length_test :
    do_post loads (record post { content_length = err type_error }) empty ≡ (err type_error, empty)
unfolding do_post read_json auth_ok strip route
length_test = refl

post_payload : read_json loads post ≡ ok (obj (field "title" (str "Bug") end))
unfolding read_json
post_payload = refl

post_creates :
    new_issue "o" "r" (count empty "o/r" + 1) (obj (field "title" (str "Bug") end)) ≡ ok first
unfolding new_issue count find show
post_creates = refl

do_post-created_example :
    ((do_post loads post empty).0 ≡ ok (record { code = 201; content = issue_json first }))
    × (first.number ≡ count empty "o/r" + 1)
    × (first.state ≡ str "open")
    × (stored empty "o/r" (count empty "o/r" + 1) ≡ none)
    × (count (do_post loads post empty).1 "o/r" ≡ count empty "o/r" + 1)
    × ((k : String) (m : ℕ)
        → stored (do_post loads post empty).1 k m
          ≡ (if str_eq "o/r" k && count empty "o/r" + 1 == m then some first else stored empty k m))
unfolding auth_ok strip route
do_post-created_example =
    do_post-created loads post empty "o" "r" empty-IsValid refl refl post_payload post_creates
