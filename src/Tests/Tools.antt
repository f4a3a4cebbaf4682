-- ===== src/Tests/Tools.antt =====
-- The MCP server over the stand-in, with a network that calls the stand-in directly.
use claude_studio.Prelude.{
  ℕ, ◌≡◌, refl, sym, ap, String, str_eq, Option, none, some, if◌then◌else◌, ◌∷◌, [], map,
}
use claude_studio.Prelude.Int.{pos}
use claude_studio.Python.Json.{Json, str, int, obj, field, end, or_null}
use claude_studio.Python.Result.{ok, err, value_error, get}
use claude_studio.Python.Dict.{find}
use claude_studio.Github.Path.Laws.{full_name}
use claude_studio.Github.Api.{Issue, Server, serve, issue_json, stored, count}
use claude_studio.Github.Api.Calls.{closed}
use claude_studio.Github.Mcp.{Outside, closed_payload, call_tool, handle, run_lines}
use claude_studio.Github.Mcp.Replies.{is_quiet, IsAnswered, handle-IsAnswered}
use claude_studio.Github.Mcp.Session.{AreDicts, wanted, run_lines-answers}
use claude_studio.Python.Text.{strip}
use claude_studio.Github.Tools.{as_request, opening, Delivers, issue_session}
use claude_studio.Tests.Github.{empty, empty-IsValid, o_IsName, r_IsName}

-- Two payloads have a text.
abbrev dumps : Json → String
dumps (obj (field key v fs)) = if str_eq key "state" then "C" else "T"
dumps v = "?"

abbrev loads : String → Option Json
loads s =
    if str_eq s "C"
    then some closed_payload
    else if str_eq s "T"
    then some (opening "Bug" "text")
    else none

abbrev size : String → ℕ
size s = 1

abbrev network : Outside Server
network = record {
  token = "t";
  transport = λ call s. serve loads call.method (as_request dumps size call) s;
  dumps = dumps;
  display = λ v. "";
  error_text = λ e. "error";
  int_of_text = λ s. err (value_error s);
}

network-Delivers : Delivers network loads size (full_name "o" "r")
network-Delivers = record {
  token = refl;
  collection = λ m auth body s. refl;
  member = λ m n auth body s. refl;
}

issue_session_example :
    let one = obj (field "repo" (str (full_name "o" "r")) (field "number" (int (pos 1)) end)) in
    let (made, s1) =
      call_tool network
        (str "create_issue")
        (obj (
          field "repo"
            (str (full_name "o" "r"))
            (field "title" (str "Bug") (field "body" (str "text") end))))
        empty in
    let (shut, s2) = call_tool network (str "close_issue") one s1 in
    let (read, s3) = call_tool network (str "get_issue") one s2 in
    (i : Issue) × (i.number ≡ 1)
    × (i.title ≡ str "Bug")
    × (i.body ≡ str "text")
    × (i.state ≡ str "open")
    × (stored empty (full_name "o" "r") 1 ≡ none)
    × (made ≡ ok (issue_json i))
    × (shut ≡ ok (issue_json (closed i)))
    × (read ≡ ok (issue_json (closed i)))
unfolding count find
issue_session_example =
    issue_session network loads size "o" "r" o_IsName r_IsName network-Delivers "Bug" "text" empty
      empty-IsValid (refl, refl, refl) (refl, refl, refl)

abbrev ping : Json
ping = obj (field "method" (str "ping") (field "id" (int (pos 7)) end))

handle-IsAnswered_example :
    IsAnswered (is_quiet (str "ping") (int (pos 7))) (int (pos 7)) (handle network ping empty).0
handle-IsAnswered_example =
    handle-IsAnswered network (field "method" (str "ping") (field "id" (int (pos 7)) end)) empty

abbrev one_message : String → Option Json
one_message s = if str_eq s "ping" then some ping else none

ping_line-AreDicts : AreDicts one_message ("" ∷ " ping" ∷ [])
unfolding strip
ping_line-AreDicts = ((λ msg e. cc), ((λ msg e. (_, ap or_null (sym e))), tt))

run_lines-answers_example :
    let (sent, stop, _) = run_lines network one_message ("" ∷ " ping" ∷ []) empty in
    (stop ≡ ok tt) × (map (get "id") sent ≡ map ok (wanted one_message ("" ∷ " ping" ∷ [])))
run_lines-answers_example =
    run_lines-answers one_message network ("" ∷ " ping" ∷ []) empty ping_line-AreDicts
