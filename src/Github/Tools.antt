-- ===== src/Github/Tools.antt =====
-- test-harness/lib/github_mcp_server.py against test-harness/lib/github_api_mock.py: an issue that is
-- created, closed and read through the tools, over a network that hands the calls on as they are.
use text.Mathlib.TextLemmas.{cons-append}
use claude_studio.Prelude.{
  ℕ, ◌+◌, ◌≡◌, refl, ◌∙◌, String, str_append, str_eq, true, false, Option, none, some,
  if◌then◌else◌, ◌==◌,
}
use claude_studio.Prelude.Int.{pos}
use claude_studio.Python.Json.{Json, str, int, obj, field, end}
use claude_studio.Python.Result.{Result, ok}
use claude_studio.Python.Text.{strip, strip-ne-empty}
use claude_studio.Python.Dict.{same_refl, nat_key, text_key}
use claude_studio.Github.Path.Laws.{
  IsName, full_name, issues_path, issue_path, route-issues_path, route-issue_path,
}
use claude_studio.Github.Api.{
  Issue, Server, Request, Method, get_method, post_method, patch_method, serve, auth_ok, issue_json,
  new_issue, count, stored, save, read_json, url,
}
use claude_studio.Github.Api.Store.{IsValid}
use claude_studio.Github.Api.Methods.{do_post-created}
use claude_studio.Github.Api.Calls.{closed, stored-save_self, do_get-found, do_patch-closed}
use claude_studio.Github.Mcp.{Call, Outside, closed_payload, api, checked, call_on, call_tool}

module _ (dumps : Json → String) (size : String → ℕ) where
  -- The request that a call of `_api` becomes.
  abbrev pub as_request : Call → Request
  as_request call = record {
    path = call.path;
    authorization = call.authorization;
    content_length = ok (pos (elim call.body [ none ↦ 0 | some v ↦ size (dumps v) ]));
    content = some (elim call.body [ none ↦ "" | some v ↦ dumps v ]);
  }

abbrev pub opening : String → String → Json
opening title body = obj (field "title" (str title) (field "body" (str body) end))

-- The network hands on what the tools ask of one repository, and the stand-in reads a payload as it
-- was written.
pub record Delivers (out : Outside Server) (loads : String → Option Json) (size : String → ℕ)
    (full : String) : Type 0 where
  pub token : str_eq out.token "" ≡ false
  pub collection :
      (m : Method) (auth : Option String) (body : Option Json) (s : Server)
      → let call : Call = record {
        method = m;
        path = issues_path full;
        authorization = auth;
        body = body;
      } in
        out.transport call s ≡ serve loads m (as_request out.dumps size call) s
  pub member :
      (m : Method) (n : ℕ) (auth : Option String) (body : Option Json) (s : Server)
      → let call : Call = record {
        method = m;
        path = issue_path full n;
        authorization = auth;
        body = body;
      } in
        out.transport call s ≡ serve loads m (as_request out.dumps size call) s

-- A payload that is sent is read back.
abbrev pub IsReadBack : Outside Server → (String → Option Json) → (String → ℕ) → Json → Type 0
IsReadBack out loads size v =
    ((size (out.dumps v) == 0) ≡ false)
    × (str_eq (out.dumps v) "" ≡ false)
    × (loads (out.dumps v) ≡ some v)

token-strip : (t : String) → str_eq (strip (str_append "token " t)) "" ≡ false
token-strip t = rw (cons-append) (strip-ne-empty _ _ refl)

module _ (out : Outside Server) (loads : String → Option Json) (size : String → ℕ)
    (owner name : String) (owner_ok : IsName owner) (name_ok : IsName name)
    (net : Delivers out loads size (full_name owner name)) where
  abbrev tool : String → Json → Server → Result Json × Server
  tool which args s = call_tool out (str which) args s

  abbrev repo : Json
  repo = str (full_name owner name)

  -- The request behind a call that this server makes.
  abbrev behind : Method → String → Option Json → Request
  behind m path body = as_request out.dumps size (record {
    method = m;
    path = path;
    authorization = if str_eq out.token "" then none else some (str_append "token " out.token);
    body = body;
  })

  behind-auth_ok :
      (m : Method) (path : String) (body : Option Json) → auth_ok (behind m path body) ≡ true
  unfolding auth_ok
  behind-auth_ok m path body = rw (net.token, token-strip out.token) refl

  behind-read_json :
      (m : Method) (path : String) (v : Json)
      → IsReadBack out loads size v
      → read_json loads (behind m path (some v)) ≡ ok v
  unfolding read_json
  behind-read_json m path v back = rw (back.0, back.1, back.2) refl

  close-ok :
      (n : ℕ) (i : Issue) (s : Server)
      → IsReadBack out loads size closed_payload
      → stored s (full_name owner name) n ≡ some i
      → tool "close_issue" (obj (field "repo" repo (field "number" (int (pos n)) end))) s
        ≡ (ok (issue_json (closed i)), save (full_name owner name) n (closed i) s)
  unfolding call_tool call_on api serve checked
  close-ok n i s back there =
      let path = issue_path (full_name owner name) n in
      let r = behind patch_method path (some closed_payload) in
      let done =
        do_patch-closed loads r s owner name n i
          (behind-auth_ok patch_method path (some closed_payload))
          (route-issue_path owner name n owner_ok name_ok) there
          (behind-read_json patch_method path closed_payload back) in
      rw (net.member patch_method n _ _ s, done) refl

  get-ok :
      (n : ℕ) (i : Issue) (s : Server)
      → stored s (full_name owner name) n ≡ some i
      → tool "get_issue" (obj (field "repo" repo (field "number" (int (pos n)) end))) s
        ≡ (ok (issue_json i), s)
  unfolding call_tool call_on api serve checked
  get-ok n i s there =
      let path = issue_path (full_name owner name) n in
      let done =
        do_get-found loads (behind get_method path none) s owner name n i
          (behind-auth_ok get_method path none) (route-issue_path owner name n owner_ok name_ok)
          there in
      rw (net.member get_method n _ _ s, done) refl

  create-ok :
      (title body : String) (s : Server)
      → IsValid s
      → IsReadBack out loads size (opening title body)
      → let key = full_name owner name in
        let n = count s key + 1 in
        let args =
          obj (field "repo" repo (field "title" (str title) (field "body" (str body) end))) in
        (i : Issue) × (i.title ≡ str title)
        × (i.body ≡ str body)
        × (i.state ≡ str "open")
        × (i.number ≡ n)
        × (stored s key n ≡ none)
        × ((tool "create_issue" args s).0 ≡ ok (issue_json i))
        × (stored (tool "create_issue" args s).1 key n ≡ some i)
  unfolding call_tool call_on api serve checked new_issue
  create-ok title body s valid back =
      let key = full_name owner name in
      let n = count s key + 1 in
      let r = behind post_method (issues_path key) (some (opening title body)) in
      let payload = behind-read_json post_method (issues_path key) (opening title body) back in
      let i : Issue = record {
        number = n;
        title = str title;
        body = str body;
        state = str "open";
        html_url = url owner name n;
      } in
      let (answer, number, opened, free, _, after) =
        do_post-created loads r s owner name {i = i} valid
          (behind-auth_ok post_method (issues_path key) (some (opening title body)))
          (route-issues_path owner name owner_ok name_ok) payload refl in
      (
        i,
        refl,
        refl,
        refl,
        refl,
        free,
        rw (net.collection post_method _ _ s, answer) refl,
        rw (net.collection post_method _ _ s) (after key n ∙ rw (same_refl key, same_refl n) refl),
      )

  -- An issue that is created through the tools gets the next number, which was free; closing that
  -- number answers with the issue, its state closed and the rest kept, and reading it afterwards
  -- answers the same, if the network delivers and the two payloads are read back.
  pub issue_session :
      (title body : String) (s : Server)
      → IsValid s
      → IsReadBack out loads size (opening title body)
      → IsReadBack out loads size closed_payload
      → let key = full_name owner name in
        let n = count s key + 1 in
        let one = obj (field "repo" repo (field "number" (int (pos n)) end)) in
        let (made, s1) =
          tool "create_issue"
            (obj (field "repo" repo (field "title" (str title) (field "body" (str body) end))))
            s in
        let (shut, s2) = tool "close_issue" one s1 in
        let (read, s3) = tool "get_issue" one s2 in
        (i : Issue) × (i.number ≡ n)
        × (i.title ≡ str title)
        × (i.body ≡ str body)
        × (i.state ≡ str "open")
        × (stored s key n ≡ none)
        × (made ≡ ok (issue_json i))
        × (shut ≡ ok (issue_json (closed i)))
        × (read ≡ ok (issue_json (closed i)))
  issue_session title body s valid back back' =
      let key = full_name owner name in
      let n = count s key + 1 in
      let (i, has_title, has_body, opened, number, free, made, there) =
        create-ok title body s valid back in
      let s1 =
        (tool "create_issue"
          (obj (field "repo" repo (field "title" (str title) (field "body" (str body) end))))
          s).1 in
      let shut = close-ok n i s1 back' there in
      let read =
        get-ok n (closed i) (save key n (closed i) s1) (stored-save_self key n (closed i) s1) in
      (i, number, has_title, has_body, opened, free, made, rw shut refl, rw (shut, read) refl)
