-- ===== src/Github/Mcp.antt =====
-- test-harness/lib/github_mcp_server.py: the tools over the GitHub API and the JSON-RPC loop.
pub mod Replies
pub mod Session
use claude_studio.Prelude.{
  ℕ, zero, suc, ◌+◌, ◌/◌, ◌^◌, String, str_append, str_eq, Bool, true, false, not, ◌&&◌, Option,
  none, some, List, [], ◌∷◌, ◌++◌, leb, ltb, if◌then◌else◌,
}
use claude_studio.Prelude.Int.{ℤ, pos, negsuc}
use claude_studio.Python.Json.{
  Json, null, bool, int, float, str, arr, obj, Items, nil, cons, Fields, end, field, is_text,
}
use claude_studio.Python.Result.{
  Exception, Result, ok, err, type_error, value_error, http_error, get, get_or, index, ◌>>=◌,
}
use claude_studio.Python.Text.{strip}
use claude_studio.Github.Path.{show}
use claude_studio.Github.Api.{Method, get_method, post_method, patch_method, Response}

-- One call of the API, as `_api` hands it to `urlopen`.
pub record Call : Type 0 where
  pub method : Method
  pub path : String
  pub authorization : Option String
  pub body : Option Json

-- `urlopen` raises on every code that is no success.
unfoldable pub checked : Result Response → Result Json
checked (ok r) =
    if leb 200 r.code && ltb r.code 300 then ok r.content else err (http_error r.content)
checked (err e) = err e

-- What the server takes from outside: the token of its environment, the transport (`urlopen` with
-- the decoding of the answer), and the texts of values, exceptions and numbers in a text.
pub record Outside (W : Type 0) : Type 0 where
  pub token : String
  pub transport : Call → W → Result Response × W
  pub dumps : Json → String
  pub display : Json → String
  pub error_text : Exception → String
  pub int_of_text : String → Result ℤ

abbrev int_text : ℤ → String
int_text (pos n) = show n
int_text (negsuc n) = str_append "-" (show (n + 1))

-- `int` of a float cuts off its fraction.
abbrev truncated : ℤ → ℕ → ℤ
truncated (pos m) k = pos (m / 2 ^ k)
truncated (negsuc m) k = elim ((m + 1) / 2 ^ k) [ zero ↦ pos 0 | suc n ↦ negsuc n ]

-- The payload of a new issue.
abbrev pub new_payload : Json → Result Json
new_payload args = do
  title ← get_or "title" (str "") args
  body ← get_or "body" (str "") args
  ok (obj (field "title" title (field "body" body end)))

abbrev pub closed_payload : Json
closed_payload = obj (field "state" (str "closed") end)

abbrev rpc_message : Json → String → Json → Json
rpc_message mid key v = obj (field "jsonrpc" (str "2.0") (field "id" mid (field key v end)))

abbrev tool_content : String → Bool → Json
tool_content text is_error = obj (
    field "content" (arr (cons (obj (field "type" (str "text") (field "text" (str text) end))) nil))
      (field "isError" (bool is_error) end))

module _ {W : Type 0} (out : Outside W) where
  -- `if TOKEN: req.add_header("Authorization", f"token {TOKEN}")`
  abbrev pub authorization : Option String
  authorization = if str_eq out.token "" then none else some (str_append "token " out.token)

  -- `_api`
  unfoldable pub api : Method → String → Option Json → W → Result Json × W
  api method path body w =
      let (r, w') =
        out.transport
          (record { method = method; path = path; authorization = authorization; body = body }) w in
      (checked r, w')

  -- `f"{v}"`
  abbrev pub formatted : Json → String
  formatted (str s) = s
  formatted v = out.display v

  -- `int(v)`
  abbrev pub as_int : Json → Result ℤ
  as_int (int n) = ok n
  as_int (bool true) = ok (pos 1)
  as_int (bool false) = ok (pos 0)
  as_int (float m k) = ok (truncated m k)
  as_int (str s) = out.int_of_text s
  as_int null = err type_error
  as_int (arr vs) = err type_error
  as_int (obj fs) = err type_error

  abbrev pub raised : {A : Type 0} → Exception → W → Result A × W
  raised e w = (err e, w)

  -- A call whose arguments may fail to be built.
  abbrev pub after : {A : Type 0} → Result A → (A → W → Result Json × W) → W → Result Json × W
  after (ok a) k w = k a w
  after (err e) k w = (err e, w)

  abbrev pub issues_url : Json → String
  issues_url repo = str_append "/repos/" (str_append (formatted repo) "/issues")

  abbrev pub issue_url : Json → ℤ → String
  issue_url repo n =
      str_append "/repos/" (str_append (formatted repo) (str_append "/issues/" (int_text n)))

  -- `int(args['number'])`
  abbrev pub number_arg : Json → Result ℤ
  number_arg args = index "number" args >>= as_int

  -- `call_tool` behind its first line.
  unfoldable pub call_on : Json → Json → Json → W → Result Json × W
  call_on name args repo w =
      if is_text "create_issue" name
      then after (new_payload args) (λ payload. api post_method (issues_url repo) (some payload)) w
      else if is_text "close_issue" name
      then after (number_arg args) (λ n. api patch_method (issue_url repo n) (some closed_payload))
          w
      else if is_text "get_issue" name
      then after (number_arg args) (λ n. api get_method (issue_url repo n) none) w
      else (err (value_error (str_append "unknown tool: " (formatted name))), w)

  unfoldable pub call_tool : Json → Json → W → Result Json × W
  call_tool name args w = after (get_or "repo" (str "") args) (λ repo. call_on name args repo) w

  -- The answer to `tools/call`: an exception becomes a result that is marked as an error.
  unfoldable pub tool_answer : Result Json → Json
  tool_answer (ok v) = tool_content (out.dumps v) false
  tool_answer (err e) = tool_content (str_append "error: " (out.error_text e)) true

  -- The parameters of a message, as the `try` block reads them.
  unfoldable pub call_params : Json → W → Result Json × W
  call_params params w =
      after (get_or "name" (str "") params)
        (λ name. after (get_or "arguments" (obj end) params) (λ args. call_tool name args)) w

abbrev typed : String → Json
typed t = obj (field "type" (str t) end)

abbrev tool : String → String → String → Fields → Json
tool name description needed properties = obj (
    field "name" (str name) (
      field "description" (str description) (
        field "inputSchema"
          (obj (
            field "type" (str "object") (
              field "required" (arr (cons (str "repo") (cons (str needed) nil)))
                (field "properties" (obj (field "repo" (typed "string") properties)) end))))
          end)))

-- `TOOLS`
abbrev pub tools : Json
tools = arr (
    cons
      (tool "create_issue" "Create a GitHub issue" "title"
        (field "title" (typed "string") (field "body" (typed "string") end)))
      (cons
        (tool "close_issue" "Close a GitHub issue" "number" (field "number" (typed "integer") end))
        (cons
          (tool "get_issue" "Get a GitHub issue" "number" (field "number" (typed "integer") end))
          nil)))

abbrev pub server_info : Json
server_info = obj (
    field "protocolVersion" (str "2024-11-05") (
      field "capabilities" (obj (field "tools" (obj end) end)) (
        field "serverInfo"
          (obj (field "name" (str "github-mcp-fixture") (field "version" (str "1.0.0") end))) end)))

abbrev pub is_null : Json → Bool
is_null null = true
is_null v = false

abbrev unknown_method : String → Json
unknown_method text = obj (field "code" (int (negsuc 32600)) (field "message" (str text) end))

module _ {W : Type 0} (out : Outside W) where
  -- One message of the loop in `main`: what is sent, and the world behind it.
  unfoldable pub handle_method : Json → Json → Json → W → Result (List Json) × W
  handle_method method mid msg w =
      if is_text "initialize" method
      then (ok (rpc_message mid "result" server_info ∷ []), w)
      else if is_text "notifications/initialized" method
      then (ok [], w)
      else if is_text "tools/list" method
      then (ok (rpc_message mid "result" (obj (field "tools" tools end)) ∷ []), w)
      else if is_text "tools/call" method
      then elim (get_or "params" (obj end) msg) [
        | err e ↦ (err e, w)
        | ok params ↦
            let (r, w') = call_params out params w in
            (ok (rpc_message mid "result" (tool_answer out r) ∷ []), w')
      ]
      else if is_null mid
      then (ok [], w)
      else (
        ok (
            rpc_message mid "error"
              (unknown_method (str_append "method not found: " (formatted out method)))
            ∷ []),
        w,
      )

  unfoldable pub handle : Json → W → Result (List Json) × W
  handle msg w = elim (get "method" msg) [
    | err e ↦ (err e, w)
    | ok method ↦ elim (get "id" msg) [
      | err e ↦ (err e, w)
      | ok mid ↦ handle_method method mid msg w
    ]
  ]

  -- How the loop of `main` ends: the input is used up, or a message has raised.
  abbrev pub Session : Type 0
  Session = List Json × Result (Unit {0}) × W

  abbrev prepend : List Json → Session → Session
  prepend sent (later, stop, w) = (sent ++ later, stop, w)

  -- The loop of `main` over the lines of the input; `loads` stands for `json.loads`.
  unfoldable pub run_lines : (String → Option Json) → List String → W → Session
  run_lines loads [] w = ([], ok tt, w)
  run_lines loads (line ∷ lines) w =
      let text = strip line in
      let skip = run_lines loads lines w in
      elim (if str_eq text "" then none else loads text) [
        | none ↦ skip
        | some msg ↦
            let (r, w') = handle msg w in
            elim r [ err e ↦ ([], err e, w') | ok sent ↦ prepend sent (run_lines loads lines w') ]
      ]
