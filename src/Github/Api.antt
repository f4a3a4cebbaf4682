-- ===== src/Github/Api.antt =====
-- `Handler` of test-harness/lib/github_api_mock.py: the issue store and the three methods. A
-- request's body is what its bytes are after `decode`, `none` if it raises; `loads` stands for
-- `json.loads`.
pub mod Store
pub mod Methods
pub mod Auth
pub mod Calls
use claude_studio.Prelude.{
  ℕ, zero, suc, ◌+◌, String, str_append, str_eq, Bool, true, false, not, ◌||◌, Option, none, some,
  List, [], ◌∷◌, ◌==◌, if◌then◌else◌,
}
use claude_studio.Prelude.Int.{ℤ, pos, negsuc}
use claude_studio.Python.Json.{
  Json, null, bool, int, float, str, arr, obj, Items, nil, cons, Fields, end, field, lookup,
  is_text,
}
use claude_studio.Python.Result.{
  Exception, Result, ok, err, type_error, get_or, index, attribute_error, ◌>>=◌,
}
use claude_studio.Python.Text.{strip, contains}
use claude_studio.Python.Dict.{Dict, find, put, or_default, nat_key, text_key}
use claude_studio.Github.Path.{Route, issues, issue, nowhere, route, show}

-- An entry of `ISSUES`. The texts of a payload are taken over unchecked, so they can be any value.
pub record Issue : Type 0 where
  pub number : ℕ
  pub title : Json
  pub body : Json
  pub state : Json
  pub html_url : String

-- `ISSUES` and `COUNTER`.
pub record Server : Type 0 where
  pub issues : Dict String (Dict ℕ Issue)
  pub counter : Dict String ℕ

-- `content_length` is what `int` makes of the header (0 if it is missing or empty): it raises on a
-- malformed one.
pub record Request : Type 0 where
  pub path : String
  pub authorization : Option String
  pub content_length : Result ℤ
  pub content : Option String

pub data Method : Type 0 where
  get_method post_method patch_method : Method

pub record Response : Type 0 where
  pub code : ℕ
  pub content : Json

abbrev pub issue_json : Issue → Json
issue_json i = obj (
    field "number" (int (pos i.number)) (
      field "title" i.title
        (field "body" i.body (field "state" i.state (field "html_url" (str i.html_url) end)))))

abbrev message : String → Json
message text = obj (field "message" (str text) end)

abbrev pub unauthorized : Response
unauthorized = record { code = 401; content = message "Requires authentication" }

abbrev pub not_found : Response
not_found = record { code = 404; content = message "Not Found" }

-- `_auth_ok`
unfoldable pub auth_ok : Request → Bool
auth_ok r = not (str_eq (strip (or_default "" r.authorization)) "")

abbrev pub repo_key : String → String → String
repo_key owner repo = str_append owner (str_append "/" repo)

-- `ISSUES.get(key, {}).get(num)`
unfoldable pub stored : Server → String → ℕ → Option Issue
stored s key n = find n (or_default [] (find key s.issues))

-- `COUNTER.get(key, 0)`
unfoldable pub count : Server → String → ℕ
count s key = or_default 0 (find key s.counter)

-- `ISSUES.setdefault(key, {})[n] = i`
unfoldable pub save : String → ℕ → Issue → Server → Server
save key n i s = record s {
  issues = put key (put n i (or_default [] (find key s.issues))) s.issues;
}

abbrev any_text : String → Items → Bool
any_text k nil = false
any_text k (cons v vs) = is_text k v || any_text k vs

-- `k in v`
abbrev pub has_key : String → Json → Result Bool
has_key k (obj fs) = ok (elim (lookup k fs) [ none ↦ false | some _ ↦ true ])
has_key k (arr vs) = ok (any_text k vs)
has_key k (str s) = ok (contains k s)
has_key k null = err type_error
has_key k (bool b) = err type_error
has_key k (int n) = err type_error
has_key k (float m e) = err type_error

abbrev pub url : String → String → ℕ → String
url owner repo n =
    str_append "https://github.com/"
      (str_append owner (str_append "/" (str_append repo (str_append "/issues/" (show n)))))

-- The new issue of a `POST`, numbered `n`.
unfoldable pub new_issue : String → String → ℕ → Json → Result Issue
new_issue owner repo n payload = do
  title ← get_or "title" (str "") payload
  body ← get_or "body" (str "") payload
  ok (record {
    number = n;
    title = title;
    body = body;
    state = str "open";
    html_url = url owner repo n;
  })

-- `do_post` behind the routing. The counter has gone up when a payload that is no dict raises.
unfoldable pub create : String → String → Json → Server → Result Response × Server
create owner repo payload s =
    let key = repo_key owner repo in
    let n = count s key + 1 in
    let s' : Server = record s { counter = put key n s.counter } in
    elim (new_issue owner repo n payload) [
      | ok i ↦ (ok (record { code = 201; content = issue_json i }), save key n i s')
      | err e ↦ (err e, s')
    ]

-- `if "state" in payload: issue["state"] = payload["state"]`
unfoldable pub patch_state : Json → Issue → Result Issue
patch_state payload i = do
  there ← has_key "state" payload
  state ← if there then index "state" payload else ok i.state
  ok (record i { state = state })

unfoldable pub patch_title : Json → Issue → Result Issue
patch_title payload i = do
  there ← has_key "title" payload
  title ← if there then index "title" payload else ok i.title
  ok (record i { title = title })

-- `do_patch` behind the routing, on an issue that is there: a change that is made before the
-- handler raises stays.
unfoldable pub update : String → ℕ → Json → Issue → Server → Result Response × Server
update key n payload i s = elim (patch_state payload i) [
  | err e ↦ (err e, s)
  | ok i' ↦ elim (patch_title payload i') [
    | err e ↦ (err e, save key n i' s)
    | ok i'' ↦ (ok (record { code = 200; content = issue_json i'' }), save key n i'' s)
  ]
]

-- The negation of `n <= 0`.
abbrev is_positive : ℤ → Bool
is_positive (pos n) = not (n == 0)
is_positive (negsuc n) = false

module _ (loads : String → Option Json) where
  -- `_read_json`
  unfoldable pub read_json : Request → Result Json
  read_json r = do
    n ← r.content_length
    ok (
        if is_positive n
        then (elim r.content [
          | none ↦ obj end
          | some body ↦ or_default (obj end) (loads (if str_eq body "" then "{}" else body))
        ])
        else obj end)

  -- A handler that raises sends no response; what it has written stays.
  unfoldable pub do_get : Request → Server → Result Response × Server
  do_get r s =
      if str_eq r.path "/health"
      then (ok (record { code = 200; content = obj (field "ok" (bool true) end) }), s)
      else if not (auth_ok r)
      then (ok unauthorized, s)
      else (
        elim (route r.path) [
          | issue owner repo n ↦ elim (stored s (repo_key owner repo) n) [
            | some i ↦ ok (record { code = 200; content = issue_json i })
            | none ↦ ok not_found
          ]
          | _ ↦ ok not_found
        ],
        s,
      )

  unfoldable pub do_post : Request → Server → Result Response × Server
  do_post r s = if not (auth_ok r) then (ok unauthorized, s) else elim (route r.path) [
    | issues owner repo ↦ elim (read_json r) [
      | ok payload ↦ create owner repo payload s
      | err e ↦ (err e, s)
    ]
    | _ ↦ (ok not_found, s)
  ]

  unfoldable pub do_patch : Request → Server → Result Response × Server
  do_patch r s = if not (auth_ok r) then (ok unauthorized, s) else elim (route r.path) [
    | issue owner repo n ↦ elim (stored s (repo_key owner repo) n) [
      | some i ↦ elim (read_json r) [
        | ok payload ↦ update (repo_key owner repo) n payload i s
        | err e ↦ (err e, s)
      ]
      | none ↦ (ok not_found, s)
    ]
    | _ ↦ (ok not_found, s)
  ]

  -- The methods of the handler class, by the request's method.
  unfoldable pub serve : Method → Request → Server → Result Response × Server
  serve get_method r s = do_get r s
  serve post_method r s = do_post r s
  serve patch_method r s = do_patch r s
