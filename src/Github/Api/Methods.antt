-- ===== src/Github/Api/Methods.antt =====
-- What each method of the GitHub stand-in does to the store, and what a client gets back.
use claude_studio.Prelude.{
  ℕ, ◌+◌, ◌≡◌, refl, sym, ◌∙◌, String, str_eq, true, ◌&&◌, Option, none, some, List, [], ◌∷◌, arith,
  ◌==◌, if◌then◌else◌, Bool-cases, Option-cases, inl, inr,
}
use claude_studio.Python.Json.{Json, str}
use claude_studio.Python.Result.{Result, ok, err, Result-cases, >>=-inv, ok-injective, index}
use claude_studio.Python.Dict.{same_refl, text_key}
use claude_studio.Github.Path.{Route, issues, issue, route}
use claude_studio.Github.Api.{
  Issue, Server, Request, Response, Method, get_method, post_method, patch_method, serve,
  issue_json, not_found, auth_ok, repo_key, stored, count, save, has_key, read_json, do_get,
  new_issue, create, do_post, patch_state, patch_title, update, do_patch,
}
use claude_studio.Github.Api.Store.{
  IsValid, Persists, Persists-refl, Persists-trans, IsSameIssue, stored-save, count-save,
  save-IsValid, save-Persists, save_new-Persists, bump, bump-IsValid, bump-Persists, stored-bump,
  count-bump, next_is_free,
}

-- The store stays valid and loses nothing.
abbrev pub IsSafe : Server → Server → Type 0
IsSafe s t = IsValid t × Persists s t

new_issue-number :
    (owner repo : String) (n : ℕ) (payload : Json) {i : Issue}
    → new_issue owner repo n payload ≡ ok i
    → (i.number ≡ n) × (i.state ≡ str "open")
unfolding new_issue
new_issue-number owner repo n payload h = ground arith

patch_state-same :
    (payload : Json) (i : Issue) {j : Issue} → patch_state payload i ≡ ok j → IsSameIssue i j
unfolding patch_state
patch_state-same payload i {j} h =
    let (there, p, h1) = >>=-inv (has_key "state" payload) _ h in
    let (state, q, h2) = >>=-inv (if there then index "state" payload else ok i.state) _ h1 in
    rw (sym (ok-injective h2)) (refl, refl, refl)

patch_title-same :
    (payload : Json) (i : Issue) {j : Issue} → patch_title payload i ≡ ok j → IsSameIssue i j
unfolding patch_title
patch_title-same payload i {j} h =
    let (there, p, h1) = >>=-inv (has_key "title" payload) _ h in
    let (title, q, h2) = >>=-inv (if there then index "title" payload else ok i.title) _ h1 in
    rw (sym (ok-injective h2)) (refl, refl, refl)

create-IsSafe :
    (owner repo : String) (payload : Json) (s : Server)
    → IsValid s
    → IsSafe s (create owner repo payload s).1
unfolding create
create-IsSafe owner repo payload s v =
    let key = repo_key owner repo in
    let n = count s key + 1 in
    let bumped = bump-IsValid key s v in
    elim (Result-cases (new_issue owner repo n payload)) [
      | inl (i, e) ↦
          let (num, _) = new_issue-number owner repo n payload e in
          rw (e, create)
            (
              save-IsValid key n i (bump key s) bumped
                  (rw (count-bump key key s, same_refl key) (omega arith)) num,
              Persists-trans s (bump key s) (save key n i (bump key s)) (bump-Persists key s) (
                  save_new-Persists key n i (bump key s)
                    (rw (stored-bump key key n s) (next_is_free key s v))),
            )
      | inr (x, e) ↦ rw (e, create) (bumped, bump-Persists key s)
    ]

IsSameIssue-trans : (i j k : Issue) → IsSameIssue i j → IsSameIssue j k → IsSameIssue i k
IsSameIssue-trans i j k (a, b, c) (a', b', c') = (a' ∙ a, b' ∙ b, c' ∙ c)

-- An issue that continues the stored one is put in its place.
continue-IsSafe :
    (key : String) (n : ℕ) (i j : Issue) (s : Server)
    → IsValid s
    → stored s key n ≡ some i
    → IsSameIssue i j
    → IsSafe s (save key n j s)
continue-IsSafe key n i j s v there same = (
  save-IsValid key n j s v (v.counted key n i there) (same.0 ∙ v.numbered key n i there),
  save-Persists key n i j s there same,
)

update-IsSafe :
    (key : String) (n : ℕ) (payload : Json) (i : Issue) (s : Server)
    → IsValid s
    → stored s key n ≡ some i
    → IsSafe s (update key n payload i s).1
unfolding update
update-IsSafe key n payload i s v there = elim (Result-cases (patch_state payload i)) [
  | inr (x, e) ↦ rw (e, update) (v, Persists-refl s)
  | inl (j, e) ↦ elim (Result-cases (patch_title payload j)) [
    | inr (x, e') ↦
        rw (e, update, e') (continue-IsSafe key n i j s v there (patch_state-same payload i e))
    | inl (k, e') ↦
        rw (e, update, e')
          (continue-IsSafe key n i k s v there (
            IsSameIssue-trans i j k (patch_state-same payload i e) (patch_title-same payload j e')))
  ]
]

module _ (loads : String → Option Json) where
  do_post-IsSafe : (r : Request) (s : Server) → IsValid s → IsSafe s (do_post loads r s).1
  unfolding do_post create stored
  do_post-IsSafe r s v = elim (Bool-cases (auth_ok r)) [
    | inr no_token ↦ rw no_token (v, Persists-refl s)
    | inl token ↦ rw token (posted (route r.path))
  ]
    where
      posted :
          (at : Route)
          → IsSafe s
              (elim at as (λ _. Result Response × Server) [
                | issues owner repo ↦ elim (read_json loads r) as (λ _. Result Response × Server) [
                  | ok payload ↦ create owner repo payload s
                  | err e ↦ (err e, s)
                ]
                | _ ↦ (ok not_found, s)
              ]).1
      posted (issues owner repo) = elim (Result-cases (read_json loads r)) [
        | inl (payload, e) ↦ rw e (create-IsSafe owner repo payload s v)
        | inr (x, e) ↦ rw e (v, Persists-refl s)
      ]
      posted _ = (v, Persists-refl s)

  do_patch-IsSafe : (r : Request) (s : Server) → IsValid s → IsSafe s (do_patch loads r s).1
  unfolding do_patch
  do_patch-IsSafe r s v = elim (Bool-cases (auth_ok r)) [
    | inr no_token ↦ rw no_token (v, Persists-refl s)
    | inl token ↦ rw token (routed (route r.path))
  ]
    where
      routed :
          (at : Route)
          → IsSafe s
              (elim at as (λ _. Result Response × Server) [
                | issue owner repo n ↦
                    elim (stored s (repo_key owner repo) n) as (λ _. Result Response × Server) [
                      | some i ↦ elim (read_json loads r) as (λ _. Result Response × Server) [
                        | ok payload ↦ update (repo_key owner repo) n payload i s
                        | err e ↦ (err e, s)
                      ]
                      | none ↦ (ok not_found, s)
                    ]
                | _ ↦ (ok not_found, s)
              ]).1
      routed (issue owner repo n) = elim (Option-cases (stored s (repo_key owner repo) n)) [
        | inl e ↦ rw e (v, Persists-refl s)
        | inr (i, e) ↦ elim (Result-cases (read_json loads r)) [
          | inl (payload, e') ↦ rw (e, e') (update-IsSafe (repo_key owner repo) n payload i s v e)
          | inr (x, e') ↦ rw (e, e') (v, Persists-refl s)
        ]
      ]
      routed _ = (v, Persists-refl s)

  do_get-same : (r : Request) (s : Server) → (do_get loads r s).1 ≡ s
  unfolding do_get
  do_get-same r s = ground arith

  -- Every request, accepted, refused or failing half way, leaves a valid store that has lost
  -- nothing: each issue is still there under its number, with its body and its address.
  pub serve-IsSafe :
      (m : Method) (r : Request) (s : Server) → IsValid s → IsSafe s (serve loads m r s).1
  unfolding serve
  serve-IsSafe get_method r s v = rw (do_get-same r s) (v, Persists-refl s)
  serve-IsSafe post_method r s v = do_post-IsSafe r s v
  serve-IsSafe patch_method r s v = do_patch-IsSafe r s v

  -- A run of the server.
  pub serve_all : List (Method × Request) → Server → Server
  serve_all [] s = s
  serve_all ((m, r) ∷ rs) s = serve_all rs (serve loads m r s).1

  -- From a valid store, whatever requests are served, accepted or refused or failing half way: the
  -- store stays valid (each issue under its own number, none above the counter), every issue that
  -- was there is still there with its number, body and address, and no counter goes down.
  pub serve_all-IsSafe :
      (rs : List (Method × Request)) (s : Server) → IsValid s → IsSafe s (serve_all rs s)
  unfolding serve_all
  serve_all-IsSafe [] s v = (v, Persists-refl s)
  serve_all-IsSafe ((m, r) ∷ rs) s v =
      let (v1, p1) = serve-IsSafe m r s v in
      let (v2, p2) = serve_all-IsSafe rs (serve loads m r s).1 v1 in
      (v2, Persists-trans s _ (serve_all rs (serve loads m r s).1) p1 p2)

  -- On a valid store, an authorised POST to a repository's issues whose payload can be read and
  -- makes an issue is answered 201 with that issue, which is open and numbered one above the
  -- counter; that number was free, the counter moves up to it, and every other entry stays.
  pub do_post-created :
      (r : Request) (s : Server) (owner repo : String) {payload : Json} {i : Issue}
      → IsValid s
      → auth_ok r ≡ true
      → route r.path ≡ issues owner repo
      → let key = repo_key owner repo in
        let n = count s key + 1 in
        let (answer, t) = do_post loads r s in
        read_json loads r ≡ ok payload
        → new_issue owner repo n payload ≡ ok i
        → (answer ≡ ok (record { code = 201; content = issue_json i }))
          × (i.number ≡ n)
          × (i.state ≡ str "open")
          × (stored s key n ≡ none)
          × (count t key ≡ n)
          × ((k : String) (m : ℕ)
              → stored t k m ≡ (if str_eq key k && n == m then some i else stored s k m))
  unfolding do_post create stored
  do_post-created r s owner repo {payload} {i} v token at read e =
      let key = repo_key owner repo in
      let n = count s key + 1 in
      let (num, state) = new_issue-number owner repo n payload e in
      rw (token, at, read, e, create)
        (
          refl,
          num,
          state,
          next_is_free key s v,
          count-save key key n i (bump key s) ∙ rw (count-bump key key s, same_refl key) refl,
          λ k m. stored-save key k n m i (bump key s),
        )
