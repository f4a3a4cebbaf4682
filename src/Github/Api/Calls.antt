-- ===== src/Github/Api/Calls.antt =====
-- The answers of the GitHub stand-in to an authorised client that reads or closes a stored issue.
use claude_studio.Prelude.{
  ℕ, ◌≡◌, refl, sym, ap, ◌∙◌, String, str_eq, eq_iff, true, false, Option, some, Bool-cases, inl,
  inr,
}
use claude_studio.Python.Json.{Json, str, obj, field, end}
use claude_studio.Python.Result.{ok}
use claude_studio.Python.Dict.{same_refl, nat_key, text_key}
use claude_studio.Github.Path.{issue, nowhere, route}
use claude_studio.Github.Api.{
  Issue, Server, Request, issue_json, auth_ok, repo_key, stored, save, read_json, do_get, do_patch,
  update, patch_state, patch_title,
}
use claude_studio.Github.Api.Store.{stored-save}

route-health : route "/health" ≡ nowhere
unfolding route
route-health = refl

route-ne-health :
    (path owner repo : String) (n : ℕ)
    → route path ≡ issue owner repo n
    → str_eq path "/health" ≡ false
route-ne-health path owner repo n at = elim (Bool-cases (str_eq path "/health")) [
  | inl same ↦
      let bad : nowhere ≡ issue owner repo n =
        sym route-health ∙ ap route (sym ((eq_iff path "/health").0 same)) ∙ at in
      cc
  | inr other ↦ other
]

-- An issue with its state set to closed.
abbrev pub closed : Issue → Issue
closed i = record i { state = str "closed" }

pub update-closed :
    (key : String) (n : ℕ) (i : Issue) (s : Server)
    → update key n (obj (field "state" (str "closed") end)) i s
      ≡ (ok (record { code = 200; content = issue_json (closed i) }), save key n (closed i) s)
unfolding update patch_state patch_title
update-closed key n i s = refl

pub stored-save_self :
    (key : String) (n : ℕ) (i : Issue) (s : Server) → stored (save key n i s) key n ≡ some i
stored-save_self key n i s = stored-save key key n n i s ∙ rw (same_refl key, same_refl n) refl

module _ (loads : String → Option Json) (r : Request) (s : Server) (owner repo : String) (n : ℕ)
    (i : Issue) (token : auth_ok r ≡ true) (at : route r.path ≡ issue owner repo n)
    (there : stored s (repo_key owner repo) n ≡ some i) where
  pub do_get-found : do_get loads r s ≡ (ok (record { code = 200; content = issue_json i }), s)
  unfolding do_get
  do_get-found = rw (route-ne-health r.path owner repo n at, token, at, there) refl

  pub do_patch-closed :
      read_json loads r ≡ ok (obj (field "state" (str "closed") end))
      → do_patch loads r s ≡ (
        ok (record { code = 200; content = issue_json (closed i) }),
        save (repo_key owner repo) n (closed i) s,
      )
  unfolding do_patch
  do_patch-closed payload =
      rw (token, at, there, payload) (update-closed (repo_key owner repo) n i s)
