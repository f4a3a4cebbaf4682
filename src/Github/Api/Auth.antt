-- ===== src/Github/Api/Auth.antt =====
-- Which requests the three methods of the GitHub stand-in refuse for want of a token (`_auth_ok`).
use claude_studio.Prelude.{
  ◌≡◌, refl, String, str_eq, Bool, true, false, Option, none, some, arith, ◌==◌, Option-cases, inl,
  inr,
}
use claude_studio.Python.Text.{strip, has_visible, strip-is_empty}
use claude_studio.Python.Json.{Json}
use claude_studio.Python.Result.{Result, ok, err}
use claude_studio.Github.Api.{
  Server, Request, Response, Method, get_method, post_method, patch_method, serve, unauthorized,
  auth_ok, do_get, create, do_post, update, do_patch,
}

-- The header is there, and some character of it is no space.
abbrev pub has_token : Option String → Bool
has_token none = false
has_token (some t) = has_visible t

auth_ok-has_token : (r : Request) → auth_ok r ≡ has_token r.authorization
unfolding auth_ok strip
auth_ok-has_token r = elim (Option-cases r.authorization) [
  | inl e ↦ rw e refl
  | inr (t, e) ↦ rw e (ground (arith, strip-is_empty t))
]

-- The one request that needs no token.
abbrev pub is_health : Method → Request → Bool
is_health get_method r = str_eq r.path "/health"
is_health _ r = false

abbrev pub is_401 : Result Response → Bool
is_401 answer = elim answer [ ok a ↦ a.code == 401 | err _ ↦ false ]

module _ (loads : String → Option Json) where
  -- A request whose Authorization header is missing or has no character but spaces, and that is no
  -- `GET` of /health, is answered 401 by each method and leaves the store as it is.
  pub serve-unauthorized :
      (m : Method) (r : Request) (s : Server)
      → has_token r.authorization ≡ false
      → is_health m r ≡ false
      → serve loads m r s ≡ (ok unauthorized, s)
  unfolding serve do_get do_post do_patch
  serve-unauthorized get_method r s h path = ground (arith, auth_ok-has_token r)
  serve-unauthorized post_method r s h path = rw (auth_ok-has_token r, h) refl
  serve-unauthorized patch_method r s h path = rw (auth_ok-has_token r, h) refl

  -- A request whose Authorization header has a character that is no space is not answered 401 by
  -- any of the methods.
  pub serve-admitted :
      (m : Method) (r : Request) (s : Server)
      → has_token r.authorization ≡ true
      → is_401 (serve loads m r s).0 ≡ false
  unfolding serve do_get do_post do_patch create update
  serve-admitted get_method r s h = ground (arith, auth_ok-has_token r)
  serve-admitted post_method r s h = ground (arith, auth_ok-has_token r)
  serve-admitted patch_method r s h = ground (arith, auth_ok-has_token r)
