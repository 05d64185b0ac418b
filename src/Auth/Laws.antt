-- ===== src/Auth/Laws.antt =====
-- Who is let in by `require_auth`.
use my_test_bot_repo.Prelude.{ℕ, Str, true, false, Option, List, [], ◌∷◌, ◌≡◌, refl, arith}
use my_test_bot_repo.Http.{Http, done, http_error}
use my_test_bot_repo.Text.{contains}
use my_test_bot_repo.Auth.{
  Env, TokenCheck, no_tokens, load_tokens, is_valid, is_bearer, bearer_token, require_auth,
}

no_tokens-contains : (ts : List Str) (t : Str) → no_tokens ts ≡ true → contains t ts ≡ false
unfolding contains
no_tokens-contains [] t h = refl
no_tokens-contains (x ∷ ts) t h = cc

module _ (env : Env) (check : TokenCheck) (authorization : Option Str) where
  -- A request that is let in has a bearer header, is let in with the token of that header, and
  -- the token is a valid one.
  pub require_auth-done :
      (token : Str)
      → require_auth env check authorization ≡ done token
      → (is_bearer authorization ≡ true)
        × (token ≡ bearer_token authorization)
        × (is_valid env check token ≡ true)
  unfolding require_auth
  require_auth-done token e = ground arith

  -- A request with a bearer header and a valid token is let in with that token.
  pub require_auth-valid :
      is_bearer authorization ≡ true
      → is_valid env check (bearer_token authorization) ≡ true
      → require_auth env check authorization ≡ done (bearer_token authorization)
  unfolding require_auth
  require_auth-valid b v =
      ground (arith, no_tokens-contains (load_tokens env) (bearer_token authorization))

  -- A request that is not let in is answered 401.
  require_auth-status :
      (status : ℕ) (detail : Str)
      → require_auth env check authorization ≡ http_error status detail
      → status ≡ 401
  unfolding require_auth
  require_auth-status status detail e = ground arith

pub require_auth_refused :
    (env : Env) (check : TokenCheck) (authorization : Option Str)
    → (is_bearer authorization ≡ true → is_valid env check (bearer_token authorization) ≡ false)
    → (detail : Str) × (require_auth env check authorization ≡ http_error 401 detail)
require_auth_refused env check authorization invalid =
    go (require_auth env check authorization) refl
  where
    go :
        (r : Http Str)
        → require_auth env check authorization ≡ r
        → (detail : Str) × (require_auth env check authorization ≡ http_error 401 detail)
    go (done token) e =
        let (bearer, same, valid) = require_auth-done env check authorization token e in
        absurd (ground (arith, bearer, same, valid, invalid bearer))
    go (http_error status detail) e =
        (detail, ground (arith, e, require_auth-status env check authorization status detail e))
