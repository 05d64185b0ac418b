-- ===== src/Auth.antt =====
-- clawfs/auth.py: bearer tokens. The environment variables and the check of tenants' tokens are
-- arguments.
pub mod Laws
use my_test_bot_repo.Prelude.{
  ℕ, Str, Bool, true, false, ◌&&◌, ◌||◌, not, Option, none, some, List, [], ◌∷◌, ◌==◌, str_eq,
  is_some, if◌then◌else◌, codes,
}
use my_test_bot_repo.Text.{
  starts_with, contains, strip, lower, is_empty, split, after_first, stripped,
}
use my_test_bot_repo.Http.{Http, done, http_error}

-- The environment: CLAWFS_API_TOKENS and CLAWFS_REQUIRE_AUTH_READ, empty where they are not set.
pub record Env : Type 0 where
  pub api_tokens : Str
  pub require_auth_read : Str

-- `tenant_token_check`
abbrev pub TokenCheck : Type 0
TokenCheck = Option (Str → Option Str)

unfoldable pub load_tokens : Env → List Str
load_tokens env = stripped (split 44 env.api_tokens)

abbrev tenant_has : TokenCheck → Str → Bool
tenant_has none token = false
tenant_has (some check) token = is_some (check token)

unfoldable pub is_valid : Env → TokenCheck → Str → Bool
is_valid env check token = if contains token (load_tokens env) then true else tenant_has check token

abbrev pub no_tokens : List Str → Bool
no_tokens [] = true
no_tokens (t ∷ ts) = false

abbrev pub bearer_prefix : Str
bearer_prefix = codes "bearer "

-- `authorization and authorization.lower().startswith("bearer ")`
unfoldable pub is_bearer : Option Str → Bool
is_bearer none = false
is_bearer (some header) = not (is_empty header) && starts_with (lower header) bearer_prefix

-- `authorization.split(" ", 1)[1].strip()`
unfoldable pub bearer_token : Option Str → Str
bearer_token none = []
bearer_token (some header) = strip (after_first 32 header)

unfoldable pub require_auth : Env → TokenCheck → Option Str → Http Str
unfolding is_valid
require_auth env check authorization =
    if no_tokens (load_tokens env) && not (is_some check)
    then http_error 401 (codes "auth not configured (CLAWFS_API_TOKENS empty)")
    else if not (is_bearer authorization)
    then http_error 401 (codes "missing bearer token")
    else if is_valid env check (bearer_token authorization)
    then done (bearer_token authorization)
    else http_error 401 (codes "invalid token")

-- `value.lower() in ("1", "true", "yes")`
unfoldable pub is_on : Str → Bool
is_on value = contains (lower value) (codes "1" ∷ codes "true" ∷ codes "yes" ∷ [])

abbrev some_token : Http Str → Http (Option Str)
some_token (done token) = done (some token)
some_token (http_error status detail) = http_error status detail

unfoldable pub maybe_require_auth : Env → TokenCheck → Option Str → Http (Option Str)
maybe_require_auth env check authorization =
    if is_on env.require_auth_read
    then some_token (require_auth env check authorization)
    else done none
