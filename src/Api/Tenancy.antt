-- ===== src/Api/Tenancy.antt =====
-- clawfs/api.py `_resolve_tenant` and `_maybe_auth`.
pub mod Laws
use my_test_bot_repo.Prelude.{
  ℕ, Str, Bool, true, false, not, Option, none, some, List, [], ◌∷◌, if◌then◌else◌, codes,
}
use my_test_bot_repo.Text.{contains, is_empty}
use my_test_bot_repo.Db.{Db}
use my_test_bot_repo.Http.{Http, done, http_error}
use my_test_bot_repo.Auth.{Env, load_tokens, is_bearer, bearer_token, is_on}
use my_test_bot_repo.Core.Paths.{default_tenant}
use my_test_bot_repo.Core.Tenants.{tenant_for_token}

-- `tid or DEFAULT_TENANT`
abbrev or_default : Option Str → Str
or_default none = default_tenant
or_default (some []) = default_tenant
or_default (some (c ∷ tid)) = c ∷ tid

unfoldable pub resolve_tenant : Option Str → Db → Str
resolve_tenant authorization db =
    if is_bearer authorization
    then or_default (tenant_for_token (bearer_token authorization) db)
    else default_tenant

-- The value goes on to the handler: the token where reads want one, and the header otherwise.
unfoldable pub maybe_auth : Env → Option Str → Http (Option Str)
maybe_auth env authorization =
    if is_on env.require_auth_read
    then (if not (is_bearer authorization)
        then http_error 401 (codes "missing bearer token")
        else if contains (bearer_token authorization) (load_tokens env)
        then done (some (bearer_token authorization))
        else http_error 401 (codes "invalid token"))
    else done authorization
