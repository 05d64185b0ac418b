-- ===== src/Api/Tenancy/Laws.antt =====
-- Which tenant a request acts for.
use my_test_bot_repo.Prelude.{Str, true, false, Option, some, ◌≡◌, arith}
use my_test_bot_repo.Db.{Db}
use my_test_bot_repo.Http.{done}
use my_test_bot_repo.Auth.{Env, is_bearer, bearer_token, is_on}
use my_test_bot_repo.Core.Paths.{default_tenant}
use my_test_bot_repo.Api.Tenancy.{resolve_tenant, maybe_auth}

-- Where reads want authorization, a read that is let in acts for the default tenant, whichever
-- tenant its token belongs to, as long as the token does not itself look like a bearer header.
pub read_tenant_lost :
    (env : Env) (header authorization : Option Str) (db : Db)
    → is_on env.require_auth_read ≡ true
    → maybe_auth env header ≡ done authorization
    → is_bearer (some (bearer_token header)) ≡ false
    → resolve_tenant authorization db ≡ default_tenant
unfolding maybe_auth resolve_tenant
read_tenant_lost env header authorization db on let_in plain = ground arith
