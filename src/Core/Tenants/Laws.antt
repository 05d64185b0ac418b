-- ===== src/Core/Tenants/Laws.antt =====
-- Tokens: which tenant a token is found to belong to.
use my_test_bot_repo.Prelude.{
  Str, Bool, true, false, Option, none, some, [], ◌∷◌, str_eq, ◌≡◌, refl, ap, arith, not, ◌&&◌,
}
use my_test_bot_repo.Prelude.Table.{Table, lookup, NodupKeys}
use my_test_bot_repo.Text.{is_empty}
use my_test_bot_repo.Db.{Db, Tenant}
use my_test_bot_repo.Core.Tenants.{has_token, find_tenant, tenant_for_token}

abbrev pub owns : Str → Option Tenant → Bool
owns token none = false
owns token (some t) = not (is_empty t.tokens_csv) && has_token token t

-- Among tenants with one row each, the tenant that a token is found to belong to has a row, and
-- the token is one of that row's.
pub find_tenant-owns :
    (token id : Str) (tenants : Table Str Tenant)
    → NodupKeys tenants
    → find_tenant token tenants ≡ some id
    → owns token (lookup id tenants) ≡ true
unfolding find_tenant lookup
find_tenant-owns token id [] u e = cc
find_tenant-owns token id ((k, t) ∷ rest) u e = ground (
  arith,
  find_tenant-owns token id rest u.1,
  u.0,
  ap (λ (j : Str). lookup j rest) {x = id} {y = k},
)

-- A token that some tenant owns is found.
pub find_tenant-none :
    (token id : Str) (tenants : Table Str Tenant)
    → find_tenant token tenants ≡ none
    → owns token (lookup id tenants) ≡ false
unfolding find_tenant lookup
find_tenant-none token id [] e = refl
find_tenant-none token id ((k, t) ∷ rest) e = ground (arith, find_tenant-none token id rest)

-- With one row for each tenant: a tenant that a token is found to belong to has a row, which lists
-- the token.
pub tenant_for_token-owns :
    (token id : Str) (db : Db)
    → NodupKeys db.tenants
    → tenant_for_token token db ≡ some id
    → owns token (lookup id db.tenants) ≡ true
unfolding tenant_for_token
tenant_for_token-owns token id db u e = find_tenant-owns token id db.tenants u e

-- A token that is found to belong to no tenant is listed by no tenant's row.
pub tenant_for_token-none :
    (token id : Str) (db : Db)
    → tenant_for_token token db ≡ none
    → owns token (lookup id db.tenants) ≡ false
unfolding tenant_for_token
tenant_for_token-none token id db e = find_tenant-none token id db.tenants e
