-- ===== src/Admin.antt =====
-- clawfs/admin.py: the commands of operators, on the world that `_fs` opens. What they print is a
-- list of lines.
pub mod Sizes
pub mod Printing
pub mod Tokens
pub mod Keeps
use my_test_bot_repo.Prelude.{
  ℕ, ◌+◌, ◌-◌, Str, Bool, true, false, Option, none, some, List, [], ◌∷◌, ◌++◌, length, str_eq,
  get_or, codes, if◌then◌else◌,
}
use my_test_bot_repo.Prelude.Int.{ℤ, pos, negsuc}
use my_test_bot_repo.Prelude.Table.{Table, lookup, erase}
use my_test_bot_repo.Text.{split, stripped, is_empty}
use my_test_bot_repo.Text.Decimal.{decimal, decimal_ℤ}
use my_test_bot_repo.Result.{Result, ok, err}
use my_test_bot_repo.Db.{Db, Tenant}
use my_test_bot_repo.App.{World, App, pure, gets, check, transact, session, modify, ◌>>=◌, ◌>>◌}
use my_test_bot_repo.Core.Tenants.{comma, upsert_tenant}
use my_test_bot_repo.Core.Quota.{Usage, get_usage}
use Sizes.{Floats, parse_size, fmt_size}
use Printing.{Output, printed, failed, or_infinity, show_usage, tenants_listed}

-- A text option: absent and empty options count for nothing.
abbrev pub given_text : Option Str → Str → Str
given_text none default = default
given_text (some []) default = default
given_text (some (c ∷ s)) default = c ∷ s

-- `f"sk_{secrets.token_urlsafe(24)}"`, from what is drawn
abbrev pub fresh_token : Str → Str
fresh_token drawn = codes "sk_" ++ drawn

abbrev pub as_limit : Result ℕ → Result (Option ℤ)
as_limit (ok n) = ok (some (pos n))
as_limit (err e) = err e

pub record CreateArgs : Type 0 where
  pub id : Str
  pub display_name : Option Str
  pub token : Option Str
  pub quota_bytes : Option Str
  pub quota_objects : Option ℤ

module _ (K : Floats) where
  -- `parse_size(x) if x else None`
  abbrev pub limit_of : Option Str → Result (Option ℤ)
  limit_of none = ok none
  limit_of (some []) = ok none
  limit_of (some (c ∷ s)) = as_limit (parse_size K (c ∷ s))

module _ {S : Type 0} where
  abbrev pub upsert : ℕ → Str → Str → Option (List Str) → Option ℤ → Option ℤ → App S Tenant
  upsert now id display_name tokens max_bytes max_objects =
      session (transact (upsert_tenant now id display_name tokens max_bytes max_objects))

module _ (K : Floats) (repr : Str → Str) {S : Type 0} where
  unfoldable pub cmd_tenant_create : ℕ → Str → CreateArgs → App S Output
  cmd_tenant_create now drawn args = do
    let token = given_text args.token (fresh_token drawn)
    max_b ← check (λ db. limit_of K args.quota_bytes)
    t ←
        upsert now args.id (given_text args.display_name args.id) (some (token ∷ [])) max_b
          args.quota_objects
    pure (
        printed (
          (codes "✅ created tenant " ++ (repr args.id ++ (codes " (" ++ (t.name ++ codes ")"))))
          ∷ (codes "   token: " ++ token)
          ∷ (codes "   quota: "
              ++ (fmt_size K t.max_bytes
                  ++ (codes " / " ++ (or_infinity t.max_objects ++ codes " objects"))))
          ∷ []))

  unfoldable pub cmd_tenant_list : App S Output
  cmd_tenant_list = gets (λ db. tenants_listed K db.tenants)

  unfoldable pub cmd_tenant_rotate : ℕ → Str → Str → App S Output
  cmd_tenant_rotate now drawn id = do
    upsert now id [] (some (fresh_token drawn ∷ [])) none none
    pure (
        printed (
          (codes "✅ rotated tenant " ++ repr id)
          ∷ (codes "   new token: " ++ fresh_token drawn)
          ∷ []))

  unfoldable pub cmd_tenant_set_quota : ℕ → Str → Option Str → Option ℤ → App S Output
  cmd_tenant_set_quota now id size objects = do
    max_b ← check (λ db. limit_of K size)
    upsert now id [] none max_b objects
    u ← gets (get_usage id)
    pure (
        printed (
          (codes "✅ updated quota for "
            ++ (repr id
                ++ (codes ": bytes="
                    ++ (fmt_size K u.max_bytes
                        ++ (codes " objects=" ++ or_infinity u.max_objects)))))
          ∷ []))

  abbrev pub delete_row : Str → Option Tenant → App S Output
  delete_row id none = pure (failed (codes "❌ no such tenant: " ++ id))
  delete_row id (some t) = do
    modify (λ db. record db { tenants = erase id db.tenants })
    pure (
        printed (
          (codes "✅ deleted tenant "
            ++ (repr id ++ codes " (refs/blobs left intact; run 'clawfs admin gc' to reclaim)"))
          ∷ []))

  unfoldable pub cmd_tenant_delete : Str → App S Output
  cmd_tenant_delete id = session do t ← gets (λ db. lookup id db.tenants); delete_row id t

  unfoldable pub cmd_usage : Str → App S Output
  cmd_usage id = gets (λ db. printed (show_usage repr (get_usage id db) ∷ []))

-- What `build_parser` accepts, as `argparse` hands it on.
pub data Command : Type 0 where
  tenant_create : CreateArgs → Command
  tenant_list : Command
  tenant_rotate : Str → Command
  tenant_set_quota : Str → Option Str → Option ℤ → Command
  tenant_delete : Str → Command
  usage : Str → Command

-- `args.func(args)`
unfoldable pub run : (K : Floats) (repr : Str → Str) {S : Type 0} → ℕ → Str → Command → App S Output
run K repr now drawn (tenant_create args) = cmd_tenant_create K repr now drawn args
run K repr now drawn tenant_list = cmd_tenant_list K repr
run K repr now drawn (tenant_rotate id) = cmd_tenant_rotate K repr now drawn id
run K repr now drawn (tenant_set_quota id size objects) =
    cmd_tenant_set_quota K repr now id size objects
run K repr now drawn (tenant_delete id) = cmd_tenant_delete K repr id
run K repr now drawn (usage id) = cmd_usage K repr id

-- What `parse_args` ends with: `argparse` prints and exits, or hands on a command.
pub data Parsed : Type 0 where
  exits : ℕ → Parsed
  command : Command → Parsed

-- `main`, over what `build_parser` makes of the arguments
unfoldable pub main :
    (K : Floats) (repr : Str → Str) {S : Type 0}
    → (List Str → Parsed)
    → ℕ
    → Str
    → List Str
    → App S Output
main K repr parse_args now drawn argv = elim (parse_args argv) [
  | exits status ↦ pure (record { status = status; out = []; err_out = [] })
  | command c ↦ run K repr now drawn c
]
