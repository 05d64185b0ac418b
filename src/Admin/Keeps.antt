-- ===== src/Admin/Keeps.antt =====
-- What the commands of operators change.
use my_test_bot_repo.Prelude.{
  ℕ, Str, Option, none, ◌≡◌, ◌==◌, str_eq, refl, arith, is_some, if◌then◌else◌,
}
use my_test_bot_repo.Prelude.Int.{ℤ}
use my_test_bot_repo.Prelude.Table.{lookup, lookup-erase}
use my_test_bot_repo.Result.{Result, ok, err, Error}
use my_test_bot_repo.App.{World}
use my_test_bot_repo.Core.Quota.{enforce_quota}
use my_test_bot_repo.Core.Tenants.{upsert_tenant}
use my_test_bot_repo.Admin.{
  Command, CreateArgs, tenant_create, tenant_list, tenant_rotate, tenant_set_quota, tenant_delete,
  usage, run, cmd_tenant_create, cmd_tenant_list, cmd_tenant_rotate, cmd_tenant_set_quota,
  cmd_tenant_delete, cmd_usage, limit_of,
}
use my_test_bot_repo.Admin.Printing.{Output}
use my_test_bot_repo.Admin.Sizes.{Floats}

-- The exit status of a command; an exception that nothing catches gives 1.
abbrev pub status_of : Result Output → ℕ
status_of (ok o) = o.status
status_of (err e) = 1

module _ (K : Floats) (repr : Str → Str) {S : Type 0} where
  -- No command changes anything but the table of tenants: neither another table, nor the backend,
  -- nor the scratch directories.
  pub run_frame :
      (now : ℕ) (drawn : Str) (c : Command) (w : World S)
      → let w' = (run K repr now drawn c w).1 in
        w' ≡ record w { db = record w.db { tenants = w'.db.tenants } }
  unfolding run cmd_tenant_create cmd_tenant_list cmd_tenant_rotate cmd_tenant_set_quota
      cmd_tenant_delete cmd_usage upsert_tenant
  run_frame now drawn (tenant_create args) w = ground arith
  run_frame now drawn tenant_list w = refl
  run_frame now drawn (tenant_rotate id) w = refl
  run_frame now drawn (tenant_set_quota id size objects) w = ground arith
  run_frame now drawn (tenant_delete id) w = ground arith
  run_frame now drawn (usage id) w = refl

  -- `tenant delete` exits with 0 where there was such a tenant, and with 1 otherwise; afterwards
  -- there is none, nothing that is stored for its id is refused for a quota, and every other
  -- tenant has its row.
  pub cmd_tenant_delete_lem :
      (id : Str) (w : World S) (j h : Str) (size : ℕ)
      → let (r, w') = cmd_tenant_delete K repr id w in
        (status_of r ≡ (if is_some (lookup id w.db.tenants) then 0 else 1))
        × (lookup j w'.db.tenants ≡ (if j == id then none else lookup j w.db.tenants))
        × (enforce_quota id h size w'.db ≡ ok tt)
  unfolding cmd_tenant_delete enforce_quota
  cmd_tenant_delete_lem id w j h size =
      ground (arith, lookup-erase j id w.db.tenants, lookup-erase id id w.db.tenants)

  -- A size that cannot be read ends `tenant create` and `tenant set-quota` with that exception,
  -- before anything is written.
  pub bad_size_refused :
      (now : ℕ) (drawn id : Str) (args : CreateArgs) (objects : Option ℤ) (e : Error) (w : World S)
      → limit_of K args.quota_bytes ≡ err e
      → (run K repr now drawn (tenant_create args) w ≡ (err e, w))
        × (run K repr now drawn (tenant_set_quota id args.quota_bytes objects) w ≡ (err e, w))
  unfolding run cmd_tenant_create cmd_tenant_set_quota
  bad_size_refused now drawn id args objects e w bad = ground (arith, bad)
