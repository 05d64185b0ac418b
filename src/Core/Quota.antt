-- ===== src/Core/Quota.antt =====
-- clawfs/core.py: the quota accounting per tenant.
use my_test_bot_repo.Prelude.{
  ℕ, ◌+◌, ◌-◌, Str, Bool, true, false, Option, none, some, leb, pair_eq, str_eq, if◌then◌else◌,
}
use my_test_bot_repo.Prelude.Int.{ℤ, pos, ltb_ℤ}
use my_test_bot_repo.Prelude.Table.{lookup, insert, erase}
use my_test_bot_repo.Result.{Kind, bytes, objects, Result, ok, err, quota_exceeded, ◌>>◌}
use my_test_bot_repo.Db.{Db, Tenant, TenantBlob}
use my_test_bot_repo.Db.Rows.{update}

-- `if limit is not None and used > limit: raise QuotaExceeded(kind, used, limit)`
unfoldable pub check_limit : Kind → Option ℤ → ℕ → Result (Unit {0})
check_limit kind none used = ok tt
check_limit kind (some limit) used =
    if ltb_ℤ limit (pos used) then err (quota_exceeded kind used limit) else ok tt

unfoldable pub check_limits : Tenant → ℕ → Result (Unit {0})
unfolding check_limit
check_limits t size =
    check_limit bytes t.max_bytes (t.used_bytes + size)
    >> check_limit objects t.max_objects (t.used_objects + 1)

-- the test on the tenant's link
abbrev unless_linked : Option TenantBlob → Tenant → ℕ → Result (Unit {0})
unless_linked (some link) t size = ok tt
unless_linked none t size = check_limits t size

unfoldable pub enforce_quota : Str → Str → ℕ → Db → Result (Unit {0})
unfolding check_limits
enforce_quota tenant_id h size db = elim (lookup tenant_id db.tenants) [
  | none ↦ ok tt
  | some t ↦ unless_linked (lookup (tenant_id, h) db.links) t size
]

unfoldable pub charge : ℕ → Tenant → Tenant
charge size t = record t { used_bytes = t.used_bytes + size; used_objects = t.used_objects + 1 }

unfoldable pub release : ℕ → Tenant → Tenant
release size t = record t { used_bytes = t.used_bytes - size; used_objects = t.used_objects - 1 }

unfoldable pub link_inc : Str → Str → ℕ → Db → Db
link_inc tenant_id h size db = elim (lookup (tenant_id, h) db.links) [
  | none ↦ record db {
    links = insert (tenant_id, h) (record { refcount = 1; size = size }) db.links;
    tenants = update tenant_id (charge size) db.tenants;
  }
  | some link ↦ record db {
    links = insert (tenant_id, h) (record link { refcount = link.refcount + 1 }) db.links;
  }
]

-- A link's count is at least 1, so `refcount - 1 <= 0` is the test on it here.
unfoldable pub link_dec : Str → Str → Db → Db
link_dec tenant_id h db = elim (lookup (tenant_id, h) db.links) [
  | none ↦ db
  | some link ↦
      if leb link.refcount 1
      then record db {
        tenants = update tenant_id (release link.size) db.tenants;
        links = erase (tenant_id, h) db.links;
      }
      else record db {
        links = insert (tenant_id, h) (record link { refcount = link.refcount - 1 }) db.links;
      }
]

pub record Usage : Type 0 where
  pub tenant_id : Str
  pub used_bytes : ℕ
  pub used_objects : ℕ
  pub max_bytes : Option ℤ
  pub max_objects : Option ℤ
  pub unmanaged : Bool

unfoldable pub get_usage : Str → Db → Usage
get_usage id db = elim (lookup id db.tenants) [
  | none ↦ record {
    tenant_id = id;
    used_bytes = 0;
    used_objects = 0;
    max_bytes = none;
    max_objects = none;
    unmanaged = true;
  }
  | some t ↦ record {
    tenant_id = id;
    used_bytes = t.used_bytes;
    used_objects = t.used_objects;
    max_bytes = t.max_bytes;
    max_objects = t.max_objects;
    unmanaged = false;
  }
]
