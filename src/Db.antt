-- ===== src/Db.antt =====
-- clawfs/db.py: the tables. A row stands in its table beside its primary key. Times are
-- microseconds since `datetime.min`.
pub mod Rows
pub mod Migrate
use my_test_bot_repo.Prelude.{ℕ, Str, Bool, Option, ◌-◌, ◌+◌, none, some}
use my_test_bot_repo.Prelude.Int.{ℤ}
use my_test_bot_repo.Prelude.Table.{Table}

-- Key: `hash`.
pub record Blob : Type 0 where
  pub size : ℕ
  pub refcount : ℕ
  pub created_at : ℕ
  pub tenant_id : Str

-- Key: `path`, in its storage form "<tenant>/<user-path>".
pub record Ref : Type 0 where
  pub hash : Str
  pub tenant_id : Str
  pub created_at : ℕ
  pub updated_at : ℕ

-- Key: `token`.
pub record Share : Type 0 where
  pub ref_path : Str
  pub expires_at : Option ℕ
  pub created_at : ℕ

-- Key: `id`.
pub record Upload : Type 0 where
  pub tenant_id : Str
  pub created_at : ℕ
  pub completed : Bool
  pub final_hash : Option Str
  pub target_ref : Option Str

-- Key: `id`. The limits come from an operator and may be any integers.
pub record Tenant : Type 0 where
  pub name : Str
  pub tokens_csv : Str
  pub max_bytes : Option ℤ
  pub max_objects : Option ℤ
  pub used_bytes : ℕ
  pub used_objects : ℕ
  pub created_at : ℕ

-- Key: `(tenant_id, hash)`.
pub record TenantBlob : Type 0 where
  pub refcount : ℕ
  pub size : ℕ

pub record Db : Type 0 where
  pub blobs : Table Str Blob
  pub refs : Table Str Ref
  pub shares : Table Str Share
  pub uploads : Table Str Upload
  pub tenants : Table Str Tenant
  pub links : Table (Str × Str) TenantBlob
