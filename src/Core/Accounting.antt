-- ===== src/Core/Accounting.antt =====
-- Quota accounting: a managed tenant's `used_bytes` and `used_objects` are the sum and the number
-- of its links to blobs.
pub mod Keeps
pub mod Leaks
pub mod Limits
pub mod Writes
use my_test_bot_repo.Prelude.{
  ℕ, ◌+◌, ◌-◌, ◌≤◌, Str, false, Option, none, some, ◌≡◌, ◌==◌, str_eq, pair_eq, arith, inl, inr,
  leb, Bool-cases, Option-cases, if◌then◌else◌,
}
use my_test_bot_repo.Prelude.Table.{
  Table, lookup, insert, erase, sum, sum-insert, sum-erase, lookup-insert, lookup-erase, NodupKeys,
  insert-NodupKeys, erase-NodupKeys,
}
use my_test_bot_repo.Db.{Db, Tenant, TenantBlob}
use my_test_bot_repo.Db.Rows.{update, lookup-update}
use my_test_bot_repo.Core.Quota.{charge, release, link_inc, link_dec}

abbrev pub bytes_of : Str → Str × Str → TenantBlob → ℕ
bytes_of id key link = if key.0 == id then link.size else 0

abbrev pub objects_of : Str → Str × Str → TenantBlob → ℕ
objects_of id key link = if key.0 == id then 1 else 0

-- A tenant with no row is not managed.
abbrev pub Charged : Option Tenant → ℕ → ℕ → Type 0
Charged none size number = Unit
Charged (some t) size number = (t.used_bytes ≡ size) × (t.used_objects ≡ number)

abbrev pub IsHeld : Option TenantBlob → Type 0
IsHeld none = Unit
IsHeld (some link) = 1 ≤ link.refcount

pub record IsAccounted (db : Db) : Type 0 where
  pub charged :
      (id : Str)
      → Charged (lookup id db.tenants) (sum (bytes_of id) db.links) (sum (objects_of id) db.links)
  pub held : (key : Str × Str) → IsHeld (lookup key db.links)
  pub unique : NodupKeys db.links

module _ (tenant_id h : Str) (size : ℕ) (db : Db) where
  pub link_inc-IsAccounted : IsAccounted db → IsAccounted (link_inc tenant_id h size db)
  unfolding link_inc charge
  link_inc-IsAccounted v = elim (Option-cases (lookup (tenant_id, h) db.links)) [
    | inl absent ↦
        rw (absent, link_inc)
          (record {
            charged = λ id. ground (
              arith,
              lookup-update id tenant_id (charge size) db.tenants,
              sum-insert (bytes_of id) (tenant_id, h) (record { refcount = 1; size = size })
                  db.links,
              sum-insert (objects_of id) (tenant_id, h) (record { refcount = 1; size = size })
                  db.links,
              v.charged id,
              absent,
            );
            held = λ key. rw lookup-insert (ground (arith, v.held key));
            unique = insert-NodupKeys _ _ db.links v.unique;
          })
    | inr (link, there) ↦
        rw (there, link_inc)
          (record {
            charged = λ id. ground (
              arith,
              sum-insert (bytes_of id) (tenant_id, h) (record link { refcount = link.refcount + 1 })
                  db.links,
              sum-insert (objects_of id) (tenant_id, h)
                  (record link { refcount = link.refcount + 1 }) db.links,
              v.charged id,
              there,
            );
            held = λ key. rw lookup-insert (ground (arith, v.held key));
            unique = insert-NodupKeys _ _ db.links v.unique;
          })
  ]

module _ (tenant_id h : Str) (db : Db) where
  -- The last use of a blob: its size is given back.
  unlink-IsAccounted :
      (link : TenantBlob)
      → lookup (tenant_id, h) db.links ≡ some link
      → IsAccounted db
      → IsAccounted (record db {
        tenants = update tenant_id (release link.size) db.tenants;
        links = erase (tenant_id, h) db.links;
      })
  unfolding release
  unlink-IsAccounted link there v = record {
    charged = λ id. ground (
      arith,
      lookup-update id tenant_id (release link.size) db.tenants,
      sum-erase (bytes_of id) (tenant_id, h) db.links v.unique,
      sum-erase (objects_of id) (tenant_id, h) db.links v.unique,
      v.charged id,
      there,
    );
    held = λ key. rw lookup-erase (ground (arith, v.held key));
    unique = erase-NodupKeys (tenant_id, h) db.links v.unique;
  }

  lower-IsAccounted :
      (link : TenantBlob)
      → lookup (tenant_id, h) db.links ≡ some link
      → leb link.refcount 1 ≡ false
      → IsAccounted db
      → IsAccounted (record db {
        links = insert (tenant_id, h) (record link { refcount = link.refcount - 1 }) db.links;
      })
  lower-IsAccounted link there more v = record {
    charged = λ id. ground (
      arith,
      sum-insert (bytes_of id) (tenant_id, h) (record link { refcount = link.refcount - 1 })
          db.links,
      sum-insert (objects_of id) (tenant_id, h) (record link { refcount = link.refcount - 1 })
          db.links,
      v.charged id,
      there,
    );
    held = λ key. rw lookup-insert (ground (arith, v.held key));
    unique = insert-NodupKeys _ _ db.links v.unique;
  }

  pub link_dec-IsAccounted : IsAccounted db → IsAccounted (link_dec tenant_id h db)
  unfolding link_dec
  link_dec-IsAccounted v = elim (Option-cases (lookup (tenant_id, h) db.links)) [
    | inl absent ↦ rw (absent, link_dec) v
    | inr (link, there) ↦ elim (Bool-cases (leb link.refcount 1)) [
      | inl last ↦ rw (there, link_dec) (rw last (unlink-IsAccounted link there v))
      | inr more ↦ rw (there, link_dec) (rw more (lower-IsAccounted link there more v))
    ]
  ]
