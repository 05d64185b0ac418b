-- ===== src/Core/Accounting/Limits.antt =====
-- Limits: a write past a tenant's limits is refused before anything is written, and no write takes
-- a tenant past them.
use my_test_bot_repo.Prelude.{
  ℕ, Str, Bytes, Option, none, some, ◌≡◌, length, str_eq, pair_eq, arith, inl, inr, Option-cases,
}
use my_test_bot_repo.Prelude.Int.{ℤ, pos, ◌≤ℤ◌}
use my_test_bot_repo.Prelude.Table.{lookup}
use my_test_bot_repo.Result.{Error, ok, err}
use my_test_bot_repo.Db.{Db, Tenant}
use my_test_bot_repo.Db.Rows.{update, lookup-update}
use my_test_bot_repo.App.{World}
use my_test_bot_repo.Storage.{Storage, Hasher}
use my_test_bot_repo.Core.Quota.{charge, release, check_limits, link_inc, link_dec, enforce_quota}
use my_test_bot_repo.Core.Blobs.{put_blob}
use my_test_bot_repo.Core.Refs.{put_ref}

abbrev pub Within : Option ℤ → ℕ → Type 0
Within none used = Unit
Within (some limit) used = pos used ≤ℤ limit

abbrev pub TenantWithin : Option Tenant → Type 0
TenantWithin none = Unit
TenantWithin (some t) = Within t.max_bytes t.used_bytes × Within t.max_objects t.used_objects

-- No tenant is past its limits.
pub record IsWithin (db : Db) : Type 0 where
  pub within : (id : Str) → TenantWithin (lookup id db.tenants)

check_limits-Within :
    (t : Tenant) (size : ℕ) → check_limits t size ≡ ok tt → TenantWithin (some (charge size t))
unfolding check_limits charge
check_limits-Within t size e = ground arith

module _ (t h : Str) (size : ℕ) (db : Db) where
  charge-IsWithin :
      (tn : Tenant)
      → lookup t db.tenants ≡ some tn
      → check_limits tn size ≡ ok tt
      → IsWithin db
      → (id : Str) → TenantWithin (lookup id (update t (charge size) db.tenants))
  charge-IsWithin tn there fits v id =
      rw (lookup-update id t (charge size) db.tenants)
        (ground (arith, there, check_limits-Within tn size fits, v.within id))

  pub link_inc-IsWithin :
      enforce_quota t h size db ≡ ok tt → IsWithin db → IsWithin (link_inc t h size db)
  unfolding enforce_quota link_inc
  link_inc-IsWithin e v = elim (Option-cases (lookup (t, h) db.links)) [
    | inr (link, linked) ↦ rw (linked, link_inc) (record { within = v.within })
    | inl new ↦ elim (Option-cases (lookup t db.tenants)) [
      | inl unmanaged ↦
          rw (new, link_inc)
            (record {
              within = λ id.
                  rw (lookup-update id t (charge size) db.tenants)
                    (ground (arith, unmanaged, v.within id));
            })
      | inr (tn, there) ↦
          rw (new, link_inc)
            (record { within = charge-IsWithin tn there (rw (there, new, enforce_quota) at e) v })
    ]
  ]

module _ (t h : Str) (db : Db) where
  release-IsWithin :
      (size : ℕ) (id : Str)
      → IsWithin db
      → TenantWithin (lookup id (update t (release size) db.tenants))
  unfolding release
  release-IsWithin size id v =
      rw (lookup-update id t (release size) db.tenants) (ground (arith, v.within t, v.within id))

  pub link_dec-IsWithin : IsWithin db → IsWithin (link_dec t h db)
  unfolding link_dec
  link_dec-IsWithin v = record {
    within = λ id. elim (Option-cases (lookup (t, h) db.links)) [
      | inl absent ↦ rw (absent, link_dec) (v.within id)
      | inr (link, linked) ↦
          rw (linked, link_dec) (ground (arith, release-IsWithin link.size id v, v.within id))
    ];
  }

module _ (S : Storage) (H : Hasher) (now : ℕ) (bytes : Bytes) (t : Str) (w : World S.State) where
  -- A `put_blob` that the quota refuses raises, and changes neither the database nor the storage.
  pub put_blob_refused :
      (e : Error)
      → enforce_quota t (H.hexdigest bytes) (length bytes) w.db ≡ err e
      → put_blob S H now bytes t w ≡ (err e, w)
  unfolding put_blob
  put_blob_refused e refused = ground arith

  -- A `put_ref` whose bytes the quota refuses raises the refusal and changes nothing, in the
  -- database or in the backend.
  pub put_ref_refused :
      (path : Str) (e : Error)
      → enforce_quota t (H.hexdigest bytes) (length bytes) w.db ≡ err e
      → put_ref S H now path bytes t w ≡ (err e, w)
  unfolding put_ref
  put_ref_refused path e refused = ground (arith, put_blob_refused e refused)
