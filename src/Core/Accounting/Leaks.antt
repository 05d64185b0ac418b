-- ===== src/Core/Accounting/Leaks.antt =====
-- Where a link outlives the refs that it was counted for.
use my_test_bot_repo.Prelude.{
  ℕ, ◌+◌, ◌-◌, ◌≤◌, Str, Bytes, Bool, true, false, none, some, length, str_eq, pair_eq, ◌≡◌, ◌∙◌,
  arith,
}
use my_test_bot_repo.Prelude.Table.{lookup, lookup-insert, lookup-erase}
use my_test_bot_repo.Result.{Result, ok, err, is_ok}
use my_test_bot_repo.Db.{Db, Ref, Tenant, TenantBlob}
use my_test_bot_repo.App.{World}
use my_test_bot_repo.Storage.{Storage, Hasher, IsLawful}
use my_test_bot_repo.Core.Paths.{tpath}
use my_test_bot_repo.Core.Quota.{link_inc, link_dec, enforce_quota}
use my_test_bot_repo.Core.Blobs.{bump, put_blob}
use my_test_bot_repo.Core.Refs.{bind_ref, delete_ref, delete_ref_db, put_ref}
use my_test_bot_repo.Core.Outcome.{put_blob_db, put_ref_db, PutRef, put_ref-PutRef}
use my_test_bot_repo.Core.Contents.{put_blob_allowed}
use my_test_bot_repo.Core.Contents.Reclaimed.{delete_ref_db-refs}

-- A deletion that leaves the link releases nothing.
delete_linked :
    (t stored : Str) (ref : Ref) (link : TenantBlob) (db : Db)
    → lookup stored db.refs ≡ some ref
    → lookup (t, ref.hash) db.links ≡ some link
    → 2 ≤ link.refcount
    → ((delete_ref_db t stored db).1.tenants ≡ db.tenants)
      × (lookup (t, ref.hash) (delete_ref_db t stored db).1.links
          ≡ some (record link { refcount = link.refcount - 1 }))
unfolding delete_ref_db link_dec bump
delete_linked t stored ref link db present linked many = ground (
  arith,
  lookup-insert (t, ref.hash) (t, ref.hash) (record link { refcount = link.refcount - 1 }) db.links,
)

delete_answer :
    (t stored : Str) (ref : Ref) (db : Db)
    → lookup stored db.refs ≡ some ref
    → ok (delete_ref_db t stored db).0 ≡ ok true
unfolding delete_ref_db
delete_answer t stored ref db present = ground (arith, present)

module _ (now : ℕ) (t path h : Str) (size : ℕ) (db : Db) where
  put_linked :
      (ref : Ref) (link : TenantBlob)
      → lookup (tpath t path) db.refs ≡ some ref
      → ref.hash ≡ h
      → lookup (t, h) db.links ≡ some link
      → let after = (put_ref_db now t path h size db).1 in
        ((put_ref_db now t path h size db).0 ≡ false)
        × (after.refs ≡ db.refs)
        × (after.tenants ≡ db.tenants)
        × (lookup (t, h) after.links ≡ some (record link { refcount = link.refcount + 1 }))
  unfolding put_ref_db put_blob_db bind_ref link_inc
  put_linked ref link present same linked =
      ground
        (arith, lookup-insert (t, h) (t, h) (record link { refcount = link.refcount + 1 }) db.links)

module _ (S : Storage) (L : IsLawful S) (H : Hasher) (now : ℕ) (path : Str) (bytes : Bytes)
    (t : Str) (w : World S.State) where
  -- A put of a blob that the tenant is linked to succeeds.
  linked_put :
      (link : TenantBlob)
      → lookup (t, H.hexdigest bytes) w.db.links ≡ some link
      → (put_blob S H now bytes t w).0 ≡ ok (H.hexdigest bytes)
  unfolding enforce_quota
  linked_put link linked = put_blob_allowed S L H now bytes t w (ground (arith, linked))

  put_ref_ok :
      (link : TenantBlob)
      → lookup (t, H.hexdigest bytes) w.db.links ≡ some link
      → is_ok (put_ref S H now path bytes t w).0 ≡ true
  unfolding put_ref
  put_ref_ok link linked = ground (arith, linked_put link linked)

  -- The same bytes are put again: the answer says so, and only the link's count rises.
  put_ref_linked :
      (ref : Ref) (link : TenantBlob)
      → lookup (tpath t path) w.db.refs ≡ some ref
      → ref.hash ≡ H.hexdigest bytes
      → lookup (t, H.hexdigest bytes) w.db.links ≡ some link
      → let (r, after) = put_ref S H now path bytes t w in
        (r ≡ ok (H.hexdigest bytes, false))
        × (after.db.refs ≡ w.db.refs)
        × (after.db.tenants ≡ w.db.tenants)
        × (lookup (t, H.hexdigest bytes) after.db.links
            ≡ some (record link { refcount = link.refcount + 1 }))
  put_ref_linked ref link present same linked =
      go (put_ref S H now path bytes t w) (put_ref-PutRef S H now bytes t path w)
        (put_ref_ok link linked)
    where
      go :
          (o : Result (Str × Bool) × World S.State)
          → PutRef S H now bytes t path w o
          → is_ok o.0 ≡ true
          → (o.0 ≡ ok (H.hexdigest bytes, false))
            × (o.1.db.refs ≡ w.db.refs)
            × (o.1.db.tenants ≡ w.db.tenants)
            × (lookup (t, H.hexdigest bytes) o.1.db.links
                ≡ some (record link { refcount = link.refcount + 1 }))
      go (ok (h, created), w') p fine =
          let (answer, refs, tenants, links) =
            put_linked now t path (H.hexdigest bytes) (length bytes) w.db ref link present same
              linked in
          ground (arith, p, answer, refs, tenants, links)
      go (err e, w') p fine = cc

  -- Over a lawful backend, for a tenant with a row, where its path holds the bytes already and
  -- their link is counted once at least: to put them again succeeds, and answers that no ref was
  -- created, and to delete the ref then succeeds as well; afterwards the path has no ref, and still
  -- the tenant is charged what it was charged before, and the link has the count that it had.
  pub delete_after_same_put :
      (ref : Ref) (link : TenantBlob) (row : Tenant)
      → lookup (tpath t path) w.db.refs ≡ some ref
      → ref.hash ≡ H.hexdigest bytes
      → lookup (t, H.hexdigest bytes) w.db.links ≡ some link
      → 1 ≤ link.refcount
      → lookup t w.db.tenants ≡ some row
      → let (answer, put) = put_ref S H now path bytes t w in
        let (gone, after) = delete_ref S path t put in
        (answer ≡ ok (H.hexdigest bytes, false))
        × (gone ≡ ok true)
        × (lookup (tpath t path) after.db.refs ≡ none)
        × (lookup t after.db.tenants ≡ some row)
        × (lookup (t, H.hexdigest bytes) after.db.links ≡ some link)
  unfolding delete_ref
  delete_after_same_put ref link row present same linked counted owner =
      let (answer, refs, tenants, links) = put_ref_linked ref link present same linked in
      let put : World S.State = (put_ref S H now path bytes t w).1 in
      let more : TenantBlob = record link { refcount = link.refcount + 1 } in
      let there : lookup (tpath t path) put.db.refs ≡ some ref = rw refs present in
      let (kept, fewer) =
        delete_linked t (tpath t path) ref more put.db there (rw same links) (omega arith) in
      (
        answer,
        delete_answer t (tpath t path) ref put.db there,
        rw (delete_ref_db-refs t (tpath t path) put.db)
            (lookup-erase (tpath t path) (tpath t path) put.db.refs ∙ ground arith),
        rw (kept, tenants) owner,
        ground (arith, same, fewer),
      )
