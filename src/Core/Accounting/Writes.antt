-- ===== src/Core/Accounting/Writes.antt =====
-- No write of a blob or a ref takes a tenant past its limits.
use my_test_bot_repo.Prelude.{
  ℕ, Str, Bytes, Bool, Option, none, some, ◌≡◌, ◌≢◌, ap, ◌∙◌, length, str_eq, pair_eq, arith, inl,
  inr, Option-cases,
}
use my_test_bot_repo.Prelude.Table.{lookup, lookup-insert, lookup-erase}
use my_test_bot_repo.Result.{Result, ok, err}
use my_test_bot_repo.Prelude.Int.{negsuc}
use my_test_bot_repo.Db.{Db, Blob, Ref}
use my_test_bot_repo.App.{World}
use my_test_bot_repo.Storage.{Storage, Hasher}
use my_test_bot_repo.Core.Paths.{tpath}
use my_test_bot_repo.Core.Quota.{link_inc, link_dec, enforce_quota}
use my_test_bot_repo.Core.Blobs.{bump}
use my_test_bot_repo.Core.Refs.{link_new, rebind, bind_ref, put_ref}
use my_test_bot_repo.Core.Blobs.{put_blob}
use my_test_bot_repo.Core.Refs.{delete_ref_db}
use my_test_bot_repo.Core.Outcome.{PutBlob, put_blob-PutBlob}
use my_test_bot_repo.Core.Accounting.Limits.{link_dec-IsWithin}
use my_test_bot_repo.Core.Outcome.{with_blob, put_blob_db, put_ref_db, PutRef, put_ref-PutRef}
use my_test_bot_repo.Core.Accounting.Limits.{IsWithin, link_inc-IsWithin, link_dec-IsWithin}

enforce_quota-with_blob :
    (now : ℕ) (t h : Str) (size : ℕ) (db : Db)
    → enforce_quota t h size (with_blob now t h size db) ≡ enforce_quota t h size db
unfolding enforce_quota
enforce_quota-with_blob now t h size db = ground arith

-- A blob that the tenant has is not charged again.
enforce_linked :
    (t h : Str) (size : ℕ) (db : Db)
    → lookup (t, h) db.links ≢ none
    → enforce_quota t h size db ≡ ok tt
unfolding enforce_quota
enforce_linked t h size db linked = ground arith

lookup-link_inc_self :
    (t h : Str) (size : ℕ) (db : Db) → lookup (t, h) (link_inc t h size db).links ≢ none
unfolding link_inc
lookup-link_inc_self t h size db = grind (arith, lookup-insert)

lookup-link_dec_ne :
    (t h k : Str) (db : Db) → k ≢ h → lookup (t, h) (link_dec t k db).links ≡ lookup (t, h) db.links
unfolding link_dec
lookup-link_dec_ne t h k db ne = grind (arith, lookup-insert, lookup-erase)

with_blob-IsWithin :
    (now : ℕ) (t h : Str) (size : ℕ) (db : Db) → IsWithin db → IsWithin (with_blob now t h size db)
with_blob-IsWithin now t h size db v = record { within = λ id. ground (arith, v.within id) }

pub put_blob_db-IsWithin :
    (now : ℕ) (t h : Str) (size : ℕ) (db : Db)
    → enforce_quota t h size db ≡ ok tt
    → IsWithin db
    → IsWithin (put_blob_db now t h size db)
unfolding put_blob_db
put_blob_db-IsWithin now t h size db fits v =
    link_inc-IsWithin t h size _ (enforce_quota-with_blob now t h size db ∙ fits)
      (with_blob-IsWithin now t h size db v)

pub put_blob_db-linked :
    (now : ℕ) (t h : Str) (size : ℕ) (db : Db)
    → lookup (t, h) (put_blob_db now t h size db).links ≢ none
unfolding put_blob_db
put_blob_db-linked now t h size db = lookup-link_inc_self t h size (with_blob now t h size db)

link_new-IsWithin :
    (t h : Str) (o : Option Blob) (db : Db)
    → lookup (t, h) db.links ≢ none
    → IsWithin db
    → IsWithin (link_new t h o db)
link_new-IsWithin t h none db linked v = v
link_new-IsWithin t h (some b) db linked v =
    link_inc-IsWithin t h b.size db (enforce_linked t h b.size db linked) v

rebind-IsWithin :
    (now : ℕ) (t stored h : Str) (ref : Ref) (db : Db)
    → ref.hash ≢ h
    → lookup (t, h) db.links ≢ none
    → IsWithin db
    → IsWithin (rebind now t stored h ref db)
unfolding rebind bump
rebind-IsWithin now t stored h ref db ne linked v =
    link_new-IsWithin t h _ _ (rw (lookup-link_dec_ne t h ref.hash _ ne) linked)
      (link_dec-IsWithin t ref.hash _ (record { within = v.within }))

bind_ref-IsWithin :
    (now : ℕ) (t stored h : Str) (db : Db)
    → lookup (t, h) db.links ≢ none
    → IsWithin db
    → IsWithin (bind_ref now t stored h db).1
unfolding bind_ref
bind_ref-IsWithin now t stored h db linked v = elim (Option-cases (lookup stored db.refs)) [
  | inl absent ↦ rw (absent, bind_ref) (unfold bump in record { within = v.within })
  | inr (ref, present) ↦
      rw (present, bind_ref) (ground (arith, rebind-IsWithin now t stored h ref db))
]

module _ (S : Storage) (H : Hasher) where
  -- Where no tenant is past a limit, putting a ref takes none past one, whether it succeeds or
  -- raises.
  pub put_ref-IsWithin :
      (now : ℕ) (path : Str) (bytes : Bytes) (t : Str) (w : World S.State)
      → IsWithin w.db
      → IsWithin (put_ref S H now path bytes t w).1.db
  put_ref-IsWithin now path bytes t w v =
      go (put_ref S H now path bytes t w) (put_ref-PutRef S H now bytes t path w)
    where
      go :
          (o : Result (Str × Bool) × World S.State)
          → PutRef S H now bytes t path w o
          → IsWithin o.1.db
      go (ok (h, created), w') p = rw (ap (λ (r : Bool × Db). r.1) p.2) (
          unfold put_ref_db in
          bind_ref-IsWithin now t (tpath t path) h _
            (put_blob_db-linked now t h (length bytes) w.db)
            (put_blob_db-IsWithin now t h (length bytes) w.db p.1 v))
      go (err e, w') p = rw p v

  -- Where no tenant is past a limit, putting a blob takes none past one, whether it succeeds or
  -- raises.
  pub put_blob-IsWithin :
      (now : ℕ) (bytes : Bytes) (t : Str) (w : World S.State)
      → IsWithin w.db
      → IsWithin (put_blob S H now bytes t w).1.db
  put_blob-IsWithin now bytes t w v =
      go (put_blob S H now bytes t w) (put_blob-PutBlob S H now bytes t w)
    where
      go : (o : Result Str × World S.State) → PutBlob S H now bytes t w o → IsWithin o.1.db
      go (ok h, w') p = rw p.2 (put_blob_db-IsWithin now t h (length bytes) w.db p.1 v)
      go (err e, w') p = rw p v

-- Deleting a ref takes no tenant past a limit.
pub delete_ref_db-IsWithin :
    (t stored : Str) (db : Db) → IsWithin db → IsWithin (delete_ref_db t stored db).1
unfolding delete_ref_db
delete_ref_db-IsWithin t stored db v = elim (Option-cases (lookup stored db.refs)) [
  | inl absent ↦ rw (absent, delete_ref_db) v
  | inr (ref, present) ↦
      let released =
        link_dec-IsWithin t ref.hash (bump ref.hash (negsuc 0) db)
          (unfold bump in record { within = v.within }) in
      rw (present, delete_ref_db) (record { within = released.within })
]
