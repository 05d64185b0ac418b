-- ===== src/Uploads/Complete/Keeps.antt =====
-- Completing an upload keeps the reference counts, the quota accounting and the limits.
use my_test_bot_repo.Prelude.Int.{ℤ}
use my_test_bot_repo.Prelude.{
  ℕ, Str, Option, none, some, List, str_eq, ◌≡◌, ◌≢◌, refl, sym, subst, arith, inl, inr,
  Option-cases,
}
use my_test_bot_repo.Prelude.Table.{lookup}
use my_test_bot_repo.Result.{Result, ok, err}
use my_test_bot_repo.Db.{Db, Upload}
use my_test_bot_repo.App.{World}
use my_test_bot_repo.Storage.{Storage, Hasher}
use my_test_bot_repo.Core.Paths.{tpath}
use my_test_bot_repo.Core.Quota.{enforce_quota}
use my_test_bot_repo.Core.Blobs.{bump}
use my_test_bot_repo.Core.Outcome.{with_blob, put_blob_db}
use my_test_bot_repo.Core.Refcount.{IsCounted}
use my_test_bot_repo.Core.Refcount.Keeps.{
  put_blob_db-IsCounted, put_blob_db-there, bind_new-IsCounted, bind_moved-IsCounted,
}
use my_test_bot_repo.Core.Accounting.{IsAccounted}
use my_test_bot_repo.Core.Accounting.Keeps.{
  put_blob_db-IsAccounted, SameAccounts, SameAccounts-IsAccounted,
}
use my_test_bot_repo.Core.Accounting.Limits.{IsWithin}
use my_test_bot_repo.Core.Accounting.Writes.{put_blob_db-IsWithin}
use my_test_bot_repo.Uploads.Complete.{
  CompletedUpload, tenant_of, target_of, bind_upload, bind_target, record_upload, complete,
}
use my_test_bot_repo.Uploads.Complete.Outcome.{Completed, complete-Completed}

bind_upload-IsCounted :
    (now : ℕ) (t path h : Str) (db : Db)
    → lookup h db.blobs ≢ none
    → IsCounted db
    → IsCounted (bind_upload now t path h db)
unfolding bind_upload
bind_upload-IsCounted now t path h db there v = elim (Option-cases (lookup path db.refs)) [
  | inl absent ↦
      rw (absent, bind_upload)
        (bind_new-IsCounted path
          (record { hash = h; tenant_id = t; created_at = now; updated_at = now }) db absent there
          v)
  | inr (ref, present) ↦
      rw (present, bind_upload)
        (ground (arith, bind_moved-IsCounted path ref (record ref { hash = h }) db present))
]

bind_upload-SameAccounts :
    (now : ℕ) (t path h : Str) (db : Db) → SameAccounts (bind_upload now t path h db) db
unfolding bind_upload bump
bind_upload-SameAccounts now t path h db = ground arith

bind_target-IsCounted :
    (now : ℕ) (t : Str) (target : Option Str) (h : Str) (db : Db)
    → lookup h db.blobs ≢ none
    → IsCounted db
    → IsCounted (bind_target now t target h db)
bind_target-IsCounted now t none h db there v = v
bind_target-IsCounted now t (some target) h db there v =
    ground (arith, bind_upload-IsCounted now t (tpath t target) h db)

pub bind_target-SameAccounts :
    (now : ℕ) (t : Str) (target : Option Str) (h : Str) (db : Db)
    → SameAccounts (bind_target now t target h db) db
bind_target-SameAccounts now t none h db = (refl, refl)
bind_target-SameAccounts now t (some target) h db =
    ground (arith, bind_upload-SameAccounts now t (tpath t target) h db)

module _ (now : ℕ) (id : Str) (up : Option Upload) (h : Str) (size : ℕ) (db : Db) where
  abbrev pub linked : Db
  linked = put_blob_db now (tenant_of up) h size db

  -- The rows, with the table of uploads as it was.
  rows-IsCounted :
      IsCounted db
      → IsCounted (record_upload now id up h size (with_blob now (tenant_of up) h size db))
  unfolding record_upload put_blob_db
  rows-IsCounted v =
      let bound =
        bind_target-IsCounted now (tenant_of up) (target_of up) h linked
          (put_blob_db-there now (tenant_of up) h size db)
          (put_blob_db-IsCounted now (tenant_of up) h size db v) in
      record { counts = bound.counts; unique = bound.unique; unique_blobs = bound.unique_blobs }

  pub rows-SameAccounts :
      SameAccounts (record_upload now id up h size (with_blob now (tenant_of up) h size db)) linked
  unfolding record_upload put_blob_db
  rows-SameAccounts = bind_target-SameAccounts now (tenant_of up) (target_of up) h linked

  rows-IsWithin :
      enforce_quota (tenant_of up) h size db ≡ ok tt
      → IsWithin db
      → IsWithin (record_upload now id up h size (with_blob now (tenant_of up) h size db))
  rows-IsWithin fits v =
      let kept = put_blob_db-IsWithin now (tenant_of up) h size db fits v in
      record { within = λ t. rw rows-SameAccounts.0 (kept.within t) }

module _ (S : Storage) (H : Hasher) (now : ℕ) (id : Str) (expected : Option (List ℤ)) where
  module _ (P : Db → Type 0) (w : World S.State) where
    -- A property that the rows of a finished upload keep is kept by `complete`.
    pub finished_keeps :
        P w.db
        → ((h : Str) (size : ℕ)
            → enforce_quota (tenant_of (lookup id w.db.uploads)) h size w.db ≡ ok tt
            → P (
                record_upload now id
                  (lookup id w.db.uploads)
                  h
                  size
                  (with_blob now (tenant_of (lookup id w.db.uploads)) h size w.db)))
        → P (complete S H now id expected w).1.db
    finished_keeps p keep =
        go (complete S H now id expected w) (complete-Completed S H now id expected w)
      where
        go : (o : Result CompletedUpload × World S.State) → Completed S H now id w o → P o.1.db
        go (ok c, w') q = subst P (sym q.2.rows) (keep c.hash c.size q.2.allowed)
        go (err e, w') q = subst P (sym q) p

  -- Completing an upload keeps the reference counts exact, whether it succeeds or raises.
  pub complete-IsCounted :
      (w : World S.State) → IsCounted w.db → IsCounted (complete S H now id expected w).1.db
  complete-IsCounted w v =
      finished_keeps IsCounted w v (λ h size fits. rows-IsCounted now id _ h size w.db v)

  -- Completing an upload keeps the quota accounting exact, whether it succeeds or raises.
  pub complete-IsAccounted :
      (w : World S.State) → IsAccounted w.db → IsAccounted (complete S H now id expected w).1.db
  complete-IsAccounted w v = finished_keeps IsAccounted w v (λ h size fits.
      SameAccounts-IsAccounted _ _ (rows-SameAccounts now id _ h size w.db)
        (put_blob_db-IsAccounted now _ h size w.db v))

  -- Where no tenant is past a limit, completing an upload takes none past one, whether it succeeds
  -- or raises.
  pub complete-IsWithin :
      (w : World S.State) → IsWithin w.db → IsWithin (complete S H now id expected w).1.db
  complete-IsWithin w v =
      finished_keeps IsWithin w v (λ h size fits. rows-IsWithin now id _ h size w.db fits v)
