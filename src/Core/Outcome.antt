-- ===== src/Core/Outcome.antt =====
-- How `put_blob` and `put_ref` leave the database, whatever the backend does.
use my_test_bot_repo.Prelude.{ℕ, Str, Bytes, Bool, ◌≡◌, none, some, length, str_eq, arith}
use my_test_bot_repo.Prelude.Table.{lookup}
use my_test_bot_repo.Result.{Result, ok, err}
use my_test_bot_repo.Db.{Db}
use my_test_bot_repo.App.{World}
use my_test_bot_repo.Storage.{Storage, Hasher}
use my_test_bot_repo.Core.Paths.{tpath}
use my_test_bot_repo.Core.Quota.{link_inc, enforce_quota}
use my_test_bot_repo.Core.Blobs.{new_blob, add_blob, put_blob}
use my_test_bot_repo.Core.Refs.{bind_ref, put_ref}

-- The row of the blob is there.
abbrev pub with_blob : ℕ → Str → Str → ℕ → Db → Db
with_blob now tenant_id h size db = elim (lookup h db.blobs) [
  | none ↦ add_blob h (new_blob now tenant_id size) db
  | some existing ↦ db
]

unfoldable pub put_blob_db : ℕ → Str → Str → ℕ → Db → Db
put_blob_db now tenant_id h size db = link_inc tenant_id h size (with_blob now tenant_id h size db)

unfoldable pub put_ref_db : ℕ → Str → Str → Str → ℕ → Db → Bool × Db
put_ref_db now tenant_id path h size db =
    bind_ref now tenant_id (tpath tenant_id path) h (put_blob_db now tenant_id h size db)

module _ (S : Storage) (H : Hasher) (now : ℕ) (bytes : Bytes) (tenant_id : Str) where
  abbrev pub PutBlob : World S.State → Result Str × World S.State → Type 0
  PutBlob w (ok h, w') =
      (h ≡ H.hexdigest bytes)
      × (enforce_quota tenant_id h (length bytes) w.db ≡ ok tt)
      × (w'.db ≡ put_blob_db now tenant_id h (length bytes) w.db)
  PutBlob w (err e, w') = w'.db ≡ w.db

  pub put_blob-PutBlob : (w : World S.State) → PutBlob w (put_blob S H now bytes tenant_id w)
  unfolding put_blob put_blob_db
  put_blob-PutBlob w = ground arith

  abbrev pub PutRef : Str → World S.State → Result (Str × Bool) × World S.State → Type 0
  PutRef path w (ok (h, created), w') =
      (h ≡ H.hexdigest bytes)
      × (enforce_quota tenant_id h (length bytes) w.db ≡ ok tt)
      × ((created, w'.db) ≡ put_ref_db now tenant_id path h (length bytes) w.db)
  PutRef path w (err e, w') = w'.db ≡ w.db

  pub put_ref-PutRef :
      (path : Str) (w : World S.State) → PutRef path w (put_ref S H now path bytes tenant_id w)
  unfolding put_ref put_ref_db
  put_ref-PutRef path w = ground (arith, put_blob-PutBlob w)
