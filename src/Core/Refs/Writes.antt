-- ===== src/Core/Refs/Writes.antt =====
-- Refs that are put are stored under their tenants.
use my_test_bot_repo.Prelude.{ℕ, Str, Bytes, Bool, str_eq, ◌≡◌, refl, ap, arith, length}
use my_test_bot_repo.Result.{Result, ok, err}
use my_test_bot_repo.Db.{Db}
use my_test_bot_repo.App.{World}
use my_test_bot_repo.Storage.{Storage, Hasher}
use my_test_bot_repo.Core.Frame.{link_inc-SameFiles}
use my_test_bot_repo.Core.Blobs.{put_blob}
use my_test_bot_repo.Core.Refs.{put_ref}
use my_test_bot_repo.Core.Refs.Named.{IsNamed, bind_ref-IsNamed}
use my_test_bot_repo.Core.Outcome.{
  with_blob, put_blob_db, put_ref_db, PutBlob, PutRef, put_blob-PutBlob, put_ref-PutRef,
}

pub with_blob-refs :
    (now : ℕ) (t h : Str) (size : ℕ) (db : Db) → (with_blob now t h size db).refs ≡ db.refs
with_blob-refs now t h size db = ground arith

pub put_blob_db-refs :
    (now : ℕ) (t h : Str) (size : ℕ) (db : Db) → (put_blob_db now t h size db).refs ≡ db.refs
unfolding put_blob_db
put_blob_db-refs now t h size db = ground (
  arith,
  (link_inc-SameFiles t h size (with_blob now t h size db)).refs,
  with_blob-refs now t h size db,
)

module _ (S : Storage) (H : Hasher) where
  abbrev pub Named : World S.State → Type 0
  Named w = IsNamed w.db.refs

  pub put_blob-refs :
      (now : ℕ) (bytes : Bytes) (t : Str) (w : World S.State)
      → (put_blob S H now bytes t w).1.db.refs ≡ w.db.refs
  put_blob-refs now bytes t w = go (put_blob S H now bytes t w) (put_blob-PutBlob S H now bytes t w)
    where
      go : (o : Result Str × World S.State) → PutBlob S H now bytes t w o → o.1.db.refs ≡ w.db.refs
      go (ok h, w') p = rw p.2 (put_blob_db-refs now t h (length bytes) w.db)
      go (err e, w') p = rw p refl

  pub put_ref-IsNamed :
      (now : ℕ) (path : Str) (bytes : Bytes) (t : Str) (w : World S.State)
      → Named w
      → Named (put_ref S H now path bytes t w).1
  put_ref-IsNamed now path bytes t w v =
      go (put_ref S H now path bytes t w) (put_ref-PutRef S H now bytes t path w)
    where
      go : (o : Result (Str × Bool) × World S.State) → PutRef S H now bytes t path w o → Named o.1
      go (ok (h, created), w') p = rw (ap (λ (r : Bool × Db). r.1) p.2) (
          unfold put_ref_db in
          bind_ref-IsNamed now t path h _ (rw (put_blob_db-refs now t h (length bytes) w.db) v))
      go (err e, w') p = rw p v
