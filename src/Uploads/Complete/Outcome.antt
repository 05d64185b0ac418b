-- ===== src/Uploads/Complete/Outcome.antt =====
-- How `complete` leaves the database, whatever the backend does.
use my_test_bot_repo.Prelude.Int.{ℤ}
use my_test_bot_repo.Prelude.{ℕ, Str, Bytes, Bool, Option, List, str_eq, length, ◌≡◌, arith}
use my_test_bot_repo.Prelude.Table.{Table, lookup}
use my_test_bot_repo.Result.{Result, ok, err}
use my_test_bot_repo.Db.{Db, Upload}
use my_test_bot_repo.App.{World}
use my_test_bot_repo.Storage.{Storage, Hasher}
use my_test_bot_repo.Core.Quota.{enforce_quota}
use my_test_bot_repo.Core.Outcome.{with_blob}
use my_test_bot_repo.Uploads.{dir_of}
use my_test_bot_repo.Uploads.Names.{sorted_parts}
use my_test_bot_repo.Uploads.Merge.{Stream, start, merge_parts, buf_size}
use my_test_bot_repo.Uploads.Merge.Laws.{fed, concat_parts, merge_parts-fed}
use my_test_bot_repo.Uploads.Complete.{
  CompletedUpload, tenant_of, record_upload, commit_upload, complete, write_merged,
}

module _ (S : Storage) (H : Hasher) (now : ℕ) (id : Str) where
  -- The parts of an upload, in order.
  abbrev pub parts_of : World S.State → Table Str Bytes
  parts_of w = sorted_parts (dir_of id w.scratch)

  abbrev pub upload_of : World S.State → Option Upload
  upload_of w = lookup id w.db.uploads

  pub record Finished (w : World S.State) (h : Str) (size : ℕ) (after : Db) : Type 0 where
    pub allowed : enforce_quota (tenant_of (upload_of w)) h size w.db ≡ ok tt
    pub rows :
        after
        ≡ record_upload now id
            (upload_of w)
            h
            size
            (with_blob now (tenant_of (upload_of w)) h size w.db)

  abbrev Committed : World S.State → Str → ℕ → Result Bool × World S.State → Type 0
  Committed w h size (ok created, w') = Finished w h size w'.db
  Committed w h size (err e, w') = w'.db ≡ w.db

  commit_upload-Committed :
      (h : Str) (s : Stream) (parts : Table Str Bytes) (w : World S.State)
      → Committed w h s.size (commit_upload S H now id h s parts w)
  unfolding commit_upload
  commit_upload-Committed h s parts w = ground arith

  abbrev pub Completed : World S.State → Result CompletedUpload × World S.State → Type 0
  Completed w (ok c, w') =
      (c.hash ≡ H.hexdigest (concat_parts (parts_of w)))
      × (c.size ≡ length (concat_parts (parts_of w)))
      × Finished w c.hash c.size w'.db
  Completed w (err e, w') = w'.db ≡ w.db

  pub merged-fed :
      (parts : Table Str Bytes) → merge_parts buf_size parts start ≡ fed start (concat_parts parts)
  merged-fed parts = merge_parts-fed buf_size parts start (omega arith)

  -- The world in which the last session runs.
  abbrev pub staged : World S.State → World S.State
  staged w = record w {
    scratch =
        write_merged S H id (dir_of id w.scratch) (merge_parts buf_size (parts_of w) start).out
          w.scratch;
  }

  -- A `complete` that returns has hashed and counted the parts, one after another in their order,
  -- the quota allowed them, and the database is as the rows of the blob and the upload say. One
  -- that raises leaves the database as it was.
  pub complete-Completed :
      (expected : Option (List ℤ)) (w : World S.State)
      → Completed w (complete S H now id expected w)
  unfolding complete
  complete-Completed expected w = ground (
    arith,
    merged-fed (parts_of w),
    commit_upload-Committed (H.hexdigest (merge_parts buf_size (parts_of w) start).hashed)
        (merge_parts buf_size (parts_of w) start) (parts_of w) (staged w),
  )
