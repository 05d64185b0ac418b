-- ===== src/Uploads.antt =====
-- clawfs/uploads.py: the class `UploadManager`. A method takes the time at which it runs, and
-- `create` takes the token that it draws.
pub mod Names
pub mod Merge
pub mod Complete
pub mod Parts
use my_test_bot_repo.Prelude.{
  ℕ, ◌+◌, Str, Bytes, Bool, true, false, ◌||◌, Option, none, some, List, [], ◌∷◌, length, str_eq,
  is_some, get_or, if◌then◌else◌,
}
use my_test_bot_repo.Prelude.Int.{ℤ, pos, negsuc, pos_part, ltb_ℤ}
use my_test_bot_repo.Prelude.Table.{Table, lookup, insert, erase}
use my_test_bot_repo.Result.{
  Result, ok, err, file_not_found, file_exists, value_error, integrity_error,
}
use my_test_bot_repo.Db.{Db, Upload}
use my_test_bot_repo.App.{
  Scratch, App, pure, raise, gets, check, modify, on_scratch, from_scratch, session, ◌>>=◌, ◌>>◌,
}
use my_test_bot_repo.Storage.{Hasher}
use Names.{part_name, signed_part_name}
use Merge.{Stream, start, feed_chunks}

abbrev pub dir_of : Str → Scratch → Table Str Bytes
dir_of id d = get_or (lookup id d) []

-- `(self.scratch_root / upload_id).mkdir(parents=True, exist_ok=False)`
abbrev make_dir : Str → Scratch → Result Scratch
make_dir id d = if is_some (lookup id d) then err file_exists else ok (insert id [] d)

abbrev need_free : Option Upload → Result (Unit {0})
need_free none = ok tt
need_free (some taken) = err integrity_error

-- `up is None or up.completed`
abbrev pub need_open : Option Upload → Result (Unit {0})
need_open none = err file_not_found
need_open (some up) = if up.completed then err file_not_found else ok tt

-- A part file, in a directory that is made where it is missing.
abbrev pub write_file : Str → Str → Bytes → Scratch → Scratch
write_file upload_id name bytes d = insert upload_id (insert name bytes (dir_of upload_id d)) d

module _ {S : Type 0} where
  unfoldable pub create : ℕ → Str → Str → Option Str → App S Str
  create now upload_id tenant_id target_ref = do
    made ← from_scratch (make_dir upload_id)
    on_scratch (λ d. (tt {0}, made))
    session do
      check (λ db. need_free (lookup upload_id db.uploads))
      modify λ db. record db {
        uploads =
            insert upload_id
              (record {
                tenant_id = tenant_id;
                created_at = now;
                completed = false;
                final_hash = none;
                target_ref = target_ref;
              })
              db.uploads;
      }
    pure upload_id

  -- The row goes, and then the directory.
  abbrev drop_upload : Str → Option Upload → App S Bool
  drop_upload upload_id none = pure false
  drop_upload upload_id (some up) = do
    modify (λ db. record db { uploads = erase upload_id db.uploads })
    on_scratch (λ d. (tt {0}, erase upload_id d))
    pure true

  unfoldable pub abort : Str → App S Bool
  abort upload_id = do up ← gets (λ db. lookup upload_id db.uploads); drop_upload upload_id up

  module _ (H : Hasher) where
    -- A part number is positive past the first test. The result is the size and the etag.
    unfoldable pub write_part : Str → ℤ → List Bytes → App S (ℕ × Str)
    unfolding feed_chunks
    write_part upload_id part_number chunks =
        if ltb_ℤ part_number (pos 1) then raise value_error else do
          check (λ db. need_open (lookup upload_id db.uploads))
          let s = feed_chunks start chunks
          on_scratch λ d. (tt {0}, write_file upload_id (part_name (pos_part part_number)) s.out d)
          pure (s.size, H.hexdigest s.hashed)

    -- The helper that writes a part with no look at its number or its upload.
    unfoldable pub write_part_sync : Str → ℤ → Bytes → App S (ℕ × Str)
    write_part_sync upload_id part_number bytes = do
      on_scratch (λ d. (tt {0}, write_file upload_id (signed_part_name part_number) bytes d))
      pure (length bytes, H.hexdigest bytes)
