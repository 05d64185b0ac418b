-- ===== src/Uploads/Parts.antt =====
-- Parts that are written.
use my_test_bot_repo.Prelude.{
  Str, Bytes, Bool, true, false, Option, none, some, List, ◌≡◌, arith, str_eq, if◌then◌else◌,
}
use my_test_bot_repo.Prelude.Int.{ℤ, pos, ltb_ℤ}
use my_test_bot_repo.Prelude.Table.{lookup}
use my_test_bot_repo.Result.{err, file_not_found, value_error}
use my_test_bot_repo.Db.{Upload}
use my_test_bot_repo.App.{World}
use my_test_bot_repo.Storage.{Hasher}
use my_test_bot_repo.Uploads.{write_part, write_part_sync}
use my_test_bot_repo.Uploads.Names.{signed_part_name}
use my_test_bot_repo.Uploads.Merge.{start}
use my_test_bot_repo.Uploads.Merge.Laws.{concat, feed_chunks-fed}

-- Whether an upload is there and not completed.
abbrev pub is_open : Option Upload → Bool
is_open none = false
is_open (some up) = if up.completed then false else true

module _ (H : Hasher) {S : Type 0} (id : Str) (n : ℤ) (chunks : List Bytes) (w : World S) where
  -- A part with a number below 1 is refused, and then one of an upload that is missing or
  -- completed, and nothing is written. Any other part is written as the chunks in one piece, in a
  -- file that is named by the number, as `write_part_sync` does; the answer is its size and digest.
  pub write_part-write_part_sync : write_part H id n chunks w ≡ (
      if ltb_ℤ n (pos 1)
      then (err value_error, w)
      else if is_open (lookup id w.db.uploads)
      then write_part_sync H id n (concat chunks) w
      else (err file_not_found, w))
  unfolding write_part write_part_sync signed_part_name
  write_part-write_part_sync = ground (arith, feed_chunks-fed start chunks)
