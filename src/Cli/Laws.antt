-- ===== src/Cli/Laws.antt =====
-- Files that are written, read and removed from the command line.
use my_test_bot_repo.Prelude.{
  ℕ, Str, Bytes, Bool, Option, none, [], length, ◌≡◌, arith, is_some, str_eq,
}
use my_test_bot_repo.Result.{ok}
use my_test_bot_repo.App.{World}
use my_test_bot_repo.Storage.{Storage, Hasher, IsLawful}
use my_test_bot_repo.Core.Paths.{default_tenant, tpath}
use my_test_bot_repo.Core.Quota.{enforce_quota}
use my_test_bot_repo.Core.Refs.{put_ref, resolve_ref, delete_ref}
use my_test_bot_repo.Core.Refcount.{IsCounted}
use my_test_bot_repo.Core.Refcount.Keeps.{delete_ref-IsCounted}
use my_test_bot_repo.Core.Contents.{IsStored}
use my_test_bot_repo.Core.Contents.Keeps.{delete_ref-IsStored}
use my_test_bot_repo.Core.Contents.Reads.{seen, resolve_ref-eq-seen}
use my_test_bot_repo.Core.Contents.Refinement.{NoCollision, seen-delete_ref}
use my_test_bot_repo.Core.Contents.Isolation.{resolve_ref-put_ref}
use my_test_bot_repo.Admin.Printing.{printed}
use my_test_bot_repo.Cli.{read, write, rm, read_out, not_found, removed}

module _ (S : Storage) (L : IsLawful S) (H : Hasher) (path : Str) where
  write_world :
      (now : ℕ) (file : Bytes) (w : World S.State)
      → (write S H now path file w).1 ≡ (put_ref S H now path file default_tenant w).1
  unfolding write
  write_world now file w = ground arith

  read_result :
      (w : World S.State) {o : Option Bytes}
      → (resolve_ref S path default_tenant w).0 ≡ ok o
      → (read S path w).0 ≡ ok (read_out path o)
  unfolding read
  read_result w e = ground (arith, e)

  -- From a valid file system, over a lawful backend, and where other bytes with the same digest
  -- are not stored: a file that `write` is given, within the default tenant's quota, is what `read`
  -- writes to standard output, with exit status 0.
  pub read-write :
      (now : ℕ) (file : Bytes) (w : World S.State)
      → IsCounted w.db
      → IsStored S L H w
      → enforce_quota default_tenant (H.hexdigest file) (length file) w.db ≡ ok tt
      → NoCollision S L H file w
      → (read S path (write S H now path file w).1).0
        ≡ ok (record { output = printed []; binary = file })
  read-write now file w c v fits fresh = rw (write_world now file w) (
      read_result (put_ref S H now path file default_tenant w).1
        (resolve_ref-put_ref S L H now path file default_tenant w c v fits fresh))

  rm_result :
      (w : World S.State) {b : Bool}
      → (delete_ref S path default_tenant w).0 ≡ ok b
      → ((rm S path w).0 ≡ ok (removed path b))
        × ((rm S path w).1 ≡ (delete_ref S path default_tenant w).1)
  unfolding rm
  rm_result w e = ground (arith, e)

  -- In a valid file system over a lawful backend: `rm` reports a deletion, with exit status 0, where
  -- the path stands for something, and otherwise that it was not found, with status 1; and
  -- afterwards `read` finds nothing there.
  pub read-rm :
      (w : World S.State)
      → IsCounted w.db
      → IsStored S L H w
      → let (r, w') = rm S path w in
        (r ≡ ok (removed path (is_some (seen S L w (tpath default_tenant path)))))
        × ((read S path w').0 ≡ ok (not_found path))
  read-rm w c v =
      let (answer, seen_after) = seen-delete_ref S L H path default_tenant w c v in
      let (result, same) = rm_result w answer in
      let w' : World S.State = (delete_ref S path default_tenant w).1 in
      let reads =
        resolve_ref-eq-seen S L H path default_tenant w'
          (delete_ref-IsCounted S path default_tenant w c)
          (delete_ref-IsStored S L H path default_tenant w v) in
      (
        result,
        rw same (
            read_result w' {o = none}
              (ground (arith, reads, seen_after (tpath default_tenant path)))),
      )
