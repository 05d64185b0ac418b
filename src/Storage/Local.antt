-- ===== src/Storage/Local.antt =====
-- clawfs/storage.py `LocalStorage`: blobs as files under `<root>/objects/<aa>/<rest>`. Of the file
-- system the model has the files; a directory is there as long as a file is in it.
pub mod Path
pub mod Laws
pub mod Traversal
pub mod Listing
use my_test_bot_repo.Prelude.{
  ℕ, Str, Bytes, Bool, true, false, not, ◌&&◌, Option, none, some, List, [], ◌∷◌, ◌++◌, length,
  ◌==◌, nat_eq, path_eq, is_some, if◌then◌else◌, codes,
}
use my_test_bot_repo.Prelude.Table.{Table, lookup, insert, erase}
use my_test_bot_repo.Result.{Result, ok, err, file_not_found}
use my_test_bot_repo.Storage.{Storage, or_not_found}
use Path.{resolve, join_path, with_tmp, ends_tmp, objects, blob_path}

-- The files by their resolved paths, the last component first.
abbrev pub Files : Type 0
Files = Table (List Str) Bytes

-- The root is the resolved path of the data directory.
module _ (root : List Str) where
  -- `p.exists()`
  unfoldable pub exists : Str → Files → Bool
  exists h fs = is_some (lookup (resolve (blob_path root h)) fs)

  unfoldable pub get : Str → Files → Result Bytes
  get h fs = or_not_found (lookup (resolve (blob_path root h)) fs)

  -- The bytes go to a temporary file, which replaces the blob's file.
  unfoldable pub put : Str → Bytes → Files → Files
  unfolding exists
  put h bytes fs =
      let p = resolve (blob_path root h) in
      let tmp = with_tmp p in
      if exists h fs then fs else insert p bytes (erase tmp (insert tmp bytes fs))

  -- `bytes` are the contents of `src_path`, which the caller does not use again.
  unfoldable pub put_path : Str → Bytes → Files → Files
  unfolding exists
  put_path h bytes fs = if exists h fs then fs else insert (resolve (blob_path root h)) bytes fs

  unfoldable pub delete : Str → Files → Files
  unfolding exists
  delete h fs = if exists h fs then erase (resolve (blob_path root h)) fs else fs

  -- The name of a blob's file and of its shard give the hash.
  abbrev pub yielded : List Str → Option Str
  yielded (name ∷ shard ∷ base) =
      if base == resolve (objects root) && (length shard == 2 && not (ends_tmp name))
      then some (shard ++ name)
      else none
  yielded _ = none

  abbrev onto : Option Str → List Str → List Str
  onto none hs = hs
  onto (some h) hs = h ∷ hs

  unfoldable pub iter_hashes : Files → List Str
  iter_hashes [] = []
  iter_hashes ((p, bytes) ∷ fs) = onto (yielded p) (iter_hashes fs)

  -- The backend, as the rest of the program uses it.
  abbrev pub local_storage : Storage
  local_storage = record {
    State = Files;
    put = λ h bytes fs. (ok tt, put h bytes fs);
    put_path = λ h bytes fs. (ok tt, put_path h bytes fs);
    get = get;
    exists = λ h fs. ok (exists h fs);
    delete = delete;
  }
