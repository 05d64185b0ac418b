-- ===== src/Uploads/Complete.antt =====
-- clawfs/uploads.py `complete`.
pub mod Outcome
pub mod Keeps
pub mod Named
pub mod Contents
pub mod Seen
pub mod Rows
use my_test_bot_repo.Prelude.{
  ℕ, ◌+◌, Str, Bytes, Bool, true, false, not, ◌&&◌, Option, none, some, List, [], ◌∷◌, ◌==◌, nat_eq,
  str_eq, if◌then◌else◌, codes, is_some,
}
use my_test_bot_repo.Prelude.Int.{ℤ, pos, negsuc, eq_ℤ}
use my_test_bot_repo.Prelude.Table.{Table, lookup, insert, erase}
use my_test_bot_repo.Text.{is_empty}
use my_test_bot_repo.Result.{Error, Result, ok, err, file_not_found, value_error}
use my_test_bot_repo.Db.{Db, Upload, Ref, Blob}
use my_test_bot_repo.Db.Rows.{update}
use my_test_bot_repo.App.{
  World, Scratch, App, pure, raise, gets, check, modify, on_store, on_scratch, from_scratch,
  session, ◌>>=◌, ◌>>◌,
}
use my_test_bot_repo.Storage.{Storage, Hasher}
use my_test_bot_repo.Core.Paths.{tpath, default_tenant}
use my_test_bot_repo.Core.Quota.{enforce_quota, link_inc}
use my_test_bot_repo.Core.Blobs.{bump, add_blob, new_blob}
use my_test_bot_repo.Core.Refs.{set_ref}
use my_test_bot_repo.Uploads.Names.{sorted_parts, stem_number}
use my_test_bot_repo.Uploads.Merge.{Stream, start, merge_parts, buf_size}

pub record CompletedUpload : Type 0 where
  pub hash : Str
  pub size : ℕ
  pub created : Bool

-- The first session.
abbrev pub need_pending : Option Upload → Result (Unit {0})
need_pending none = err file_not_found
need_pending (some up) = if up.completed then err value_error else ok tt

-- `scratch.iterdir()`
abbrev pub list_dir : Option (Table Str Bytes) → Result (Table Str Bytes)
list_dir none = err file_not_found
list_dir (some files) = ok files

abbrev mem : ℤ → List ℤ → Bool
mem n [] = false
mem n (m ∷ ms) = if eq_ℤ n m then true else mem n ms

abbrev all_in : List ℤ → List ℤ → Bool
all_in [] ms = true
all_in (n ∷ ns) ms = mem n ms && all_in ns ms

abbrev numbers : Table Str Bytes → List ℤ
numbers [] = []
numbers ((name, bytes) ∷ parts) = stem_number name ∷ numbers parts

-- `got != want`, as sets
abbrev pub expect : Option (List ℤ) → Table Str Bytes → Result (Unit {0})
expect none parts = ok tt
expect (some want) parts =
    if all_in (numbers parts) want && all_in want (numbers parts) then ok tt else err value_error

abbrev pub need_parts : Table Str Bytes → Result (Table Str Bytes)
need_parts [] = err value_error
need_parts (p ∷ parts) = ok (p ∷ parts)

abbrev pub merged_name : Str
merged_name = codes "merged.bin"

abbrev erase_parts : Table Str Bytes → Table Str Bytes → Table Str Bytes
erase_parts [] files = files
erase_parts ((name, bytes) ∷ parts) files = erase_parts parts (erase name files)

-- `scratch.rmdir()` succeeds on an empty directory only.
abbrev put_back : Str → Table Str Bytes → Scratch → Scratch
put_back id [] d = erase id d
put_back id (f ∷ files) d = insert id (f ∷ files) d

-- The parts, `merged.bin` and the directory go.
unfoldable pub cleanup : Str → Table Str Bytes → Scratch → Scratch
cleanup id parts d = elim (lookup id d) [
  | none ↦ d
  | some files ↦ put_back id (erase merged_name (erase_parts parts files)) d
]

abbrev pub tenant_of : Option Upload → Str
tenant_of none = default_tenant
tenant_of (some up) = up.tenant_id

abbrev target_of : Option Upload → Option Str
target_of none = none
target_of (some up) = up.target_ref

-- The ref that the upload is bound to. Its time of update stays.
unfoldable pub bind_upload : ℕ → Str → Str → Str → Db → Db
bind_upload now tenant_id path h db = elim (lookup path db.refs) [
  | none ↦ bump h (pos 1) (
      set_ref path (record { hash = h; tenant_id = tenant_id; created_at = now; updated_at = now })
        db)
  | some ref ↦
      if ref.hash == h
      then db
      else bump h (pos 1) (bump ref.hash (negsuc 0) (set_ref path (record ref { hash = h }) db))
]

-- `if target_ref:`
abbrev pub bind_target : ℕ → Str → Option Str → Str → Db → Db
bind_target now tenant_id none h db = db
bind_target now tenant_id (some target) h db =
    if is_empty target then db else bind_upload now tenant_id (tpath tenant_id target) h db

unfoldable pub finish : Str → Upload → Upload
finish h up = record up { completed = true; final_hash = some h }

-- The rows that the last session writes once the blob is there.
unfoldable pub record_upload : ℕ → Str → Option Upload → Str → ℕ → Db → Db
unfolding bind_upload finish
record_upload now upload_id up h size db =
    let linked = link_inc (tenant_of up) h size db in
    let bound = bind_target now (tenant_of up) (target_of up) h linked in
    record bound { uploads = update upload_id (finish h) bound.uploads }

module _ (S : Storage) (H : Hasher) where
  -- The quota check, with its cleanup.
  abbrev pub check_quota : Str → Str → Str → ℕ → Table Str Bytes → App S.State (Unit {0})
  check_quota upload_id tenant_id h size parts w = elim (enforce_quota tenant_id h size w.db) [
    | ok u ↦ (ok tt, w)
    | err e ↦ (err e, record w { scratch = cleanup upload_id parts w.scratch })
  ]

  -- The blob, where it is new; the answer is `created`.
  abbrev pub store_merged : ℕ → Str → Str → Stream → Option Blob → App S.State Bool
  store_merged now tenant_id h s none = do
    on_store (S.put_path h s.out)
    modify (add_blob h (new_blob now tenant_id s.size))
    pure true
  store_merged now tenant_id h s (some existing) = pure false

  abbrev pub write_merged : Str → Table Str Bytes → Bytes → Scratch → Scratch
  write_merged upload_id files bytes d = insert upload_id (insert merged_name bytes files) d

  -- The last session.
  unfoldable pub commit_upload : ℕ → Str → Str → Stream → Table Str Bytes → App S.State Bool
  commit_upload now upload_id h s parts = session do
    up ← gets (λ db. lookup upload_id db.uploads)
    check_quota upload_id (tenant_of up) h s.size parts
    existing ← gets (λ db. lookup h db.blobs)
    created ← store_merged now (tenant_of up) h s existing
    modify (record_upload now upload_id up h s.size)
    pure created

  unfoldable pub complete : ℕ → Str → Option (List ℤ) → App S.State CompletedUpload
  complete now upload_id expected_parts = do
    check (λ db. need_pending (lookup upload_id db.uploads))
    files ← from_scratch (λ d. list_dir (lookup upload_id d))
    parts ← from_scratch (λ d. need_parts (sorted_parts files))
    from_scratch (λ d. expect expected_parts parts)
    let s = merge_parts buf_size parts start
    let h = H.hexdigest s.hashed
    on_scratch (λ d. (tt {0}, write_merged upload_id files s.out d))
    created ← commit_upload now upload_id h s parts
    on_scratch (λ d. (tt {0}, cleanup upload_id parts d))
    pure (record { hash = h; size = s.size; created = created })
