-- ===== src/Uploads/Complete/Named.antt =====
-- The target of an upload is stored under its tenant.
use my_test_bot_repo.Prelude.Int.{ℤ}
use my_test_bot_repo.Prelude.{
  ℕ, Str, Option, none, some, List, ◌==◌, str_eq, refl, arith, inl, inr, Bool-cases, Option-cases,
}
use my_test_bot_repo.Prelude.Table.{lookup}
use my_test_bot_repo.Db.{Db}
use my_test_bot_repo.App.{World}
use my_test_bot_repo.Storage.{Storage, Hasher}
use my_test_bot_repo.Core.Paths.{tpath}
use my_test_bot_repo.Core.Frame.{link_inc-SameFiles}
use my_test_bot_repo.Core.Quota.{link_inc}
use my_test_bot_repo.Core.Blobs.{bump}
use my_test_bot_repo.Core.Refs.Named.{IsNamed, insert-IsNamed, update-IsNamed, starts_with-tpath}
use my_test_bot_repo.Uploads.Complete.{
  tenant_of, target_of, bind_upload, bind_target, record_upload, complete,
}
use my_test_bot_repo.Uploads.Complete.Keeps.{finished_keeps}
use my_test_bot_repo.Core.Refs.Writes.{with_blob-refs}
use my_test_bot_repo.Core.Outcome.{with_blob}

bind_upload-IsNamed :
    (now : ℕ) (t path h : Str) (db : Db)
    → IsNamed db.refs
    → IsNamed (bind_upload now t (tpath t path) h db).refs
unfolding bind_upload bump
bind_upload-IsNamed now t path h db v = elim (Option-cases (lookup (tpath t path) db.refs)) [
  | inl absent ↦ rw (absent, bind_upload) (insert-IsNamed _ _ db.refs (starts_with-tpath t path) v)
  | inr (ref, present) ↦ elim (Bool-cases (ref.hash == h)) [
    | inl same ↦ rw (present, bind_upload, same) v
    | inr moved ↦
        rw (present, bind_upload, moved)
          (update-IsNamed (tpath t path) ref (record ref { hash = h }) db.refs present refl v)
  ]
]

bind_target-IsNamed :
    (now : ℕ) (t : Str) (target : Option Str) (h : Str) (db : Db)
    → IsNamed db.refs
    → IsNamed (bind_target now t target h db).refs
bind_target-IsNamed now t none h db v = v
bind_target-IsNamed now t (some target) h db v =
    ground (arith, bind_upload-IsNamed now t target h db)

module _ (S : Storage) (H : Hasher) where
  pub complete-IsNamed :
      (now : ℕ) (id : Str) (expected : Option (List ℤ)) (w : World S.State)
      → IsNamed w.db.refs
      → IsNamed (complete S H now id expected w).1.db.refs
  unfolding record_upload
  complete-IsNamed now id expected w v =
      finished_keeps S H now id expected (λ (db : Db). IsNamed db.refs) w v
        λ h size fits.
          let up = lookup id w.db.uploads in
          let blobbed = with_blob now (tenant_of up) h size w.db in
          bind_target-IsNamed now (tenant_of up) (target_of up) h
            (link_inc (tenant_of up) h size blobbed)
            (rw
              (
                (link_inc-SameFiles (tenant_of up) h size blobbed).refs,
                with_blob-refs now (tenant_of up) h size w.db,
              )
              v)
