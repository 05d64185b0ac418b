-- ===== src/Core/Contents/Reclaimed.antt =====
-- What garbage collection gives back.
use my_test_bot_repo.Prelude.{
  Str, true, none, some, ◌≡◌, ◌≢◌, arith, inl, inr, Option-cases, str_eq, nat_eq,
}
use my_test_bot_repo.Prelude.Int.{negsuc}
use my_test_bot_repo.Prelude.Table.{lookup, erase, erase_absent, sum-erase}
use my_test_bot_repo.Db.{Db, Ref}
use my_test_bot_repo.App.{World}
use my_test_bot_repo.Storage.{Storage, Hasher, IsLawful}
use my_test_bot_repo.Core.Paths.{tpath}
use my_test_bot_repo.Core.Frame.{link_dec-SameFiles}
use my_test_bot_repo.Core.Blobs.{bump}
use my_test_bot_repo.Core.Refs.{delete_ref, delete_ref_db}
use my_test_bot_repo.Core.Gc.{garbage, gc}
use my_test_bot_repo.Core.Refcount.{
  IsCounted, count_refs, names, named_blob, bump_keeps_blobs, refs-bump,
}
use my_test_bot_repo.Core.Refcount.Keeps.{delete_ref-IsCounted}
use my_test_bot_repo.Core.Refcount.Sweep.{contains-garbage, garbage_row, gc-eq-sweep, gc_exact}
use my_test_bot_repo.Core.Contents.{IsStored}
use my_test_bot_repo.Core.Contents.Keeps.{delete_ref-IsStored}
use my_test_bot_repo.Core.Contents.Refinement.{contents-sweep}

pub delete_ref_db-refs :
    (t stored : Str) (db : Db) → (delete_ref_db t stored db).1.refs ≡ erase stored db.refs
unfolding delete_ref_db
delete_ref_db-refs t stored db = elim (Option-cases (lookup stored db.refs)) [
  | inl absent ↦ ground (arith, absent, erase_absent stored db.refs absent)
  | inr (ref, present) ↦ ground (
    arith,
    present,
    (link_dec-SameFiles t ref.hash (bump ref.hash (negsuc 0) db)).refs,
    refs-bump ref.hash (negsuc 0) db,
  )
]

-- The row of a blob stays where a ref is deleted.
delete_ref_db_keeps_blob :
    (t stored : Str) (ref : Ref) (db : Db)
    → lookup stored db.refs ≡ some ref
    → lookup ref.hash db.blobs ≢ none
    → lookup ref.hash (delete_ref_db t stored db).1.blobs ≢ none
unfolding delete_ref_db
delete_ref_db_keeps_blob t stored ref db present there =
    rw (present, delete_ref_db, (link_dec-SameFiles t ref.hash (bump ref.hash (negsuc 0) db)).blobs)
      (bump_keeps_blobs ref.hash ref.hash db (negsuc 0) there)

last_name :
    (stored : Str) (ref : Ref) (db : Db)
    → IsCounted db
    → lookup stored db.refs ≡ some ref
    → count_refs ref.hash db.refs ≡ 1
    → count_refs ref.hash (erase stored db.refs) ≡ 0
last_name stored ref db v present once =
    ground (arith, present, sum-erase (names ref.hash) stored db.refs v.unique)

module _ (S : Storage) (L : IsLawful S) (H : Hasher) where
  -- Collecting for all tenants removes every blob that no ref names, row and contents.
  pub gc_reclaims :
      (h : Str) (w : World S.State)
      → IsCounted w.db
      → IsStored S L H w
      → lookup h w.db.blobs ≢ none
      → count_refs h w.db.refs ≡ 0
      → let w' = (gc S none w).1 in (lookup h w'.db.blobs ≡ none) × (L.contents w'.store h ≡ none)
  gc_reclaims h w c v there unnamed =
      let row : garbage_row none (lookup h w.db.blobs) ≡ true =
        ground (arith, there, unnamed, c.counts h) in
      let listed = contains-garbage none h w.db.blobs c.unique_blobs in
      (
        ground (arith, row, (gc_exact S none w c.unique_blobs).2 h),
        rw (gc-eq-sweep S none w c.unique_blobs) (
            ground (
              arith,
              row,
              listed,
              contents-sweep S L H (garbage none w.db.blobs) 0 h w
                  (λ k m.
                    v.digests k
                      (ground (arith, m, contains-garbage none k w.db.blobs c.unique_blobs)))
                  (v.digests h there),
            )),
      )

  -- In a valid file system over a lawful backend: where a ref is the only one that names its blob,
  -- deleting it and then collecting for all tenants leaves neither the blob's row nor its contents.
  pub gc-delete_ref :
      (path t : Str) (ref : Ref) (w : World S.State)
      → IsCounted w.db
      → IsStored S L H w
      → lookup (tpath t path) w.db.refs ≡ some ref
      → count_refs ref.hash w.db.refs ≡ 1
      → let w' = (gc S none (delete_ref S path t w).1).1 in
        (lookup ref.hash w'.db.blobs ≡ none) × (L.contents w'.store ref.hash ≡ none)
  unfolding delete_ref
  gc-delete_ref path t ref w c v present once =
      gc_reclaims ref.hash (delete_ref S path t w).1 (delete_ref-IsCounted S path t w c)
        (delete_ref-IsStored S L H path t w v)
        (delete_ref_db_keeps_blob t (tpath t path) ref w.db present
          (named_blob (tpath t path) ref w.db c present))
        (rw (delete_ref_db-refs t (tpath t path) w.db)
          (last_name (tpath t path) ref w.db c present once))
