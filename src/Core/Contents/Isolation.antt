-- ===== src/Core/Contents/Isolation.antt =====
-- Tenants do not see one another's writes.
use my_test_bot_repo.Prelude.{ℕ, Str, Bytes, some, ◌≡◌, ◌≢◌, refl, sym, length, str_eq, arith}
use my_test_bot_repo.Result.{Result, ok, err}
use my_test_bot_repo.App.{World}
use my_test_bot_repo.Storage.{Storage, Hasher, IsLawful}
use my_test_bot_repo.Core.Paths.{tpath}
use my_test_bot_repo.Core.Paths.Laws.{tpath-injective}
use my_test_bot_repo.Text.Laws.{NoSlash}
use my_test_bot_repo.Core.Quota.{enforce_quota}
use my_test_bot_repo.Core.Refs.{resolve_ref, put_ref}
use my_test_bot_repo.Core.Refcount.{IsCounted}
use my_test_bot_repo.Core.Refcount.Keeps.{put_ref-IsCounted}
use my_test_bot_repo.Core.Accounting.Limits.{put_ref_refused}
use my_test_bot_repo.Core.Contents.{IsStored}
use my_test_bot_repo.Core.Contents.Keeps.{put_ref-IsStored}
use my_test_bot_repo.Core.Contents.Reads.{resolve_ref-eq-seen}
use my_test_bot_repo.Core.Contents.Refinement.{NoCollision, seen-put_ref}

module _ (S : Storage) (L : IsLawful S) (H : Hasher) where
  module _ (now : ℕ) (path : Str) (bytes : Bytes) (t : Str) (w : World S.State) where
    -- From a valid file system, over a lawful backend, and where other bytes with the same digest
    -- are not stored: a ref that is put within the quota is read back as the bytes that were put.
    pub resolve_ref-put_ref :
        IsCounted w.db
        → IsStored S L H w
        → enforce_quota t (H.hexdigest bytes) (length bytes) w.db ≡ ok tt
        → NoCollision S L H bytes w
        → (resolve_ref S path t (put_ref S H now path bytes t w).1).0 ≡ ok (some bytes)
    resolve_ref-put_ref c v fits fresh = ground (
      arith,
      resolve_ref-eq-seen S L H path t (put_ref S H now path bytes t w).1
          (put_ref-IsCounted S H now path bytes t w c)
          (put_ref-IsStored S L H now path bytes t w v),
      (seen-put_ref S L H now path bytes t w c v fits fresh).1 (tpath t path),
    )

    -- From a valid file system, over a lawful backend, and where other bytes with the same digest
    -- are not stored: a put by one tenant, refused or not, changes no read of another, where
    -- neither id holds a '/'.
    pub resolve_ref-put_ref_other :
        (u other : Str)
        → NoSlash t
        → NoSlash u
        → t ≢ u
        → IsCounted w.db
        → IsStored S L H w
        → NoCollision S L H bytes w
        → (resolve_ref S other u (put_ref S H now path bytes t w).1).0 ≡ (resolve_ref S other u w).0
    resolve_ref-put_ref_other u other ht hu ne c v fresh =
        go (enforce_quota t (H.hexdigest bytes) (length bytes) w.db) refl
      where
        apart : tpath u other ≢ tpath t path
        apart e = ne (sym (tpath-injective u t other path hu ht e).0)

        go :
            (r : Result (Unit {0}))
            → enforce_quota t (H.hexdigest bytes) (length bytes) w.db ≡ r
            → (resolve_ref S other u (put_ref S H now path bytes t w).1).0
              ≡ (resolve_ref S other u w).0
        go (ok tt) fits = ground (
          arith,
          resolve_ref-eq-seen S L H other u (put_ref S H now path bytes t w).1
              (put_ref-IsCounted S H now path bytes t w c)
              (put_ref-IsStored S L H now path bytes t w v),
          resolve_ref-eq-seen S L H other u w c v,
          (seen-put_ref S L H now path bytes t w c v fits fresh).1 (tpath u other),
          apart,
        )
        go (err e) refused = rw (put_ref_refused S H now bytes t w path e refused)
