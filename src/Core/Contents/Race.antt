-- ===== src/Core/Contents/Race.antt =====
-- What happens where a collection runs between the two sessions of `put_ref`.
use my_test_bot_repo.Prelude.{
  ℕ, Str, Bytes, true, none, some, ◌≡◌, ◌≢◌, refl, ◌∙◌, arith, length, inl, inr, Option-cases,
  str_eq, nat_eq,
}
use my_test_bot_repo.Prelude.Table.{lookup}
use my_test_bot_repo.Result.{Result, ok, err, file_not_found, is_ok}
use my_test_bot_repo.App.{World}
use my_test_bot_repo.Storage.{Storage, Hasher, IsLawful, IsDigest}
use my_test_bot_repo.Core.Paths.{tpath}
use my_test_bot_repo.Core.Quota.{enforce_quota}
use my_test_bot_repo.Core.Blobs.{put_blob}
use my_test_bot_repo.Core.Refs.{bind_session, resolve_ref}
use my_test_bot_repo.Core.Refs.Writes.{put_blob-refs}
use my_test_bot_repo.Core.Gc.{gc}
use my_test_bot_repo.Core.Outcome.{PutBlob, put_blob-PutBlob}
use my_test_bot_repo.Core.Refcount.{IsCounted, count_refs}
use my_test_bot_repo.Core.Refcount.Keeps.{put_blob-IsCounted, put_blob_db-there}
use my_test_bot_repo.Core.Contents.{IsStored, put_blob_allowed}
use my_test_bot_repo.Core.Contents.Keeps.{put_blob-IsStored}
use my_test_bot_repo.Core.Contents.Reads.{hash_at, hash_at-bind_ref}
use my_test_bot_repo.Core.Contents.Reclaimed.{gc_reclaims}

module _ (S : Storage) (L : IsLawful S) (H : Hasher) where
  -- A ref whose blob has no contents is there and cannot be read.
  dangling :
      (path t h : Str) (w : World S.State)
      → hash_at (tpath t path) w.db ≡ some h
      → IsDigest h
      → L.contents w.store h ≡ none
      → (resolve_ref S path t w).0 ≡ err file_not_found
  unfolding resolve_ref
  dangling path t h w named digest gone = elim (Option-cases (lookup (tpath t path) w.db.refs)) [
    | inl absent ↦ absurd (ground (arith, absent, named))
    | inr (ref, there) ↦ ground (arith, there, named, gone, L.get_lem h w.store digest)
  ]

  module _ (now : ℕ) (path : Str) (bytes : Bytes) (t : Str) (w : World S.State) where
    put_blob_there :
        enforce_quota t (H.hexdigest bytes) (length bytes) w.db ≡ ok tt
        → lookup (H.hexdigest bytes) (put_blob S H now bytes t w).1.db.blobs ≢ none
    put_blob_there fits =
        go (put_blob S H now bytes t w) (put_blob-PutBlob S H now bytes t w)
          (put_blob_allowed S L H now bytes t w fits)
      where
        go :
            (o : Result Str × World S.State)
            → PutBlob S H now bytes t w o
            → o.0 ≡ ok (H.hexdigest bytes)
            → lookup (H.hexdigest bytes) o.1.db.blobs ≢ none
        go (ok h, w') p e =
            rw (p.2, p.0) (put_blob_db-there now t (H.hexdigest bytes) (length bytes) w.db)
        go (err x, w') p e = cc

    -- In a valid file system over a lawful backend, and for bytes that no ref names: where a
    -- collection for all tenants runs between the two sessions of a `put_ref` that the quota
    -- allows, the put still succeeds, and afterwards reading the ref raises FileNotFoundError.
    pub put_ref-gc_between :
        IsCounted w.db
        → IsStored S L H w
        → enforce_quota t (H.hexdigest bytes) (length bytes) w.db ≡ ok tt
        → count_refs (H.hexdigest bytes) w.db.refs ≡ 0
        → let (put, w₁) = put_blob S H now bytes t w in
          let w₂ = (gc S none w₁).1 in
          let (bound, w₃) = bind_session now t path (H.hexdigest bytes) w₂ in
          (put ≡ ok (H.hexdigest bytes))
          × (is_ok bound ≡ true)
          × ((resolve_ref S path t w₃).0 ≡ err file_not_found)
    put_ref-gc_between c v fits unnamed =
        let w₁ : World S.State = (put_blob S H now bytes t w).1 in
        let w₂ : World S.State = (gc S none w₁).1 in
        let h = H.hexdigest bytes in
        let gone =
          gc_reclaims S L H h w₁ (put_blob-IsCounted S H now bytes t w c)
            (put_blob-IsStored S L H now bytes t w v) (put_blob_there fits)
            (rw (put_blob-refs S H now bytes t w) unnamed) in
        (
          put_blob_allowed S L H now bytes t w fits,
          refl,
          dangling path t h (bind_session now t path h w₂).1
              (hash_at-bind_ref now t (tpath t path) h (tpath t path) w₂.db ∙ ground arith)
              (H.hexdigest-IsDigest bytes) gone.1,
        )
