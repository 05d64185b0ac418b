-- ===== src/Uploads/Complete/Contents.antt =====
-- What `complete` stores, over a lawful backend.
use my_test_bot_repo.Prelude.Int.{ℤ}
use my_test_bot_repo.Prelude.{
  ℕ, Str, Bytes, Bool, Option, none, some, List, str_eq, ◌≡◌, ◌≢◌, ◌⊎◌, ◌==◌, ap, arith, inl, inr,
  Option-cases, Bool-cases, get_or, if◌then◌else◌, ◌∙◌,
}
use my_test_bot_repo.Prelude.Int.{pos, negsuc}
use my_test_bot_repo.Prelude.Table.{Table, lookup}
use my_test_bot_repo.Result.{Result, ok, err}
use my_test_bot_repo.Db.{Db, Blob, Upload}
use my_test_bot_repo.App.{World}
use my_test_bot_repo.Storage.{Storage, Hasher, IsDigest, IsLawful}
use my_test_bot_repo.Core.Paths.{tpath}
use my_test_bot_repo.Core.Outcome.{with_blob, put_blob_db}
use my_test_bot_repo.Core.Contents.{IsStored}
use my_test_bot_repo.Core.Contents.Keeps.{NoNewBlobs, bump-NoNewBlobs, blobs-put_blob_db}
use my_test_bot_repo.Uploads.Merge.{Stream, start, merge_parts, buf_size}
use my_test_bot_repo.Uploads.Merge.Laws.{concat_parts}
use my_test_bot_repo.Uploads.Complete.{
  CompletedUpload, tenant_of, target_of, bind_upload, bind_target, record_upload, commit_upload,
  complete,
}
use my_test_bot_repo.Uploads.Complete.Outcome.{
  parts_of, upload_of, staged, merged-fed, Completed, complete-Completed,
}

bind_upload-NoNewBlobs :
    (now : ℕ) (t path h : Str) (db : Db) → NoNewBlobs (bind_upload now t path h db) db
unfolding bind_upload
bind_upload-NoNewBlobs now t path h db k there = elim (Option-cases (lookup path db.refs)) [
  | inl absent ↦ bump-NoNewBlobs h (pos 1) _ k (rw (absent, bind_upload) at there)
  | inr (ref, present) ↦ elim (Bool-cases (ref.hash == h)) [
    | inl same ↦ rw (present, bind_upload, same) at there
    | inr moved ↦
        bump-NoNewBlobs ref.hash (negsuc 0) _ k
          (bump-NoNewBlobs h (pos 1) _ k (rw (present, bind_upload, moved) at there))
  ]
]

bind_target-NoNewBlobs :
    (now : ℕ) (t : Str) (target : Option Str) (h : Str) (db : Db)
    → NoNewBlobs (bind_target now t target h db) db
bind_target-NoNewBlobs now t none h db k there = there
bind_target-NoNewBlobs now t (some target) h db k there =
    ground (arith, there, bind_upload-NoNewBlobs now t (tpath t target) h db k)

module _ (S : Storage) (L : IsLawful S) (H : Hasher) (now : ℕ) (id : Str) where
  -- The backend once a blob is there.
  abbrev stored_blob : Str → Bytes → Option Blob → S.State → S.State
  stored_blob h bytes none s = (S.put_path h bytes s).1
  stored_blob h bytes (some existing) s = s

  abbrev CommitStored : World S.State → Str → Bytes → Result Bool × World S.State → Type 0
  CommitStored w h bytes (ok created, w') =
      w'.store ≡ stored_blob h bytes (lookup h w.db.blobs) w.store
  CommitStored w h bytes (err e, w') = w'.store ≡ w.store

  commit_upload-CommitStored :
      (h : Str) (s : Stream) (parts : Table Str Bytes) (w : World S.State)
      → IsDigest h
      → CommitStored w h s.out (commit_upload S H now id h s parts w)
  unfolding commit_upload
  commit_upload-CommitStored h s parts w dh = ground (arith, L.put_path_lem h s.out w.store dh)

  abbrev pub CompleteStored : World S.State → Result CompletedUpload × World S.State → Type 0
  CompleteStored w (ok c, w') =
      w'.store
      ≡ stored_blob c.hash (concat_parts (parts_of S H now id w)) (lookup c.hash w.db.blobs) w.store
  CompleteStored w (err e, w') = w'.store ≡ w.store

  pub complete-CompleteStored :
      (expected : Option (List ℤ)) (w : World S.State)
      → CompleteStored w (complete S H now id expected w)
  unfolding complete
  complete-CompleteStored expected w = ground (
    arith,
    merged-fed S H now id (parts_of S H now id w),
    commit_upload-CommitStored
        (H.hexdigest (merge_parts buf_size (parts_of S H now id w) start).hashed)
        (merge_parts buf_size (parts_of S H now id w) start) (parts_of S H now id w)
        (staged S H now id w) (H.hexdigest-IsDigest _),
  )

  module _ (up : Option Upload) (h : Str) (size : ℕ) (db : Db) where
    abbrev rows : Db
    rows = record_upload now id up h size (with_blob now (tenant_of up) h size db)

    blobs-rows : (k : Str) → lookup k rows.blobs ≢ none → (k ≡ h) ⊎ (lookup k db.blobs ≢ none)
    unfolding record_upload put_blob_db
    blobs-rows k there =
        blobs-put_blob_db S L H now (tenant_of up) h k size db
          (bind_target-NoNewBlobs now (tenant_of up) (target_of up) h _ k there)

  -- What is stored under each digest once a blob is there.
  contents-stored_blob :
      (h k : Str) (bytes : Bytes) (o : Option Blob) (s : S.State)
      → IsDigest h
      → IsDigest k
      → (o ≢ none → L.contents s h ≢ none)
      → L.contents (stored_blob h bytes o s) k
        ≡ (if k == h then some (get_or (L.contents s h) bytes) else L.contents s k)
  contents-stored_blob h k bytes none s dh dk there = L.contents-put_path h k bytes s dh dk
  contents-stored_blob h k bytes (some b) s dh dk there = ground (arith, there)

  module _ (w : World S.State) (c : CompletedUpload) (w' : World S.State) where
    pub stored_after :
        IsStored S L H w
        → Completed S H now id w (ok c, w')
        → CompleteStored w (ok c, w')
        → (k : Str) → IsDigest k
        → L.contents w'.store k ≡ (
            if k == c.hash
            then some (get_or (L.contents w.store c.hash) (concat_parts (parts_of S H now id w)))
            else L.contents w.store k)
    stored_after v done put k dk =
        ap (λ (s : S.State). L.contents s k) put
        ∙ contents-stored_blob c.hash k (concat_parts (parts_of S H now id w)) _ w.store
            (rw done.0 (H.hexdigest-IsDigest _)) dk (v.backed c.hash)

    finished-IsStored :
        IsStored S L H w
        → Completed S H now id w (ok c, w')
        → CompleteStored w (ok c, w')
        → IsStored S L H w'
    finished-IsStored v done put = record {
      addressed =
          λ k d dk e. ground (arith, e, done.0, stored_after v done put k dk, v.addressed k d dk);
      digests = digests;
      backed = λ k there.
          ground (arith, stored_after v done put k (digests k there), origin k there, v.backed k);
    }
      where
        origin :
            (k : Str) → lookup k w'.db.blobs ≢ none → (k ≡ c.hash) ⊎ (lookup k w.db.blobs ≢ none)
        origin k there =
            blobs-rows (upload_of S H now id w) c.hash c.size w.db k (rw done.2.rows at there)

        digests : (k : Str) → lookup k w'.db.blobs ≢ none → IsDigest k
        digests k there = elim (origin k there) [
          | inl new ↦ rw new (rw done.0 (H.hexdigest-IsDigest _))
          | inr old ↦ v.digests k old
        ]

  -- Over a lawful backend, completing an upload keeps every blob's contents stored under their
  -- digest, whether it succeeds or raises.
  pub complete-IsStored :
      (expected : Option (List ℤ)) (w : World S.State)
      → IsStored S L H w
      → IsStored S L H (complete S H now id expected w).1
  complete-IsStored expected w v =
      go (complete S H now id expected w) (complete-Completed S H now id expected w)
        (complete-CompleteStored expected w)
    where
      go :
          (o : Result CompletedUpload × World S.State)
          → Completed S H now id w o
          → CompleteStored w o
          → IsStored S L H o.1
      go (ok c, w') done put = finished-IsStored w c w' v done put
      go (err e, w') same kept = record {
        addressed = λ k d dk there. v.addressed k d dk (rw kept at there);
        digests = λ k there. v.digests k (rw same at there);
        backed = λ k there gone. v.backed k (rw same at there) (rw kept at gone);
      }
