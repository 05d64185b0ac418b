-- ===== src/Core/Contents/Keeps.antt =====
-- Every operation keeps the contents of a file system over a lawful backend.
use my_test_bot_repo.Prelude.{
  ℕ, ◌+◌, Str, Bytes, true, List, [], ◌∷◌, Option, none, ◌≡◌, ◌≢◌, ◌⊎◌, refl, length, ◌==◌, str_eq,
  arith, inl, inr, Option-cases, Bool-cases,
}
use my_test_bot_repo.Prelude.Int.{ℤ, pos, negsuc}
use my_test_bot_repo.Prelude.Table.{lookup, lookup-insert, lookup-erase, erase, NodupKeys}
use my_test_bot_repo.Text.{contains}
use my_test_bot_repo.Result.{Result, ok, err}
use my_test_bot_repo.Db.{Db, Ref}
use my_test_bot_repo.Db.Rows.{lookup-update}
use my_test_bot_repo.App.{World}
use my_test_bot_repo.Storage.{Storage, Hasher, IsDigest, IsLawful}
use my_test_bot_repo.Core.Paths.{tpath}
use my_test_bot_repo.Core.Frame.{link_inc-SameFiles, link_dec-SameFiles, link_new-SameFiles}
use my_test_bot_repo.Core.Quota.{enforce_quota}
use my_test_bot_repo.Core.Blobs.{bump, put_blob}
use my_test_bot_repo.Core.Refs.{set_ref, put_ref, delete_ref, delete_ref_db, bind_ref, rebind}
use my_test_bot_repo.Core.Gc.{garbage, sweep, gc}
use my_test_bot_repo.Core.Outcome.{with_blob, put_blob_db, put_blob-PutBlob}
use my_test_bot_repo.Core.Refcount.Sweep.{contains-garbage, gc-eq-sweep}
use my_test_bot_repo.Core.Accounting.Limits.{put_blob_refused}
use my_test_bot_repo.Core.Contents.{IsStored, put_blob_allowed, contents-put_blob}

-- No hash gains a blob.
abbrev pub NoNewBlobs : Db → Db → Type 0
NoNewBlobs a b = (h : Str) → lookup h a.blobs ≢ none → lookup h b.blobs ≢ none

pub bump-NoNewBlobs : (h : Str) (d : ℤ) (db : Db) → NoNewBlobs (bump h d db) db
unfolding bump
bump-NoNewBlobs h d db k there absent = there (rw lookup-update (ground arith))

rebind-NoNewBlobs :
    (now : ℕ) (t stored h : Str) (ref : Ref) (db : Db)
    → NoNewBlobs (rebind now t stored h ref db) db
unfolding rebind
rebind-NoNewBlobs now t stored h ref db k there = bump-NoNewBlobs ref.hash (negsuc 0) _ k (
    bump-NoNewBlobs h (pos 1) _ k
      (rw ((link_new-SameFiles t h _ _).blobs, (link_dec-SameFiles t ref.hash _).blobs) at there))

bind_ref-NoNewBlobs :
    (now : ℕ) (t stored h : Str) (db : Db) → NoNewBlobs (bind_ref now t stored h db).1 db
unfolding bind_ref
bind_ref-NoNewBlobs now t stored h db k there = elim (Option-cases (lookup stored db.refs)) [
  | inl absent ↦ bump-NoNewBlobs h (pos 1) (set_ref stored _ db) k (rw (absent, bind_ref) at there)
  | inr (ref, present) ↦ elim (Bool-cases (ref.hash == h)) [
    | inl same ↦ rw (present, bind_ref, same) at there
    | inr moved ↦ rebind-NoNewBlobs now t stored h ref db k (rw (present, bind_ref, moved) at there)
  ]
]

delete_ref_db-NoNewBlobs : (t stored : Str) (db : Db) → NoNewBlobs (delete_ref_db t stored db).1 db
unfolding delete_ref_db
delete_ref_db-NoNewBlobs t stored db k there = elim (Option-cases (lookup stored db.refs)) [
  | inl absent ↦ rw (absent, delete_ref_db) at there
  | inr (ref, present) ↦ bump-NoNewBlobs ref.hash (negsuc 0) db k (
      rw (link_dec-SameFiles t ref.hash (bump ref.hash (negsuc 0) db)).blobs at
        (rw (present, delete_ref_db) at there))
]

module _ (S : Storage) (L : IsLawful S) (H : Hasher) where
  pub blobs-put_blob_db :
      (now : ℕ) (t h k : Str) (size : ℕ) (db : Db)
      → lookup k (put_blob_db now t h size db).blobs ≢ none
      → (k ≡ h) ⊎ (lookup k db.blobs ≢ none)
  unfolding put_blob_db
  blobs-put_blob_db now t h k size db there =
      let old : lookup k (with_blob now t h size db).blobs ≢ none =
        rw (link_inc-SameFiles t h size (with_blob now t h size db)).blobs at there in
      grind (arith, old, lookup-insert)

  put_blob_allowed-db :
      (now : ℕ) (bytes : Bytes) (t : Str) (w : World S.State)
      → enforce_quota t (H.hexdigest bytes) (length bytes) w.db ≡ ok tt
      → (put_blob S H now bytes t w).1.db
        ≡ put_blob_db now t (H.hexdigest bytes) (length bytes) w.db
  put_blob_allowed-db now bytes t w fits =
      ground (arith, put_blob_allowed S L H now bytes t w fits, put_blob-PutBlob S H now bytes t w)

  allowed-IsStored :
      (now : ℕ) (bytes : Bytes) (t : Str) (w : World S.State)
      → enforce_quota t (H.hexdigest bytes) (length bytes) w.db ≡ ok tt
      → IsStored S L H w
      → IsStored S L H (put_blob S H now bytes t w).1
  allowed-IsStored now bytes t w fits v = record {
    addressed = λ h d dh e.
        ground (arith, e, contents-put_blob S L H now bytes t w h dh fits, v.addressed h d dh);
    digests = digests;
    backed = λ h there. ground (
      arith,
      contents-put_blob S L H now bytes t w h (digests h there) fits,
      origin h there,
      v.backed h,
    );
  }
    where
      origin :
          (h : Str)
          → lookup h (put_blob S H now bytes t w).1.db.blobs ≢ none
          → (h ≡ H.hexdigest bytes) ⊎ (lookup h w.db.blobs ≢ none)
      origin h there =
          blobs-put_blob_db now t (H.hexdigest bytes) h (length bytes) w.db
            (rw (put_blob_allowed-db now bytes t w fits) at there)

      digests : (h : Str) → lookup h (put_blob S H now bytes t w).1.db.blobs ≢ none → IsDigest h
      digests h there = elim (origin h there) [
        | inl new ↦ rw new (H.hexdigest-IsDigest bytes)
        | inr old ↦ v.digests h old
      ]

  pub put_blob-IsStored :
      (now : ℕ) (bytes : Bytes) (t : Str) (w : World S.State)
      → IsStored S L H w
      → IsStored S L H (put_blob S H now bytes t w).1
  put_blob-IsStored now bytes t w v =
      go (enforce_quota t (H.hexdigest bytes) (length bytes) w.db) refl
    where
      go :
          (r : Result (Unit {0}))
          → enforce_quota t (H.hexdigest bytes) (length bytes) w.db ≡ r
          → IsStored S L H (put_blob S H now bytes t w).1
      go (ok tt) fits = allowed-IsStored now bytes t w fits v
      go (err e) refused = rw (put_blob_refused S H now bytes t w e refused) v

  -- The loop of the garbage collector.
  sweep-IsStored :
      (rows : List Str) (n : ℕ) (w : World S.State)
      → ((h : Str) → contains h rows ≡ true → IsDigest h)
      → IsStored S L H w
      → IsStored S L H (sweep S rows n w).1
  unfolding sweep contains
  sweep-IsStored [] n w ds v = v
  sweep-IsStored (k ∷ rows) n w ds v =
      sweep-IsStored rows (n + 1) _ (λ h m. ds h (ground (arith, m)))
        (record {
          addressed = λ h d dh e.
              v.addressed h d dh
                (ground (arith, e, L.contents-delete k h w.store (ds k (ground arith)) dh));
          digests = λ h there. v.digests h (kept h there);
          backed = λ h there gone. ground (
            arith,
            lookup-erase h k w.db.blobs,
            there,
            gone,
            v.backed h (kept h there),
            L.contents-delete k h w.store (ds k (ground arith)) (v.digests h (kept h there)),
          );
        })
    where
      kept : (h : Str) → lookup h (erase k w.db.blobs) ≢ none → lookup h w.db.blobs ≢ none
      kept h there gone = there (ground (arith, lookup-erase h k w.db.blobs, gone))

  -- Garbage collection of blobs that are not referenced keeps the rest stored.
  pub gc-IsStored :
      (scope : Option Str) (w : World S.State)
      → NodupKeys w.db.blobs
      → IsStored S L H w
      → IsStored S L H (gc S scope w).1
  gc-IsStored scope w u v = rw (gc-eq-sweep S scope w u) (
      sweep-IsStored (garbage scope w.db.blobs) 0 w
        (λ h m. v.digests h (ground (arith, m, contains-garbage scope h w.db.blobs u))) v)

  -- A step on the database alone that makes no new blobs.
  pub db-IsStored :
      (w : World S.State) (db : Db)
      → NoNewBlobs db w.db
      → IsStored S L H w
      → IsStored S L H (record w { db = db })
  db-IsStored w db none_new v = record {
    addressed = v.addressed;
    digests = λ h there. v.digests h (none_new h there);
    backed = λ h there. v.backed h (none_new h there);
  }

  pub delete_ref-IsStored :
      (path t : Str) (w : World S.State)
      → IsStored S L H w
      → IsStored S L H (delete_ref S path t w).1
  unfolding delete_ref
  delete_ref-IsStored path t w v =
      db-IsStored w _ (delete_ref_db-NoNewBlobs t (tpath t path) w.db) v

  -- The world after the second session of `put_ref`.
  abbrev bound : ℕ → Str → Str → Result Str × World S.State → World S.State
  bound now t stored (ok h, w) = record w { db = (bind_ref now t stored h w.db).1 }
  bound now t stored (err e, w) = w

  put_ref-bound :
      (now : ℕ) (path : Str) (bytes : Bytes) (t : Str) (w : World S.State)
      → (put_ref S H now path bytes t w).1 ≡ bound now t (tpath t path) (put_blob S H now bytes t w)
  unfolding put_ref
  put_ref-bound now path bytes t w = ground arith

  bound-IsStored :
      (now : ℕ) (t stored : Str) (o : Result Str × World S.State)
      → IsStored S L H o.1
      → IsStored S L H (bound now t stored o)
  bound-IsStored now t stored (ok h, w) v =
      db-IsStored w _ (bind_ref-NoNewBlobs now t stored h w.db) v
  bound-IsStored now t stored (err e, w) v = v

  pub put_ref-IsStored :
      (now : ℕ) (path : Str) (bytes : Bytes) (t : Str) (w : World S.State)
      → IsStored S L H w
      → IsStored S L H (put_ref S H now path bytes t w).1
  put_ref-IsStored now path bytes t w v =
      rw (put_ref-bound now path bytes t w)
        (bound-IsStored now t (tpath t path) _ (put_blob-IsStored now bytes t w v))
