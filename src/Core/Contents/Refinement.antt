-- ===== src/Core/Contents/Refinement.antt =====
-- The methods on refs refine operations on a map from stored paths to bytes.
use my_test_bot_repo.Prelude.{
  ℕ, Str, Bytes, Bool, true, false, List, [], ◌∷◌, ◌+◌, Option, none, some, ◌≡◌, ◌≢◌, refl, ap, ◌∙◌,
  length, ◌==◌, str_eq, arith, get_or, inl, inr, Option-cases, is_some, if◌then◌else◌,
}
use my_test_bot_repo.Prelude.Table.{lookup, erase}
use my_test_bot_repo.Result.{ok}
use my_test_bot_repo.Db.{Db, Ref}
use my_test_bot_repo.App.{World}
use my_test_bot_repo.Storage.{Storage, Hasher, IsDigest, IsLawful}
use my_test_bot_repo.Core.Paths.{tpath}
use my_test_bot_repo.Core.Quota.{enforce_quota}
use my_test_bot_repo.Core.Blobs.{put_blob}
use my_test_bot_repo.Core.Refs.{put_ref, delete_ref}
use my_test_bot_repo.Core.Gc.{garbage, gc, sweep}
use my_test_bot_repo.Core.Outcome.{put_blob_db, put_ref_db, put_blob-PutBlob}
use my_test_bot_repo.Core.Refcount.{IsCounted, named_blob, count_refs-pos}
use my_test_bot_repo.Core.Refcount.Sweep.{contains-garbage, gc-eq-sweep, sweep-Swept}
use my_test_bot_repo.Text.{contains}
use my_test_bot_repo.Core.Contents.{IsStored, put_blob_allowed, contents-put_blob}
use my_test_bot_repo.Core.Contents.Reads.{
  seen, stored_under, hash_at, hash_at-put_blob_db, hash_at-bind_ref, hash_at-delete_ref_db,
}

hash_at-put_ref_db :
    (now : ℕ) (t path h : Str) (size : ℕ) (s : Str) (db : Db)
    → hash_at s (put_ref_db now t path h size db).1
      ≡ (if s == tpath t path then some h else hash_at s db)
unfolding put_ref_db
hash_at-put_ref_db now t path h size s db =
    hash_at-bind_ref now t (tpath t path) h s (put_blob_db now t h size db) ∙ rw hash_at-put_blob_db

module _ (S : Storage) (L : IsLawful S) (H : Hasher) where
  -- Other bytes with the same digest are not stored already.
  abbrev pub NoCollision : Bytes → World S.State → Type 0
  NoCollision bytes w = (d : Bytes) → L.contents w.store (H.hexdigest bytes) ≡ some d → d ≡ bytes

  -- Under the hash that a ref of a valid file system names, there is something stored.
  pub named_contents :
      (s : Str) (ref : Ref) (w : World S.State)
      → IsCounted w.db
      → IsStored S L H w
      → lookup s w.db.refs ≡ some ref
      → IsDigest ref.hash × (L.contents w.store ref.hash ≢ none)
  named_contents s ref w c v there =
      let blob = named_blob s ref w.db c there in (v.digests ref.hash blob, v.backed ref.hash blob)

  -- What the refs of before name is stored as before.
  kept-put_blob :
      (now : ℕ) (bytes : Bytes) (t s : Str) (w : World S.State)
      → IsCounted w.db
      → IsStored S L H w
      → enforce_quota t (H.hexdigest bytes) (length bytes) w.db ≡ ok tt
      → stored_under S L (put_blob S H now bytes t w).1.store (hash_at s w.db) ≡ seen S L w s
  kept-put_blob now bytes t s w c v fits = elim (Option-cases (lookup s w.db.refs)) [
    | inl absent ↦ rw absent
    | inr (ref, there) ↦
        let (digest, present) = named_contents s ref w c v there in
        rw there
          (ground (arith, contents-put_blob S L H now bytes t w ref.hash digest fits, present))
  ]

  module _ (now : ℕ) (path : Str) (bytes : Bytes) (t : Str) (w : World S.State) where
    put_ref_steps :
        enforce_quota t (H.hexdigest bytes) (length bytes) w.db ≡ ok tt
        → ((put_ref S H now path bytes t w).0
            ≡ ok (
              H.hexdigest bytes,
              (put_ref_db now t path (H.hexdigest bytes) (length bytes) w.db).0,
            ))
          × ((put_ref S H now path bytes t w).1.db
              ≡ (put_ref_db now t path (H.hexdigest bytes) (length bytes) w.db).1)
          × ((put_ref S H now path bytes t w).1.store ≡ (put_blob S H now bytes t w).1.store)
    unfolding put_ref put_ref_db
    put_ref_steps fits =
        ground
          (arith, put_blob_allowed S L H now bytes t w fits, put_blob-PutBlob S H now bytes t w)

    -- From a valid file system, over a lawful backend, and where other bytes with the same digest
    -- are not stored: a `put_ref` that the quota allows succeeds with the digest of the bytes.
    -- Afterwards its path stands for the bytes, and every other path for what it stood for before.
    pub seen-put_ref :
        IsCounted w.db
        → IsStored S L H w
        → enforce_quota t (H.hexdigest bytes) (length bytes) w.db ≡ ok tt
        → NoCollision bytes w
        → let (r, w') = put_ref S H now path bytes t w in
          ((created : Bool) × (r ≡ ok (H.hexdigest bytes, created)))
          × ((s : Str) → seen S L w' s ≡ (if s == tpath t path then some bytes else seen S L w s))
    seen-put_ref c v fits fresh =
        let (result, same_db, same_store) = put_ref_steps fits in
        (
          (_, result),
          λ s. ground (
            arith,
            ap (hash_at s) same_db,
            ap (λ (st : S.State). stored_under S L st (hash_at s w.db)) same_store,
            ap (λ (st : S.State). L.contents st (H.hexdigest bytes)) same_store,
            hash_at-put_ref_db now t path (H.hexdigest bytes) (length bytes) s w.db,
            kept-put_blob now bytes t s w c v fits,
            contents-put_blob S L H now bytes t w (H.hexdigest bytes) (H.hexdigest-IsDigest bytes)
                fits,
            fresh (get_or (L.contents w.store (H.hexdigest bytes)) bytes),
          ),
        )

  -- In a valid file system over a lawful backend, `delete_ref` answers whether the path stood for
  -- anything; afterwards it stands for nothing, and every other path for what it stood for before.
  pub seen-delete_ref :
      (path t : Str) (w : World S.State)
      → IsCounted w.db
      → IsStored S L H w
      → let (r, w') = delete_ref S path t w in
        (r ≡ ok (is_some (seen S L w (tpath t path))))
        × ((s : Str) → seen S L w' s ≡ (if s == tpath t path then none else seen S L w s))
  unfolding delete_ref
  seen-delete_ref path t w c v =
      (answer, λ s. ground (arith, hash_at-delete_ref_db t (tpath t path) s w.db))
    where
      answer : (delete_ref S path t w).0 ≡ ok (is_some (seen S L w (tpath t path)))
      answer = elim (Option-cases (lookup (tpath t path) w.db.refs)) [
        | inl absent ↦ ground (arith, absent)
        | inr (ref, there) ↦ ground (arith, there, named_contents (tpath t path) ref w c v there)
      ]

  pub contents-sweep :
      (rows : List Str) (n : ℕ) (h : Str) (w : World S.State)
      → ((k : Str) → contains k rows ≡ true → IsDigest k)
      → IsDigest h
      → L.contents (sweep S rows n w).1.store h
        ≡ (if contains h rows then none else L.contents w.store h)
  unfolding sweep contains
  contents-sweep [] n h w ds dh = refl
  contents-sweep (k ∷ rows) n h w ds dh = ground (
    arith,
    contents-sweep rows (n + 1) h
        (record w { store = S.delete k w.store; db = record w.db { blobs = erase k w.db.blobs } })
        (λ j m. ds j (ground (arith, m))) dh,
    L.contents-delete k h w.store (ds k (ground arith)) dh,
  )

  -- A blob that a ref names is no garbage.
  named-not-garbage :
      (scope : Option Str) (s : Str) (ref : Ref) (w : World S.State)
      → IsCounted w.db
      → lookup s w.db.refs ≡ some ref
      → contains ref.hash (garbage scope w.db.blobs) ≡ false
  named-not-garbage scope s ref w c there =
      contains-garbage scope ref.hash w.db.blobs c.unique_blobs
      ∙ ground (arith, c.counts ref.hash, count_refs-pos s ref w.db.refs there)

  -- In a valid file system over a lawful backend, garbage collection, of one tenant's blobs or of
  -- all, changes what no path stands for.
  pub seen-gc :
      (scope : Option Str) (w : World S.State) (s : Str)
      → IsCounted w.db
      → IsStored S L H w
      → seen S L (gc S scope w).1 s ≡ seen S L w s
  seen-gc scope w s c v =
      let rows = garbage scope w.db.blobs in
      let (result, same, u, looks) = sweep-Swept S rows 0 w c.unique_blobs in
      let ds : (k : Str) → contains k rows ≡ true → IsDigest k = λ k m.
        v.digests k (ground (arith, m, contains-garbage scope k w.db.blobs c.unique_blobs)) in
      rw (gc-eq-sweep S scope w c.unique_blobs) (elim (Option-cases (lookup s w.db.refs)) [
        | inl absent ↦ ground (arith, absent, ap (λ (db : Db). lookup s db.refs) same)
        | inr (ref, there) ↦
            let digest = (named_contents s ref w c v there).0 in
            ground (
              arith,
              there,
              ap (λ (db : Db). lookup s db.refs) same,
              contents-sweep rows 0 ref.hash w ds digest,
              named-not-garbage scope s ref w c there,
            )
      ])
