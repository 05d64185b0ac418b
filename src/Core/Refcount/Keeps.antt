-- ===== src/Core/Refcount/Keeps.antt =====
-- Every operation keeps the reference counts.
use my_test_bot_repo.Prelude.{
  ℕ, Str, Bytes, Bool, none, some, ◌≡◌, ◌≢◌, ap, ◌∙◌, str_eq, arith, length, inl, inr, Option-cases,
}
use my_test_bot_repo.Prelude.Int.{pos, negsuc}
use my_test_bot_repo.Prelude.Table.{
  Table, lookup, erase, sum-insert, sum-erase, lookup-insert, insert-NodupKeys, erase-NodupKeys,
}
use my_test_bot_repo.Result.{Result, ok, err}
use my_test_bot_repo.Db.{Db, Blob, Ref}
use my_test_bot_repo.App.{World}
use my_test_bot_repo.Storage.{Storage, Hasher}
use my_test_bot_repo.Core.Frame.{
  SameFiles, link_inc-SameFiles, link_dec-SameFiles, link_new-SameFiles,
}
use my_test_bot_repo.Core.Blobs.{bump, put_blob}
use my_test_bot_repo.Core.Refs.{
  set_ref, rebind, bind_ref, delete_ref_db, unbind, put_ref, delete_ref,
}
use my_test_bot_repo.Core.Outcome.{
  with_blob, put_blob_db, put_ref_db, PutBlob, PutRef, put_blob-PutBlob, put_ref-PutRef,
}
use my_test_bot_repo.Core.Refcount.{
  IsCounted, refcount_of, names, count_refs, refcount-bump_up, refcount-bump_down, bump_keeps_blobs,
  count_refs-pos, refs-bump, bump_keeps_unique,
}
use my_test_bot_repo.Core.Paths.{tpath}

pub SameFiles-IsCounted : (a b : Db) → SameFiles a b → IsCounted b → IsCounted a
SameFiles-IsCounted a b same v = record {
  counts = λ h. rw (same.blobs, same.refs) (v.counts h);
  unique = rw same.refs v.unique;
  unique_blobs = rw same.blobs v.unique_blobs;
}

with_blob-IsCounted :
    (now : ℕ) (t h : Str) (size : ℕ) (db : Db)
    → IsCounted db
    → IsCounted (with_blob now t h size db)
with_blob-IsCounted now t h size db v = elim (Option-cases (lookup h db.blobs)) [
  | inl absent ↦
      rw (absent, with_blob)
        (record {
          counts = λ k. rw lookup-insert (ground (arith, v.counts k, v.counts h));
          unique = v.unique;
          unique_blobs = insert-NodupKeys h _ db.blobs v.unique_blobs;
        })
  | inr (b, there) ↦ rw (there, with_blob) v
]

with_blob-there :
    (now : ℕ) (t h : Str) (size : ℕ) (db : Db) → lookup h (with_blob now t h size db).blobs ≢ none
with_blob-there now t h size db = grind (arith, lookup-insert)

pub put_blob_db-IsCounted :
    (now : ℕ) (t h : Str) (size : ℕ) (db : Db)
    → IsCounted db
    → IsCounted (put_blob_db now t h size db)
unfolding put_blob_db
put_blob_db-IsCounted now t h size db v =
    SameFiles-IsCounted _ _ (link_inc-SameFiles t h size _) (with_blob-IsCounted now t h size db v)

pub put_blob_db-there :
    (now : ℕ) (t h : Str) (size : ℕ) (db : Db) → lookup h (put_blob_db now t h size db).blobs ≢ none
unfolding put_blob_db
put_blob_db-there now t h size db =
    rw (link_inc-SameFiles t h size (with_blob now t h size db)).blobs
      (with_blob-there now t h size db)

-- A ref that was not there before.
pub bind_new-IsCounted :
    (stored : Str) (ref : Ref) (db : Db)
    → lookup stored db.refs ≡ none
    → lookup ref.hash db.blobs ≢ none
    → IsCounted db
    → IsCounted (bump ref.hash (pos 1) (set_ref stored ref db))
unfolding bump
bind_new-IsCounted stored ref db absent there v = record {
  counts = λ k. ground (
    arith,
    refcount-bump_up ref.hash k db there,
    sum-insert (names k) stored ref db.refs,
    v.counts k,
    v.counts ref.hash,
  );
  unique = insert-NodupKeys stored ref db.refs v.unique;
  unique_blobs =
      unfold bump in bump_keeps_unique ref.hash (pos 1) (set_ref stored ref db) v.unique_blobs;
}

-- A ref that moves from one hash to another.
pub bind_moved-IsCounted :
    (stored : Str) (old ref : Ref) (db : Db)
    → lookup stored db.refs ≡ some old
    → old.hash ≢ ref.hash
    → lookup ref.hash db.blobs ≢ none
    → IsCounted db
    → IsCounted (bump ref.hash (pos 1) (bump old.hash (negsuc 0) (set_ref stored ref db)))
bind_moved-IsCounted stored old ref db present ne there v = record {
  counts = λ k. ground (
    arith,
    refcount-bump_up ref.hash k (bump old.hash (negsuc 0) (set_ref stored ref db)),
    bump_keeps_blobs old.hash ref.hash (set_ref stored ref db) (negsuc 0) there,
    refcount-bump_down old.hash k (set_ref stored ref db),
    refcount-bump_down old.hash ref.hash (set_ref stored ref db),
    sum-insert (names k) stored ref db.refs,
    count_refs-pos stored old db.refs present,
    refs-bump old.hash (negsuc 0) (set_ref stored ref db),
    refs-bump ref.hash (pos 1) (bump old.hash (negsuc 0) (set_ref stored ref db)),
    v.counts k,
    v.counts old.hash,
    v.counts ref.hash,
  );
  unique = unfold bump in insert-NodupKeys stored ref db.refs v.unique;
  unique_blobs =
      bump_keeps_unique ref.hash (pos 1) _
        (bump_keeps_unique old.hash (negsuc 0) (set_ref stored ref db) v.unique_blobs);
}

pub rebind-IsCounted :
    (now : ℕ) (t stored h : Str) (ref : Ref) (db : Db)
    → lookup stored db.refs ≡ some ref
    → ref.hash ≢ h
    → lookup h db.blobs ≢ none
    → IsCounted db
    → IsCounted (rebind now t stored h ref db)
unfolding rebind
rebind-IsCounted now t stored h ref db present ne there v =
    SameFiles-IsCounted _ _ (link_new-SameFiles t h _ _) (
      SameFiles-IsCounted _ _ (link_dec-SameFiles t ref.hash _) (
        bind_moved-IsCounted stored ref (record ref { hash = h; updated_at = now }) db present ne
          there v))

pub bind_ref-IsCounted :
    (now : ℕ) (t stored h : Str) (db : Db)
    → lookup h db.blobs ≢ none
    → IsCounted db
    → IsCounted (bind_ref now t stored h db).1
unfolding bind_ref
bind_ref-IsCounted now t stored h db there v = elim (Option-cases (lookup stored db.refs)) [
  | inl absent ↦
      rw (absent, bind_ref)
        (bind_new-IsCounted stored
          (record { hash = h; tenant_id = t; created_at = now; updated_at = now }) db absent there
          v)
  | inr (ref, present) ↦
      rw (present, bind_ref) (ground (arith, rebind-IsCounted now t stored h ref db present))
]

unbind-IsCounted :
    (t stored : Str) (ref : Ref) (db : Db)
    → lookup stored db.refs ≡ some ref
    → IsCounted db
    → IsCounted (unbind t stored ref db)
unbind-IsCounted t stored ref db present v =
    let counted = bump ref.hash (negsuc 0) db in
    let same = link_dec-SameFiles t ref.hash counted in
    record {
      counts = λ k. ground (
        arith,
        ap (λ (d : Table Str Blob). refcount_of (lookup k d)) same.blobs,
        ap (λ (d : Table Str Ref). count_refs k (erase stored d))
            (same.refs ∙ refs-bump ref.hash (negsuc 0) db),
        refcount-bump_down ref.hash k db,
        sum-erase (names k) stored db.refs v.unique,
        v.counts k,
      );
      unique = rw (same.refs, refs-bump) (erase-NodupKeys stored db.refs v.unique);
      unique_blobs = rw same.blobs (bump_keeps_unique ref.hash (negsuc 0) db v.unique_blobs);
    }

pub delete_ref_db-IsCounted :
    (t stored : Str) (db : Db) → IsCounted db → IsCounted (delete_ref_db t stored db).1
unfolding delete_ref_db
delete_ref_db-IsCounted t stored db v = elim (Option-cases (lookup stored db.refs)) [
  | inl absent ↦ rw (absent, delete_ref_db) v
  | inr (ref, present) ↦ rw (present, delete_ref_db) (unbind-IsCounted t stored ref db present v)
]

module _ (S : Storage) where
  -- Deleting a ref keeps the reference counts exact, whether the ref exists or not.
  pub delete_ref-IsCounted :
      (path t : Str) (w : World S.State) → IsCounted w.db → IsCounted (delete_ref S path t w).1.db
  unfolding delete_ref
  delete_ref-IsCounted path t w v = delete_ref_db-IsCounted t (tpath t path) w.db v

module _ (S : Storage) (H : Hasher) where
  pub put_blob-IsCounted :
      (now : ℕ) (bytes : Bytes) (t : Str) (w : World S.State)
      → IsCounted w.db
      → IsCounted (put_blob S H now bytes t w).1.db
  put_blob-IsCounted now bytes t w v =
      go (put_blob S H now bytes t w) (put_blob-PutBlob S H now bytes t w)
    where
      go : (o : Result Str × World S.State) → PutBlob S H now bytes t w o → IsCounted o.1.db
      go (ok h, w') p = rw p.2 (put_blob_db-IsCounted now t h (length bytes) w.db v)
      go (err e, w') p = rw p v

  -- Putting a ref keeps the reference counts exact, whether it succeeds or raises: a new ref, one
  -- that is bound to other bytes, and one that holds the bytes already.
  pub put_ref-IsCounted :
      (now : ℕ) (path : Str) (bytes : Bytes) (t : Str) (w : World S.State)
      → IsCounted w.db
      → IsCounted (put_ref S H now path bytes t w).1.db
  put_ref-IsCounted now path bytes t w v =
      go (put_ref S H now path bytes t w) (put_ref-PutRef S H now bytes t path w)
    where
      go :
          (o : Result (Str × Bool) × World S.State)
          → PutRef S H now bytes t path w o
          → IsCounted o.1.db
      go (ok (h, created), w') p = rw (ap (λ (r : Bool × Db). r.1) p.2) (
          unfold put_ref_db in
          bind_ref-IsCounted now t (tpath t path) h _
            (put_blob_db-there now t h (length bytes) w.db)
            (put_blob_db-IsCounted now t h (length bytes) w.db v))
      go (err e, w') p = rw p v
