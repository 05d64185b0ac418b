-- ===== src/Core/Accounting/Keeps.antt =====
-- Every operation on blobs and refs keeps the quota accounting.
use my_test_bot_repo.Prelude.{
  ℕ, Str, Bytes, Bool, Option, none, some, ◌≡◌, refl, ap, length, str_eq, pair_eq, arith, inl, inr,
  Option-cases,
}
use my_test_bot_repo.Prelude.Int.{ℤ, negsuc}
use my_test_bot_repo.Prelude.Table.{lookup}
use my_test_bot_repo.Result.{Result, ok, err}
use my_test_bot_repo.Db.{Db, Blob, Ref}
use my_test_bot_repo.App.{World}
use my_test_bot_repo.Storage.{Storage, Hasher}
use my_test_bot_repo.Core.Paths.{tpath}
use my_test_bot_repo.Core.Quota.{link_dec}
use my_test_bot_repo.Core.Blobs.{bump, put_blob}
use my_test_bot_repo.Core.Refs.{link_new, rebind, bind_ref, delete_ref_db, put_ref, delete_ref}
use my_test_bot_repo.Core.Outcome.{
  with_blob, put_blob_db, put_ref_db, PutBlob, PutRef, put_blob-PutBlob, put_ref-PutRef,
}
use my_test_bot_repo.Core.Accounting.{IsAccounted, link_inc-IsAccounted, link_dec-IsAccounted}

-- The accounts stand in two tables only.
abbrev pub SameAccounts : Db → Db → Type 0
SameAccounts a b = (a.tenants ≡ b.tenants) × (a.links ≡ b.links)

pub SameAccounts-IsAccounted : (a b : Db) → SameAccounts a b → IsAccounted b → IsAccounted a
SameAccounts-IsAccounted a b same v = record {
  charged = λ id. rw (same.0, same.1) (v.charged id);
  held = λ key. rw same.1 (v.held key);
  unique = rw same.1 v.unique;
}

bump-SameAccounts : (h : Str) (d : ℤ) (db : Db) → SameAccounts (bump h d db) db
unfolding bump
bump-SameAccounts h d db = (refl, refl)

with_blob-SameAccounts :
    (now : ℕ) (t h : Str) (size : ℕ) (db : Db) → SameAccounts (with_blob now t h size db) db
with_blob-SameAccounts now t h size db = ground arith

pub put_blob_db-IsAccounted :
    (now : ℕ) (t h : Str) (size : ℕ) (db : Db)
    → IsAccounted db
    → IsAccounted (put_blob_db now t h size db)
unfolding put_blob_db
put_blob_db-IsAccounted now t h size db v =
    link_inc-IsAccounted t h size _
      (SameAccounts-IsAccounted _ _ (with_blob-SameAccounts now t h size db) v)

link_new-IsAccounted :
    (t h : Str) (o : Option Blob) (db : Db) → IsAccounted db → IsAccounted (link_new t h o db)
link_new-IsAccounted t h none db v = v
link_new-IsAccounted t h (some b) db v = link_inc-IsAccounted t h b.size db v

pub rebind-IsAccounted :
    (now : ℕ) (t stored h : Str) (ref : Ref) (db : Db)
    → IsAccounted db
    → IsAccounted (rebind now t stored h ref db)
unfolding rebind bump
rebind-IsAccounted now t stored h ref db v =
    link_new-IsAccounted t h _ _
      (link_dec-IsAccounted t ref.hash _ (SameAccounts-IsAccounted _ db (refl, refl) v))

pub bind_ref-IsAccounted :
    (now : ℕ) (t stored h : Str) (db : Db)
    → IsAccounted db
    → IsAccounted (bind_ref now t stored h db).1
unfolding bind_ref
bind_ref-IsAccounted now t stored h db v = elim (Option-cases (lookup stored db.refs)) [
  | inl absent ↦ rw (absent, bind_ref) (unfold bump in SameAccounts-IsAccounted _ db (refl, refl) v)
  | inr (ref, present) ↦
      rw (present, bind_ref) (ground (arith, rebind-IsAccounted now t stored h ref db v))
]

pub delete_ref_db-IsAccounted :
    (t stored : Str) (db : Db) → IsAccounted db → IsAccounted (delete_ref_db t stored db).1
unfolding delete_ref_db
delete_ref_db-IsAccounted t stored db v = elim (Option-cases (lookup stored db.refs)) [
  | inl absent ↦ rw (absent, delete_ref_db) v
  | inr (ref, present) ↦
      rw (present, delete_ref_db)
        (SameAccounts-IsAccounted _ (link_dec t ref.hash (bump ref.hash (negsuc 0) db)) (refl, refl)
          (link_dec-IsAccounted t ref.hash _
            (SameAccounts-IsAccounted _ db (bump-SameAccounts ref.hash (negsuc 0) db) v)))
]

module _ (S : Storage) where
  -- Deleting a ref keeps the quota accounting exact, whether the ref exists or not.
  pub delete_ref-IsAccounted :
      (path t : Str) (w : World S.State)
      → IsAccounted w.db
      → IsAccounted (delete_ref S path t w).1.db
  unfolding delete_ref
  delete_ref-IsAccounted path t w v = delete_ref_db-IsAccounted t (tpath t path) w.db v

module _ (S : Storage) (H : Hasher) where
  -- Putting a blob keeps the quota accounting exact, whether it succeeds or raises.
  pub put_blob-IsAccounted :
      (now : ℕ) (bytes : Bytes) (t : Str) (w : World S.State)
      → IsAccounted w.db
      → IsAccounted (put_blob S H now bytes t w).1.db
  put_blob-IsAccounted now bytes t w v =
      go (put_blob S H now bytes t w) (put_blob-PutBlob S H now bytes t w)
    where
      go : (o : Result Str × World S.State) → PutBlob S H now bytes t w o → IsAccounted o.1.db
      go (ok h, w') p = rw p.2 (put_blob_db-IsAccounted now t h (length bytes) w.db v)
      go (err e, w') p = rw p v

  -- Putting a ref keeps the quota accounting exact, whether it succeeds or raises.
  pub put_ref-IsAccounted :
      (now : ℕ) (path : Str) (bytes : Bytes) (t : Str) (w : World S.State)
      → IsAccounted w.db
      → IsAccounted (put_ref S H now path bytes t w).1.db
  put_ref-IsAccounted now path bytes t w v =
      go (put_ref S H now path bytes t w) (put_ref-PutRef S H now bytes t path w)
    where
      go :
          (o : Result (Str × Bool) × World S.State)
          → PutRef S H now bytes t path w o
          → IsAccounted o.1.db
      go (ok (h, created), w') p = rw (ap (λ (r : Bool × Db). r.1) p.2) (
          unfold put_ref_db in
          bind_ref-IsAccounted now t (tpath t path) h _
            (put_blob_db-IsAccounted now t h (length bytes) w.db v))
      go (err e, w') p = rw p v
