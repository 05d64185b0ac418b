-- ===== src/Core/Refcount.antt =====
-- Reference counts: every blob's `refcount` is the number of refs that name its hash, and a hash
-- that a ref names has a blob.
pub mod Keeps
pub mod Sweep
use my_test_bot_repo.Prelude.{
  ℕ, ◌+◌, ◌-◌, ◌≤◌, [], ◌∷◌, Str, Option, none, some, ◌≡◌, ◌≢◌, refl, ◌==◌, str_eq, arith,
}
use my_test_bot_repo.Prelude.{if◌then◌else◌}
use my_test_bot_repo.Prelude.Table.{
  Table, lookup, insert, erase, sum, share, NodupKeys, sum-insert, sum-erase, lookup-insert,
  lookup-erase, insert-NodupKeys, erase-NodupKeys,
}
use my_test_bot_repo.Prelude.Int.{ℤ, pos, negsuc}
use my_test_bot_repo.Db.{Db, Blob, Ref}
use my_test_bot_repo.Db.Rows.{lookup-update, update-NodupKeys}
use my_test_bot_repo.Core.Blobs.{add_delta, bump}

-- A hash that has no blob counts as one with no references.
abbrev pub refcount_of : Option Blob → ℕ
refcount_of none = 0
refcount_of (some b) = b.refcount

abbrev pub names : Str → Str → Ref → ℕ
names h path ref = if ref.hash == h then 1 else 0

-- The number of refs that name a hash.
abbrev pub count_refs : Str → Table Str Ref → ℕ
count_refs h refs = sum (names h) refs

pub record IsCounted (db : Db) : Type 0 where
  pub counts : (h : Str) → refcount_of (lookup h db.blobs) ≡ count_refs h db.refs
  pub unique : NodupKeys db.refs
  pub unique_blobs : NodupKeys db.blobs

module _ (h k : Str) (db : Db) where
  pub refcount-bump_up :
      lookup h db.blobs ≢ none
      → refcount_of (lookup k (bump h (pos 1) db).blobs)
        ≡ (if k == h then refcount_of (lookup h db.blobs) + 1 else refcount_of (lookup k db.blobs))
  unfolding bump add_delta
  refcount-bump_up there = rw lookup-update (ground arith)

  pub refcount-bump_down :
      refcount_of (lookup k (bump h (negsuc 0) db).blobs)
      ≡ (if k == h then refcount_of (lookup h db.blobs) - 1 else refcount_of (lookup k db.blobs))
  unfolding bump add_delta
  refcount-bump_down = rw lookup-update (ground arith)

  pub bump_keeps_blobs : (d : ℤ) → lookup k db.blobs ≢ none → lookup k (bump h d db).blobs ≢ none
  unfolding bump
  bump_keeps_blobs d there = rw lookup-update (ground arith)

pub bump_keeps_unique :
    (h : Str) (d : ℤ) (db : Db) → NodupKeys db.blobs → NodupKeys (bump h d db).blobs
unfolding bump
bump_keeps_unique h d db u = update-NodupKeys h (add_delta d) db.blobs u

pub refs-bump : (h : Str) (d : ℤ) (db : Db) → (bump h d db).refs ≡ db.refs
unfolding bump
refs-bump h d db = refl

-- A ref in the table counts.
pub count_refs-pos :
    (path : Str) (ref : Ref) (refs : Table Str Ref)
    → lookup path refs ≡ some ref
    → 1 ≤ count_refs ref.hash refs
unfolding lookup sum
count_refs-pos path ref [] e = cc
count_refs-pos path ref ((p, r) ∷ refs) e = ground (arith, count_refs-pos path ref refs)

-- In a counted database the hash that a ref names has a blob.
pub named_blob :
    (path : Str) (ref : Ref) (db : Db)
    → IsCounted db
    → lookup path db.refs ≡ some ref
    → lookup ref.hash db.blobs ≢ none
named_blob path ref db v e = ground (arith, count_refs-pos path ref db.refs e, v.counts ref.hash)
