-- ===== src/Core/Contents/Reads.antt =====
-- What callers read: a file system is a map from stored paths to bytes.
use my_test_bot_repo.Prelude.{
  ℕ, Str, Bytes, Option, none, some, ◌≡◌, ◌==◌, str_eq, arith, inl, inr, Option-cases, Bool-cases,
  if◌then◌else◌,
}
use my_test_bot_repo.Prelude.Table.{lookup, lookup-insert, lookup-erase}
use my_test_bot_repo.Result.{ok}
use my_test_bot_repo.Db.{Db, Ref}
use my_test_bot_repo.App.{World}
use my_test_bot_repo.Storage.{Storage, Hasher, IsLawful}
use my_test_bot_repo.Core.Paths.{tpath}
use my_test_bot_repo.Core.Blobs.{bump}
use my_test_bot_repo.Core.Frame.{link_inc-SameFiles, link_dec-SameFiles, link_new-SameFiles}
use my_test_bot_repo.Core.Refs.{resolve_ref, delete_ref_db, bind_ref, rebind}
use my_test_bot_repo.Core.Outcome.{with_blob, put_blob_db}
use my_test_bot_repo.Core.Refcount.{IsCounted, named_blob}
use my_test_bot_repo.Core.Contents.{IsStored}

-- The hash that a stored path names.
abbrev pub hash_of : Option Ref → Option Str
hash_of none = none
hash_of (some ref) = some ref.hash

abbrev pub hash_at : Str → Db → Option Str
hash_at stored db = hash_of (lookup stored db.refs)

module _ (S : Storage) (L : IsLawful S) where
  abbrev pub stored_under : S.State → Option Str → Option Bytes
  stored_under s none = none
  stored_under s (some h) = L.contents s h

  -- The bytes that a stored path stands for.
  abbrev pub seen : World S.State → Str → Option Bytes
  seen w stored = stored_under w.store (hash_at stored w.db)

  module _ (H : Hasher) where
    -- Reading a ref of a valid file system over a lawful backend never raises, changes nothing, and
    -- returns the bytes that the path stands for.
    pub resolve_ref-eq-seen :
        (path t : Str) (w : World S.State)
        → IsCounted w.db
        → IsStored S L H w
        → resolve_ref S path t w ≡ (ok (seen w (tpath t path)), w)
    unfolding resolve_ref
    resolve_ref-eq-seen path t w c v = elim (Option-cases (lookup (tpath t path) w.db.refs)) [
      | inl absent ↦ ground (arith, absent)
      | inr (ref, there) ↦
          let blob = named_blob (tpath t path) ref w.db c there in
          ground (
            arith,
            there,
            L.get_lem ref.hash w.store (v.digests ref.hash blob),
            v.backed ref.hash blob,
          )
    ]

pub hash_at-put_blob_db :
    (now : ℕ) (t h : Str) (size : ℕ) (stored : Str) (db : Db)
    → hash_at stored (put_blob_db now t h size db) ≡ hash_at stored db
unfolding put_blob_db
hash_at-put_blob_db now t h size stored db =
    rw (link_inc-SameFiles t h size (with_blob now t h size db)).refs (ground arith)

refs-rebind :
    (now : ℕ) (t stored h s : Str) (ref : Ref) (db : Db)
    → hash_at s (rebind now t stored h ref db) ≡ (if s == stored then some h else hash_at s db)
unfolding rebind bump
refs-rebind now t stored h s ref db =
    rw ((link_new-SameFiles t h _ _).refs, (link_dec-SameFiles t ref.hash _).refs, lookup-insert)
      (ground arith)

pub hash_at-bind_ref :
    (now : ℕ) (t stored h s : Str) (db : Db)
    → hash_at s (bind_ref now t stored h db).1 ≡ (if s == stored then some h else hash_at s db)
unfolding bind_ref bump
hash_at-bind_ref now t stored h s db = elim (Option-cases (lookup stored db.refs)) [
  | inl absent ↦ rw (absent, bind_ref) (rw lookup-insert (ground arith))
  | inr (ref, present) ↦ elim (Bool-cases (ref.hash == h)) [
    | inl same ↦ rw (present, bind_ref) (rw same (ground (arith, present, same)))
    | inr moved ↦ rw (present, bind_ref) (rw moved (refs-rebind now t stored h s ref db))
  ]
]

pub hash_at-delete_ref_db :
    (t stored s : Str) (db : Db)
    → hash_at s (delete_ref_db t stored db).1 ≡ (if s == stored then none else hash_at s db)
unfolding delete_ref_db bump
hash_at-delete_ref_db t stored s db = elim (Option-cases (lookup stored db.refs)) [
  | inl absent ↦ rw (absent, delete_ref_db) (ground (arith, absent))
  | inr (ref, present) ↦
      rw (present, delete_ref_db)
        (rw ((link_dec-SameFiles t ref.hash _).refs, lookup-erase) (ground arith))
]
