-- ===== src/Uploads/Complete/Seen.antt =====
-- `complete` refines a put of the parts, one after another, at the upload's target.
use my_test_bot_repo.Prelude.{
  ℕ, Str, Bytes, Bool, false, not, ◌&&◌, Option, none, some, [], str_eq, length, ◌≡◌, ◌≢◌, ◌==◌,
  refl, ap, arith, inl, inr, Option-cases, Bool-cases, is_some, get_or, if◌then◌else◌, ◌∙◌,
}
use my_test_bot_repo.Prelude.Table.{Table, lookup, lookup-insert}
use my_test_bot_repo.Text.{is_empty}
use my_test_bot_repo.Result.{Result, ok, err}
use my_test_bot_repo.Db.{Db, Upload}
use my_test_bot_repo.App.{World}
use my_test_bot_repo.Storage.{Storage, Hasher, IsDigest, IsLawful}
use my_test_bot_repo.Core.Paths.{tpath}
use my_test_bot_repo.Core.Quota.{enforce_quota}
use my_test_bot_repo.Core.Blobs.{bump}
use my_test_bot_repo.Core.Frame.{link_inc-SameFiles}
use my_test_bot_repo.Core.Outcome.{with_blob}
use my_test_bot_repo.Core.Refcount.{IsCounted}
use my_test_bot_repo.Core.Contents.{IsStored}
use my_test_bot_repo.Core.Contents.Reads.{seen, hash_at}
use my_test_bot_repo.Core.Contents.Refinement.{NoCollision, named_contents}
use my_test_bot_repo.Uploads.Names.{sorted_parts}
use my_test_bot_repo.Uploads.Merge.{Stream, start, merge_parts, buf_size}
use my_test_bot_repo.Uploads.Merge.Laws.{concat_parts}
use my_test_bot_repo.Uploads.Complete.{
  CompletedUpload, tenant_of, target_of, bind_upload, bind_target, record_upload, commit_upload,
  complete,
}
use my_test_bot_repo.Uploads.Complete.Outcome.{
  parts_of, upload_of, staged, merged-fed, Completed, complete-Completed,
}
use my_test_bot_repo.Uploads.Complete.Contents.{
  CompleteStored, complete-CompleteStored, stored_after,
}

-- The stored path that an upload is bound to.
abbrev pub is_target : Str → Option Str → Str → Bool
is_target t none s = false
is_target t (some target) s = not (is_empty target) && s == tpath t target

hash_at-bind_upload :
    (now : ℕ) (t path h s : Str) (db : Db)
    → hash_at s (bind_upload now t path h db) ≡ (if s == path then some h else hash_at s db)
unfolding bind_upload bump
hash_at-bind_upload now t path h s db = elim (Option-cases (lookup path db.refs)) [
  | inl absent ↦ rw (absent, bind_upload) (rw lookup-insert (ground arith))
  | inr (ref, present) ↦ elim (Bool-cases (ref.hash == h)) [
    | inl same ↦ rw (present, bind_upload) (rw same (ground (arith, present, same)))
    | inr moved ↦ rw (present, bind_upload) (rw (moved, lookup-insert) (ground arith))
  ]
]

hash_at-bind_target :
    (now : ℕ) (t : Str) (target : Option Str) (h s : Str) (db : Db)
    → hash_at s (bind_target now t target h db)
      ≡ (if is_target t target s then some h else hash_at s db)
hash_at-bind_target now t none h s db = refl
hash_at-bind_target now t (some target) h s db =
    ground (arith, hash_at-bind_upload now t (tpath t target) h s db)

pub hash_at-record_upload :
    (now : ℕ) (id : Str) (up : Option Upload) (h : Str) (size : ℕ) (s : Str) (db : Db)
    → hash_at s (record_upload now id up h size (with_blob now (tenant_of up) h size db))
      ≡ (if is_target (tenant_of up) (target_of up) s then some h else hash_at s db)
unfolding record_upload
hash_at-record_upload now id up h size s db =
    hash_at-bind_target now (tenant_of up) (target_of up) h s _
    ∙ rw (link_inc-SameFiles (tenant_of up) h size (with_blob now (tenant_of up) h size db)).refs
        (ground arith)

no_parts : sorted_parts [] ≡ []
unfolding sorted_parts
no_parts = refl

module _ (S : Storage) (L : IsLawful S) (H : Hasher) (now : ℕ) (id : Str) where
  -- The contents of an upload: its parts in order.
  abbrev pub data_of : World S.State → Bytes
  data_of w = concat_parts (parts_of S H now id w)

  commit_upload_allowed :
      (h : Str) (s : Stream) (parts : Table Str Bytes) (w : World S.State)
      → IsDigest h
      → enforce_quota (tenant_of (upload_of S H now id w)) h s.size w.db ≡ ok tt
      → (commit_upload S H now id h s parts w).0 ≡ ok (not (is_some (lookup h w.db.blobs)))
  unfolding commit_upload
  commit_upload_allowed h s parts w dh fits = ground (arith, L.put_path_lem h s.out w.store dh)

  -- The result of a `complete` that nothing refuses.
  abbrev pub completed_as : Bytes → World S.State → CompletedUpload
  completed_as content w = record {
    hash = H.hexdigest content;
    size = length content;
    created = not (is_some (lookup (H.hexdigest content) w.db.blobs));
  }

  module _ (up : Upload) (w : World S.State) where
    complete_allowed :
        lookup id w.db.uploads ≡ some up
        → up.completed ≡ false
        → parts_of S H now id w ≢ []
        → enforce_quota up.tenant_id (H.hexdigest (data_of w)) (length (data_of w)) w.db ≡ ok tt
        → (complete S H now id none w).0 ≡ ok (completed_as (data_of w) w)
    unfolding complete
    complete_allowed known open_ some_parts fits = ground (
      arith,
      no_parts,
      merged-fed S H now id (parts_of S H now id w),
      commit_upload_allowed
          (H.hexdigest (merge_parts buf_size (parts_of S H now id w) start).hashed)
          (merge_parts buf_size (parts_of S H now id w) start) (parts_of S H now id w)
          (staged S H now id w) (H.hexdigest-IsDigest _),
    )

  module _ (w : World S.State) (c : CompletedUpload) (w' : World S.State) where
    -- What the paths stand for once an upload is finished.
    seen-finished :
        IsCounted w.db
        → IsStored S L H w
        → NoCollision S L H (data_of w) w
        → Completed S H now id w (ok c, w')
        → CompleteStored S L H now id w (ok c, w')
        → (s : Str)
        → seen S L w' s ≡ (
            if is_target (tenant_of (upload_of S H now id w)) (target_of (upload_of S H now id w)) s
            then some (data_of w)
            else seen S L w s)
    seen-finished counted v fresh done put s =
        let dc : IsDigest c.hash = rw done.0 (H.hexdigest-IsDigest _) in
        let bound =
          ap (hash_at s) done.2.rows
          ∙ hash_at-record_upload now id (upload_of S H now id w) c.hash c.size s w.db in
        elim (Option-cases (lookup s w.db.refs)) [
          | inl absent ↦ ground (
            arith,
            absent,
            bound,
            done.0,
            stored_after S L H now id w c w' v done put c.hash dc,
            fresh (get_or (L.contents w.store c.hash) (data_of w)),
          )
          | inr (ref, there) ↦
              let (digest, present) = named_contents S L H s ref w counted v there in
              ground (
                arith,
                there,
                present,
                bound,
                done.0,
                stored_after S L H now id w c w' v done put c.hash dc,
                stored_after S L H now id w c w' v done put ref.hash digest,
                fresh (get_or (L.contents w.store c.hash) (data_of w)),
              )
        ]

  -- From a valid file system, over a lawful backend, and where other bytes with the same digest are
  -- not stored: an upload that is open, has parts and whose contents the quota allows is completed,
  -- and the answer has the digest and the length of the contents. Afterwards its target, where it
  -- has one, stands for its parts one after another, and every other path for what it stood for
  -- before.
  pub seen-complete :
      (up : Upload) (w : World S.State)
      → lookup id w.db.uploads ≡ some up
      → up.completed ≡ false
      → parts_of S H now id w ≢ []
      → enforce_quota up.tenant_id (H.hexdigest (data_of w)) (length (data_of w)) w.db ≡ ok tt
      → IsCounted w.db
      → IsStored S L H w
      → NoCollision S L H (data_of w) w
      → let (r, w') = complete S H now id none w in
        (r ≡ ok (completed_as (data_of w) w))
        × ((s : Str)
            → seen S L w' s
              ≡ (if is_target up.tenant_id up.target_ref s then some (data_of w) else seen S L w s))
  seen-complete up w known open_ some_parts fits counted v fresh =
      go (complete S H now id none w) (complete_allowed up w known open_ some_parts fits)
        (complete-Completed S H now id none w) (complete-CompleteStored S L H now id none w)
    where
      go :
          (o : Result CompletedUpload × World S.State)
          → o.0 ≡ ok (completed_as (data_of w) w)
          → Completed S H now id w o
          → CompleteStored S L H now id w o
          → (o.0 ≡ ok (completed_as (data_of w) w))
            × ((s : Str)
                → seen S L o.1 s ≡ (
                    if is_target up.tenant_id up.target_ref s
                    then some (data_of w)
                    else seen S L w s))
      go (ok c, w') same done put =
          (same, λ s. ground (arith, known, seen-finished w c w' counted v fresh done put s))
      go (err e, w') same done put = absurd (ground (arith, same))
