-- ===== src/Uploads/Complete/Rows.antt =====
-- The rows that a completed upload leaves, table by table.
use my_test_bot_repo.Prelude.{sym, subst}
use my_test_bot_repo.Prelude.{
  ℕ, ◌+◌, Str, true, false, Option, none, some, List, length, ◌≡◌, ◌∙◌, refl, ap, arith, get_or,
  is_some, str_eq, pair_eq, ◌==◌, if◌then◌else◌, inl, inr, Option-cases, Bool-cases,
}
use my_test_bot_repo.Prelude.Int.{ℤ, pos, negsuc}
use my_test_bot_repo.Prelude.Table.{Table, lookup, lookup-insert}
use my_test_bot_repo.Result.{Result, ok, err, is_ok}
use my_test_bot_repo.Db.{Db, Blob, Upload, Tenant, TenantBlob}
use my_test_bot_repo.Db.Rows.{map_row, lookup-update}
use my_test_bot_repo.App.{World}
use my_test_bot_repo.Storage.{Storage, Hasher}
use my_test_bot_repo.Core.Paths.{tpath}
use my_test_bot_repo.Core.Frame.{link_inc-SameFiles}
use my_test_bot_repo.Core.Quota.{enforce_quota, link_inc, charge}
use my_test_bot_repo.Core.Blobs.{bump, add_delta, new_blob}
use my_test_bot_repo.Core.Outcome.{with_blob}
use my_test_bot_repo.Core.Contents.Reads.{hash_at}
use my_test_bot_repo.Uploads.Merge.Laws.{concat_parts}
use my_test_bot_repo.Uploads.Complete.{
  CompletedUpload, bind_upload, bind_target, record_upload, complete, need_pending, finish,
  tenant_of,
}
use my_test_bot_repo.Uploads.Complete.Outcome.{Completed, complete-Completed, parts_of}
use my_test_bot_repo.Uploads.Complete.Keeps.{bind_target-SameAccounts}
use my_test_bot_repo.Uploads.Complete.Seen.{is_target, hash_at-record_upload}

-- A blob's row but for its count of references.
abbrev pub outline : Option Blob → Option Blob
outline none = none
outline (some b) = some (record b { refcount = 0 })

-- The link of a blob with one more use.
abbrev pub used_again : ℕ → Option TenantBlob → TenantBlob
used_again size none = record { refcount = 1; size = size }
used_again size (some link) = record link { refcount = link.refcount + 1 }

abbrev pub charged_for : ℕ → Tenant → Tenant
charged_for size t = record t {
  used_bytes = t.used_bytes + size;
  used_objects = t.used_objects + 1;
}

-- The rows of an upload with the given digest and size, at a time.
pub record Recorded (now : ℕ) (id : Str) (up : Upload) (h : Str) (size : ℕ) (a b : Db)
    : Type 0 where
  -- The upload is completed.
  pub uploads :
      (j : Str)
      → lookup j a.uploads ≡ (
          if j == id
          then some (record up { completed = true; final_hash = some h })
          else lookup j b.uploads)
  -- Its target names the digest.
  pub refs :
      (s : Str)
      → hash_at s a ≡ (if is_target up.tenant_id up.target_ref s then some h else hash_at s b)
  -- The digest has a blob: the one that was there, or else a new one of that size.
  pub blobs :
      (k : Str)
      → outline (lookup k a.blobs) ≡ (
          if k == h
          then some (
              get_or
                (outline (lookup h b.blobs))
                (record { size = size; refcount = 0; created_at = now; tenant_id = up.tenant_id }))
          else outline (lookup k b.blobs))
  -- The tenant's link is counted once more, and the tenant is charged for a new one.
  pub links :
      (key : Str × Str)
      → lookup key a.links ≡ (
          if key == (up.tenant_id, h)
          then some (used_again size (lookup (up.tenant_id, h) b.links))
          else lookup key b.links)
  pub tenants :
      (t : Str)
      → lookup t a.tenants ≡ (
          if is_some (lookup (up.tenant_id, h) b.links)
          then lookup t b.tenants
          else if t == up.tenant_id
          then map_row (charged_for size) (lookup t b.tenants)
          else lookup t b.tenants)
  pub shares : a.shares ≡ b.shares

outline-bump :
    (h : Str) (d : ℤ) (k : Str) (db : Db)
    → outline (lookup k (bump h d db).blobs) ≡ outline (lookup k db.blobs)
unfolding bump add_delta
outline-bump h d k db = rw lookup-update (ground arith)

outline-bind_upload :
    (now : ℕ) (t path h k : Str) (db : Db)
    → outline (lookup k (bind_upload now t path h db).blobs) ≡ outline (lookup k db.blobs)
unfolding bind_upload
outline-bind_upload now t path h k db = elim (Option-cases (lookup path db.refs)) [
  | inl absent ↦ rw (absent, bind_upload) (outline-bump h (pos 1) k _)
  | inr (ref, present) ↦ elim (Bool-cases (ref.hash == h)) [
    | inl same ↦ rw (present, bind_upload, same) refl
    | inr moved ↦
        rw (present, bind_upload, moved)
          (outline-bump h (pos 1) k _ ∙ outline-bump ref.hash (negsuc 0) k _)
  ]
]

outline-bind_target :
    (now : ℕ) (t : Str) (target : Option Str) (h k : Str) (db : Db)
    → outline (lookup k (bind_target now t target h db).blobs) ≡ outline (lookup k db.blobs)
outline-bind_target now t none h k db = refl
outline-bind_target now t (some target) h k db =
    ground (arith, outline-bind_upload now t (tpath t target) h k db)

bind_upload-rest :
    (now : ℕ) (t path h : Str) (db : Db)
    → let bound = bind_upload now t path h db in
      (bound.uploads ≡ db.uploads) × (bound.shares ≡ db.shares)
unfolding bind_upload bump
bind_upload-rest now t path h db = ground arith

bind_target-rest :
    (now : ℕ) (t : Str) (target : Option Str) (h : Str) (db : Db)
    → let bound = bind_target now t target h db in
      (bound.uploads ≡ db.uploads) × (bound.shares ≡ db.shares)
bind_target-rest now t none h db = (refl, refl)
bind_target-rest now t (some target) h db =
    ground (arith, bind_upload-rest now t (tpath t target) h db)

module _ (now : ℕ) (id : Str) (up : Upload) (h : Str) (size : ℕ) (db : Db) where
  abbrev blobbed : Db
  blobbed = with_blob now up.tenant_id h size db

  outline-blobbed :
      (k : Str)
      → outline (lookup k blobbed.blobs) ≡ (
          if k == h
          then some (
              get_or
                (outline (lookup h db.blobs))
                (record { size = size; refcount = 0; created_at = now; tenant_id = up.tenant_id }))
          else outline (lookup k db.blobs))
  outline-blobbed k = elim (Option-cases (lookup h db.blobs)) [
    | inl absent ↦
        ground (arith, absent, lookup-insert k h (new_blob now up.tenant_id size) db.blobs)
    | inr (b, there) ↦ ground (arith, there)
  ]

  blobbed-rest :
      (blobbed.uploads ≡ db.uploads)
      × (blobbed.shares ≡ db.shares)
      × (blobbed.links ≡ db.links)
      × (blobbed.tenants ≡ db.tenants)
  blobbed-rest = ground arith

  links-link_inc :
      (key : Str × Str)
      → lookup key (link_inc up.tenant_id h size blobbed).links ≡ (
          if key == (up.tenant_id, h)
          then some (used_again size (lookup (up.tenant_id, h) blobbed.links))
          else lookup key blobbed.links)
  unfolding link_inc
  links-link_inc key = elim (Option-cases (lookup (up.tenant_id, h) blobbed.links)) [
    | inl absent ↦
        rw (absent, link_inc)
          (lookup-insert key (up.tenant_id, h) (used_again size none) blobbed.links)
    | inr (link, there) ↦
        rw (there, link_inc)
          (lookup-insert key (up.tenant_id, h) (used_again size (some link)) blobbed.links)
  ]

  tenants-link_inc :
      (t : Str)
      → lookup t (link_inc up.tenant_id h size blobbed).tenants ≡ (
          if is_some (lookup (up.tenant_id, h) blobbed.links)
          then lookup t blobbed.tenants
          else if t == up.tenant_id
          then map_row (charged_for size) (lookup t blobbed.tenants)
          else lookup t blobbed.tenants)
  unfolding link_inc charge
  tenants-link_inc t = ground (arith, lookup-update t up.tenant_id (charge size) blobbed.tenants)

  abbrev after : Db
  after = record_upload now id (some up) h size blobbed

  -- The tables of the finished upload, one after another.
  record_upload-Recorded : lookup id db.uploads ≡ some up → Recorded now id up h size after db
  unfolding record_upload finish
  record_upload-Recorded known =
      let files = link_inc-SameFiles up.tenant_id h size blobbed in
      let rest = blobbed-rest in
      let bound =
        bind_target-rest now up.tenant_id up.target_ref h (link_inc up.tenant_id h size blobbed) in
      let uploads : (j : Str)
          → lookup j
              (bind_target now up.tenant_id up.target_ref h
                (link_inc up.tenant_id h size blobbed)).uploads
            ≡ lookup j db.uploads =
        λ j. ap (lookup j) (bound.0 ∙ files.uploads ∙ rest.0) in
      let (tenants, links) =
        bind_target-SameAccounts now up.tenant_id up.target_ref h
          (link_inc up.tenant_id h size blobbed) in
      record {
        uploads = λ j.
            lookup-update j id (λ (u : Upload). finish h u) _
            ∙ ground (arith, uploads j, uploads id, known);
        refs = λ s. hash_at-record_upload now id (some up) h size s db;
        blobs = λ k.
            outline-bind_target now up.tenant_id up.target_ref h k
              (link_inc up.tenant_id h size blobbed)
            ∙ ap (λ (t : Table Str Blob). outline (lookup k t)) files.blobs
            ∙ outline-blobbed k;
        links = λ key.
            ap (lookup key) links
            ∙ links-link_inc key
            ∙ ap
                (λ (d : Table (Str × Str) TenantBlob).
                  if key == (up.tenant_id, h)
                  then some (used_again size (lookup (up.tenant_id, h) d))
                  else lookup key d)
                rest.2;
        tenants = λ t. ap (lookup t) tenants ∙ tenants-link_inc t ∙ rw (rest.2, rest.3) refl;
        shares = bound.1 ∙ files.shares ∙ rest.1;
      }

module _ (S : Storage) (H : Hasher) (now : ℕ) (id : Str) where
  -- What a `complete` that returns has found and leaves.
  pub record IsFinished (w w' : World S.State) (c : CompletedUpload) (up : Upload) : Type 0 where
    pub known : lookup id w.db.uploads ≡ some up
    pub was_open : up.completed ≡ false
    pub hash : c.hash ≡ H.hexdigest (concat_parts (parts_of S H now id w))
    pub size : c.size ≡ length (concat_parts (parts_of S H now id w))
    pub allowed : enforce_quota up.tenant_id c.hash c.size w.db ≡ ok tt
    pub rows : Recorded now id up c.hash c.size w'.db w.db

  abbrev pub Ended : World S.State → Result CompletedUpload × World S.State → Type 0
  Ended w (ok c, w') = (up : Upload) × IsFinished w w' c up
  Ended w (err e, w') = w'.db ≡ w.db

  complete_was_open :
      (expected : Option (List ℤ)) (w : World S.State)
      → is_ok (complete S H now id expected w).0 ≡ true
      → is_ok (need_pending (lookup id w.db.uploads)) ≡ true
  unfolding complete
  complete_was_open expected w fine = ground arith

  -- A `complete` that returns was of an open upload; it has hashed and counted the parts, one after
  -- another in their order, and the quota allowed them. Afterwards the upload is completed with the
  -- digest; its target, where it has one, names the digest, and every other path the digest that it
  -- named; the digest has a blob; the tenant's link to the blob is counted once more, and a tenant
  -- with a row is charged for a link that is new. Every other upload, link and tenant is as before,
  -- as are the shares and, but for their counts of references, the other blobs. A `complete` that
  -- raises leaves the database as it was.
  pub complete-Ended :
      (expected : Option (List ℤ)) (w : World S.State) → Ended w (complete S H now id expected w)
  complete-Ended expected w =
      go (complete S H now id expected w) (complete_was_open expected w)
        (complete-Completed S H now id expected w) (lookup id w.db.uploads) refl
    where
      go :
          (o : Result CompletedUpload × World S.State)
          → (is_ok o.0 ≡ true → is_ok (need_pending (lookup id w.db.uploads)) ≡ true)
          → Completed S H now id w o
          → (u : Option Upload) → lookup id w.db.uploads ≡ u
          → Ended w o
      go (err e, w') pending done u known = done
      go (ok c, w') pending done none known = absurd (ground (arith, pending refl, known))
      go (ok c, w') pending done (some up) known = (
        up,
        record {
          known = known;
          was_open = ground (arith, pending refl, known);
          hash = done.0;
          size = done.1;
          allowed = ground (arith, known, done.2.allowed);
          rows =
              subst (λ (db : Db). Recorded now id up c.hash c.size db w.db)
                (ap
                    (λ (u : Option Upload).
                      record_upload now id u c.hash c.size
                        (with_blob now (tenant_of u) c.hash c.size w.db))
                    (sym known)
                  ∙ sym done.2.rows)
                (record_upload-Recorded now id up c.hash c.size w.db known);
        },
      )
