-- ===== src/Tests/Quotas.antt =====
-- A tenant with limits: its charges, its links, and its uploads.
use my_test_bot_repo.Prelude.{
  Str, Bytes, false, none, some, [], ◌∷◌, length, ◌≡◌, refl, arith, codes, str_eq, pair_eq, path_eq,
  nat_eq, if◌then◌else◌,
}
use my_test_bot_repo.Prelude.Int.{pos}
use my_test_bot_repo.Prelude.Table.{lookup, NodupKeys, sum}
use my_test_bot_repo.Result.{bytes, ok, err, quota_exceeded}
use my_test_bot_repo.Db.{Ref, Blob, Upload, TenantBlob}
use my_test_bot_repo.App.{World}
use my_test_bot_repo.Core.Paths.{tpath}
use my_test_bot_repo.Core.Quota.{enforce_quota, check_limits, check_limit}
use my_test_bot_repo.Core.Refs.{put_ref}
use my_test_bot_repo.Core.Gc.{garbage, gc}
use my_test_bot_repo.Core.Refcount.{IsCounted}
use my_test_bot_repo.Core.Refcount.Sweep.{garbage_row, gc_exact}
use my_test_bot_repo.Core.Accounting.{IsAccounted}
use my_test_bot_repo.Core.Accounting.Limits.{IsWithin, put_ref_refused}
use my_test_bot_repo.Core.Accounting.Leaks.{delete_after_same_put}
use my_test_bot_repo.Uploads.{write_part, write_part_sync}
use my_test_bot_repo.Uploads.Parts.{write_part-write_part_sync}
use my_test_bot_repo.Uploads.Complete.{complete}
use my_test_bot_repo.Uploads.Complete.Rows.{Ended, complete-Ended}
use my_test_bot_repo.Core.Contents.{IsStored}
use my_test_bot_repo.Core.Contents.Reads.{seen}
use my_test_bot_repo.Core.Contents.Refinement.{NoCollision}
use my_test_bot_repo.Uploads.Names.{sorted_parts, is_part, ends_with, leb_str}
use my_test_bot_repo.Uploads.Complete.Outcome.{parts_of}
use my_test_bot_repo.Uploads.Complete.Seen.{data_of, completed_as, is_target, seen-complete}
use my_test_bot_repo.Prelude.{true}
use my_test_bot_repo.Db.{Tenant}
use my_test_bot_repo.Core.Refs.{delete_ref}
use my_test_bot_repo.Tests.Data.{acme_row}
use my_test_bot_repo.Tests.Data.{lawful, nothing_stored}
use my_test_bot_repo.Tests.Data.{toy, toy_digest, disk, empty_db, fresh, acme, managed}

abbrev note : Str
note = codes "a.md"

abbrev text : Bytes
text = codes "hi"

abbrev long_text : Bytes
long_text = codes "hello"

abbrev written : World disk.State
written = (put_ref disk toy 7 note text acme managed).1

too_long :
    enforce_quota acme (toy.hexdigest long_text) (length long_text) managed.db
    ≡ err (quota_exceeded bytes 5 (pos 4))
unfolding enforce_quota check_limits check_limit lookup str_eq
too_long = refl

put_ref_refused_example :
    put_ref disk toy 7 note long_text acme managed ≡ (err (quota_exceeded bytes 5 (pos 4)), managed)
put_ref_refused_example =
    put_ref_refused disk toy 7 long_text acme managed note (quota_exceeded bytes 5 (pos 4)) too_long

-- The tenant's ref of two bytes, with its charge.
abbrev ref : Ref
ref = record { hash = toy_digest text; tenant_id = acme; created_at = 7; updated_at = 7 }

abbrev link : TenantBlob
link = record { refcount = 1; size = 2 }

abbrev charged_row : Tenant
charged_row = record acme_row { used_bytes = 2; used_objects = 1 }

abbrev charged : World disk.State
charged = record fresh {
  db = record empty_db {
    refs = (tpath acme note, ref) ∷ [];
    tenants = (acme, charged_row) ∷ [];
    links = ((acme, toy_digest text), link) ∷ [];
  };
}

has_ref : lookup (tpath acme note) charged.db.refs ≡ some ref
unfolding lookup
has_ref = ground arith

has_link : lookup (acme, toy_digest text) charged.db.links ≡ some link
unfolding lookup
has_link = ground arith

has_row : lookup acme charged.db.tenants ≡ some charged_row
unfolding lookup
has_row = ground arith

delete_after_same_put_example :
    let (answer, put) = put_ref disk toy 9 note text acme charged in
    let (gone, after) = delete_ref disk note acme put in
    (answer ≡ ok (toy_digest text, false))
    × (gone ≡ ok true)
    × (lookup (tpath acme note) after.db.refs ≡ none)
    × (lookup acme after.db.tenants ≡ some charged_row)
    × (lookup (acme, toy_digest text) after.db.links ≡ some link)
delete_after_same_put_example =
    delete_after_same_put disk lawful toy 9 note text acme charged ref link charged_row has_ref refl
      has_link (omega arith) has_row

-- A blob that nothing names.
abbrev orphan : Blob
orphan = record { size = 2; refcount = 0; created_at = 7; tenant_id = acme }

abbrev littered : World disk.State
littered = record fresh { db = record empty_db { blobs = (toy_digest text, orphan) ∷ [] } }

littered-NodupKeys : NodupKeys littered.db.blobs
unfolding lookup
littered-NodupKeys = ground arith

gc_exact_example :
    let (r, w') = gc disk (some acme) littered in
    (r ≡ ok (length (garbage (some acme) littered.db.blobs)))
    × (w'.db ≡ record littered.db { blobs = w'.db.blobs })
    × ((h : Str)
        → lookup h w'.db.blobs ≡ (
            if garbage_row (some acme) (lookup h littered.db.blobs)
            then none
            else lookup h littered.db.blobs))
gc_exact_example = gc_exact disk (some acme) littered littered-NodupKeys

abbrev up_id : Str
up_id = codes "u1"

abbrev pending : Upload
pending = record {
  tenant_id = acme;
  created_at = 7;
  completed = false;
  final_hash = none;
  target_ref = some note;
}

-- One upload, in two parts.
abbrev staged : World disk.State
staged = record managed {
  db = record managed.db { uploads = (up_id, pending) ∷ [] };
  scratch =
      (up_id, (codes "00000002.part", codes "i") ∷ (codes "00000001.part", codes "h") ∷ []) ∷ [];
}

complete-Ended_example : Ended disk toy 9 up_id staged (complete disk toy 9 up_id none staged)
complete-Ended_example = complete-Ended disk toy 9 up_id none staged

staged-IsCounted : IsCounted staged.db
unfolding lookup sum
staged-IsCounted = record { counts = λ h. refl; unique = tt; unique_blobs = tt }

staged-IsAccounted : IsAccounted staged.db
unfolding lookup sum
staged-IsAccounted = record { charged = λ id. ground arith; held = λ key. tt; unique = tt }

staged-IsWithin : IsWithin staged.db
unfolding lookup
staged-IsWithin = record { within = λ id. ground arith }

staged-IsStored : IsStored disk lawful toy staged
unfolding lookup
staged-IsStored = record {
  addressed = λ h d dh e. ground (arith, e, nothing_stored h dh);
  digests = λ h there. absurd (there refl);
  backed = λ h there. absurd (there refl);
}

is_pending : lookup up_id staged.db.uploads ≡ some pending
unfolding lookup
is_pending = ground arith

staged_parts :
    parts_of disk toy 9 up_id staged
    ≡ (codes "00000001.part", codes "h") ∷ (codes "00000002.part", codes "i") ∷ []
unfolding lookup sorted_parts is_part ends_with leb_str str_eq nat_eq
staged_parts = refl

staged-text : data_of disk lawful toy 9 up_id staged ≡ text
staged-text = rw staged_parts refl

staged_fits :
    enforce_quota acme
      (toy.hexdigest (data_of disk lawful toy 9 up_id staged))
      (length (data_of disk lawful toy 9 up_id staged))
      staged.db
    ≡ ok tt
unfolding enforce_quota check_limits check_limit lookup str_eq
staged_fits = rw staged-text refl

none_other : NoCollision disk lawful toy (data_of disk lawful toy 9 up_id staged) staged
none_other d e = ground (
  arith,
  e,
  nothing_stored (toy.hexdigest (data_of disk lawful toy 9 up_id staged))
      (toy.hexdigest-IsDigest (data_of disk lawful toy 9 up_id staged)),
)

seen-complete_example :
    let (r, w') = complete disk toy 9 up_id none staged in
    (r ≡ ok (completed_as disk lawful toy 9 up_id (data_of disk lawful toy 9 up_id staged) staged))
    × ((s : Str)
        → seen disk lawful w' s ≡ (
            if is_target acme (some note) s
            then some (data_of disk lawful toy 9 up_id staged)
            else seen disk lawful staged s))
seen-complete_example =
    seen-complete disk lawful toy 9 up_id pending staged is_pending refl (λ e. cc staged_parts)
      staged_fits staged-IsCounted staged-IsStored none_other

write_part-write_part_sync_example :
    write_part toy up_id (pos 3) (codes "a" ∷ codes "b" ∷ []) staged
    ≡ write_part_sync toy up_id (pos 3) (codes "ab") staged
unfolding lookup str_eq nat_eq
write_part-write_part_sync_example =
    write_part-write_part_sync toy up_id (pos 3) (codes "a" ∷ codes "b" ∷ []) staged
