-- ===== src/Tests/Files.antt =====
-- Refs, blobs, shares and uploads on a local disk.
use my_test_bot_repo.Prelude.{
  Str, Bytes, Bool, none, some, length, ◌≡◌, refl, arith, codes, is_some, str_eq, path_eq, pair_eq,
  nat_eq, ◌==◌, if◌then◌else◌,
}
use my_test_bot_repo.Prelude.Table.{lookup}
use my_test_bot_repo.Result.{ok}
use my_test_bot_repo.App.{World}
use my_test_bot_repo.Storage.{IsLawful}
use my_test_bot_repo.Storage.Local.{local_storage}
use my_test_bot_repo.Storage.Local.Laws.{local_storage-IsLawful}
use my_test_bot_repo.Core.Paths.{tpath}
use my_test_bot_repo.Core.Paths.Laws.{tpath-injective}
use my_test_bot_repo.Core.Quota.{enforce_quota}
use my_test_bot_repo.Core.Refs.{put_ref, resolve_ref, delete_ref}
use my_test_bot_repo.Core.Gc.{gc}
use my_test_bot_repo.Core.Refcount.{IsCounted}
use my_test_bot_repo.Core.Refcount.Keeps.{put_ref-IsCounted}
use my_test_bot_repo.Core.Contents.{IsStored}
use my_test_bot_repo.Core.Contents.Keeps.{put_ref-IsStored}
use my_test_bot_repo.Core.Contents.Reads.{seen}
use my_test_bot_repo.Core.Contents.Refinement.{NoCollision, seen-put_ref, seen-delete_ref, seen-gc}
use my_test_bot_repo.Core.Contents.Isolation.{resolve_ref-put_ref, resolve_ref-put_ref_other}
use my_test_bot_repo.Prelude.Table.{insert, sum}
use my_test_bot_repo.Db.{Ref}
use my_test_bot_repo.Db.Rows.{update}
use my_test_bot_repo.Core.Quota.{link_inc}
use my_test_bot_repo.Core.Blobs.{put_blob, bump}
use my_test_bot_repo.Core.Refs.{bind_ref}
use my_test_bot_repo.Core.Refcount.{count_refs}
use my_test_bot_repo.Core.Contents.Reclaimed.{gc-delete_ref}
use my_test_bot_repo.Storage.Local.{exists}
use my_test_bot_repo.Prelude.{true}
use my_test_bot_repo.Result.{err, is_ok, file_not_found}
use my_test_bot_repo.Core.Refs.{bind_session}
use my_test_bot_repo.Core.Contents.Race.{put_ref-gc_between}
use my_test_bot_repo.Tests.Data.{
  toy, toy_digest-IsDigest, root, disk, lawful, fresh, fresh-IsCounted, fresh-IsStored,
  nothing_stored,
}

abbrev alice : Str
alice = codes "alice"

abbrev bob : Str
bob = codes "bob"

abbrev note : Str
note = codes "n/a.md"

abbrev text : Bytes
text = codes "hi"

no_limits : enforce_quota alice (toy.hexdigest text) (length text) fresh.db ≡ ok tt
unfolding enforce_quota lookup
no_limits = refl

no_others : NoCollision disk lawful toy text fresh
no_others d e = ground (arith, e, nothing_stored (toy.hexdigest text) (toy_digest-IsDigest text))

-- Alice's file system after one put.
abbrev written : World disk.State
written = (put_ref disk toy 7 note text alice fresh).1

written-IsCounted : IsCounted written.db
written-IsCounted = put_ref-IsCounted disk toy 7 note text alice fresh fresh-IsCounted

written-IsStored : IsStored disk lawful toy written
written-IsStored = put_ref-IsStored disk lawful toy 7 note text alice fresh fresh-IsStored

seen-put_ref_example :
    ((created : Bool) × ((put_ref disk toy 7 note text alice fresh).0
        ≡ ok (toy.hexdigest text, created)))
    × ((s : Str)
        → seen disk lawful written s
          ≡ (if s == tpath alice note then some text else seen disk lawful fresh s))
seen-put_ref_example =
    seen-put_ref disk lawful toy 7 note text alice fresh fresh-IsCounted fresh-IsStored no_limits
      no_others

resolve_ref-put_ref_example : (resolve_ref disk note alice written).0 ≡ ok (some text)
resolve_ref-put_ref_example =
    resolve_ref-put_ref disk lawful toy 7 note text alice fresh fresh-IsCounted fresh-IsStored
      no_limits no_others

resolve_ref-put_ref_other_example :
    (resolve_ref disk note bob written).0 ≡ (resolve_ref disk note bob fresh).0
resolve_ref-put_ref_other_example =
    resolve_ref-put_ref_other disk lawful toy 7 note text alice fresh bob note (omega arith)
      (omega arith) (λ e. cc) fresh-IsCounted fresh-IsStored no_others

seen-delete_ref_example :
    let (r, w') = delete_ref disk note alice written in
    (r ≡ ok (is_some (seen disk lawful written (tpath alice note))))
    × ((s : Str)
        → seen disk lawful w' s
          ≡ (if s == tpath alice note then none else seen disk lawful written s))
seen-delete_ref_example =
    seen-delete_ref disk lawful toy note alice written written-IsCounted written-IsStored

seen-gc_example :
    seen disk lawful (gc disk none written).1 (tpath alice note)
    ≡ seen disk lawful written (tpath alice note)
seen-gc_example =
    seen-gc disk lawful toy none written (tpath alice note) written-IsCounted written-IsStored

put_ref-IsCounted_example : IsCounted (put_ref disk toy 9 note (codes "bye") alice written).1.db
put_ref-IsCounted_example =
    put_ref-IsCounted disk toy 9 note (codes "bye") alice written written-IsCounted

local_storage-IsLawful_example : IsLawful (local_storage root)
local_storage-IsLawful_example = local_storage-IsLawful root

tpath-injective_example : (alice ≡ alice) × (note ≡ note)
tpath-injective_example = tpath-injective alice alice note note (omega arith) (omega arith) refl

abbrev note_ref : Ref
note_ref = record { hash = toy.hexdigest text; tenant_id = alice; created_at = 7; updated_at = 7 }

note_there : lookup (tpath alice note) written.db.refs ≡ some note_ref
unfolding put_ref put_blob bind_ref enforce_quota link_inc update lookup insert bump exists tpath
    str_eq path_eq pair_eq nat_eq
note_there = refl

named_once : count_refs (toy.hexdigest text) written.db.refs ≡ 1
unfolding put_ref put_blob bind_ref enforce_quota link_inc update lookup insert bump exists tpath
    sum str_eq path_eq pair_eq nat_eq
named_once = refl

gc-delete_ref_example :
    let w' = (gc disk none (delete_ref disk note alice written).1).1 in
    (lookup (toy.hexdigest text) w'.db.blobs ≡ none)
    × (lawful.contents w'.store (toy.hexdigest text) ≡ none)
gc-delete_ref_example =
    gc-delete_ref disk lawful toy note alice note_ref written written-IsCounted written-IsStored
      note_there named_once

unnamed : count_refs (toy.hexdigest text) fresh.db.refs ≡ 0
unfolding sum
unnamed = refl

put_ref-gc_between_example :
    let (put, w₁) = put_blob disk toy 7 text alice fresh in
    let w₂ = (gc disk none w₁).1 in
    let (bound, w₃) = bind_session 7 alice note (toy.hexdigest text) w₂ in
    (put ≡ ok (toy.hexdigest text))
    × (is_ok bound ≡ true)
    × ((resolve_ref disk note alice w₃).0 ≡ err file_not_found)
put_ref-gc_between_example =
    put_ref-gc_between disk lawful toy 7 note text alice fresh fresh-IsCounted fresh-IsStored
      no_limits unnamed
