-- ===== src/Tests/Requests.antt =====
-- Tokens, shares, parts and requests.
use my_test_bot_repo.Prelude.{
  Str, Bytes, true, false, none, some, [], ◌∷◌, ◌++◌, ◌≡◌, refl, arith, codes, str_eq, pair_eq,
  path_eq, nat_eq, leb, if◌then◌else◌,
}
use my_test_bot_repo.Prelude.Int.{pos}
use my_test_bot_repo.Prelude.Table.{lookup, NodupKeys}
use my_test_bot_repo.Text.{strip, lower, starts_with, contains, split, after_first, stripped}
use my_test_bot_repo.Result.{ok}
use my_test_bot_repo.Http.{done}
use my_test_bot_repo.Db.{Ref, Share}
use my_test_bot_repo.App.{World}
use my_test_bot_repo.Storage.Local.Path.{resolve, dot_dot}
use my_test_bot_repo.Core.Paths.{tpath, default_tenant}
use my_test_bot_repo.Core.Refs.{resolve_ref, delete_ref}
use my_test_bot_repo.Core.Shares.{expiry, create_share, resolve_share}
use my_test_bot_repo.Core.Shares.Laws.{past, resolve_share-create_share, resolve_share-delete_ref}
use my_test_bot_repo.Core.Tenants.{find_tenant, has_token, tenant_for_token}
use my_test_bot_repo.Uploads.Names.{part_name, leb_str}
use my_test_bot_repo.Uploads.Names.Order.{leb_str-part_name}
use my_test_bot_repo.Uploads.Merge.{start, merge_parts}
use my_test_bot_repo.Uploads.Merge.Laws.{fed, concat_parts, merge_parts-fed}
use my_test_bot_repo.Auth.{Env, load_tokens, is_valid, is_bearer, bearer_token, require_auth, is_on}
use my_test_bot_repo.Api.{
  reply, error, content, Server, put_blob_handler, put_ref_handler, delete_ref_handler,
  create_share_handler, gc_handler, upload_create_handler, upload_part_handler,
  upload_complete_handler, upload_abort_handler, get_blob_handler,
}
use my_test_bot_repo.Api.Laws.{unauthorized_writes-Refused, get_blob_handler-sibling}
use my_test_bot_repo.Api.Tenancy.{maybe_auth, resolve_tenant}
use my_test_bot_repo.Api.Tenancy.Laws.{read_tenant_lost}
use my_test_bot_repo.Core.Refs.{put_ref}
use my_test_bot_repo.Core.Shares.Laws.{not_of}
use my_test_bot_repo.Tests.Data.{toy, toy_digest, root, disk, empty_db, fresh, acme, managed}

abbrev note : Str
note = codes "a.md"

abbrev text : Bytes
text = codes "hi"

leb_str-part_name_example : leb_str (part_name 9) (part_name 10) ≡ leb 9 10
leb_str-part_name_example = leb_str-part_name 9 10 (omega arith) (omega arith)

merge_parts-fed_example :
    merge_parts 1
      ((codes "00000001.part", codes "hi") ∷ (codes "00000002.part", codes "ho") ∷ [])
      start
    ≡ fed start (
        concat_parts
          ((codes "00000001.part", codes "hi") ∷ (codes "00000002.part", codes "ho") ∷ []))
merge_parts-fed_example =
    merge_parts-fed 1
      ((codes "00000001.part", codes "hi") ∷ (codes "00000002.part", codes "ho") ∷ []) start
      (omega arith)

-- One ref and one share of it, as rows.
abbrev ref : Ref
ref = record { hash = toy_digest text; tenant_id = acme; created_at = 7; updated_at = 7 }

abbrev share : Share
share = record { ref_path = tpath acme note; expires_at = none; created_at = 7 }

abbrev shared : World disk.State
shared = record fresh {
  db = record empty_db { refs = (tpath acme note, ref) ∷ []; shares = (codes "s1", share) ∷ [] };
}

has_ref : lookup (tpath acme note) shared.db.refs ≡ some ref
unfolding lookup
has_ref = ground arith

has_share : lookup (codes "s1") shared.db.shares ≡ some share
unfolding lookup
has_share = ground arith

shared-NodupKeys : NodupKeys shared.db.shares
unfolding lookup
shared-NodupKeys = ground arith

in_a_minute : expiry 7 (some (pos 60)) ≡ ok (some 60000007)
unfolding expiry
in_a_minute = refl

made : (create_share disk 7 (codes "s2") note (some (pos 60)) acme shared).0 ≡ ok (codes "s2")
unfolding create_share lookup
made = ground (arith, in_a_minute, has_ref)

resolve_share-create_share_example :
    (codes "s2" ≡ codes "s2")
    × ((resolve_share disk 9
          (codes "s2")
          (create_share disk 7 (codes "s2") note (some (pos 60)) acme shared).1).0
        ≡ (if past 9 (some 60000007) then ok none else (resolve_ref disk note acme shared).0))
resolve_share-create_share_example =
    resolve_share-create_share disk 7 9 (codes "s2") note acme (some (pos 60)) shared in_a_minute
      made

resolve_share-delete_ref_example :
    let after = (delete_ref disk note acme shared).1 in
    (lookup (codes "s2") after.db.shares
      ≡ not_of (tpath acme note) (lookup (codes "s2") shared.db.shares))
    × ((resolve_share disk 9 (codes "s1") after).0 ≡ ok none)
    × ((resolve_share disk 9 (codes "s1") (put_ref disk toy 8 note text acme after).1).0 ≡ ok none)
resolve_share-delete_ref_example =
    resolve_share-delete_ref disk toy note acme ref shared shared-NodupKeys has_ref (codes "s1")
      (codes "s2") share has_share refl 8 9 text

abbrev key : Str
key = codes "sk_acme"

managed-NodupKeys : NodupKeys managed.db.tenants
unfolding lookup
managed-NodupKeys = ground arith

acme_found : tenant_for_token key managed.db ≡ some acme
unfolding tenant_for_token find_tenant has_token contains stripped strip split nat_eq str_eq
acme_found = refl

-- An environment with one token, in which reads want authorization too.
abbrev env : Env
env = record { api_tokens = codes "sk_root"; require_auth_read = codes "1" }

abbrev header : Str
header = codes "Bearer sk_root"

let_in : require_auth env none (some header) ≡ done (codes "sk_root")
unfolding require_auth load_tokens is_bearer bearer_token contains stripped strip split lower
    starts_with after_first nat_eq str_eq
let_in = refl

reads_closed : is_on env.require_auth_read ≡ true
unfolding is_on contains lower str_eq
reads_closed = refl

read_let_in : maybe_auth env (some header) ≡ done (some (codes "sk_root"))
unfolding maybe_auth is_on require_auth load_tokens is_bearer bearer_token contains stripped strip
    split lower starts_with after_first nat_eq str_eq
read_let_in = refl

not_a_header : is_bearer (some (bearer_token (some header))) ≡ false
unfolding is_bearer bearer_token strip lower starts_with after_first nat_eq
not_a_header = refl

read_tenant_lost_example : resolve_tenant (some (codes "sk_root")) managed.db ≡ default_tenant
read_tenant_lost_example =
    read_tenant_lost env (some header) (some (codes "sk_root")) managed.db reads_closed read_let_in
      not_a_header

abbrev server : Server disk.State
server = record { world = managed; counters = [] }

no_header :
    is_bearer none ≡ true
    → is_valid env (some (λ t. tenant_for_token t managed.db)) (bearer_token none) ≡ false
unfolding is_bearer
no_header e = cc

unauthorized_writes-Refused_example :
    (put_blob_handler disk toy env none 7 text server ≡ (error 401, server))
    × (put_ref_handler disk toy env none 7 note text server ≡ (error 401, server))
    × (delete_ref_handler disk toy env none note server ≡ (error 401, server))
    × (create_share_handler disk toy env none 7 (codes "s") note none server ≡ (error 401, server))
    × (gc_handler disk toy env none server ≡ (error 401, server))
    × (upload_create_handler disk toy env none 7 (codes "u") none server ≡ (error 401, server))
    × (upload_part_handler disk toy env none (codes "u") (pos 1) (text ∷ []) server
        ≡ (error 401, server))
    × (upload_complete_handler disk toy env none 7 (codes "u") server ≡ (error 401, server))
    × (upload_abort_handler disk toy env none (codes "u") server ≡ (error 401, server))
unauthorized_writes-Refused_example =
    unauthorized_writes-Refused disk toy env none server 7 note (codes "s") (codes "u") text
      (text ∷ []) none none (pos 1) no_header

-- A server that anyone may read from, with a file in its data directory.
abbrev open_env : Env
open_env = record { api_tokens = codes "sk_root"; require_auth_read = [] }

abbrev exposed : Server disk.State
exposed = record {
  world = record fresh { store = (codes "clawfs.db" ∷ resolve root, codes "rows") ∷ [] };
  counters = [];
}

reads_open : is_on open_env.require_auth_read ≡ false
unfolding is_on contains lower str_eq
reads_open = refl

file_there : lookup (codes "clawfs.db" ∷ resolve root) exposed.world.store ≡ some (codes "rows")
unfolding lookup
file_there = ground arith

get_blob_handler-sibling_example :
    (get_blob_handler disk toy open_env none (dot_dot ++ codes "clawfs.db") exposed).0
    ≡ reply (content (codes "rows"))
get_blob_handler-sibling_example =
    get_blob_handler-sibling root toy open_env (codes "clawfs.db") (codes "rows") exposed reads_open
      (omega arith) (λ e. cc) (λ e. cc) (λ e. cc) file_there
