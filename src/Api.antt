-- ===== src/Api.antt =====
-- clawfs/api.py: the handlers that `create_app` registers, over a request's header and arguments.
-- The details of errors are left out.
pub mod Metrics
pub mod Tenancy
pub mod Laws
pub mod Requests
use my_test_bot_repo.Prelude.{
  ℕ, suc, ◌+◌, Str, Bytes, Bool, true, false, Option, none, some, List, [], ◌∷◌, ◌==◌, str_eq,
  if◌then◌else◌, codes, get_or,
}
use my_test_bot_repo.Prelude.Int.{ℤ}
use my_test_bot_repo.Prelude.Table.{Table, insert, lookup}
use my_test_bot_repo.Result.{
  Kind, Error, Result, ok, err, quota_exceeded, no_such_ref, file_not_found, value_error,
}
use my_test_bot_repo.Db.{Db, Ref}
use my_test_bot_repo.App.{World, App, gets}
use my_test_bot_repo.Storage.{Storage, Hasher}
use my_test_bot_repo.Http.{Http, done, http_error}
use my_test_bot_repo.Auth.{Env, TokenCheck, require_auth}
use my_test_bot_repo.Core.Paths.{default_tenant}
use my_test_bot_repo.Core.Tenants.{tenant_for_token}
use my_test_bot_repo.Core.Quota.{Usage, get_usage}
use my_test_bot_repo.Core.Blobs.{put_blob, get_blob}
use my_test_bot_repo.Core.Refs.{put_ref, resolve_ref, list_refs, delete_ref}
use my_test_bot_repo.Core.Gc.{gc}
use my_test_bot_repo.Core.Shares.{create_share, resolve_share}
use my_test_bot_repo.Uploads.{create, abort, write_part}
use my_test_bot_repo.Uploads.Complete.{CompletedUpload, complete}
use Tenancy.{resolve_tenant, maybe_auth}
use Metrics.{metrics_text}

-- What the handlers return, by the keys of the answer.
pub data Body : Type 0 where
  hash_body : Str → Body
  ref_body : Str → Str → Bool → Body
  deleted_body : Str → Body
  share_body : Str → Body
  removed_body : ℕ → Body
  upload_body : Str → Str → Option Str → Body
  part_body : ℤ → ℕ → Str → Body
  completed_body : CompletedUpload → Body
  content : Bytes → Body
  listing : List (Str × Ref) → Body
  usage_body : Usage → Body
  health_body : ℕ → Body
  text_body : Str → Body

pub data Response : Type 0 where
  reply : Body → Response
  -- An `HTTPException`, or 500 for an exception that nothing catches.
  error : ℕ → Response
  -- The answer 413 of `_quota_handler`.
  quota : Kind → ℕ → ℤ → Response

pub record Server (S : Type 0) : Type 0 where
  pub world : World S
  pub counters : Table Str ℕ

-- An exception that the handler lets through.
abbrev pub uncaught : Error → Response
uncaught (quota_exceeded kind used limit) = quota kind used limit
uncaught _ = error 500

-- `except FileNotFoundError`, and for uploads `except ValueError` too.
abbrev pub missing : Error → Response
missing file_not_found = error 404
missing e = uncaught e

abbrev pub bad_upload : Error → Response
bad_upload value_error = error 400
bad_upload e = missing e

abbrev pub bad_share : Error → Response
bad_share (no_such_ref path) = error 404
bad_share e = uncaught e

-- `if data is None: raise HTTPException(404, ...)`
abbrev pub found : Option Bytes → Response
found none = error 404
found (some bytes) = reply (content bytes)

abbrev pub deleted : Str → Bool → Response
deleted name true = reply (deleted_body name)
deleted name false = error 404

abbrev answer : {A : Type 0} → (A → Response) → (Error → Response) → Result A → Response
answer f g (ok a) = f a
answer f g (err e) = g e

module _ {S : Type 0} where
  -- `counters[op] += 1`
  abbrev count : Str → Server S → Server S
  count op server = record server {
    counters = insert op (get_or (lookup op server.counters) 0 + 1) server.counters;
  }

  -- The body of a handler: a call, and what is made of its result or exception.
  abbrev pub call :
      {A : Type 0}
      → Str
      → App S A
      → (A → Response)
      → (Error → Response)
      → Server S
      → Response × Server S
  call op m f g server =
      let counted = count op server in
      let (r, w) = m counted.world in (answer f g r, record counted { world = w })

  -- `dependencies=[Depends(require_auth)]`, with the check that `create_app` installs
  unfoldable pub protected :
      Env → Option Str → (Server S → Response × Server S) → Server S → Response × Server S
  protected env header handler server =
      elim (require_auth env (some (λ token. tenant_for_token token server.world.db)) header) [
        | done token ↦ handler server
        | http_error status detail ↦ (error status, server)
      ]

  -- `Depends(_maybe_auth)`: the handler is given what it returns.
  unfoldable pub optional :
      Env
      → Option Str
      → (Option Str → Server S → Response × Server S)
      → Server S
      → Response × Server S
  optional env header handler server = elim (maybe_auth env header) [
    | done authorization ↦ handler authorization server
    | http_error status detail ↦ (error status, server)
  ]

  -- `_resolve_tenant(fs, authorization)`
  abbrev pub tenant : Option Str → Server S → Str
  tenant authorization server = resolve_tenant authorization server.world.db

-- `scope = None if tid == DEFAULT_TENANT else tid`
abbrev pub gc_scope : Str → Option Str
gc_scope tid = if tid == default_tenant then none else some tid

module _ (S : Storage) (H : Hasher) (env : Env) (header : Option Str) where
  unfoldable pub put_blob_handler : ℕ → Bytes → Server S.State → Response × Server S.State
  put_blob_handler now bytes = protected env header λ server.
      call (codes "blob_put") (put_blob S H now bytes (tenant header server))
        (λ h. reply (hash_body h)) uncaught server

  unfoldable pub put_ref_handler : ℕ → Str → Bytes → Server S.State → Response × Server S.State
  put_ref_handler now path bytes = protected env header λ server.
      call (codes "ref_put") (put_ref S H now path bytes (tenant header server))
        (λ (h, created). reply (ref_body path h created)) uncaught server

  unfoldable pub delete_ref_handler : Str → Server S.State → Response × Server S.State
  delete_ref_handler path = protected env header λ server.
      call (codes "ref_del") (delete_ref S path (tenant header server)) (deleted path) uncaught
        server

  unfoldable pub create_share_handler :
      ℕ → Str → Str → Option ℤ → Server S.State → Response × Server S.State
  create_share_handler now token ref_path ttl = protected env header λ server.
      call (codes "share_create") (create_share S now token ref_path ttl (tenant header server))
        (λ t. reply (share_body t)) bad_share server

  unfoldable pub gc_handler : Server S.State → Response × Server S.State
  gc_handler = protected env header λ server.
      call (codes "gc_run") (gc S (gc_scope (tenant header server))) (λ n. reply (removed_body n))
        uncaught server

  unfoldable pub upload_create_handler :
      ℕ → Str → Option Str → Server S.State → Response × Server S.State
  upload_create_handler now upload_id target_ref = protected env header λ server.
      let tid = tenant header server in
      call (codes "upload_create") (create now upload_id tid target_ref)
        (λ id. reply (upload_body id tid target_ref)) uncaught server

  unfoldable pub upload_part_handler :
      Str → ℤ → List Bytes → Server S.State → Response × Server S.State
  upload_part_handler upload_id part_number chunks = protected env header λ server.
      call (codes "upload_part") (write_part H upload_id part_number chunks)
        (λ (size, etag). reply (part_body part_number size etag)) bad_upload server

  unfoldable pub upload_complete_handler : ℕ → Str → Server S.State → Response × Server S.State
  upload_complete_handler now upload_id = protected env header λ server.
      call (codes "upload_complete") (complete S H now upload_id none)
        (λ res. reply (completed_body res)) bad_upload server

  unfoldable pub upload_abort_handler : Str → Server S.State → Response × Server S.State
  upload_abort_handler upload_id =
      protected env header
        λ server. call (codes "upload_abort") (abort upload_id) (deleted upload_id) uncaught server

  unfoldable pub get_blob_handler : Str → Server S.State → Response × Server S.State
  get_blob_handler hash_hex = optional env header λ _ server.
      call (codes "blob_get") (get_blob S H hash_hex) (λ bytes. reply (content bytes)) missing
        server

  unfoldable pub get_ref_handler : Str → Server S.State → Response × Server S.State
  get_ref_handler path = optional env header λ authorization server.
      call (codes "ref_get") (resolve_ref S path (tenant authorization server)) found uncaught
        server

  unfoldable pub list_refs_handler :
      (Str → Str → Bool) → Str → Server S.State → Response × Server S.State
  list_refs_handler like prefix = optional env header λ authorization server.
      call (codes "ref_list") (gets (list_refs like prefix (tenant authorization server)))
        (λ rows. reply (listing rows)) uncaught server

  unfoldable pub usage_handler : Server S.State → Response × Server S.State
  usage_handler =
      protected env header
        λ server. (reply (usage_body (get_usage (tenant header server) server.world.db)), server)

-- Shares are read with no authorization.
unfoldable pub resolve_share_handler :
    (S : Storage) → ℕ → Str → Server S.State → Response × Server S.State
resolve_share_handler S now token =
    call (codes "share_resolve") (resolve_share S now token) found uncaught

-- The uptime in whole seconds is an argument.
unfoldable pub healthz_handler : {S : Type 0} → ℕ → Server S → Response × Server S
healthz_handler uptime server = (reply (health_body uptime), server)

unfoldable pub metrics_handler : {S : Type 0} → ℕ → Server S → Response × Server S
metrics_handler uptime server = (reply (text_body (metrics_text uptime server.counters)), server)
