-- ===== src/Api/Requests/Kept.antt =====
-- What requests keep: a predicate on worlds that the methods keep is kept by every request.
use my_test_bot_repo.Prelude.{ℕ, Str, Bool, Option, none, some, str_eq, ◌≡◌, refl}
use my_test_bot_repo.App.{World}
use my_test_bot_repo.Http.{Http, done, http_error}
use my_test_bot_repo.Storage.{Storage, Hasher}
use my_test_bot_repo.Auth.{Env, require_auth}
use my_test_bot_repo.Core.Tenants.{tenant_for_token}
use my_test_bot_repo.Core.Blobs.{put_blob, get_blob}
use my_test_bot_repo.Core.Refs.{put_ref, delete_ref}
use my_test_bot_repo.Core.Gc.{gc}
use my_test_bot_repo.Uploads.Complete.{complete}
use my_test_bot_repo.Prelude.{Bytes}
use my_test_bot_repo.Api.Tenancy.{maybe_auth}
use my_test_bot_repo.Api.{
  Response, Server, protected, optional, tenant, put_blob_handler, put_ref_handler,
  delete_ref_handler, create_share_handler, gc_handler, upload_create_handler, upload_part_handler,
  upload_complete_handler, upload_abort_handler, get_blob_handler, get_ref_handler,
  list_refs_handler, usage_handler, resolve_share_handler, healthz_handler, metrics_handler,
}
use my_test_bot_repo.Api.Requests.{
  Request, blob_put, ref_put, ref_del, share_create, gc_run, upload_create, upload_part,
  upload_complete, upload_abort, blob_get, ref_get, ref_list, share_resolve, usage_get, healthz,
  metrics, serve,
}
use my_test_bot_repo.Api.Requests.Frame.{
  SameData, create_share-SameData, resolve_share-SameData, resolve_ref-SameData, create-SameData,
  abort-SameData, write_part-SameData,
}

module _ (S : Storage) (H : Hasher) where
  -- Each method keeps the predicate, and so does what touches neither data nor accounts.
  pub record IsKept (P : World S.State → Type 0) : Type 0 where
    pub on_put_blob :
        (now : ℕ) (bytes : Bytes) (t : Str) (w : World S.State)
        → P w
        → P (put_blob S H now bytes t w).1
    pub on_put_ref :
        (now : ℕ) (path : Str) (bytes : Bytes) (t : Str) (w : World S.State)
        → P w
        → P (put_ref S H now path bytes t w).1
    pub on_delete_ref : (path t : Str) (w : World S.State) → P w → P (delete_ref S path t w).1
    pub on_gc : (scope : Option Str) (w : World S.State) → P w → P (gc S scope w).1
    pub on_complete :
        (now : ℕ) (id : Str) (w : World S.State) → P w → P (complete S H now id none w).1
    pub on_same : (w' w : World S.State) → SameData w' w → P w → P w'

  module _ (P : World S.State → Type 0) (env : Env) (header : Option Str)
      (server : Server S.State) where
    -- A refused request leaves the world as it was.
    protected_keeps :
        (handler : Server S.State → Response × Server S.State)
        → P server.world
        → P (handler server).1.world
        → P (protected env header handler server).1.world
    unfolding protected
    protected_keeps handler v kept =
        go (require_auth env (some (λ t. tenant_for_token t server.world.db)) header) refl
      where
        go :
            (o : Http Str)
            → require_auth env (some (λ t. tenant_for_token t server.world.db)) header ≡ o
            → P (protected env header handler server).1.world
        go (done token) e = rw (protected, e) kept
        go (http_error status detail) e = rw (protected, e) v

    optional_keeps :
        (handler : Option Str → Server S.State → Response × Server S.State)
        → P server.world
        → ((authorization : Option Str) → P (handler authorization server).1.world)
        → P (optional env header handler server).1.world
    unfolding optional
    optional_keeps handler v kept = go (maybe_auth env header) refl
      where
        go :
            (o : Http (Option Str))
            → maybe_auth env header ≡ o
            → P (optional env header handler server).1.world
        go (done authorization) e = rw (optional, e) (kept authorization)
        go (http_error status detail) e = rw (optional, e) v

    -- Every request keeps what the methods keep, whether it is served or refused.
    pub serve_keeps :
        (like : Str → Str → Bool)
        → IsKept P
        → (now : ℕ) (request : Request) → P server.world
        → P (serve S H like env now header request server).1.world
    unfolding serve put_blob_handler put_ref_handler delete_ref_handler create_share_handler
        gc_handler upload_create_handler upload_part_handler upload_complete_handler
        upload_abort_handler get_blob_handler get_ref_handler list_refs_handler usage_handler
        resolve_share_handler healthz_handler metrics_handler get_blob
    serve_keeps like k now (blob_put bytes) v =
        protected_keeps _ v (k.on_put_blob now bytes _ server.world v)
    serve_keeps like k now (ref_put path bytes) v =
        protected_keeps _ v (k.on_put_ref now path bytes _ server.world v)
    serve_keeps like k now (ref_del path) v =
        protected_keeps _ v (k.on_delete_ref path _ server.world v)
    serve_keeps like k now (share_create token path ttl) v =
        protected_keeps _ v
          (k.on_same _ _ (create_share-SameData S now token path ttl _ server.world) v)
    serve_keeps like k now gc_run v = protected_keeps _ v (k.on_gc _ server.world v)
    serve_keeps like k now (upload_create id target) v =
        protected_keeps _ v (k.on_same _ _ (create-SameData S now id _ target server.world) v)
    serve_keeps like k now (upload_part id n chunks) v =
        protected_keeps _ v (k.on_same _ _ (write_part-SameData S H id n chunks server.world) v)
    serve_keeps like k now (upload_complete id) v =
        protected_keeps _ v (k.on_complete now id server.world v)
    serve_keeps like k now (upload_abort id) v =
        protected_keeps _ v (k.on_same _ _ (abort-SameData S id server.world) v)
    serve_keeps like k now (blob_get hash_hex) v = optional_keeps _ v (λ authorization. v)
    serve_keeps like k now (ref_get path) v = optional_keeps _ v (λ authorization.
        k.on_same _ _ (resolve_ref-SameData S path (tenant authorization server) server.world) v)
    serve_keeps like k now (ref_list prefix) v = optional_keeps _ v (λ authorization. v)
    serve_keeps like k now (share_resolve token) v =
        k.on_same _ _ (resolve_share-SameData S now token server.world) v
    serve_keeps like k now usage_get v = protected_keeps _ v v
    serve_keeps like k now (healthz uptime) v = v
    serve_keeps like k now (metrics uptime) v = v
