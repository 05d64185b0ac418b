-- ===== src/Api/Laws.antt =====
-- What the handlers guarantee.
use my_test_bot_repo.Prelude.{
  ℕ, Str, Bytes, true, false, Option, none, some, List, [], ◌∷◌, ◌≡◌, ◌≢◌, ◌++◌, arith, path_eq,
}
use my_test_bot_repo.Prelude.Int.{ℤ}
use my_test_bot_repo.Prelude.Table.{lookup}
use my_test_bot_repo.Text.Laws.{NoSlash}
use my_test_bot_repo.Http.{http_error}
use my_test_bot_repo.Auth.{Env, is_valid, is_bearer, is_on, bearer_token, require_auth}
use my_test_bot_repo.Auth.Laws.{require_auth_refused}
use my_test_bot_repo.Storage.{Storage, Hasher}
use my_test_bot_repo.Storage.Local.{local_storage}
use my_test_bot_repo.Storage.Local.Path.{dot_code, dot_dot, resolve}
use my_test_bot_repo.Storage.Local.Traversal.{get-sibling}
use my_test_bot_repo.Core.Blobs.{get_blob}
use my_test_bot_repo.Core.Tenants.{tenant_for_token}
use my_test_bot_repo.Api.Tenancy.{maybe_auth}
use my_test_bot_repo.Api.{
  Response, reply, error, content, Server, protected, put_blob_handler, put_ref_handler,
  delete_ref_handler, create_share_handler, gc_handler, upload_create_handler, upload_part_handler,
  upload_complete_handler, upload_abort_handler, get_blob_handler, optional,
}

module _ (S : Storage) (H : Hasher) (env : Env) (header : Option Str)
    (server : Server S.State) where
  abbrev Refused : Response × Server S.State → Type 0
  Refused r = r ≡ (error 401, server)

  protected-Refused :
      (handler : Server S.State → Response × Server S.State) {detail : Str}
      → require_auth env (some (λ t. tenant_for_token t server.world.db)) header
        ≡ http_error 401 detail
      → Refused (protected env header handler server)
  unfolding protected
  protected-Refused handler refused = ground (arith, refused)

  -- A request with no valid bearer token is answered 401 by every handler that writes, and
  -- changes nothing, not even a counter.
  pub unauthorized_writes-Refused :
      (now : ℕ) (path token id : Str) (bytes : Bytes) (chunks : List Bytes) (target : Option Str)
      (ttl : Option ℤ) (n : ℤ)
      → (is_bearer header ≡ true
          → is_valid env (some (λ t. tenant_for_token t server.world.db)) (bearer_token header)
            ≡ false)
      → Refused (put_blob_handler S H env header now bytes server)
        × Refused (put_ref_handler S H env header now path bytes server)
        × Refused (delete_ref_handler S H env header path server)
        × Refused (create_share_handler S H env header now token path ttl server)
        × Refused (gc_handler S H env header server)
        × Refused (upload_create_handler S H env header now id target server)
        × Refused (upload_part_handler S H env header id n chunks server)
        × Refused (upload_complete_handler S H env header now id server)
        × Refused (upload_abort_handler S H env header id server)
  unfolding put_blob_handler put_ref_handler delete_ref_handler create_share_handler gc_handler
      upload_create_handler upload_part_handler upload_complete_handler upload_abort_handler
  unauthorized_writes-Refused now path token id bytes chunks target ttl n invalid =
      let (detail, refused) =
        require_auth_refused env (some (λ t. tenant_for_token t server.world.db)) header invalid in
      (
        protected-Refused _ refused,
        protected-Refused _ refused,
        protected-Refused _ refused,
        protected-Refused _ refused,
        protected-Refused _ refused,
        protected-Refused _ refused,
        protected-Refused _ refused,
        protected-Refused _ refused,
        protected-Refused _ refused,
      )

-- Over `LocalStorage`, and where reads want no authorization: a request for the blob of two dots
-- and a name, with no header at all, is answered with the contents of the file of that name in the
-- data directory, where there is one.
pub get_blob_handler-sibling :
    (root : List Str) (H : Hasher) (env : Env) (name : Str) (bytes : Bytes)
    (server : Server (local_storage root).State)
    → is_on env.require_auth_read ≡ false
    → NoSlash name
    → name ≢ []
    → name ≢ dot_code ∷ []
    → name ≢ dot_dot
    → lookup (name ∷ resolve root) server.world.store ≡ some bytes
    → (get_blob_handler (local_storage root) H env none (dot_dot ++ name) server).0
      ≡ reply (content bytes)
unfolding get_blob_handler get_blob maybe_auth optional
get_blob_handler-sibling root H env name bytes server off plain ne nd ndd there =
    ground (arith, off, there, get-sibling root name server.world.store plain ne nd ndd)
