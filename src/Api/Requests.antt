-- ===== src/Api/Requests.antt =====
-- clawfs/api.py `create_app`: the routes of the server, and the servers that requests lead to.
pub mod Frame
pub mod Kept
pub mod Keeps
pub mod Metered
pub mod Counters
pub mod Listed
use my_test_bot_repo.Prelude.{ℕ, Str, Bytes, Bool, Option, List}
use my_test_bot_repo.Prelude.Int.{ℤ}
use my_test_bot_repo.Storage.{Storage, Hasher}
use my_test_bot_repo.Auth.{Env}
use my_test_bot_repo.Api.{
  Response, Server, put_blob_handler, put_ref_handler, delete_ref_handler, create_share_handler,
  gc_handler, upload_create_handler, upload_part_handler, upload_complete_handler,
  upload_abort_handler, get_blob_handler, get_ref_handler, list_refs_handler, usage_handler,
  resolve_share_handler, healthz_handler, metrics_handler,
}

-- By the names of the counters. Those that create a share or an upload carry the token that is
-- drawn, and the last two the server's uptime.
pub data Request : Type 0 where
  blob_put : Bytes → Request
  ref_put : Str → Bytes → Request
  ref_del : Str → Request
  share_create : Str → Str → Option ℤ → Request
  gc_run : Request
  upload_create : Str → Option Str → Request
  upload_part : Str → ℤ → List Bytes → Request
  upload_complete : Str → Request
  upload_abort : Str → Request
  blob_get : Str → Request
  ref_get : Str → Request
  ref_list : Str → Request
  share_resolve : Str → Request
  usage_get : Request
  healthz : ℕ → Request
  metrics : ℕ → Request

module _ (S : Storage) (H : Hasher) (like : Str → Str → Bool) (env : Env) where
  -- A request, with its time and its `Authorization` header.
  unfoldable pub serve : ℕ → Option Str → Request → Server S.State → Response × Server S.State
  serve now header (blob_put bytes) = put_blob_handler S H env header now bytes
  serve now header (ref_put path bytes) = put_ref_handler S H env header now path bytes
  serve now header (ref_del path) = delete_ref_handler S H env header path
  serve now header (share_create token path ttl) =
      create_share_handler S H env header now token path ttl
  serve now header gc_run = gc_handler S H env header
  serve now header (upload_create id target) = upload_create_handler S H env header now id target
  serve now header (upload_part id n chunks) = upload_part_handler S H env header id n chunks
  serve now header (upload_complete id) = upload_complete_handler S H env header now id
  serve now header (upload_abort id) = upload_abort_handler S H env header id
  serve now header (blob_get hash_hex) = get_blob_handler S H env header hash_hex
  serve now header (ref_get path) = get_ref_handler S H env header path
  serve now header (ref_list prefix) = list_refs_handler S H env header like prefix
  serve now header (share_resolve token) = resolve_share_handler S now token
  serve now header usage_get = usage_handler S H env header
  serve now header (healthz uptime) = healthz_handler uptime
  serve now header (metrics uptime) = metrics_handler uptime

  -- The servers that requests, one after another, lead to.
  pub data Reached (from : Server S.State) : Server S.State → Type 0 where
    here : Reached from from
    after :
        {server : Server S.State}
        → Reached from server
        → (now : ℕ) (header : Option Str) (request : Request)
        → Reached from (serve now header request server).1
