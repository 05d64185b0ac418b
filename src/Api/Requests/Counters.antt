-- ===== src/Api/Requests/Counters.antt =====
-- What `/metrics` says of the requests that were served.
use my_test_bot_repo.Prelude.{
  ℕ, ◌+◌, Str, Bool, true, false, Option, none, some, ◌==◌, str_eq, nat_eq, get_or, ◌≡◌, refl, ap,
  ◌∙◌, arith, codes, if◌then◌else◌,
}
use my_test_bot_repo.Prelude.Table.{Table, lookup, insert}
use my_test_bot_repo.Text.{contains}
use my_test_bot_repo.Http.{Http, done, http_error}
use my_test_bot_repo.Storage.{Storage, Hasher}
use my_test_bot_repo.Auth.{Env, require_auth}
use my_test_bot_repo.Core.Tenants.{tenant_for_token}
use my_test_bot_repo.Api.Tenancy.{maybe_auth}
use my_test_bot_repo.Api.Metrics.{operations, tally, initial_counters, metrics_text}
use my_test_bot_repo.Api.Metrics.Laws.{tally_same, insert-tally, operations-Distinct}
use my_test_bot_repo.Prelude.{subst}
use my_test_bot_repo.Text.{split}
use my_test_bot_repo.Api.Metrics.Scrape.{
  read_metric, uptime_name, counter_name, read_uptime, read_operation,
}
use my_test_bot_repo.Api.{
  Response, reply, text_body, Server, protected, optional, put_blob_handler, put_ref_handler,
  delete_ref_handler, create_share_handler, gc_handler, upload_create_handler, upload_part_handler,
  upload_complete_handler, upload_abort_handler, get_blob_handler, get_ref_handler,
  list_refs_handler, usage_handler, resolve_share_handler, healthz_handler, metrics_handler,
}
use my_test_bot_repo.Api.Requests.{
  Request, blob_put, ref_put, ref_del, share_create, gc_run, upload_create, upload_part,
  upload_complete, upload_abort, blob_get, ref_get, ref_list, share_resolve, usage_get, healthz,
  metrics, serve, Reached, here, after,
}

-- The operation that a request counts as.
abbrev pub operation : Request → Option Str
operation (blob_put bytes) = some (codes "blob_put")
operation (ref_put path bytes) = some (codes "ref_put")
operation (ref_del path) = some (codes "ref_del")
operation (share_create token path ttl) = some (codes "share_create")
operation gc_run = some (codes "gc_run")
operation (upload_create id target) = some (codes "upload_create")
operation (upload_part id n chunks) = some (codes "upload_part")
operation (upload_complete id) = some (codes "upload_complete")
operation (upload_abort id) = some (codes "upload_abort")
operation (blob_get hash_hex) = some (codes "blob_get")
operation (ref_get path) = some (codes "ref_get")
operation (ref_list prefix) = some (codes "ref_list")
operation (share_resolve token) = some (codes "share_resolve")
operation usage_get = none
operation (healthz uptime) = none
operation (metrics uptime) = none

-- Blobs and refs are read with `_maybe_auth`, shares with nothing, and the rest with
-- `require_auth`.
abbrev is_read : Request → Bool
is_read (blob_get hash_hex) = true
is_read (ref_get path) = true
is_read (ref_list prefix) = true
is_read _ = false

abbrev is_open : Request → Bool
is_open (share_resolve token) = true
is_open _ = false

abbrev is_done : {A : Type 0} → Http A → Bool
is_done (done a) = true
is_done (http_error status detail) = false

-- Whether a request is let in.
abbrev pub is_let_in : {S : Type 0} → Env → Option Str → Request → Server S → Bool
is_let_in env header request server =
    if is_open request
    then true
    else if is_read request
    then is_done (maybe_auth env header)
    else is_done (require_auth env (some (λ t. tenant_for_token t server.world.db)) header)

-- One for the operation itself, where the request was let in.
abbrev one_if : Option Str → Bool → Str → ℕ
one_if none let_in op = 0
one_if (some o) let_in op = if let_in then (if op == o then 1 else 0) else 0

abbrev raised : Option Str → Bool → Table Str ℕ → Table Str ℕ
raised none let_in t = t
raised (some op) let_in t = if let_in then insert op (get_or (lookup op t) 0 + 1) t else t

abbrev IsOperation : Option Str → Type 0
IsOperation none = Unit
IsOperation (some op) = contains op operations ≡ true

operation-IsOperation : (request : Request) → IsOperation (operation request)
unfolding contains str_eq nat_eq
operation-IsOperation (blob_put bytes) = refl
operation-IsOperation (ref_put path bytes) = refl
operation-IsOperation (ref_del path) = refl
operation-IsOperation (share_create token path ttl) = refl
operation-IsOperation gc_run = refl
operation-IsOperation (upload_create id target) = refl
operation-IsOperation (upload_part id n chunks) = refl
operation-IsOperation (upload_complete id) = refl
operation-IsOperation (upload_abort id) = refl
operation-IsOperation (blob_get hash_hex) = refl
operation-IsOperation (ref_get path) = refl
operation-IsOperation (ref_list prefix) = refl
operation-IsOperation (share_resolve token) = refl
operation-IsOperation usage_get = tt
operation-IsOperation (healthz uptime) = tt
operation-IsOperation (metrics uptime) = tt

module _ {S : Type 0} (env : Env) (header : Option Str) (server : Server S) (c : Table Str ℕ) where
  protected_counters :
      (handler : Server S → Response × Server S)
      → (handler server).1.counters ≡ c
      → (protected env header handler server).1.counters ≡ (
          if is_done (require_auth env (some (λ t. tenant_for_token t server.world.db)) header)
          then c
          else server.counters)
  unfolding protected
  protected_counters handler counted = ground arith

  optional_counters :
      (handler : Option Str → Server S → Response × Server S)
      → ((authorization : Option Str) → (handler authorization server).1.counters ≡ c)
      → (optional env header handler server).1.counters
        ≡ (if is_done (maybe_auth env header) then c else server.counters)
  unfolding optional
  optional_counters handler counted = go (maybe_auth env header) refl
    where
      go :
          (o : Http (Option Str))
          → maybe_auth env header ≡ o
          → (optional env header handler server).1.counters
            ≡ (if is_done (maybe_auth env header) then c else server.counters)
      go (done authorization) e = rw (optional, e) (counted authorization)
      go (http_error status detail) e = rw (optional, e) refl

if_self : {A : Type 0} (b : Bool) (a : A) → (if b then a else a) ≡ a
if_self b a = ground arith

module _ (S : Storage) (H : Hasher) (like : Str → Str → Bool) (env : Env) where
  -- A request that is let in raises the counter of its operation, if it has one, by one; other
  -- counters stay, and a request that is refused raises none.
  serve_counters :
      (now : ℕ) (header : Option Str) (request : Request) (server : Server S.State)
      → (serve S H like env now header request server).1.counters
        ≡ raised (operation request) (is_let_in env header request server) server.counters
  unfolding serve put_blob_handler put_ref_handler delete_ref_handler create_share_handler
      gc_handler upload_create_handler upload_part_handler upload_complete_handler
      upload_abort_handler get_blob_handler get_ref_handler list_refs_handler usage_handler
      resolve_share_handler healthz_handler metrics_handler
  serve_counters now header (blob_put bytes) server = protected_counters env header server _ _ refl
  serve_counters now header (ref_put path bytes) server =
      protected_counters env header server _ _ refl
  serve_counters now header (ref_del path) server = protected_counters env header server _ _ refl
  serve_counters now header (share_create token path ttl) server =
      protected_counters env header server _ _ refl
  serve_counters now header gc_run server = protected_counters env header server _ _ refl
  serve_counters now header (upload_create id target) server =
      protected_counters env header server _ _ refl
  serve_counters now header (upload_part id n chunks) server =
      protected_counters env header server _ _ refl
  serve_counters now header (upload_complete id) server =
      protected_counters env header server _ _ refl
  serve_counters now header (upload_abort id) server = protected_counters env header server _ _ refl
  serve_counters now header (blob_get hash_hex) server =
      optional_counters env header server _ _ (λ authorization. refl)
  serve_counters now header (ref_get path) server =
      optional_counters env header server _ _ (λ authorization. refl)
  serve_counters now header (ref_list prefix) server =
      optional_counters env header server _ _ (λ authorization. refl)
  serve_counters now header (share_resolve token) server = refl
  serve_counters now header usage_get server =
      protected_counters env header server server.counters _ refl ∙ if_self _ _
  serve_counters now header (healthz uptime) server = refl
  serve_counters now header (metrics uptime) server = refl

  -- How often an operation was let in, on the way to a server.
  unfoldable pub served :
      {from server : Server S.State} → Reached S H like env from server → Str → ℕ
  served here op = 0
  served (after {server} before now header request) op =
      served before op + one_if (operation request) (is_let_in env header request server) op

  raised-tally :
      (f : Str → ℕ) (o : Option Str) (let_in : Bool)
      → IsOperation o
      → raised o let_in (tally f operations) ≡ tally (λ op. f op + one_if o let_in op) operations
  raised-tally f none let_in known = tally_same f (λ op. f op + 0) operations (λ op. omega arith)
  raised-tally f (some op) true known = insert-tally f op operations operations-Distinct known
  raised-tally f (some op) false known =
      tally_same f (λ op. f op + 0) operations (λ op. omega arith)

  -- From the start of the server, the counters are at the numbers of requests that were let in.
  counters-Reached :
      (from server : Server S.State)
      → from.counters ≡ initial_counters
      → (reached : Reached S H like env from server)
      → server.counters ≡ tally (served reached) operations
  unfolding served
  counters-Reached from _ fresh here = fresh
  counters-Reached from _ fresh (after {server} before now header request) =
      serve_counters now header request server
      ∙ ap (raised (operation request) (is_let_in env header request server))
          (counters-Reached from server fresh before)
      ∙ raised-tally (served before) (operation request) (is_let_in env header request server)
          (operation-IsOperation request)

  operation_known :
      (request : Request) (op : Str) → operation request ≡ some op → contains op operations ≡ true
  operation_known request op e = subst IsOperation e (operation-IsOperation request)

  -- On a server that requests lead to from the start of its counters, `/metrics` answers anyone
  -- with a page, and changes nothing. On the first line that begins with the uptime's name stands
  -- the uptime, and on the first line that begins with the name of a request's counter stands the
  -- number of requests of that operation that were let in.
  pub metrics-Reached :
      (from server : Server S.State)
      → from.counters ≡ initial_counters
      → (reached : Reached S H like env from server)
      → (now uptime : ℕ) (header : Option Str) (request : Request) (op : Str)
      → operation request ≡ some op
      → (page : Str) × (serve S H like env now header (metrics uptime) server
          ≡ (reply (text_body page), server))
        × (read_metric uptime_name (split 10 page) ≡ some uptime)
        × (read_metric (counter_name op) (split 10 page) ≡ some (served reached op))
  unfolding serve metrics_handler
  metrics-Reached from server fresh reached now uptime header request op e = (
    metrics_text uptime (tally (served reached) operations),
    ap (λ c. (reply (text_body (metrics_text uptime c)), server))
        (counters-Reached from server fresh reached),
    read_uptime uptime (served reached),
    read_operation uptime (served reached) op (operation_known request op e),
  )
