-- ===== src/Api/Requests/Listed.antt =====
-- What a listing of refs shows, on servers that requests lead to.
use my_test_bot_repo.Prelude.{ℕ, Str, Bytes, Bool, Option, none, List, str_eq, ◌≡◌, ap, arith}
use my_test_bot_repo.Prelude.Table.{lookup}
use my_test_bot_repo.Db.{Db, Ref}
use my_test_bot_repo.App.{World}
use my_test_bot_repo.Http.{done}
use my_test_bot_repo.Storage.{Storage, Hasher}
use my_test_bot_repo.Auth.{Env}
use my_test_bot_repo.Core.Paths.{tpath}
use my_test_bot_repo.Core.Blobs.{put_blob}
use my_test_bot_repo.Core.Refs.{delete_ref, list_refs}
use my_test_bot_repo.Core.Refs.Named.{IsNamed, delete_ref_db-IsNamed}
use my_test_bot_repo.Core.Refs.Listing.{listed, lookup-list_refs}
use my_test_bot_repo.Core.Refcount.{IsCounted}
use my_test_bot_repo.Api.Tenancy.{maybe_auth}
use my_test_bot_repo.Api.{reply, listing, Server, optional, tenant, list_refs_handler}
use my_test_bot_repo.Api.Requests.{ref_list, serve, Reached, here, after}
use my_test_bot_repo.Api.Requests.Kept.{IsKept, serve_keeps}
use my_test_bot_repo.Api.Requests.Frame.{SameData-IsCounted}
use my_test_bot_repo.Core.Refs.Writes.{put_blob-refs, put_ref-IsNamed}
use my_test_bot_repo.Uploads.Complete.Named.{complete-IsNamed}
use my_test_bot_repo.Core.Gc.{gc}
use my_test_bot_repo.Core.Refcount.Sweep.{gc_exact}
use my_test_bot_repo.Core.Refcount.Keeps.{
  put_blob-IsCounted, put_ref-IsCounted, delete_ref-IsCounted,
}
use my_test_bot_repo.Core.Refcount.Sweep.{gc-IsCounted}
use my_test_bot_repo.Uploads.Complete.Keeps.{complete-IsCounted}

module _ (S : Storage) (H : Hasher) where
  -- Every ref is stored under its tenant, and no blob and no path has two rows.
  pub record IsListed (w : World S.State) : Type 0 where
    pub counted : IsCounted w.db
    pub named : IsNamed w.db.refs

  put_blob-IsListed :
      (now : ℕ) (bytes : Bytes) (t : Str) (w : World S.State)
      → IsListed w
      → IsListed (put_blob S H now bytes t w).1
  put_blob-IsListed now bytes t w v = record {
    counted = put_blob-IsCounted S H now bytes t w v.counted;
    named = rw (put_blob-refs S H now bytes t w) v.named;
  }

  gc-refs :
      (scope : Option Str) (w : World S.State) → IsListed w → (gc S scope w).1.db.refs ≡ w.db.refs
  gc-refs scope w v = ap (λ (db : Db). db.refs) (gc_exact S scope w v.counted.unique_blobs).1

  delete_ref-IsNamed :
      (path t : Str) (w : World S.State)
      → IsNamed w.db.refs
      → IsNamed (delete_ref S path t w).1.db.refs
  unfolding delete_ref
  delete_ref-IsNamed path t w v = delete_ref_db-IsNamed t (tpath t path) w.db v

  IsListed-IsKept : IsKept S H IsListed
  IsListed-IsKept = record {
    on_put_blob = put_blob-IsListed;
    on_put_ref = λ now path bytes t w v. record {
      counted = put_ref-IsCounted S H now path bytes t w v.counted;
      named = put_ref-IsNamed S H now path bytes t w v.named;
    };
    on_delete_ref = λ path t w v. record {
      counted = delete_ref-IsCounted S path t w v.counted;
      named = delete_ref-IsNamed path t w v.named;
    };
    on_gc = λ scope w v. record {
      counted = gc-IsCounted S scope w v.counted;
      named = rw (gc-refs scope w v) v.named;
    };
    on_complete = λ now id w v. record {
      counted = complete-IsCounted S H now id none w v.counted;
      named = complete-IsNamed S H now id none w v.named;
    };
    on_same = λ w' w same v. record {
      counted = SameData-IsCounted w' w same v.counted;
      named = rw same.refs v.named;
    };
  }

  module _ (env : Env) (like : Str → Str → Bool) (from : Server S.State) where
    Reached-IsListed :
        {server : Server S.State}
        → IsListed from.world
        → Reached S H like env from server
        → IsListed server.world
    Reached-IsListed v here = v
    Reached-IsListed v (after {server} before now header request) =
        serve_keeps S H IsListed env header server like IsListed-IsKept now request
          (Reached-IsListed v before)

    -- On every server that requests lead to from one where the reference counts are exact and every
    -- ref is stored under its tenant: a request for a listing that is let in is answered with rows
    -- in which each path stands for the caller's ref of that path, if the ref is the caller's own
    -- and the database finds its stored path by the prefix, and with no row for any other path.
    pub ref_list-Reached :
        (server : Server S.State)
        → IsListed from.world
        → Reached S H like env from server
        → (now : ℕ) (header authorization : Option Str) (prefix : Str)
        → maybe_auth env header ≡ done authorization
        → let t = tenant authorization server in
          (rows : List (Str × Ref)) × ((serve S H like env now header (ref_list prefix) server).0
            ≡ reply (listing rows))
          × ((p : Str)
              → lookup p rows
                ≡ listed like prefix t (tpath t p) (lookup (tpath t p) server.world.db.refs))
    unfolding serve list_refs_handler optional
    ref_list-Reached server v reached now header authorization prefix let_in =
        let valid = Reached-IsListed v reached in
        let t = tenant authorization server in
        (
          list_refs like prefix t server.world.db,
          ground (arith, let_in),
          λ p. lookup-list_refs like prefix t p server.world.db valid.counted.unique valid.named,
        )
