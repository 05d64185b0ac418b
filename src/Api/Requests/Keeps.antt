-- ===== src/Api/Requests/Keeps.antt =====
-- What every server keeps that requests lead to.
use my_test_bot_repo.Prelude.{ℕ, Str, Bool, Option, none, str_eq, ◌≡◌, arith}
use my_test_bot_repo.App.{World}
use my_test_bot_repo.Http.{done}
use my_test_bot_repo.Storage.{Storage, Hasher, IsLawful}
use my_test_bot_repo.Auth.{Env}
use my_test_bot_repo.Core.Paths.{tpath}
use my_test_bot_repo.Core.Refcount.{IsCounted}
use my_test_bot_repo.Core.Refcount.Keeps.{
  put_blob-IsCounted, put_ref-IsCounted, delete_ref-IsCounted,
}
use my_test_bot_repo.Core.Refcount.Sweep.{gc-IsCounted}
use my_test_bot_repo.Core.Contents.{IsStored}
use my_test_bot_repo.Core.Contents.Keeps.{
  put_blob-IsStored, put_ref-IsStored, delete_ref-IsStored, gc-IsStored,
}
use my_test_bot_repo.Core.Contents.Reads.{seen, resolve_ref-eq-seen}
use my_test_bot_repo.Uploads.Complete.Keeps.{complete-IsCounted}
use my_test_bot_repo.Uploads.Complete.Contents.{complete-IsStored}
use my_test_bot_repo.Api.Tenancy.{maybe_auth}
use my_test_bot_repo.Api.{Server, optional, found, tenant, get_ref_handler}
use my_test_bot_repo.Api.Requests.{Request, ref_get, serve, Reached, here, after}
use my_test_bot_repo.Api.Requests.Frame.{SameData, SameData-IsCounted}
use my_test_bot_repo.Api.Requests.Kept.{IsKept, serve_keeps}

module _ (S : Storage) (L : IsLawful S) (H : Hasher) where
  -- The reference counts are exact and the contents are stored.
  pub record IsValid (w : World S.State) : Type 0 where
    pub counted : IsCounted w.db
    pub stored : IsStored S L H w

  SameData-IsValid : (w' w : World S.State) → SameData w' w → IsValid w → IsValid w'
  SameData-IsValid w' w same v = record {
    counted = SameData-IsCounted w' w same v.counted;
    stored = record {
      addressed = λ h d dh e. v.stored.addressed h d dh (rw same.store at e);
      digests = λ h there. v.stored.digests h (rw same.blobs at there);
      backed = λ h there gone. v.stored.backed h (rw same.blobs at there) (rw same.store at gone);
    };
  }

  IsValid-IsKept : IsKept S H IsValid
  IsValid-IsKept = record {
    on_put_blob = λ now bytes t w v. record {
      counted = put_blob-IsCounted S H now bytes t w v.counted;
      stored = put_blob-IsStored S L H now bytes t w v.stored;
    };
    on_put_ref = λ now path bytes t w v. record {
      counted = put_ref-IsCounted S H now path bytes t w v.counted;
      stored = put_ref-IsStored S L H now path bytes t w v.stored;
    };
    on_delete_ref = λ path t w v. record {
      counted = delete_ref-IsCounted S path t w v.counted;
      stored = delete_ref-IsStored S L H path t w v.stored;
    };
    on_gc = λ scope w v. record {
      counted = gc-IsCounted S scope w v.counted;
      stored = gc-IsStored S L H scope w v.counted.unique_blobs v.stored;
    };
    on_complete = λ now id w v. record {
      counted = complete-IsCounted S H now id none w v.counted;
      stored = complete-IsStored S L H now id none w v.stored;
    };
    on_same = SameData-IsValid;
  }

  -- Over a lawful backend, every request keeps the reference counts exact and the contents stored,
  -- whether it is served or refused.
  pub serve-IsValid :
      (env : Env) (header : Option Str) (server : Server S.State) (like : Str → Str → Bool)
      (now : ℕ) (request : Request)
      → IsValid server.world
      → IsValid (serve S H like env now header request server).1.world
  serve-IsValid env header server like now request v =
      serve_keeps S H IsValid env header server like IsValid-IsKept now request v

  module _ (env : Env) (like : Str → Str → Bool) (from : Server S.State) where
    -- From a valid server, requests lead to valid servers only.
    pub Reached-IsValid :
        {server : Server S.State}
        → IsValid from.world
        → Reached S H like env from server
        → IsValid server.world
    Reached-IsValid v here = v
    Reached-IsValid v (after {server} before now header request) =
        serve-IsValid env header server like now request (Reached-IsValid v before)

    -- Over a lawful backend, and on every server that requests lead to from a valid one: a request
    -- for a ref that is let in is answered with the contents that the path stands for, or 404 where
    -- it stands for none; it never fails.
    pub ref_get-Reached :
        (server : Server S.State)
        → IsValid from.world
        → Reached S H like env from server
        → (now : ℕ) (header authorization : Option Str) (path : Str)
        → maybe_auth env header ≡ done authorization
        → (serve S H like env now header (ref_get path) server).0
          ≡ found (seen S L server.world (tpath (tenant authorization server) path))
    unfolding serve get_ref_handler optional
    ref_get-Reached server v reached now header authorization path let_in =
        let valid = Reached-IsValid v reached in
        ground (
          arith,
          let_in,
          resolve_ref-eq-seen S L H path (tenant authorization server) server.world valid.counted
              valid.stored,
        )
