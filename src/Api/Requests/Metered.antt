-- ===== src/Api/Requests/Metered.antt =====
-- Quotas over sequences of requests.
use my_test_bot_repo.Prelude.{Str, str_eq, Bool, Option, none, ap}
use my_test_bot_repo.Prelude.Table.{NodupKeys}
use my_test_bot_repo.Db.{Db}
use my_test_bot_repo.App.{World}
use my_test_bot_repo.Storage.{Storage, Hasher}
use my_test_bot_repo.Auth.{Env}
use my_test_bot_repo.Core.Paths.{tpath}
use my_test_bot_repo.Core.Refs.{delete_ref}
use my_test_bot_repo.Core.Gc.{gc}
use my_test_bot_repo.Core.Refcount.Sweep.{gc_exact}
use my_test_bot_repo.Core.Accounting.{IsAccounted}
use my_test_bot_repo.Core.Accounting.Keeps.{
  SameAccounts, SameAccounts-IsAccounted, put_blob-IsAccounted, put_ref-IsAccounted,
  delete_ref-IsAccounted,
}
use my_test_bot_repo.Core.Accounting.Limits.{IsWithin}
use my_test_bot_repo.Core.Accounting.Writes.{
  put_blob-IsWithin, put_ref-IsWithin, delete_ref_db-IsWithin,
}
use my_test_bot_repo.Uploads.Complete.Keeps.{complete-IsAccounted, complete-IsWithin}
use my_test_bot_repo.Api.{Server}
use my_test_bot_repo.Api.Requests.{Reached, here, after}
use my_test_bot_repo.Core.Refcount.{IsCounted}
use my_test_bot_repo.Core.Refcount.Keeps.{
  put_blob-IsCounted, put_ref-IsCounted, delete_ref-IsCounted,
}
use my_test_bot_repo.Core.Refcount.Sweep.{gc-IsCounted}
use my_test_bot_repo.Uploads.Complete.Keeps.{complete-IsCounted}
use my_test_bot_repo.Api.Requests.Frame.{SameData-IsCounted}
use my_test_bot_repo.Api.Requests.Kept.{IsKept, serve_keeps}

-- The reference counts and the charges are exact, and no tenant is past a limit.
pub record IsMetered (db : Db) : Type 0 where
  pub counted : IsCounted db
  pub accounted : IsAccounted db
  pub within : IsWithin db

-- The counts are given for the new rows; the accounts are the old ones.
SameAccounts-IsMetered : (a b : Db) → SameAccounts a b → IsCounted a → IsMetered b → IsMetered a
SameAccounts-IsMetered a b same c v = record {
  counted = c;
  accounted = SameAccounts-IsAccounted a b same v.accounted;
  within = record { within = λ id. rw same.0 (v.within.within id) };
}

module _ (S : Storage) (H : Hasher) where
  abbrev Metered : World S.State → Type 0
  Metered w = IsMetered w.db

  gc-SameAccounts :
      (scope : Option Str) (w : World S.State)
      → NodupKeys w.db.blobs
      → SameAccounts (gc S scope w).1.db w.db
  gc-SameAccounts scope w u =
      let same = (gc_exact S scope w u).1 in
      (ap (λ (db : Db). db.tenants) same, ap (λ (db : Db). db.links) same)

  delete_ref-IsWithin :
      (path t : Str) (w : World S.State) → IsWithin w.db → IsWithin (delete_ref S path t w).1.db
  unfolding delete_ref
  delete_ref-IsWithin path t w v = delete_ref_db-IsWithin t (tpath t path) w.db v

  Metered-IsKept : IsKept S H Metered
  Metered-IsKept = record {
    on_put_blob = λ now bytes t w v. record {
      counted = put_blob-IsCounted S H now bytes t w v.counted;
      accounted = put_blob-IsAccounted S H now bytes t w v.accounted;
      within = put_blob-IsWithin S H now bytes t w v.within;
    };
    on_put_ref = λ now path bytes t w v. record {
      counted = put_ref-IsCounted S H now path bytes t w v.counted;
      accounted = put_ref-IsAccounted S H now path bytes t w v.accounted;
      within = put_ref-IsWithin S H now path bytes t w v.within;
    };
    on_delete_ref = λ path t w v. record {
      counted = delete_ref-IsCounted S path t w v.counted;
      accounted = delete_ref-IsAccounted S path t w v.accounted;
      within = delete_ref-IsWithin path t w v.within;
    };
    on_gc = λ scope w v.
        SameAccounts-IsMetered _ _ (gc-SameAccounts scope w v.counted.unique_blobs)
          (gc-IsCounted S scope w v.counted) v;
    on_complete = λ now id w v. record {
      counted = complete-IsCounted S H now id none w v.counted;
      accounted = complete-IsAccounted S H now id none w v.accounted;
      within = complete-IsWithin S H now id none w v.within;
    };
    on_same = λ w' w same v.
        SameAccounts-IsMetered _ _ (same.tenants, same.links)
          (SameData-IsCounted w' w same v.counted) v;
  }

  -- Where the reference counts and the charges are exact and no tenant is past a limit, the same
  -- holds of every server that requests, served or refused, lead to.
  pub Reached-IsMetered :
      (env : Env) (like : Str → Str → Bool) (from server : Server S.State)
      → IsMetered from.world.db
      → Reached S H like env from server
      → IsMetered server.world.db
  Reached-IsMetered env like from _ v here = v
  Reached-IsMetered env like from _ v (after {server} before now header request) =
      serve_keeps S H Metered env header server like Metered-IsKept now request
        (Reached-IsMetered env like from server v before)
