-- ===== src/Api/Requests/Frame.antt =====
-- What the methods that touch neither blobs nor refs leave alone.
use my_test_bot_repo.Prelude.{sym, subst, str_eq}
use my_test_bot_repo.Prelude.Table.{Table, NodupKeys}
use my_test_bot_repo.Db.{Ref, Blob}
use my_test_bot_repo.Core.Refcount.{IsCounted}
use my_test_bot_repo.Prelude.{ℕ, Str, Bytes, Option, List, str_eq, ◌≡◌, arith}
use my_test_bot_repo.Prelude.Int.{ℤ}
use my_test_bot_repo.App.{World}
use my_test_bot_repo.Storage.{Storage, Hasher}
use my_test_bot_repo.Core.Refs.{resolve_ref}
use my_test_bot_repo.Core.Shares.{create_share, resolve_share}
use my_test_bot_repo.Uploads.{create, abort, write_part}

-- The blobs, the refs, the accounts and the backend are as before.
pub record SameData {S : Type 0} (w' w : World S) : Type 0 where
  pub blobs : w'.db.blobs ≡ w.db.blobs
  pub refs : w'.db.refs ≡ w.db.refs
  pub tenants : w'.db.tenants ≡ w.db.tenants
  pub links : w'.db.links ≡ w.db.links
  pub store : w'.store ≡ w.store

pub SameData-IsCounted :
    {S : Type 0} (w' w : World S) → SameData w' w → IsCounted w.db → IsCounted w'.db
SameData-IsCounted w' w same v = record {
  counts = λ h. ground (arith, same.blobs, same.refs, v.counts h);
  unique = subst (λ (r : Table Str Ref). NodupKeys r) (sym same.refs) v.unique;
  unique_blobs = subst (λ (b : Table Str Blob). NodupKeys b) (sym same.blobs) v.unique_blobs;
}

module _ (S : Storage) where
  pub create_share-SameData :
      (now : ℕ) (token path : Str) (ttl : Option ℤ) (t : Str) (w : World S.State)
      → SameData (create_share S now token path ttl t w).1 w
  unfolding create_share
  create_share-SameData now token path ttl t w = ground arith

  pub resolve_share-SameData :
      (now : ℕ) (token : Str) (w : World S.State) → SameData (resolve_share S now token w).1 w
  unfolding resolve_share
  resolve_share-SameData now token w = ground arith

  pub resolve_ref-SameData :
      (path t : Str) (w : World S.State) → SameData (resolve_ref S path t w).1 w
  unfolding resolve_ref
  resolve_ref-SameData path t w = ground arith

  pub create-SameData :
      (now : ℕ) (id t : Str) (target : Option Str) (w : World S.State)
      → SameData (create now id t target w).1 w
  unfolding create
  create-SameData now id t target w = ground arith

  pub abort-SameData : (id : Str) (w : World S.State) → SameData (abort id w).1 w
  unfolding abort
  abort-SameData id w = ground arith

  pub write_part-SameData :
      (H : Hasher) (id : Str) (n : ℤ) (chunks : List Bytes) (w : World S.State)
      → SameData (write_part H id n chunks w).1 w
  unfolding write_part
  write_part-SameData H id n chunks w = ground arith
