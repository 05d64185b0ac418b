-- ===== src/Core/Frame.antt =====
-- What the accounting steps leave alone.
use my_test_bot_repo.Prelude.{ℕ, Str, ◌≡◌, Option, none, some, arith}
use my_test_bot_repo.Db.{Db, Blob}
use my_test_bot_repo.Core.Quota.{link_inc, link_dec}
use my_test_bot_repo.Core.Refs.{link_new}

-- The blobs, refs, shares and uploads are the same.
pub record SameFiles (a b : Db) : Type 0 where
  pub blobs : a.blobs ≡ b.blobs
  pub refs : a.refs ≡ b.refs
  pub shares : a.shares ≡ b.shares
  pub uploads : a.uploads ≡ b.uploads

pub link_inc-SameFiles :
    (tenant_id h : Str) (size : ℕ) (db : Db) → SameFiles (link_inc tenant_id h size db) db
unfolding link_inc
link_inc-SameFiles tenant_id h size db = ground arith

pub link_dec-SameFiles : (tenant_id h : Str) (db : Db) → SameFiles (link_dec tenant_id h db) db
unfolding link_dec
link_dec-SameFiles tenant_id h db = ground arith

pub link_new-SameFiles :
    (tenant_id h : Str) (o : Option Blob) (db : Db) → SameFiles (link_new tenant_id h o db) db
link_new-SameFiles tenant_id h none db = ground arith
link_new-SameFiles tenant_id h (some b) db = link_inc-SameFiles tenant_id h b.size db
