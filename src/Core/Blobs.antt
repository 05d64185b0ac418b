-- ===== src/Core/Blobs.antt =====
-- clawfs/core.py: `put_blob`, `get_blob` and `_bump`.
use my_test_bot_repo.Prelude.{
  ℕ, ◌+◌, ◌-◌, Str, Bytes, Option, none, some, length, str_eq, if◌then◌else◌,
}
use my_test_bot_repo.Prelude.Int.{ℤ, pos_part, neg_part}
use my_test_bot_repo.Prelude.Table.{lookup, insert}
use my_test_bot_repo.Db.{Db, Blob}
use my_test_bot_repo.Db.Rows.{update}
use my_test_bot_repo.App.{
  App, pure, gets, check, modify, on_store, from_store, session, ◌>>=◌, ◌>>◌,
}
use my_test_bot_repo.Storage.{Storage, Hasher}
use my_test_bot_repo.Core.Quota.{enforce_quota, link_inc}

-- `max(0, b.refcount + delta)`
unfoldable pub add_delta : ℤ → Blob → Blob
add_delta delta b = record b { refcount = b.refcount + pos_part delta - neg_part delta }

unfoldable pub bump : Str → ℤ → Db → Db
bump h delta db = record db { blobs = update h (add_delta delta) db.blobs }

abbrev pub new_blob : ℕ → Str → ℕ → Blob
new_blob now tenant_id size = record {
  size = size;
  refcount = 0;
  created_at = now;
  tenant_id = tenant_id;
}

abbrev pub add_blob : Str → Blob → Db → Db
add_blob h b db = record db { blobs = insert h b db.blobs }

module _ (S : Storage) (H : Hasher) where
  -- the two branches on `existing`
  abbrev pub store_blob : ℕ → Str → Bytes → Str → Option Blob → App S.State Unit
  store_blob now h bytes tenant_id none = do
    on_store (S.put h bytes)
    modify (add_blob h (new_blob now tenant_id (length bytes)))
  store_blob now h bytes tenant_id (some existing) = do
    present ← from_store (S.exists h)
    if present then pure tt else on_store (S.put h bytes)

  unfoldable pub put_blob : ℕ → Bytes → Str → App S.State Str
  put_blob now bytes tenant_id = session do
    let h = H.hexdigest bytes
    check (enforce_quota tenant_id h (length bytes))
    existing ← gets (λ db. lookup h db.blobs)
    store_blob now h bytes tenant_id existing
    modify (link_inc tenant_id h (length bytes))
    pure h

  unfoldable pub get_blob : Str → App S.State Bytes
  get_blob hash_hex = from_store (S.get hash_hex)
