-- ===== src/Core/Refs.antt =====
-- clawfs/core.py: `put_ref`, `resolve_ref`, `list_refs` and `delete_ref`.
pub mod Named
pub mod Listing
pub mod Writes
use my_test_bot_repo.Prelude.{
  ℕ, Str, Bytes, Bool, true, false, Option, none, some, List, [], ◌∷◌, ◌==◌, str_eq, if◌then◌else◌,
}
use my_test_bot_repo.Prelude.Int.{pos, negsuc}
use my_test_bot_repo.Prelude.Table.{Table, lookup, insert, erase}
use my_test_bot_repo.Text.{is_empty}
use my_test_bot_repo.Db.{Db, Blob, Ref, Share}
use my_test_bot_repo.App.{App, pure, gets, transact, from_store, session, ◌>>=◌}
use my_test_bot_repo.Storage.{Storage, Hasher}
use my_test_bot_repo.Core.Paths.{tpath, untpath}
use my_test_bot_repo.Core.Quota.{link_inc, link_dec}
use my_test_bot_repo.Core.Blobs.{bump, put_blob}

abbrev pub set_ref : Str → Ref → Db → Db
set_ref stored ref db = record db { refs = insert stored ref db.refs }

-- `if new_blob is not None: self._link_inc(...)`
abbrev pub link_new : Str → Str → Option Blob → Db → Db
link_new tenant_id h none db = db
link_new tenant_id h (some new) db = link_inc tenant_id h new.size db

-- The branch on which the ref held another hash.
unfoldable pub rebind : ℕ → Str → Str → Str → Ref → Db → Db
rebind now tenant_id stored h ref db =
    let moved = set_ref stored (record ref { hash = h; updated_at = now }) db in
    let counted = bump h (pos 1) (bump ref.hash (negsuc 0) moved) in
    let unlinked = link_dec tenant_id ref.hash counted in
    link_new tenant_id h (lookup h unlinked.blobs) unlinked

-- The second session of `put_ref`; the result is `created`.
unfoldable pub bind_ref : ℕ → Str → Str → Str → Db → Bool × Db
unfolding rebind
bind_ref now tenant_id stored h db = elim (lookup stored db.refs) [
  | none ↦
      let ref : Ref = record {
        hash = h;
        tenant_id = tenant_id;
        created_at = now;
        updated_at = now;
      } in
      (true, bump h (pos 1) (set_ref stored ref db))
  | some ref ↦ if ref.hash == h then (false, db) else (false, rebind now tenant_id stored h ref db)
]

-- `for sh in s.exec(select(Share).where(Share.ref_path == stored)): s.delete(sh)`
unfoldable pub drop_shares : Str → Table Str Share → Table Str Share
drop_shares stored [] = []
drop_shares stored ((token, sh) ∷ rest) =
    let kept = drop_shares stored rest in if sh.ref_path == stored then kept else (token, sh) ∷ kept

abbrev pub unbind : Str → Str → Ref → Db → Db
unbind tenant_id stored ref db =
    let unlinked = link_dec tenant_id ref.hash (bump ref.hash (negsuc 0) db) in
    record unlinked {
      refs = erase stored unlinked.refs;
      shares = drop_shares stored unlinked.shares;
    }

unfoldable pub delete_ref_db : Str → Str → Db → Bool × Db
delete_ref_db tenant_id stored db = elim (lookup stored db.refs) [
  | none ↦ (false, db)
  | some ref ↦ (true, unbind tenant_id stored ref db)
]

-- The rows of a `select` on refs. `like` is the database's `LIKE` that stands for
-- `Ref.path.startswith`: the stored path, then the prefix.
module _ (like : Str → Str → Bool) where
  abbrev selected : Str → Str → Str → Ref → Bool
  selected prefix tenant_id path ref =
      if ref.tenant_id == tenant_id
      then (if is_empty prefix then true else like path (tpath tenant_id prefix))
      else false

  unfoldable pub select_refs : Str → Str → Table Str Ref → List (Str × Ref)
  select_refs prefix tenant_id [] = []
  select_refs prefix tenant_id ((path, ref) ∷ rest) =
      let more = select_refs prefix tenant_id rest in
      if selected prefix tenant_id path ref then (untpath tenant_id path, ref) ∷ more else more

  -- Each row comes with its path in the form that callers see.
  unfoldable pub list_refs : Str → Str → Db → List (Str × Ref)
  unfolding select_refs
  list_refs prefix tenant_id db = select_refs prefix tenant_id db.refs

module _ (S : Storage) where
  abbrev pub read_ref : Option Ref → App S.State (Option Bytes)
  read_ref none = pure none
  read_ref (some ref) = do bytes ← from_store (S.get ref.hash); pure (some bytes)

  unfoldable pub resolve_ref : Str → Str → App S.State (Option Bytes)
  resolve_ref path tenant_id = do
    ref ← gets (λ db. lookup (tpath tenant_id path) db.refs)
    read_ref ref

  unfoldable pub delete_ref : Str → Str → App S.State Bool
  unfolding delete_ref_db
  delete_ref path tenant_id = session (transact (delete_ref_db tenant_id (tpath tenant_id path)))

-- The second session of `put_ref`.
abbrev pub bind_session : {S : Type 0} → ℕ → Str → Str → Str → App S Bool
bind_session now tenant_id path h =
    session (transact (bind_ref now tenant_id (tpath tenant_id path) h))

module _ (S : Storage) (H : Hasher) where
  unfoldable pub put_ref : ℕ → Str → Bytes → Str → App S.State (Str × Bool)
  put_ref now path bytes tenant_id = do
    h ← put_blob S H now bytes tenant_id
    created ← bind_session now tenant_id path h
    pure (h, created)
