-- ===== src/Core/Gc.antt =====
-- clawfs/core.py `gc`.
use my_test_bot_repo.Prelude.{
  ℕ, ◌+◌, Str, Bool, true, ◌&&◌, Option, none, some, List, [], ◌∷◌, ◌==◌, nat_eq, str_eq,
  if◌then◌else◌,
}
use my_test_bot_repo.Prelude.Table.{Table, erase}
use my_test_bot_repo.Db.{Blob}
use my_test_bot_repo.App.{App, pure, gets, session, ◌>>=◌}
use my_test_bot_repo.Storage.{Storage}

-- `Blob.tenant_id == tenant_id`, where a tenant is given
abbrev pub in_scope : Option Str → Blob → Bool
in_scope none b = true
in_scope (some tenant_id) b = b.tenant_id == tenant_id

abbrev pub is_garbage : Option Str → Blob → Bool
is_garbage scope b = b.refcount == 0 && in_scope scope b

-- The keys of the rows that the `select` returns.
unfoldable pub garbage : Option Str → Table Str Blob → List Str
garbage scope [] = []
garbage scope ((h, b) ∷ rest) =
    let more = garbage scope rest in if is_garbage scope b then h ∷ more else more

module _ (S : Storage) where
  -- The loop over the rows, with the number removed so far.
  unfoldable pub sweep : List Str → ℕ → App S.State ℕ
  sweep [] removed w = (pure removed) w
  sweep (h ∷ rest) removed w =
      sweep rest (removed + 1)
        (record w { store = S.delete h w.store; db = record w.db { blobs = erase h w.db.blobs } })

  unfoldable pub gc : Option Str → App S.State ℕ
  unfolding sweep garbage
  gc scope = session do rows ← gets (λ db. garbage scope db.blobs); sweep rows 0
