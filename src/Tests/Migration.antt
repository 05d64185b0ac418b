-- ===== src/Tests/Migration.antt =====
-- A database of a version without tenants.
use my_test_bot_repo.Prelude.{Str, [], ◌∷◌, ◌≡◌, refl, arith, codes, str_eq, nat_eq}
use my_test_bot_repo.Prelude.Table.{lookup, sum}
use my_test_bot_repo.Text.{contains, starts_with}
use my_test_bot_repo.Text.Laws.{starts_with-append}
use my_test_bot_repo.Result.{ok}
use my_test_bot_repo.Db.{Blob, Ref}
use my_test_bot_repo.Db.Rows.{map_row}
use my_test_bot_repo.Db.Migrate.{Sqlite, migrate, default_ref}
use my_test_bot_repo.Db.Migrate.Laws.{IsOld, IsLike, migrate-IsCounted}
use my_test_bot_repo.Core.Paths.{tpath, default_tenant}
use my_test_bot_repo.Core.Refcount.{IsCounted, refcount_of, count_refs}
use my_test_bot_repo.Tests.Data.{empty_db}

abbrev hash : Str
hash = codes "00"

abbrev old_blob : Blob
old_blob = record { size = 2; refcount = 1; created_at = 7; tenant_id = [] }

abbrev old_ref : Ref
old_ref = record { hash = hash; tenant_id = []; created_at = 7; updated_at = 7 }

abbrev old : Sqlite
old = record {
  tables = codes "blob" ∷ codes "ref" ∷ [];
  blob_columns = codes "hash" ∷ codes "size" ∷ [];
  ref_columns = codes "path" ∷ codes "hash" ∷ [];
  db = record empty_db { blobs = (hash, old_blob) ∷ []; refs = (codes "a.md", old_ref) ∷ [] };
}

one_name :
    (h k : Str) (b : Blob) (r : Ref)
    → b.refcount ≡ 1
    → r.hash ≡ k
    → refcount_of (lookup h ((k, b) ∷ [])) ≡ count_refs h ((codes "a.md", r) ∷ [])
unfolding lookup sum
one_name h k b r one same = ground arith

old-IsCounted : IsCounted old.db
unfolding lookup
old-IsCounted = record {
  counts = λ h. one_name h hash old_blob old_ref refl refl;
  unique = (refl, tt);
  unique_blobs = (refl, tt);
}

old-IsOld : IsOld starts_with old
unfolding contains starts_with str_eq nat_eq
old-IsOld = record { has_blobs = refl; blobs_old = refl; refs_old = refl; bare = (refl, tt) }

finds_prefix : IsLike starts_with
finds_prefix path = starts_with-append (codes "default/") path

migrate-IsCounted_example :
    (g : Sqlite) × (migrate starts_with old ≡ ok g)
    × ((p : Str)
        → lookup (tpath default_tenant p) g.db.refs ≡ map_row default_ref (lookup p old.db.refs))
    × IsCounted g.db
    × (migrate starts_with g ≡ ok g)
migrate-IsCounted_example = migrate-IsCounted starts_with old finds_prefix old-IsOld old-IsCounted
