-- ===== src/Db/Migrate/Laws.antt =====
-- What becomes of an older database.
use my_test_bot_repo.Prelude.{
  Str, Bool, true, false, none, List, [], ◌∷◌, ◌++◌, ◌≡◌, refl, arith, str_eq, nat_eq, codes, ◌∙◌,
}
use my_test_bot_repo.Prelude.Table.{Table, lookup, NodupKeys, sum}
use my_test_bot_repo.Text.{contains}
use my_test_bot_repo.Result.{ok}
use my_test_bot_repo.Db.{Db, Ref}
use my_test_bot_repo.Db.Rows.{map_row}
use my_test_bot_repo.Core.Paths.{tpath, default_tenant}
use my_test_bot_repo.Core.Refcount.{IsCounted, count_refs}
use my_test_bot_repo.Db.Migrate.{
  Sqlite, tenant_column, default_ref, default_blob, fill, add_to_blob, add_to_ref, with_default,
  rewrite_paths, migrate,
}

-- The rows with their new keys.
unfoldable pub renamed : Table Str Ref → Table Str Ref
renamed [] = []
renamed ((path, r) ∷ rows) = (with_default path, r) ∷ renamed rows

-- No path looks like one that has a tenant.
abbrev pub AllBare : (Str → Str → Bool) → Table Str Ref → Type 0
AllBare like [] = Unit
AllBare like ((path, r) ∷ rows) = (like path (codes "default/") ≡ false) × AllBare like rows

-- Paths in front of which the tenant stands look like it.
abbrev pub IsLike : (Str → Str → Bool) → Type 0
IsLike like = (path : Str) → like (with_default path) (codes "default/") ≡ true

lookup-renamed :
    (p : Str) (rows : Table Str Ref) → lookup (with_default p) (renamed rows) ≡ lookup p rows
unfolding renamed lookup
lookup-renamed p [] = refl
lookup-renamed p ((q, r) ∷ rows) = ground (arith, lookup-renamed p rows)

no_prefixed :
    (like : Str → Str → Bool) (p : Str) (rows : Table Str Ref)
    → IsLike like
    → AllBare like rows
    → lookup (with_default p) rows ≡ none
unfolding lookup
no_prefixed like p [] l bare = refl
no_prefixed like p ((q, r) ∷ rows) l bare = ground (arith, no_prefixed like p rows l bare.1, l p)

-- None of the rows is among those that are done.
abbrev Apart : Table Str Ref → Table Str Ref → Type 0
Apart before [] = Unit
Apart before ((path, r) ∷ rows) = (lookup path before ≡ none) × Apart before rows

Apart-cons :
    (path : Str) (r : Ref) (before rows : Table Str Ref)
    → lookup path rows ≡ none
    → Apart before rows
    → Apart ((path, r) ∷ before) rows
unfolding lookup
Apart-cons path r before [] fresh apart = tt
Apart-cons path r before ((q, s) ∷ rows) fresh apart = ground (arith, Apart-cons path r before rows)

rewrite_paths_lem :
    (like : Str → Str → Bool) (before rows : Table Str Ref)
    → IsLike like
    → AllBare like rows
    → NodupKeys rows
    → Apart before rows
    → rewrite_paths like (renamed before) rows ≡ ok (renamed rows)
unfolding rewrite_paths renamed
rewrite_paths_lem like before [] l bare distinct apart = refl
rewrite_paths_lem like before ((p, r) ∷ rows) l bare distinct apart =
    rw
      (
        bare.0,
        lookup-renamed p before,
        apart.0,
        no_prefixed like p rows l bare.1,
        rewrite_paths_lem like ((p, r) ∷ before) rows l bare.1 distinct.1
            (Apart-cons p r before rows distinct.0 apart.1),
      )
      refl

lookup-fill :
    {V : Type 0} (f : V → V) (k : Str) (rows : Table Str V)
    → lookup k (fill f rows) ≡ map_row f (lookup k rows)
unfolding fill lookup
lookup-fill f k [] = refl
lookup-fill f k ((q, v) ∷ rows) = ground (arith, lookup-fill f k rows)

fill-NodupKeys :
    {V : Type 0} (f : V → V) (rows : Table Str V) → NodupKeys rows → NodupKeys (fill f rows)
unfolding fill
fill-NodupKeys f [] distinct = tt
fill-NodupKeys f ((q, v) ∷ rows) distinct =
    (rw (lookup-fill f q rows, distinct.0) refl, fill-NodupKeys f rows distinct.1)

renamed-NodupKeys : (rows : Table Str Ref) → NodupKeys rows → NodupKeys (renamed rows)
unfolding renamed
renamed-NodupKeys [] distinct = tt
renamed-NodupKeys ((q, r) ∷ rows) distinct =
    (lookup-renamed q rows ∙ distinct.0, renamed-NodupKeys rows distinct.1)

fill-AllBare :
    (like : Str → Str → Bool) (rows : Table Str Ref)
    → AllBare like rows
    → AllBare like (fill default_ref rows)
unfolding fill
fill-AllBare like [] bare = tt
fill-AllBare like ((q, r) ∷ rows) bare = (bare.0, fill-AllBare like rows bare.1)

Apart-nil : (rows : Table Str Ref) → Apart [] rows
unfolding lookup
Apart-nil [] = tt
Apart-nil ((q, r) ∷ rows) = (refl, Apart-nil rows)

-- The refs of a database that was migrated.
abbrev migrated : Table Str Ref → Table Str Ref
migrated rows = renamed (fill default_ref rows)

count_refs-migrated :
    (h : Str) (rows : Table Str Ref) → count_refs h (migrated rows) ≡ count_refs h rows
unfolding fill renamed sum
count_refs-migrated h [] = refl
count_refs-migrated h ((q, r) ∷ rows) = ground (arith, count_refs-migrated h rows)

abbrev migrated_db : Db → Db
migrated_db db = record db { blobs = fill default_blob db.blobs; refs = migrated db.refs }

migrated_db-IsCounted : (db : Db) → IsCounted db → IsCounted (migrated_db db)
migrated_db-IsCounted db v = record {
  counts = λ h.
      ground
        (arith, v.counts h, count_refs-migrated h db.refs, lookup-fill default_blob h db.blobs);
  unique = renamed-NodupKeys _ (fill-NodupKeys default_ref db.refs v.unique);
  unique_blobs = fill-NodupKeys default_blob db.blobs v.unique_blobs;
}

lookup-migrated :
    (p : Str) (rows : Table Str Ref)
    → lookup (tpath default_tenant p) (migrated rows) ≡ map_row default_ref (lookup p rows)
unfolding tpath
lookup-migrated p rows = lookup-renamed p (fill default_ref rows) ∙ lookup-fill default_ref p rows

-- The file of a version that knew no tenants.
pub record IsOld (like : Str → Str → Bool) (f : Sqlite) : Type 0 where
  pub has_blobs : contains (codes "blob") f.tables ≡ true
  pub blobs_old : contains tenant_column f.blob_columns ≡ false
  pub refs_old : contains tenant_column f.ref_columns ≡ false
  pub bare : AllBare like f.db.refs

-- The file after its migration.
abbrev migrated_file : Sqlite → Sqlite
migrated_file f = record f {
  blob_columns = f.blob_columns ++ tenant_column ∷ [];
  ref_columns = f.ref_columns ++ tenant_column ∷ [];
  db = migrated_db f.db;
}

contains-append : (x : Str) (xs : List Str) → contains x (xs ++ x ∷ []) ≡ true
unfolding contains
contains-append x [] = ground arith
contains-append x (y ∷ xs) = ground (arith, contains-append x xs)

migrate_old :
    (like : Str → Str → Bool) (f : Sqlite)
    → IsLike like
    → IsOld like f
    → NodupKeys f.db.refs
    → migrate like f ≡ ok (migrated_file f)
unfolding migrate add_to_blob add_to_ref renamed
migrate_old like f l old distinct =
    rw
      (
        old.has_blobs,
        old.blobs_old,
        old.refs_old,
        rewrite_paths_lem like [] (fill default_ref f.db.refs) l
            (fill-AllBare like f.db.refs old.bare) (fill-NodupKeys default_ref f.db.refs distinct)
            (Apart-nil (fill default_ref f.db.refs)),
      )
      refl

migrate_again :
    (like : Str → Str → Bool) (f : Sqlite) → migrate like (migrated_file f) ≡ ok (migrated_file f)
unfolding migrate
migrate_again like f = ground (
  arith,
  contains-append tenant_column f.blob_columns,
  contains-append tenant_column f.ref_columns,
)

-- A file that has blobs and no tenants, and no path that the database finds like 'default/%', is
-- migrated without an exception: each path then stands for the default tenant's ref of that name,
-- with the same hash and times; the reference counts stay exact where they were; and a second
-- migration changes nothing.
pub migrate-IsCounted :
    (like : Str → Str → Bool) (f : Sqlite)
    → IsLike like
    → IsOld like f
    → IsCounted f.db
    → (g : Sqlite) × (migrate like f ≡ ok g)
      × ((p : Str)
          → lookup (tpath default_tenant p) g.db.refs ≡ map_row default_ref (lookup p f.db.refs))
      × IsCounted g.db
      × (migrate like g ≡ ok g)
migrate-IsCounted like f l old v = (
  migrated_file f,
  migrate_old like f l old v.unique,
  (λ p. lookup-migrated p f.db.refs),
  migrated_db-IsCounted f.db v,
  migrate_again like f,
)
