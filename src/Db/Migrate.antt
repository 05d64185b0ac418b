-- ===== src/Db/Migrate.antt =====
-- clawfs/db.py `make_engine` and `_migrate`: a database file of an older version gets its missing
-- columns, and the paths of its refs get their tenant. SQLite's `LIKE`, the opening of a file and
-- `create_all` are arguments.
pub mod Laws
use my_test_bot_repo.Prelude.{
  Str, Bool, true, false, not, ◌&&◌, ◌||◌, Option, none, some, List, [], ◌∷◌, ◌++◌, is_some,
  if◌then◌else◌, codes, str_eq,
}
use my_test_bot_repo.Prelude.Table.{Table, lookup}
use my_test_bot_repo.Text.{contains, starts_with}
use my_test_bot_repo.Result.{Result, ok, err, integrity_error}
use my_test_bot_repo.Db.{Db, Blob, Ref}

-- The tables that are there, the columns of two of them, and the rows. In a table without a column
-- `tenant_id`, that of the rows in `db` says nothing.
pub record Sqlite : Type 0 where
  pub tables : List Str
  pub blob_columns : List Str
  pub ref_columns : List Str
  pub db : Db

abbrev pub tenant_column : Str
tenant_column = codes "tenant_id"

-- The value of `DEFAULT 'default'`.
abbrev pub default_blob : Blob → Blob
default_blob b = record b { tenant_id = codes "default" }

abbrev pub default_ref : Ref → Ref
default_ref r = record r { tenant_id = codes "default" }

-- `ALTER TABLE ... ADD COLUMN` gives every row the default.
unfoldable pub fill : {V : Type 0} → (V → V) → Table Str V → Table Str V
fill f [] = []
fill f ((key, v) ∷ rows) = (key, f v) ∷ fill f rows

unfoldable pub add_to_blob : Sqlite → Sqlite
add_to_blob f = if contains tenant_column f.blob_columns then f else record f {
  blob_columns = f.blob_columns ++ tenant_column ∷ [];
  db = record f.db { blobs = fill default_blob f.db.blobs };
}

unfoldable pub add_to_ref : Sqlite → Sqlite
add_to_ref f = if contains tenant_column f.ref_columns then f else record f {
  ref_columns = f.ref_columns ++ tenant_column ∷ [];
  db = record f.db { refs = fill default_ref f.db.refs };
}

-- `'default/' || path`
abbrev pub with_default : Str → Str
with_default path = codes "default/" ++ path

-- A row is written if the rows behind it can be.
abbrev pub onto : Str × Ref → Result (Table Str Ref) → Result (Table Str Ref)
onto row (ok rows) = ok (row ∷ rows)
onto row (err e) = err e

-- The `UPDATE`, row by row; `like path prefix` is `path LIKE prefix || '%'`, and `before` are the
-- rows that are done. A new key that another row has fails.
unfoldable pub rewrite_paths :
    (Str → Str → Bool) → Table Str Ref → Table Str Ref → Result (Table Str Ref)
rewrite_paths like before [] = ok []
rewrite_paths like before ((path, r) ∷ rows) =
    let kept = rewrite_paths like ((path, r) ∷ before) rows in
    let moved = rewrite_paths like ((with_default path, r) ∷ before) rows in
    if like path (codes "default/")
    then onto (path, r) kept
    else if is_some (lookup (with_default path) before) || is_some (lookup (with_default path) rows)
    then err integrity_error
    else onto (with_default path, r) moved

abbrev pub with_refs : Sqlite → Result (Table Str Ref) → Result Sqlite
with_refs f (ok refs) = ok (record f { db = record f.db { refs = refs } })
with_refs f (err e) = err e

abbrev pub rewritten : (Str → Str → Bool) → Sqlite → Result Sqlite
rewritten like f = with_refs f (rewrite_paths like [] f.db.refs)

unfoldable pub migrate : (Str → Str → Bool) → Sqlite → Result Sqlite
migrate like f =
    if not (contains (codes "blob") f.tables)
    then ok f
    else if contains tenant_column f.blob_columns && contains tenant_column f.ref_columns
    then ok f
    else rewritten like (add_to_ref (add_to_blob f))

unfoldable pub make_engine :
    (Str → Bool → Sqlite) → (Sqlite → Sqlite) → (Str → Str → Bool) → Str → Result Sqlite
make_engine create_engine create_all like url =
    migrate like (create_all (create_engine url (starts_with url (codes "sqlite"))))
