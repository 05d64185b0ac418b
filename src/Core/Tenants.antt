-- ===== src/Core/Tenants.antt =====
-- clawfs/core.py: `upsert_tenant` and `tenant_for_token`.
pub mod Laws
use my_test_bot_repo.Prelude.{
  ℕ, Str, Bool, Option, none, some, List, [], ◌∷◌, str_eq, get_or, if◌then◌else◌,
}
use my_test_bot_repo.Prelude.Int.{ℤ}
use my_test_bot_repo.Prelude.Table.{Table, lookup, insert}
use my_test_bot_repo.Text.{is_empty, contains, split, join, stripped}
use my_test_bot_repo.Db.{Db, Tenant}

-- ','
abbrev pub comma : ℕ
comma = 44

abbrev pub new_tenant : ℕ → Str → Tenant
new_tenant now name = record {
  name = name;
  tokens_csv = [];
  max_bytes = none;
  max_objects = none;
  used_bytes = 0;
  used_objects = 0;
  created_at = now;
}

-- A limit that is given replaces the old one.
abbrev pub given : Option ℤ → Option ℤ → Option ℤ
given none old = old
given (some limit) old = some limit

abbrev pub csv_of : Option (List Str) → Str → Str
csv_of none old = old
csv_of (some tokens) old = join comma (stripped tokens)

unfoldable pub set_fields : Str → Option (List Str) → Option ℤ → Option ℤ → Tenant → Tenant
set_fields name tokens max_bytes max_objects t = record t {
  name = if is_empty name then t.name else name;
  tokens_csv = csv_of tokens t.tokens_csv;
  max_bytes = given max_bytes t.max_bytes;
  max_objects = given max_objects t.max_objects;
}

-- The row is returned beside the database.
unfoldable pub upsert_tenant :
    ℕ → Str → Str → Option (List Str) → Option ℤ → Option ℤ → Db → Tenant × Db
unfolding set_fields
upsert_tenant now tenant_id name tokens max_bytes max_objects db =
    let t =
      set_fields name tokens max_bytes max_objects
        (get_or (lookup tenant_id db.tenants) (new_tenant now name)) in
    (t, record db { tenants = insert tenant_id t db.tenants })

-- `token in {x.strip() for x in t.tokens_csv.split(",") if x.strip()}`
unfoldable pub has_token : Str → Tenant → Bool
has_token token t = contains token (stripped (split comma t.tokens_csv))

unfoldable pub find_tenant : Str → Table Str Tenant → Option Str
unfolding has_token
find_tenant token [] = none
find_tenant token ((id, t) ∷ rest) =
    let later = find_tenant token rest in
    if is_empty t.tokens_csv then later else if has_token token t then some id else later

unfoldable pub tenant_for_token : Str → Db → Option Str
unfolding find_tenant
tenant_for_token token db = find_tenant token db.tenants
