-- ===== src/Core/Paths.antt =====
-- clawfs/core.py `_tpath` and `_untpath`: the storage form of a path.
pub mod Laws
use my_test_bot_repo.Prelude.{Str, ◌∷◌, [], ◌++◌, length, drop, if◌then◌else◌, codes}
use my_test_bot_repo.Text.{starts_with}

-- '/'
abbrev pub slash : Str
slash = 47 ∷ []

unfoldable pub tpath : Str → Str → Str
tpath tenant_id path = tenant_id ++ slash ++ path

unfoldable pub untpath : Str → Str → Str
untpath tenant_id stored =
    let prefix = tenant_id ++ slash in
    if starts_with stored prefix then drop (length prefix) stored else stored

abbrev pub default_tenant : Str
default_tenant = codes "default"
