-- ===== src/Setup.antt =====
-- How the parts are put together: the constructors of clawfs/core.py, the first lines of
-- clawfs/api.py `create_app`, and `_fs` of the command lines.
pub mod Laws
use my_test_bot_repo.Prelude.{
  ℕ, Str, Bool, true, false, ◌||◌, Option, none, some, [], ◌∷◌, ◌++◌, ◌==◌, str_eq, nat_eq, get_or,
  codes, if◌then◌else◌,
}
use my_test_bot_repo.Prelude.Table.{Table}
use my_test_bot_repo.Result.{Result, ok, err}
use my_test_bot_repo.Storage.Config.{Environ}
use my_test_bot_repo.Factory.{Backend, made_dir, make_storage, root_or_default}
use my_test_bot_repo.Api.Metrics.{initial_counters}

-- `ClawFS(storage, db_url)`
pub record ClawFs : Type 0 where
  pub backend : Backend
  pub db_url : Str

-- `f"sqlite:///{root}/clawfs.db"`
abbrev pub db_url_in : Str → Str
db_url_in root = codes "sqlite:///" ++ (root ++ codes "/clawfs.db")

abbrev opened : Str → Result Backend → Result ClawFs
opened root (ok backend) = ok (record { backend = backend; db_url = db_url_in root })
opened root (err e) = err e

-- `ClawFS.local(root)`
unfoldable pub local_fs : Str → Result ClawFs
local_fs root = opened root (made_dir root)

-- The root of `clawfs`, from its option or the environment.
unfoldable pub cli_root : Environ → Option Str → Str
cli_root env none = get_or (env (codes "CLAWFS_ROOT")) (codes "./clawfs-data")
cli_root env (some root) = root

-- `os.path.join(root, name)` for a relative name
unfoldable pub path_join : Str → Str → Str
path_join [] name = name
path_join (c ∷ []) name = if c == 47 then c ∷ name else c ∷ 47 ∷ name
path_join (c ∷ d ∷ s) name = c ∷ path_join (d ∷ s) name

-- What a server starts with.
pub record Started : Type 0 where
  pub fs : ClawFs
  pub scratch_root : Str
  pub counters : Table Str ℕ

abbrev started : Str → Result ClawFs → Result Started
started root (ok fs) = ok (record {
  fs = fs;
  scratch_root = path_join root (codes "uploads");
  counters = initial_counters;
})
started root (err e) = err e

-- The directory is made before the backend.
abbrev with_dir : Environ → Str → Result Backend → Result Started
with_dir env root (ok made) = started root (opened root (make_storage env (some root)))
with_dir env root (err e) = err e

unfoldable pub create_app : Environ → Option Str → Result Started
unfolding path_join
create_app env root = let r = root_or_default env root in with_dir env r (made_dir r)
