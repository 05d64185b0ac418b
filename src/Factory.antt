-- ===== src/Factory.antt =====
-- clawfs/factory.py: the backend that the environment asks for.
pub mod Laws
use my_test_bot_repo.Prelude.{
  Str, Bool, true, false, Option, none, some, get_or, str_eq, ◌==◌, if◌then◌else◌, codes, [], ◌∷◌,
}
use my_test_bot_repo.Text.{lower, split}
use my_test_bot_repo.Result.{Result, ok, err, value_error, file_not_found}
use my_test_bot_repo.Storage.Config.{
  Environ, or_else, AzureConfig, S3Config, azure_init, s3_init, gcs_init,
}

-- The class, with what its constructor keeps; for `LocalStorage` that is its root.
pub data Backend : Type 0 where
  azure : AzureConfig → Backend
  s3 : S3Config → Backend
  gcs : Str → Backend
  local : Str → Backend

abbrev built : {A : Type 0} → (A → Backend) → Result A → Result Backend
built f (ok a) = ok (f a)
built f (err e) = err e

-- `os.makedirs` refuses the empty path.
abbrev pub made_dir : Str → Result Backend
made_dir [] = err file_not_found
made_dir (c ∷ s) = ok (local (c ∷ s))

abbrev pub backend_name : Environ → Str
backend_name env = lower (get_or (env (codes "CLAWFS_BACKEND")) (codes "local"))

-- `root or os.environ.get("CLAWFS_ROOT", "./clawfs-data")`
abbrev pub root_or_default : Environ → Option Str → Str
root_or_default env root =
    get_or (or_else root (some (get_or (env (codes "CLAWFS_ROOT")) (codes "./clawfs-data")))) []

unfoldable pub make_storage : Environ → Option Str → Result Backend
make_storage env root =
    if backend_name env == codes "azure"
    then built azure (azure_init env none none none)
    else if backend_name env == codes "s3"
    then built s3 (s3_init env none none none)
    else if backend_name env == codes "gcs"
    then built gcs (gcs_init env none)
    else if backend_name env == codes "local"
    then made_dir (root_or_default env root)
    else err value_error
