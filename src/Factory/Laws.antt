-- ===== src/Factory/Laws.antt =====
-- Which backend is made, and that it is fit for use.
use my_test_bot_repo.Prelude.{
  Str, true, Option, none, some, str_eq, ◌≡◌, ◌≢◌, ◌⊎◌, arith, [], codes, get_or, if◌then◌else◌,
}
use my_test_bot_repo.Text.{lower}
use my_test_bot_repo.Result.{ok}
use my_test_bot_repo.Storage.Config.{
  Environ, is_set, AzureConfig, S3Config, azure_init, s3_init, gcs_init,
}
use my_test_bot_repo.Factory.{Backend, azure, s3, gcs, local, make_storage, root_or_default}

-- What CLAWFS_BACKEND asks for, in small letters.
abbrev pub asked : Environ → Str
asked env = lower (get_or (env (codes "CLAWFS_BACKEND")) (codes "local"))

-- The name of the backend, with its settings: each is the value of the environment variable, and
-- what the backend cannot do without is there. `dir` is the directory of the local backend.
abbrev pub IsConfigured : Environ → Str → Backend → Type 0
IsConfigured env dir (azure cfg) =
    (asked env ≡ codes "azure")
    × (env (codes "CLAWFS_AZURE_CONTAINER") ≡ some cfg.container)
    × (cfg.connection_string ≡ env (codes "AZURE_STORAGE_CONNECTION_STRING"))
    × (cfg.account_url ≡ env (codes "CLAWFS_AZURE_ACCOUNT_URL"))
    × (cfg.container ≢ [])
    × ((is_set cfg.connection_string ≡ true) ⊎ (is_set cfg.account_url ≡ true))
IsConfigured env dir (s3 cfg) =
    (asked env ≡ codes "s3")
    × (env (codes "CLAWFS_S3_BUCKET") ≡ some cfg.bucket)
    × (cfg.bucket ≢ [])
    × (cfg.endpoint_url ≡ env (codes "CLAWFS_S3_ENDPOINT_URL"))
    × (cfg.region ≡ (
        if is_set (env (codes "CLAWFS_S3_REGION"))
        then env (codes "CLAWFS_S3_REGION")
        else env (codes "AWS_REGION")))
IsConfigured env dir (gcs bucket) =
    (asked env ≡ codes "gcs") × (env (codes "CLAWFS_GCS_BUCKET") ≡ some bucket) × (bucket ≢ [])
IsConfigured env dir (local root) = (asked env ≡ codes "local") × (root ≡ dir) × (root ≢ [])

azure_init-ok :
    (env : Environ) (cfg : AzureConfig)
    → azure_init env none none none ≡ ok cfg
    → (env (codes "CLAWFS_AZURE_CONTAINER") ≡ some cfg.container)
      × (cfg.connection_string ≡ env (codes "AZURE_STORAGE_CONNECTION_STRING"))
      × (cfg.account_url ≡ env (codes "CLAWFS_AZURE_ACCOUNT_URL"))
      × (cfg.container ≢ [])
      × ((is_set cfg.connection_string ≡ true) ⊎ (is_set cfg.account_url ≡ true))
unfolding azure_init
azure_init-ok env cfg made = ground arith

s3_init-ok :
    (env : Environ) (cfg : S3Config)
    → s3_init env none none none ≡ ok cfg
    → (env (codes "CLAWFS_S3_BUCKET") ≡ some cfg.bucket)
      × (cfg.bucket ≢ [])
      × (cfg.endpoint_url ≡ env (codes "CLAWFS_S3_ENDPOINT_URL"))
      × (cfg.region ≡ (
          if is_set (env (codes "CLAWFS_S3_REGION"))
          then env (codes "CLAWFS_S3_REGION")
          else env (codes "AWS_REGION")))
unfolding s3_init
s3_init-ok env cfg made = ground arith

gcs_init-ok :
    (env : Environ) (bucket : Str)
    → gcs_init env none ≡ ok bucket
    → (env (codes "CLAWFS_GCS_BUCKET") ≡ some bucket) × (bucket ≢ [])
unfolding gcs_init
gcs_init-ok env bucket made = ground arith

-- A backend that is made is the one that CLAWFS_BACKEND names, in any letter case, with the
-- settings of the environment; the local one is in the given directory, if it is not empty, or in
-- that of CLAWFS_ROOT.
pub make_storage-IsConfigured :
    (env : Environ) (root : Option Str) (b : Backend)
    → make_storage env root ≡ ok b
    → IsConfigured env (root_or_default env root) b
unfolding make_storage
make_storage-IsConfigured env root (azure cfg) made = ground (arith, azure_init-ok env cfg)
make_storage-IsConfigured env root (s3 cfg) made = ground (arith, s3_init-ok env cfg)
make_storage-IsConfigured env root (gcs bucket) made = ground (arith, gcs_init-ok env bucket)
make_storage-IsConfigured env root (local path) made = ground arith
