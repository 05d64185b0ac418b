-- ===== src/Storage/Config.antt =====
-- clawfs/storage.py: the constructors of the remote backends, and how they come by their clients.
-- The environment is an argument, and so are the SDKs.
pub mod Laws
use my_test_bot_repo.Prelude.{
  Str, Bool, true, false, not, ◌&&◌, Option, none, some, List, [], ◌∷◌, ◌++◌, is_some,
  if◌then◌else◌, codes,
}
use my_test_bot_repo.Result.{Result, ok, err, value_error, import_error}

-- `os.environ.get`
abbrev pub Environ : Type 0
Environ = Str → Option Str

-- `a or b`, where an empty text counts for nothing
abbrev pub or_else : Option Str → Option Str → Option Str
or_else none b = b
or_else (some []) b = b
or_else (some (c ∷ s)) b = some (c ∷ s)

-- The truth value of an optional text.
abbrev pub is_set : Option Str → Bool
is_set none = false
is_set (some []) = false
is_set (some (c ∷ s)) = true

-- A value that has to be there.
abbrev pub required : Option Str → Result Str
required none = err value_error
required (some []) = err value_error
required (some (c ∷ s)) = ok (c ∷ s)

pub record AzureConfig : Type 0 where
  pub container : Str
  pub connection_string : Option Str
  pub account_url : Option Str

abbrev azure_with : Option Str → Option Str → Result Str → Result AzureConfig
azure_with connection account (err e) = err e
azure_with connection account (ok container) =
    if not (is_set connection) && not (is_set account)
    then err value_error
    else ok
        (record { container = container; connection_string = connection; account_url = account })

unfoldable pub azure_init : Environ → Option Str → Option Str → Option Str → Result AzureConfig
azure_init env container connection_string account_url =
    azure_with (or_else connection_string (env (codes "AZURE_STORAGE_CONNECTION_STRING")))
      (or_else account_url (env (codes "CLAWFS_AZURE_ACCOUNT_URL")))
      (required (or_else container (env (codes "CLAWFS_AZURE_CONTAINER"))))

pub record S3Config : Type 0 where
  pub bucket : Str
  pub endpoint_url : Option Str
  pub region : Option Str

abbrev s3_with : Option Str → Option Str → Result Str → Result S3Config
s3_with endpoint region (err e) = err e
s3_with endpoint region (ok bucket) =
    ok (record { bucket = bucket; endpoint_url = endpoint; region = region })

unfoldable pub s3_init : Environ → Option Str → Option Str → Option Str → Result S3Config
s3_init env bucket endpoint_url region =
    s3_with (or_else endpoint_url (env (codes "CLAWFS_S3_ENDPOINT_URL")))
      (or_else (or_else region (env (codes "CLAWFS_S3_REGION"))) (env (codes "AWS_REGION")))
      (required (or_else bucket (env (codes "CLAWFS_S3_BUCKET"))))

-- The name of the bucket.
unfoldable pub gcs_init : Environ → Option Str → Result Str
gcs_init env bucket = required (or_else bucket (env (codes "CLAWFS_GCS_BUCKET")))

-- The packages `azure.storage.blob` and `azure.identity`. `create_container` is a call whose
-- exceptions are dropped.
pub record AzureSdk : Type 1 where
  pub Cred : Type 0
  pub Service : Type 0
  pub Container : Type 0
  pub State : Type 0
  pub blob_importable : Bool
  pub identity_importable : Bool
  pub from_connection_string : Str → Result Service
  pub with_credential : Option Str → Cred → Result Service
  pub default_credential : Cred
  pub get_container : Service → Str → Container
  pub create_container : Container → State → State

module _ (K : AzureSdk) (cfg : AzureConfig) (credential : Option K.Cred) where
  abbrev credential_or_default : Result K.Cred
  credential_or_default = elim credential [
    | some cred ↦ ok cred
    | none ↦ if K.identity_importable then ok K.default_credential else err import_error
  ]

  abbrev with_cred : Result K.Cred → Result K.Service
  with_cred (ok cred) = K.with_credential cfg.account_url cred
  with_cred (err e) = err e

  abbrev login : Option Str → Result K.Service
  login none = with_cred credential_or_default
  login (some []) = with_cred credential_or_default
  login (some (c ∷ s)) = K.from_connection_string (c ∷ s)

  abbrev opened : Result K.Service → K.State → Result K.Container × (Option K.Container × K.State)
  opened (err e) s = (err e, (none, s))
  opened (ok service) s =
      let c = K.get_container service cfg.container in (ok c, (some c, K.create_container c s))

  -- `_client_lazy`, on `self._client` and the service.
  unfoldable pub azure_client_lazy :
      Option K.Container → K.State → Result K.Container × (Option K.Container × K.State)
  azure_client_lazy (some c) s = (ok c, (some c, s))
  azure_client_lazy none s =
      if K.blob_importable
      then opened (login cfg.connection_string) s
      else (err import_error, (none, s))

abbrev keyword : Str → Option Str → List (Str × Str)
keyword key none = []
keyword key (some []) = []
keyword key (some (c ∷ s)) = (key, c ∷ s) ∷ []

-- `boto3.client("s3", **kwargs)` with its keyword arguments.
pub record Boto : Type 1 where
  pub Client : Type 0
  pub importable : Bool
  pub client : List (Str × Str) → Result Client

abbrev kept : {A : Type 0} → Result A → Result A × Option A
kept (ok a) = (ok a, some a)
kept (err e) = (err e, none)

unfoldable pub s3_client_lazy :
    (K : Boto) → S3Config → Option K.Client → Result K.Client × Option K.Client
s3_client_lazy K cfg (some c) = (ok c, some c)
s3_client_lazy K cfg none =
    if K.importable
    then kept (
        K.client (
          keyword (codes "endpoint_url") cfg.endpoint_url
          ++ keyword (codes "region_name") cfg.region))
    else (err import_error, none)

-- `google.cloud.storage`: a client, which may be given to the constructor, and its buckets.
pub record Gcs : Type 1 where
  pub Client : Type 0
  pub Bucket : Type 0
  pub importable : Bool
  pub client : Result Client
  pub bucket : Client → Str → Bucket

module _ (K : Gcs) (bucket_name : Str) where
  -- `self._client` and `self._bucket`
  abbrev Cached : Type 0
  Cached = Option K.Client × Option K.Bucket

  abbrev with_client : Result K.Client → Result K.Bucket × Cached
  with_client (err e) = (err e, (none, none))
  with_client (ok c) = let b = K.bucket c bucket_name in (ok b, (some c, some b))

  unfoldable pub gcs_bucket_lazy : Cached → Result K.Bucket × Cached
  gcs_bucket_lazy (client, some b) = (ok b, (client, some b))
  gcs_bucket_lazy (some c, none) = with_client (ok c)
  gcs_bucket_lazy (none, none) = with_client (if K.importable then K.client else err import_error)
