-- ===== src/Storage/Remote/Clients.antt =====
-- The clients of the three SDKs: the calls that clawfs/storage.py makes, and their documented
-- behaviour over a container of named objects.
use my_test_bot_repo.Prelude.{
  Str, Bytes, Bool, true, ◌&&◌, Option, none, some, List, [], ◌∷◌, ◌++◌, ◌==◌, str_eq, ◌≡◌, is_some,
  if◌then◌else◌, codes,
}
use my_test_bot_repo.Text.{contains, starts_with}
use my_test_bot_repo.Storage.Remote.{prefix, Reply, returned, raised}

-- `azure.storage.blob.ContainerClient`. `importable` says whether `azure.core.exceptions` can be
-- imported where an exception is handled.
pub record AzureClient : Type 1 where
  pub State : Type 0
  pub Exn : Type 0
  pub importable : Bool
  pub is_resource_not_found : Exn → Bool
  pub upload_blob : Str → Bytes → State → Reply Exn (Unit {0}) × State
  pub download_blob : Str → State → Reply Exn Bytes
  pub blob_exists : Str → State → Reply Exn Bool
  pub delete_blob : Str → State → Reply Exn (Unit {0}) × State
  pub list_blobs : Str → State → Reply Exn (List Str)

-- A boto3 client and its bucket. `error_code` is the code of a `ClientError`, and `none` for any
-- other exception. A page of a listing may have no "Contents".
pub record S3Client : Type 1 where
  pub State : Type 0
  pub Exn : Type 0
  pub importable : Bool
  pub error_code : Exn → Option Str
  pub put_object : Str → Bytes → State → Reply Exn (Unit {0}) × State
  pub get_object : Str → State → Reply Exn Bytes
  pub head_object : Str → State → Reply Exn (Unit {0})
  pub delete_object : Str → State → Reply Exn (Unit {0}) × State
  pub paginate : Str → State → Reply Exn (List (Option (List Str)))

-- A `google.cloud.storage` bucket.
pub record GcsClient : Type 1 where
  pub State : Type 0
  pub Exn : Type 0
  pub importable : Bool
  pub is_not_found : Exn → Bool
  pub upload_from_string : Str → Bytes → State → Reply Exn (Unit {0}) × State
  pub download_as_bytes : Str → State → Reply Exn Bytes
  pub blob_exists : Str → State → Reply Exn Bool
  pub delete_blob : Str → State → Reply Exn (Unit {0}) × State
  pub list_blobs : Str → State → Reply Exn (List Str)

-- The reply to a read of an object that may be missing.
abbrev pub found_or : {E A : Type 0} → (Bytes → A) → Option Bytes → E → Reply E A
found_or f none e = raised e
found_or f (some d) e = returned (f d)

-- The keys of the pages of a listing.
abbrev pub keys_of : List (Option (List Str)) → List Str
keys_of [] = []
keys_of (none ∷ pages) = keys_of pages
keys_of (some keys ∷ pages) = keys ++ keys_of pages

-- Names that stand for objects with the prefix, and no others, are listed.
abbrev pub Lists : (Str → Option Bytes) → Str → List Str → Type 0
Lists objects start names =
    (n : Str) → contains n names ≡ (starts_with n start && is_some (objects n))

pub record IsAzure (C : AzureClient) : Type 0 where
  pub objects : C.State → Str → Option Bytes
  pub missing : Str → C.Exn
  pub missing_lem : (n : Str) → C.is_resource_not_found (missing n) ≡ true
  pub importable_lem : C.importable ≡ true
  pub exists_lem : (n : Str) (s : C.State) → C.blob_exists n s ≡ returned (is_some (objects s n))
  pub download_lem :
      (n : Str) (s : C.State) → C.download_blob n s ≡ found_or (λ d. d) (objects s n) (missing n)
  -- Without `overwrite`, an upload is accepted for a new name.
  pub upload_lem :
      (n : Str) (d : Bytes) (s : C.State)
      → objects s n ≡ none
      → (C.upload_blob n d s).0 ≡ returned tt
  pub objects-upload :
      (n m : Str) (d : Bytes) (s : C.State)
      → objects s n ≡ none
      → objects (C.upload_blob n d s).1 m ≡ (if m == n then some d else objects s m)
  pub objects-delete :
      (n m : Str) (s : C.State)
      → objects (C.delete_blob n s).1 m ≡ (if m == n then none else objects s m)
  pub names : C.State → List Str
  pub list_lem : (s : C.State) → C.list_blobs prefix s ≡ returned (names s)
  pub names_lem : (s : C.State) → Lists (objects s) prefix (names s)

pub record IsS3 (C : S3Client) : Type 0 where
  pub objects : C.State → Str → Option Bytes
  pub no_head : Str → C.Exn
  pub no_key : Str → C.Exn
  -- A HEAD has no body, so its code is the status.
  pub no_head_lem : (n : Str) → C.error_code (no_head n) ≡ some (codes "404")
  pub no_key_lem : (n : Str) → C.error_code (no_key n) ≡ some (codes "NoSuchKey")
  pub importable_lem : C.importable ≡ true
  pub head_lem :
      (n : Str) (s : C.State) → C.head_object n s ≡ found_or (λ d. tt) (objects s n) (no_head n)
  pub get_lem :
      (n : Str) (s : C.State) → C.get_object n s ≡ found_or (λ d. d) (objects s n) (no_key n)
  pub put_lem : (n : Str) (d : Bytes) (s : C.State) → (C.put_object n d s).0 ≡ returned tt
  pub objects-put :
      (n m : Str) (d : Bytes) (s : C.State)
      → objects (C.put_object n d s).1 m ≡ (if m == n then some d else objects s m)
  pub objects-delete :
      (n m : Str) (s : C.State)
      → objects (C.delete_object n s).1 m ≡ (if m == n then none else objects s m)
  pub pages : C.State → List (Option (List Str))
  pub list_lem : (s : C.State) → C.paginate prefix s ≡ returned (pages s)
  pub pages_lem : (s : C.State) → Lists (objects s) prefix (keys_of (pages s))

pub record IsGcs (C : GcsClient) : Type 0 where
  pub objects : C.State → Str → Option Bytes
  pub missing : Str → C.Exn
  pub missing_lem : (n : Str) → C.is_not_found (missing n) ≡ true
  pub importable_lem : C.importable ≡ true
  pub exists_lem : (n : Str) (s : C.State) → C.blob_exists n s ≡ returned (is_some (objects s n))
  pub download_lem :
      (n : Str) (s : C.State)
      → C.download_as_bytes n s ≡ found_or (λ d. d) (objects s n) (missing n)
  pub upload_lem :
      (n : Str) (d : Bytes) (s : C.State) → (C.upload_from_string n d s).0 ≡ returned tt
  pub objects-upload :
      (n m : Str) (d : Bytes) (s : C.State)
      → objects (C.upload_from_string n d s).1 m ≡ (if m == n then some d else objects s m)
  pub objects-delete :
      (n m : Str) (s : C.State)
      → objects (C.delete_blob n s).1 m ≡ (if m == n then none else objects s m)
  pub names : C.State → List Str
  pub list_lem : (s : C.State) → C.list_blobs prefix s ≡ returned (names s)
  pub names_lem : (s : C.State) → Lists (objects s) prefix (names s)
