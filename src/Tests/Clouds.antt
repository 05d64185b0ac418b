-- ===== src/Tests/Clouds.antt =====
-- Toy services behind the remote backends, and backends that the environment asks for.
use my_test_bot_repo.Prelude.{
  Str, Bytes, true, Option, none, some, List, [], ◌∷◌, ◌++◌, ◌≡◌, refl, arith, codes, str_eq,
  nat_eq, is_some, if◌then◌else◌,
}
use my_test_bot_repo.Prelude.Table.{Table, lookup, insert, erase, lookup-insert, lookup-erase}
use my_test_bot_repo.Text.{contains, starts_with, lower}
use my_test_bot_repo.Result.{ok}
use my_test_bot_repo.Storage.{IsLawful}
use my_test_bot_repo.Storage.Local.{iter_hashes, exists, put}
use my_test_bot_repo.Storage.Local.Listing.{contains-iter_hashes}
use my_test_bot_repo.Storage.Remote.{prefix, Reply, returned, raised}
use my_test_bot_repo.Storage.Remote.Clients.{
  AzureClient, S3Client, GcsClient, IsAzure, IsS3, IsGcs, found_or, Lists,
}
use my_test_bot_repo.Storage.Remote.Azure.{azure_storage, azure_storage-IsLawful}
use my_test_bot_repo.Storage.Remote.S3.{s3_storage, s3_storage-IsLawful}
use my_test_bot_repo.Storage.Remote.Gcs.{gcs_storage, gcs_storage-IsLawful}
use my_test_bot_repo.Storage.Config.{Environ, s3_init}
use my_test_bot_repo.Factory.{s3, make_storage}
use my_test_bot_repo.Factory.{local}
use my_test_bot_repo.Api.Metrics.{initial_counters}
use my_test_bot_repo.Setup.{Started, create_app, local_fs, cli_root, path_join}
use my_test_bot_repo.Setup.Laws.{create_app-IsConfigured}
use my_test_bot_repo.Factory.Laws.{IsConfigured}
use my_test_bot_repo.Storage.Local.{Files}
use my_test_bot_repo.Storage.Local.Listing.{is_kept}
use my_test_bot_repo.Storage.Local.Path.{resolve, objects}
use my_test_bot_repo.Tests.Data.{toy, toy_digest-IsDigest, root}

-- The names under a prefix of a bucket.
abbrev names_under : Str → Table Str Bytes → List Str
names_under start [] = []
names_under start ((n, d) ∷ s) =
    let rest = names_under start s in if starts_with n start then n ∷ rest else rest

names_under-Lists :
    (start : Str) (s : Table Str Bytes) → Lists (λ n. lookup n s) start (names_under start s)
unfolding contains lookup
names_under-Lists start [] n = ground arith
names_under-Lists start ((m, d) ∷ s) n = ground (arith, names_under-Lists start s n)

-- The reply to an upload that has to be the first for its name.
abbrev first_upload :
    Str → Bytes → Table Str Bytes → Option Bytes → Reply (Unit {0}) (Unit {0}) × Table Str Bytes
first_upload n d s none = (returned tt, insert n d s)
first_upload n d s (some old) = (raised tt, s)

abbrev toy_azure : AzureClient
toy_azure = record {
  State = Table Str Bytes;
  Exn = Unit;
  importable = true;
  is_resource_not_found = λ e. true;
  upload_blob = λ n d s. first_upload n d s (lookup n s);
  download_blob = λ n s. found_or (λ d. d) (lookup n s) tt;
  blob_exists = λ n s. returned (is_some (lookup n s));
  delete_blob = λ n s. (returned tt, erase n s);
  list_blobs = λ start s. returned (names_under start s);
}

toy_azure-IsAzure : IsAzure toy_azure
toy_azure-IsAzure = record {
  objects = λ s n. lookup n s;
  missing = λ n. tt;
  missing_lem = λ n. refl;
  importable_lem = refl;
  exists_lem = λ n s. refl;
  download_lem = λ n s. refl;
  upload_lem = λ n d s free. ground (arith, free);
  objects-upload = λ n m d s free. ground (arith, free, lookup-insert m n d s);
  objects-delete = λ n m s. lookup-erase m n s;
  names = names_under prefix;
  list_lem = λ s. refl;
  names_lem = names_under-Lists prefix;
}

azure_storage-IsLawful_example : IsLawful (azure_storage toy_azure)
azure_storage-IsLawful_example = azure_storage-IsLawful toy_azure toy_azure-IsAzure

-- The exceptions are the codes of `ClientError`.
abbrev toy_s3 : S3Client
toy_s3 = record {
  State = Table Str Bytes;
  Exn = Str;
  importable = true;
  error_code = some;
  put_object = λ n d s. (returned tt, insert n d s);
  get_object = λ n s. found_or (λ d. d) (lookup n s) (codes "NoSuchKey");
  head_object = λ n s. found_or (λ d. tt) (lookup n s) (codes "404");
  delete_object = λ n s. (returned tt, erase n s);
  paginate = λ start s. returned (none ∷ some (names_under start s) ∷ []);
}

one_page : (n : Str) (names : List Str) → contains n (names ++ []) ≡ contains n names
unfolding contains
one_page n [] = refl
one_page n (m ∷ names) = ground (arith, one_page n names)

toy_s3-IsS3 : IsS3 toy_s3
toy_s3-IsS3 = record {
  objects = λ s n. lookup n s;
  no_head = λ n. codes "404";
  no_key = λ n. codes "NoSuchKey";
  no_head_lem = λ n. refl;
  no_key_lem = λ n. refl;
  importable_lem = refl;
  head_lem = λ n s. refl;
  get_lem = λ n s. refl;
  put_lem = λ n d s. refl;
  objects-put = λ n m d s. lookup-insert m n d s;
  objects-delete = λ n m s. lookup-erase m n s;
  pages = λ s. none ∷ some (names_under prefix s) ∷ [];
  list_lem = λ s. refl;
  pages_lem =
      λ s n. ground (arith, one_page n (names_under prefix s), names_under-Lists prefix s n);
}

s3_storage-IsLawful_example : IsLawful (s3_storage toy_s3)
s3_storage-IsLawful_example = s3_storage-IsLawful toy_s3 toy_s3-IsS3

abbrev toy_gcs : GcsClient
toy_gcs = record {
  State = Table Str Bytes;
  Exn = Unit;
  importable = true;
  is_not_found = λ e. true;
  upload_from_string = λ n d s. (returned tt, insert n d s);
  download_as_bytes = λ n s. found_or (λ d. d) (lookup n s) tt;
  blob_exists = λ n s. returned (is_some (lookup n s));
  delete_blob = λ n s. (returned tt, erase n s);
  list_blobs = λ start s. returned (names_under start s);
}

toy_gcs-IsGcs : IsGcs toy_gcs
toy_gcs-IsGcs = record {
  objects = λ s n. lookup n s;
  missing = λ n. tt;
  missing_lem = λ n. refl;
  importable_lem = refl;
  exists_lem = λ n s. refl;
  download_lem = λ n s. refl;
  upload_lem = λ n d s. refl;
  objects-upload = λ n m d s. lookup-insert m n d s;
  objects-delete = λ n m s. lookup-erase m n s;
  names = names_under prefix;
  list_lem = λ s. refl;
  names_lem = names_under-Lists prefix;
}

gcs_storage-IsLawful_example : IsLawful (gcs_storage toy_gcs)
gcs_storage-IsLawful_example = gcs_storage-IsLawful toy_gcs toy_gcs-IsGcs

abbrev hi : Bytes
hi = codes "hi"

-- A blob, and a file that a put left behind.
abbrev files : Files
files =
    (codes "x.tmp" ∷ codes "ab" ∷ resolve (objects root), hi) ∷ put root (toy.hexdigest hi) hi []

contains-iter_hashes_example :
    (contains (codes "abx.tmp") (iter_hashes root files) ≡ is_kept root (codes "abx.tmp") files)
    × (contains (toy.hexdigest hi) (iter_hashes root files) ≡ exists root (toy.hexdigest hi) files)
contains-iter_hashes_example =
    contains-iter_hashes root (codes "abx.tmp") (toy.hexdigest hi) files (toy_digest-IsDigest hi)

-- A bucket of S3.
abbrev variables : Table Str Str
variables = (codes "CLAWFS_BACKEND", codes "S3") ∷ (codes "CLAWFS_S3_BUCKET", codes "notes") ∷ []

abbrev environ : Environ
environ key = lookup key variables

made_s3 :
    make_storage environ none
    ≡ ok (s3 (record { bucket = codes "notes"; endpoint_url = none; region = none }))
unfolding make_storage s3_init lookup lower str_eq nat_eq
made_s3 = refl

-- A server on the local disk.
abbrev disk_variables : Table Str Str
disk_variables = (codes "CLAWFS_BACKEND", codes "Local") ∷ (codes "CLAWFS_ROOT", codes "/data") ∷ []

abbrev disk_environ : Environ
disk_environ key = lookup key disk_variables

abbrev on_disk : Started
on_disk = record {
  fs = record { backend = local (codes "/data"); db_url = codes "sqlite:////data/clawfs.db" };
  scratch_root = codes "/data/uploads";
  counters = initial_counters;
}

starts_on_disk : create_app disk_environ none ≡ ok on_disk
unfolding create_app path_join make_storage lookup lower str_eq nat_eq
starts_on_disk = refl

create_app-IsConfigured_example :
    IsConfigured disk_environ (codes "/data") (local (codes "/data"))
    × (codes "sqlite:////data/clawfs.db" ≡ codes "sqlite:////data/clawfs.db")
    × (initial_counters ≡ initial_counters)
    × (local_fs (cli_root disk_environ none) ≡ ok on_disk.fs)
unfolding lookup str_eq nat_eq
create_app-IsConfigured_example = create_app-IsConfigured disk_environ on_disk starts_on_disk
