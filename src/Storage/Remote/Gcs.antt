-- ===== src/Storage/Remote/Gcs.antt =====
-- clawfs/storage.py: the methods of `GCSStorage`, on a client that is there.
use my_test_bot_repo.Prelude.{
  Str, Bytes, Bool, ◌&&◌, Option, some, List, ◌≡◌, arith, if◌then◌else◌, str_eq, ◌==◌, is_some,
  get_or,
}
use my_test_bot_repo.Text.{contains}
use my_test_bot_repo.Result.{Result, ok, err, file_not_found, backend_error}
use my_test_bot_repo.Storage.{Storage, IsDigest, IsLawful}
use my_test_bot_repo.Storage.Remote.{hashes_of}
use my_test_bot_repo.Storage.Remote.{
  Reply, returned, raised, prefix, name, through, written, listed_hashes, unless_there,
}
use my_test_bot_repo.Storage.Remote.Clients.{GcsClient, IsGcs}
use my_test_bot_repo.Storage.Remote.Names.{name-injective, contains-hashes_of}

module _ (C : GcsClient) where
  unfoldable pub exists : Str → C.State → Result Bool
  exists hash_hex s = through (C.blob_exists (name hash_hex) s)

  unfoldable pub put : Str → Bytes → C.State → Result (Unit {0}) × C.State
  unfolding exists
  put hash_hex bytes s =
      unless_there (exists hash_hex s) s (written (C.upload_from_string (name hash_hex) bytes s))

  -- The handler of `get`: `NotFound` becomes `FileNotFoundError`.
  abbrev pub not_found : Reply C.Exn Bytes → Result Bytes
  not_found (returned bytes) = ok bytes
  not_found (raised e) =
      if C.importable && C.is_not_found e then err file_not_found else err backend_error

  unfoldable pub get : Str → C.State → Result Bytes
  get hash_hex s = not_found (C.download_as_bytes (name hash_hex) s)

  -- Whatever `delete` raises is dropped.
  unfoldable pub delete : Str → C.State → C.State
  delete hash_hex s = (C.delete_blob (name hash_hex) s).1

  unfoldable pub iter_hashes : C.State → Result (List Str)
  iter_hashes s = listed_hashes (C.list_blobs prefix s)

  -- `put_path` is the default one: it puts the contents of the file.
  abbrev pub gcs_storage : Storage
  gcs_storage = record {
    State = C.State;
    put = put;
    put_path = put;
    get = get;
    exists = exists;
    delete = delete;
  }

  module _ (L : IsGcs C) where
    -- The object behind a digest.
    abbrev pub gcs_contents : C.State → Str → Option Bytes
    gcs_contents s h = L.objects s (name h)

    put_lem : (h : Str) (d : Bytes) (s : C.State) → (put h d s).0 ≡ ok tt
    unfolding put
    put_lem h d s = ground (arith, L.exists_lem (name h) s, L.upload_lem (name h) d s)

    contents-put :
        (h k : Str) (d : Bytes) (s : C.State)
        → IsDigest h
        → IsDigest k
        → gcs_contents (put h d s).1 k
          ≡ (if k == h then some (get_or (gcs_contents s h) d) else gcs_contents s k)
    unfolding put
    contents-put h k d s dh dk = ground (
      arith,
      L.exists_lem (name h) s,
      L.objects-upload (name h) (name k) d s,
      name-injective k h dk dh,
    )

    -- Over a client that behaves as documented, `GCSStorage` is a lawful backend.
    pub gcs_storage-IsLawful : IsLawful gcs_storage
    unfolding get exists delete
    gcs_storage-IsLawful = record {
      contents = gcs_contents;
      get_lem = λ h s dh.
          ground (arith, L.download_lem (name h) s, L.missing_lem (name h), L.importable_lem);
      exists_lem = λ h s dh. ground (arith, L.exists_lem (name h) s);
      put_lem = λ h d s dh. put_lem h d s;
      put_path_lem = λ h d s dh. put_lem h d s;
      contents-put = contents-put;
      contents-put_path = contents-put;
      contents-delete = λ h k s dh dk.
          ground (arith, L.objects-delete (name h) (name k) s, name-injective k h dk dh);
    }

    -- Over a client that behaves as documented: the hashes that are listed are those of the stored
    -- objects, among digests.
    pub iter_hashes_lem :
        (h : Str) (s : C.State)
        → IsDigest h
        → (hs : List Str) × (iter_hashes s ≡ ok hs) × (contains h hs ≡ is_some (gcs_contents s h))
    unfolding iter_hashes
    iter_hashes_lem h s dh = (
      hashes_of (L.names s),
      ground (arith, L.list_lem s),
      contains-hashes_of (L.objects s) (L.names s) h (L.names_lem s) dh,
    )
