-- ===== src/Storage/Remote/S3.antt =====
-- clawfs/storage.py: the methods of `S3Storage`, on a client that is there.
use my_test_bot_repo.Prelude.{
  Str, Bytes, Bool, true, false, ◌&&◌, Option, none, some, List, [], ◌∷◌, ◌≡◌, arith, if◌then◌else◌,
  str_eq, ◌==◌, is_some, get_or, codes,
}
use my_test_bot_repo.Text.{contains}
use my_test_bot_repo.Result.{Result, ok, err, file_not_found, backend_error}
use my_test_bot_repo.Storage.{Storage, IsDigest, IsLawful}
use my_test_bot_repo.Storage.Remote.{
  Reply, returned, raised, prefix, name, hashes_of, written, unless_there,
}
use my_test_bot_repo.Storage.Remote.Clients.{S3Client, IsS3, keys_of}
use my_test_bot_repo.Storage.Remote.Names.{name-injective, contains-hashes_of}

-- The codes by which a `ClientError` says that there is no object.
abbrev pub absence_codes : List Str
absence_codes = codes "NoSuchKey" ∷ codes "404" ∷ codes "NotFound" ∷ []

abbrev pub is_absence : Option Str → Bool
is_absence none = false
is_absence (some code) = contains code absence_codes

module _ (C : S3Client) where
  abbrev pub is_absent : C.Exn → Bool
  is_absent e = C.importable && is_absence (C.error_code e)

  abbrev pub head_reply : Reply C.Exn (Unit {0}) → Result Bool
  head_reply (returned u) = ok true
  head_reply (raised e) = if is_absent e then ok false else err backend_error

  unfoldable pub exists : Str → C.State → Result Bool
  exists hash_hex s = head_reply (C.head_object (name hash_hex) s)

  unfoldable pub put : Str → Bytes → C.State → Result (Unit {0}) × C.State
  unfolding exists
  put hash_hex bytes s =
      unless_there (exists hash_hex s) s (written (C.put_object (name hash_hex) bytes s))

  abbrev pub not_found : Reply C.Exn Bytes → Result Bytes
  not_found (returned bytes) = ok bytes
  not_found (raised e) = if is_absent e then err file_not_found else err backend_error

  unfoldable pub get : Str → C.State → Result Bytes
  get hash_hex s = not_found (C.get_object (name hash_hex) s)

  -- Whatever `delete_object` raises is dropped.
  unfoldable pub delete : Str → C.State → C.State
  delete hash_hex s = (C.delete_object (name hash_hex) s).1

  abbrev pub paged_hashes : Reply C.Exn (List (Option (List Str))) → Result (List Str)
  paged_hashes (returned pages) = ok (hashes_of (keys_of pages))
  paged_hashes (raised e) = err backend_error

  unfoldable pub iter_hashes : C.State → Result (List Str)
  iter_hashes s = paged_hashes (C.paginate prefix s)

  -- `put_path` is the default one: it puts the contents of the file.
  abbrev pub s3_storage : Storage
  s3_storage = record {
    State = C.State;
    put = put;
    put_path = put;
    get = get;
    exists = exists;
    delete = delete;
  }

  -- With any client: where the test for the object raises, a put goes on to the upload only if the
  -- exception is an absence; otherwise it raises and writes nothing.
  pub put_uploads :
      (h : Str) (d : Bytes) (s : C.State) (e : C.Exn)
      → C.head_object (name h) s ≡ raised e
      → put h d s
        ≡ (if is_absent e then written (C.put_object (name h) d s) else (err backend_error, s))
  unfolding put
  put_uploads h d s e failed = ground (arith, failed)

  module _ (L : IsS3 C) where
    -- The object behind a digest.
    abbrev pub s3_contents : C.State → Str → Option Bytes
    s3_contents s h = L.objects s (name h)

    head_absent : (n : Str) → is_absent (L.no_head n) ≡ true
    unfolding contains
    head_absent n = ground (arith, L.no_head_lem n, L.importable_lem)

    get_absent : (n : Str) → is_absent (L.no_key n) ≡ true
    unfolding contains
    get_absent n = ground (arith, L.no_key_lem n, L.importable_lem)

    exists_lem : (h : Str) (s : C.State) → exists h s ≡ ok (is_some (s3_contents s h))
    unfolding exists
    exists_lem h s = ground (arith, L.head_lem (name h) s, head_absent (name h))

    put_lem : (h : Str) (d : Bytes) (s : C.State) → (put h d s).0 ≡ ok tt
    unfolding put
    put_lem h d s = ground (arith, exists_lem h s, L.put_lem (name h) d s)

    contents-put :
        (h k : Str) (d : Bytes) (s : C.State)
        → IsDigest h
        → IsDigest k
        → s3_contents (put h d s).1 k
          ≡ (if k == h then some (get_or (s3_contents s h) d) else s3_contents s k)
    unfolding put
    contents-put h k d s dh dk =
        ground
          (arith, exists_lem h s, L.objects-put (name h) (name k) d s, name-injective k h dk dh)

    -- Over a client that behaves as documented, `S3Storage` is a lawful backend.
    pub s3_storage-IsLawful : IsLawful s3_storage
    unfolding get delete
    s3_storage-IsLawful = record {
      contents = s3_contents;
      get_lem = λ h s dh. ground (arith, L.get_lem (name h) s, get_absent (name h));
      exists_lem = λ h s dh. exists_lem h s;
      put_lem = λ h d s dh. put_lem h d s;
      put_path_lem = λ h d s dh. put_lem h d s;
      contents-put = contents-put;
      contents-put_path = contents-put;
      contents-delete = λ h k s dh dk.
          ground (arith, L.objects-delete (name h) (name k) s, name-injective k h dk dh);
    }

    -- Over a client that behaves as documented: the hashes that are listed are those of the stored
    -- objects, among digests.
    pub iter_hashes_lem :
        (h : Str) (s : C.State)
        → IsDigest h
        → (hs : List Str) × (iter_hashes s ≡ ok hs) × (contains h hs ≡ is_some (s3_contents s h))
    unfolding iter_hashes
    iter_hashes_lem h s dh = (
      hashes_of (keys_of (L.pages s)),
      ground (arith, L.list_lem s),
      contains-hashes_of (L.objects s) (keys_of (L.pages s)) h (L.pages_lem s) dh,
    )
