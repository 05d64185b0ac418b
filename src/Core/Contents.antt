-- ===== src/Core/Contents.antt =====
-- Contents: over a lawful backend every blob's bytes are stored under their own digest, so a ref
-- that is put is read back.
pub mod Keeps
pub mod Isolation
pub mod Reads
pub mod Refinement
pub mod Reclaimed
pub mod Race
use my_test_bot_repo.Prelude.{
  ℕ, Str, Bytes, Bool, true, Option, none, some, ◌≡◌, ◌≢◌, refl, ap, sym, ◌∙◌, length, ◌==◌, str_eq,
  arith, get_or, inl, inr, Option-cases, Bool-cases, is_some, if◌then◌else◌,
}
use my_test_bot_repo.Prelude.Table.{lookup, lookup-insert}
use my_test_bot_repo.Result.{Result, ok, err}
use my_test_bot_repo.Db.{Db, Blob}
use my_test_bot_repo.App.{World}
use my_test_bot_repo.Storage.{Storage, Hasher, IsDigest, IsLawful}
use my_test_bot_repo.Core.Quota.{link_inc, enforce_quota}
use my_test_bot_repo.Core.Blobs.{put_blob}
use my_test_bot_repo.Core.Outcome.{with_blob, put_blob_db}
use my_test_bot_repo.Core.Frame.{link_inc-SameFiles}

module _ (S : Storage) (L : IsLawful S) (H : Hasher) where
  pub record IsStored (w : World S.State) : Type 0 where
    -- Whatever is stored has the digest that it is stored under.
    pub addressed :
        (h : Str) (d : Bytes) → IsDigest h → L.contents w.store h ≡ some d → H.hexdigest d ≡ h
    pub digests : (h : Str) → lookup h w.db.blobs ≢ none → IsDigest h
    -- Every blob's bytes are stored.
    pub backed : (h : Str) → lookup h w.db.blobs ≢ none → L.contents w.store h ≢ none

  module _ (now : ℕ) (bytes : Bytes) (t : Str) (w : World S.State) where
    -- Over a lawful backend a `put_blob` that the quota allows succeeds.
    pub put_blob_allowed :
        enforce_quota t (H.hexdigest bytes) (length bytes) w.db ≡ ok tt
        → (put_blob S H now bytes t w).0 ≡ ok (H.hexdigest bytes)
    unfolding put_blob
    put_blob_allowed fits = ground (
      arith,
      L.put_lem (H.hexdigest bytes) bytes w.store (H.hexdigest-IsDigest bytes),
      L.exists_lem (H.hexdigest bytes) w.store (H.hexdigest-IsDigest bytes),
    )

    -- What is stored afterwards under each digest.
    pub contents-put_blob :
        (k : Str)
        → IsDigest k
        → enforce_quota t (H.hexdigest bytes) (length bytes) w.db ≡ ok tt
        → L.contents (put_blob S H now bytes t w).1.store k ≡ (
            if k == H.hexdigest bytes
            then some (get_or (L.contents w.store k) bytes)
            else L.contents w.store k)
    unfolding put_blob
    contents-put_blob k dk fits = ground (
      arith,
      L.put_lem (H.hexdigest bytes) bytes w.store (H.hexdigest-IsDigest bytes),
      L.exists_lem (H.hexdigest bytes) w.store (H.hexdigest-IsDigest bytes),
      L.contents-put (H.hexdigest bytes) k bytes w.store (H.hexdigest-IsDigest bytes) dk,
    )
