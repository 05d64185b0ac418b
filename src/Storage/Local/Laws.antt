-- ===== src/Storage/Local/Laws.antt =====
-- `LocalStorage` keeps what it is given: it is a lawful backend.
use my_test_bot_repo.Prelude.{
  ℕ, zero, suc, Str, Bytes, true, false, Option, none, some, List, [], ◌∷◌, ◌++◌, ◌≡◌, ◌≢◌, refl,
  ap, take, drop, take-append-drop, ◌==◌, nat_eq, str_eq, path_eq, arith, get_or, if◌then◌else◌,
}
use my_test_bot_repo.Prelude.Table.{lookup, insert, erase, lookup-insert, lookup-erase}
use my_test_bot_repo.Text.{starts_with, split}
use my_test_bot_repo.Storage.{IsDigest, IsLawful, all_hex}
use my_test_bot_repo.Storage.Local.{Files, exists, get, put, put_path, delete, local_storage}
use my_test_bot_repo.Storage.Local.Path.{
  slash_code, resolve, resolve_from, descend, join_path, objects, blob_path, with_tmp, cut_suffix,
  tmp_suffix,
}

split-hex : (s : Str) → all_hex s ≡ true → split slash_code s ≡ s ∷ []
unfolding split all_hex
split-hex [] h = refl
split-hex (c ∷ s) h = ground (arith, split-hex s)

absolute-hex : (s : Str) → all_hex s ≡ true → starts_with s (slash_code ∷ []) ≡ false
unfolding starts_with all_hex
absolute-hex [] h = refl
absolute-hex (c ∷ s) h = ground arith

descend-hex :
    (dir : List Str) (c : ℕ) (s : Str)
    → all_hex (c ∷ s) ≡ true
    → descend dir (c ∷ s) ≡ (c ∷ s) ∷ dir
unfolding descend all_hex
descend-hex dir c s h = ground arith

pub resolve_from-append :
    (dir xs ys : List Str) → resolve_from dir (xs ++ ys) ≡ resolve_from (resolve_from dir xs) ys
unfolding resolve_from
resolve_from-append dir [] ys = refl
resolve_from-append dir (x ∷ xs) ys = resolve_from-append (descend dir x) xs ys

join_path-hex : (path : List Str) (s : Str) → all_hex s ≡ true → join_path path s ≡ path ++ s ∷ []
unfolding join_path
join_path-hex path s h = rw (absolute-hex s h, split-hex s h)

two_parts :
    (root : List Str) (a b c : ℕ) (s : Str)
    → all_hex (a ∷ b ∷ []) ≡ true
    → all_hex (c ∷ s) ≡ true
    → resolve (blob_path root (a ∷ b ∷ c ∷ s)) ≡ (c ∷ s) ∷ (a ∷ b ∷ []) ∷ resolve (objects root)
unfolding blob_path resolve
two_parts root a b c s front back =
    rw (join_path-hex (objects root) (a ∷ b ∷ []) front, join_path-hex _ (c ∷ s) back)
      (rw
        (
          resolve_from-append [] (objects root ++ (a ∷ b ∷ []) ∷ []),
          resolve_from-append [] (objects root),
        )
        (unfold resolve_from in
          ground (
            arith,
            descend-hex (resolve_from [] (objects root)) a (b ∷ []) front,
            descend-hex (descend (resolve_from [] (objects root)) (a ∷ b ∷ [])) c s back,
            descend-hex ((a ∷ b ∷ []) ∷ resolve_from [] (objects root)) c s back,
          )))

-- The file of a blob.
pub blob_path-digest :
    (root : List Str) (h : Str)
    → IsDigest h
    → resolve (blob_path root h) ≡ drop 2 h ∷ take 2 h ∷ resolve (objects root)
blob_path-digest root [] d = absurd (omega (arith, d.long))
blob_path-digest root (a ∷ []) d = absurd (omega (arith, d.long))
blob_path-digest root (a ∷ b ∷ []) d = absurd (omega (arith, d.long))
blob_path-digest root (a ∷ b ∷ c ∷ s) d =
    two_parts root a b c s (unfold all_hex in ground (arith, d.hex))
      (unfold all_hex in ground (arith, d.hex))

-- A temporary file is no blob's file.
hex-append : (s t : Str) → all_hex (s ++ t) ≡ true → all_hex t ≡ true
unfolding all_hex
hex-append [] t h = h
hex-append (c ∷ s) t h = hex-append s t (ground arith)

hex-drop : (n : ℕ) (s : Str) → all_hex s ≡ true → all_hex (drop n s) ≡ true
unfolding all_hex
hex-drop zero s h = h
hex-drop (suc n) [] h = h
hex-drop (suc n) (c ∷ s) h = hex-drop n s (ground arith)

tmp-not-hex : all_hex tmp_suffix ≡ false
unfolding all_hex
tmp-not-hex = refl

tmp_apart :
    (root : List Str) (h k : Str)
    → IsDigest h
    → IsDigest k
    → resolve (blob_path root k) ≢ with_tmp (resolve (blob_path root h))
unfolding with_tmp
tmp_apart root h k dh dk e =
    let same : drop 2 k ≡ cut_suffix (drop 2 h) ++ tmp_suffix =
      ground (arith, e, blob_path-digest root k dk, ap with_tmp (blob_path-digest root h dh)) in
    ground (
      arith,
      tmp-not-hex,
      hex-append (cut_suffix (drop 2 h)) tmp_suffix,
      ap all_hex same,
      hex-drop 2 k dk.hex,
    )

pub blob_path-injective :
    (root : List Str) (h k : Str)
    → IsDigest h
    → IsDigest k
    → resolve (blob_path root h) ≡ resolve (blob_path root k)
    → h ≡ k
blob_path-injective root h k dh dk e = ground (
  arith,
  e,
  blob_path-digest root h dh,
  blob_path-digest root k dk,
  take-append-drop 2 h,
  take-append-drop 2 k,
)

module _ (root : List Str) where
  -- The file behind a digest.
  abbrev pub local_contents : Files → Str → Option Bytes
  local_contents fs h = lookup (resolve (blob_path root h)) fs

  contents-put :
      (h k : Str) (d : Bytes) (s : Files)
      → IsDigest h
      → IsDigest k
      → local_contents (put root h d s) k
        ≡ (if k == h then some (get_or (local_contents s h) d) else local_contents s k)
  unfolding put
  contents-put h k d s dh dk =
      let p = resolve (blob_path root h) in
      let q = resolve (blob_path root k) in
      ground (
        arith,
        blob_path-injective root h k dh dk,
        tmp_apart root h k dh dk,
        lookup-insert q p d (erase (with_tmp p) (insert (with_tmp p) d s)),
        lookup-erase q (with_tmp p) (insert (with_tmp p) d s),
        lookup-insert q (with_tmp p) d s,
      )

  contents-put_path :
      (h k : Str) (d : Bytes) (s : Files)
      → IsDigest h
      → IsDigest k
      → local_contents (put_path root h d s) k
        ≡ (if k == h then some (get_or (local_contents s h) d) else local_contents s k)
  unfolding put_path
  contents-put_path h k d s dh dk = ground (
    arith,
    blob_path-injective root h k dh dk,
    blob_path-injective root k h dk dh,
    lookup-insert (resolve (blob_path root k)) (resolve (blob_path root h)) d s,
  )

  contents-delete :
      (h k : Str) (s : Files)
      → IsDigest h
      → IsDigest k
      → local_contents (delete root h s) k ≡ (if k == h then none else local_contents s k)
  unfolding delete
  contents-delete h k s dh dk = ground (
    arith,
    blob_path-injective root h k dh dk,
    blob_path-injective root k h dk dh,
    lookup-erase (resolve (blob_path root k)) (resolve (blob_path root h)) s,
  )

  -- `LocalStorage` is a lawful backend, wherever its root is.
  pub local_storage-IsLawful : IsLawful (local_storage root)
  unfolding get exists
  local_storage-IsLawful = record {
    contents = local_contents;
    get_lem = λ h s dh. refl;
    exists_lem = λ h s dh. refl;
    put_lem = λ h d s dh. refl;
    put_path_lem = λ h d s dh. refl;
    contents-put = contents-put;
    contents-put_path = contents-put_path;
    contents-delete = contents-delete;
  }
