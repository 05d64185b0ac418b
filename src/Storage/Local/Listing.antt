-- ===== src/Storage/Local/Listing.antt =====
-- The hashes that `LocalStorage.iter_hashes` lists.
use my_test_bot_repo.Prelude.{
  Str, true, false, some, List, [], ◌∷◌, ◌++◌, length, take, drop, take-append-drop, ◌≡◌, refl, ap,
  ◌==◌, ◌&&◌, ◌-◌, ℕ, suc, sym, ◌∙◌, not, is_some, Bool, codes, arith, nat_eq, str_eq, path_eq,
  Option-cases, inl, inr,
}
use my_test_bot_repo.Prelude.Table.{lookup}
use my_test_bot_repo.Text.{contains}
use my_test_bot_repo.Storage.{IsDigest, all_hex}
use my_test_bot_repo.Storage.Local.{Files, exists, iter_hashes, yielded}
use my_test_bot_repo.Storage.Local.Path.{resolve, blob_path, ends_tmp, objects}
use my_test_bot_repo.Storage.Local.Laws.{blob_path-digest}

-- No end of a text of hexadecimal digits is ".tmp".
ends_tmp-hex : (s : Str) → all_hex s ≡ true → ends_tmp s ≡ false
unfolding ends_tmp all_hex
ends_tmp-hex [] h = refl
ends_tmp-hex (c ∷ s) h = ground (arith, ends_tmp-hex s)

hex-drop_two : (h : Str) → all_hex h ≡ true → all_hex (drop 2 h) ≡ true
unfolding all_hex
hex-drop_two [] e = refl
hex-drop_two (a ∷ []) e = refl
hex-drop_two (a ∷ b ∷ s) e = ground arith

length-take_two : (h : Str) → IsDigest h → length (take 2 h) ≡ 2
length-take_two [] d = absurd (omega (arith, d.long))
length-take_two (a ∷ []) d = absurd (omega (arith, d.long))
length-take_two (a ∷ b ∷ s) d = omega arith

-- The last four characters are ".tmp".
abbrev pub is_temporary : Str → Bool
is_temporary s = drop (length s - 4) s == codes ".tmp"

temporary-cons :
    (a b c d e : ℕ) (s : Str)
    → is_temporary (a ∷ b ∷ c ∷ d ∷ e ∷ s) ≡ is_temporary (b ∷ c ∷ d ∷ e ∷ s)
temporary-cons a b c d e s =
    let longer : length (a ∷ b ∷ c ∷ d ∷ e ∷ s) - 4 ≡ suc (length s) = omega arith in
    let shorter : length (b ∷ c ∷ d ∷ e ∷ s) - 4 ≡ length s = omega arith in
    ap (λ (n : ℕ). drop n (a ∷ b ∷ c ∷ d ∷ e ∷ s) == codes ".tmp") longer
    ∙ ap (λ (n : ℕ). drop n (b ∷ c ∷ d ∷ e ∷ s) == codes ".tmp") (sym shorter)

ends_tmp-temporary : (s : Str) → ends_tmp s ≡ is_temporary s
unfolding ends_tmp
ends_tmp-temporary [] = ground arith
ends_tmp-temporary (a ∷ []) = ground arith
ends_tmp-temporary (a ∷ b ∷ []) = ground arith
ends_tmp-temporary (a ∷ b ∷ c ∷ []) = ground arith
ends_tmp-temporary (a ∷ b ∷ c ∷ d ∷ []) = ground arith
ends_tmp-temporary (a ∷ b ∷ c ∷ d ∷ e ∷ s) =
    ground (arith, temporary-cons a b c d e s, ends_tmp-temporary (b ∷ c ∷ d ∷ e ∷ s))

module _ (root : List Str) where
  yielded-blob_path : (h : Str) → IsDigest h → yielded root (resolve (blob_path root h)) ≡ some h
  yielded-blob_path h d = ground (
    arith,
    blob_path-digest root h d,
    length-take_two h d,
    ends_tmp-hex (drop 2 h) (hex-drop_two h d.hex),
    take-append-drop 2 h,
  )

  shard_lem : (a b h : Str) → length a ≡ 2 → a ++ b ≡ h → (take 2 h ≡ a) × (drop 2 h ≡ b)
  shard_lem [] b h l e = absurd (omega arith)
  shard_lem (x ∷ []) b h l e = absurd (omega arith)
  shard_lem (x ∷ y ∷ []) b h l e = ground arith
  shard_lem (x ∷ y ∷ z ∷ a) b h l e = absurd (omega arith)

  blob_path-yielded :
      (p : List Str) (h : Str)
      → IsDigest h
      → yielded root p ≡ some h
      → p ≡ resolve (blob_path root h)
  blob_path-yielded [] h d e = cc
  blob_path-yielded (n ∷ []) h d e = cc
  blob_path-yielded (n ∷ shard ∷ base) h d e =
      ground (arith, blob_path-digest root h d, shard_lem shard n h)

  -- Whether a file stands behind a text: in a shard that is named by two characters, under a name
  -- that does not end in ".tmp".
  abbrev pub is_kept : Str → Files → Bool
  is_kept h fs =
      length (take 2 h) == 2
      && (not (is_temporary (drop 2 h))
          && is_some (lookup (drop 2 h ∷ take 2 h ∷ resolve (objects root)) fs))

  -- The file behind a text.
  abbrev pub kept_path : Str → List Str
  kept_path h = drop 2 h ∷ take 2 h ∷ resolve (objects root)

  yielded-kept_path :
      (h : Str)
      → length (take 2 h) ≡ 2
      → is_temporary (drop 2 h) ≡ false
      → yielded root (kept_path h) ≡ some h
  yielded-kept_path h two plain =
      ground (arith, two, plain, ends_tmp-temporary (drop 2 h), take-append-drop 2 h)

  kept_path-yielded :
      (p : List Str) (h : Str)
      → yielded root p ≡ some h
      → (p ≡ kept_path h) × (length (take 2 h) ≡ 2) × (is_temporary (drop 2 h) ≡ false)
  kept_path-yielded [] h e = cc
  kept_path-yielded (n ∷ []) h e = cc
  kept_path-yielded (n ∷ shard ∷ base) h e =
      ground (arith, e, shard_lem shard n h, ends_tmp-temporary n)

  contains-kept : (h : Str) (fs : Files) → contains h (iter_hashes root fs) ≡ is_kept h fs
  unfolding iter_hashes contains lookup
  contains-kept h [] = ground arith
  contains-kept h ((p, bytes) ∷ fs) = elim (Option-cases (yielded root p)) [
    | inl skip ↦ ground (
      arith,
      skip,
      yielded-kept_path h,
      ap (yielded root) {x = p} {y = kept_path h},
      contains-kept h fs,
    )
    | inr (k, listed) ↦ ground (
      arith,
      listed,
      kept_path-yielded p k listed,
      ap (yielded root) {x = p} {y = kept_path h},
      yielded-kept_path h,
      contains-kept h fs,
    )
  ]

  -- Among digests, the hashes that are listed are those of the stored blobs.
  contains-digest :
      (h : Str) (fs : Files) → IsDigest h → contains h (iter_hashes root fs) ≡ exists root h fs
  unfolding iter_hashes exists contains lookup
  contains-digest h [] d = refl
  contains-digest h ((p, bytes) ∷ fs) d = elim (Option-cases (yielded root p)) [
    | inl skip ↦ ground (
      arith,
      skip,
      yielded-blob_path h d,
      ap (yielded root) {x = p} {y = resolve (blob_path root h)},
      contains-digest h fs d,
    )
    | inr (k, listed) ↦ ground (
      arith,
      listed,
      yielded-blob_path h d,
      ap (yielded root) {x = p} {y = resolve (blob_path root h)},
      blob_path-yielded p h d,
      contains-digest h fs d,
    )
  ]

  -- A text is listed exactly if a file stands behind it: a file in a shard of "objects" whose name
  -- has two characters, under a name that does not end in ".tmp", where the shard's name and the
  -- file's make up the text. So a digest is listed exactly if its blob is stored.
  pub contains-iter_hashes :
      (h k : Str) (fs : Files)
      → IsDigest k
      → (contains h (iter_hashes root fs) ≡ is_kept h fs)
        × (contains k (iter_hashes root fs) ≡ exists root k fs)
  contains-iter_hashes h k fs d = (contains-kept h fs, contains-digest k fs d)
