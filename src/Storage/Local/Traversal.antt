-- ===== src/Storage/Local/Traversal.antt =====
-- What `LocalStorage.get` reads for a key that is no digest.
use my_test_bot_repo.Prelude.{
  Str, false, List, [], ◌∷◌, ◌++◌, ◌≡◌, ◌≢◌, refl, nat_eq, str_eq, path_eq, arith, codes,
}
use my_test_bot_repo.Prelude.Table.{lookup}
use my_test_bot_repo.Text.{starts_with, split}
use my_test_bot_repo.Text.Laws.{NoSlash}
use my_test_bot_repo.Storage.{or_not_found}
use my_test_bot_repo.Storage.Local.{Files, get}
use my_test_bot_repo.Storage.Local.Path.{
  slash_code, dot_code, dot_dot, resolve, resolve_from, descend, join_path, objects, blob_path,
  parent,
}
use my_test_bot_repo.Storage.Local.Laws.{resolve_from-append}

split-NoSlash : (s : Str) → NoSlash s → split slash_code s ≡ s ∷ []
unfolding split
split-NoSlash [] h = refl
split-NoSlash (c ∷ s) h = ground (arith, split-NoSlash s h.1)

absolute-NoSlash : (s : Str) → NoSlash s → starts_with s (slash_code ∷ []) ≡ false
unfolding starts_with
absolute-NoSlash [] h = refl
absolute-NoSlash (c ∷ s) h = ground arith

join_path-NoSlash : (path : List Str) (s : Str) → NoSlash s → join_path path s ≡ path ++ s ∷ []
unfolding join_path
join_path-NoSlash path s h = rw (absolute-NoSlash s h, split-NoSlash s h)

descend-plain :
    (dir : List Str) (name : Str)
    → name ≢ []
    → name ≢ dot_code ∷ []
    → name ≢ dot_dot
    → descend dir name ≡ name ∷ dir
unfolding descend
descend-plain dir [] ne nd ndd = absurd (ne refl)
descend-plain dir (c ∷ s) ne nd ndd = ground arith

descend-objects : (dir : List Str) → descend dir (codes "objects") ≡ codes "objects" ∷ dir
descend-objects dir = descend-plain dir (codes "objects") (λ e. cc) (λ e. cc) (λ e. cc)

descend-dot_dot : (dir : List Str) → descend dir dot_dot ≡ parent dir
unfolding descend
descend-dot_dot dir = ground arith

resolve-sibling :
    (root : List Str) (name : Str)
    → NoSlash name
    → name ≢ []
    → name ≢ dot_code ∷ []
    → name ≢ dot_dot
    → resolve (blob_path root (dot_dot ++ name)) ≡ name ∷ resolve root
unfolding blob_path resolve
resolve-sibling root name h ne nd ndd =
    rw (join_path-NoSlash (objects root) dot_dot (omega arith), join_path-NoSlash _ name h)
      (rw
        (
          resolve_from-append [] (objects root ++ dot_dot ∷ []),
          resolve_from-append [] (objects root),
          resolve_from-append [] root,
        )
        (unfold resolve_from in
          rw (descend-objects, descend-dot_dot, descend-plain _ name ne nd ndd)))

-- For a key of two dots and a file's name, `LocalStorage.get` returns the contents of the file of
-- that name in the data directory itself, which is no blob.
pub get-sibling :
    (root : List Str) (name : Str) (fs : Files)
    → NoSlash name
    → name ≢ []
    → name ≢ dot_code ∷ []
    → name ≢ dot_dot
    → get root (dot_dot ++ name) fs ≡ or_not_found (lookup (name ∷ resolve root) fs)
unfolding get
get-sibling root name fs h ne nd ndd = rw (resolve-sibling root name h ne nd ndd)
