-- ===== src/Storage/Local/Path.antt =====
-- clawfs/storage.py `LocalStorage._path`: `pathlib` paths as lists of components, and what the
-- operating system resolves them to.
use my_test_bot_repo.Prelude.{
  ℕ, Str, Bool, true, false, ◌||◌, ◌&&◌, not, List, [], ◌∷◌, ◌++◌, take, drop, ◌==◌, nat_eq, str_eq,
  if◌then◌else◌, codes,
}
use my_test_bot_repo.Text.{starts_with, split}

-- '/' and '.'
abbrev pub slash_code : ℕ
slash_code = 47

abbrev pub dot_code : ℕ
dot_code = 46

abbrev pub dot_dot : Str
dot_dot = 46 ∷ 46 ∷ []

abbrev pub parent : List Str → List Str
parent [] = []
parent (c ∷ cs) = cs

-- One component of a path on top of a resolved directory.
unfoldable pub descend : List Str → Str → List Str
descend dir [] = dir
descend dir (c ∷ s) =
    if (c ∷ s) == (dot_code ∷ [])
    then dir
    else if (c ∷ s) == dot_dot
    then parent dir
    else (c ∷ s) ∷ dir

-- The file that a path from the top directory names: its components, the last one first.
unfoldable pub resolve_from : List Str → List Str → List Str
unfolding descend
resolve_from dir [] = dir
resolve_from dir (c ∷ cs) = resolve_from (descend dir c) cs

unfoldable pub resolve : List Str → List Str
unfolding resolve_from
resolve = resolve_from []

-- `path / part`: an absolute part replaces the path.
unfoldable pub join_path : List Str → Str → List Str
join_path path part =
    if starts_with part (slash_code ∷ [])
    then split slash_code part
    else path ++ split slash_code part

-- `self.objects`; the root comes first component first.
abbrev pub objects : List Str → List Str
objects root = root ++ codes "objects" ∷ []

-- `self.objects / hash_hex[:2] / hash_hex[2:]`
unfoldable pub blob_path : List Str → Str → List Str
unfolding join_path
blob_path root h = join_path (join_path (objects root) (take 2 h)) (drop 2 h)

abbrev pub tmp_suffix : Str
tmp_suffix = codes ".tmp"

abbrev has_dot : Str → Bool
has_dot [] = false
has_dot (c ∷ s) = c == dot_code || has_dot s

-- The suffix from a last dot behind `c` is cut, unless the dot is the last character.
abbrev cut_here : ℕ → Str → Str
cut_here c [] = c ∷ dot_code ∷ []
cut_here c (e ∷ s) = c ∷ []

-- `name` without its `suffix`, which begins at the last dot that is not the first character.
unfoldable pub cut_suffix : Str → Str
cut_suffix [] = []
cut_suffix (c ∷ []) = c ∷ []
cut_suffix (c ∷ d ∷ s) =
    let rest = cut_suffix (d ∷ s) in
    if d == dot_code && not (has_dot s) then cut_here c s else c ∷ rest

-- `p.with_suffix(".tmp")`
unfoldable pub with_tmp : List Str → List Str
unfolding cut_suffix
with_tmp [] = []
with_tmp (name ∷ dir) = (cut_suffix name ++ tmp_suffix) ∷ dir

-- `name.endswith(".tmp")`
unfoldable pub ends_tmp : Str → Bool
ends_tmp [] = false
ends_tmp (c ∷ s) = if (c ∷ s) == tmp_suffix then true else ends_tmp s
