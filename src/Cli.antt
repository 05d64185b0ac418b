-- ===== src/Cli.antt =====
-- clawfs/cli.py: the commands of users, on the world that `_fs` opens. They act for the default
-- tenant.
pub mod Laws
use my_test_bot_repo.Prelude.{
  ℕ, Str, Bytes, Bool, true, false, Option, none, some, List, [], ◌∷◌, ◌++◌, take, codes,
}
use my_test_bot_repo.Prelude.Int.{ℤ}
use my_test_bot_repo.Text.Decimal.{decimal}
use my_test_bot_repo.Db.{Ref}
use my_test_bot_repo.App.{App, pure, gets, ◌>>=◌}
use my_test_bot_repo.Storage.{Storage, Hasher}
use my_test_bot_repo.Core.Paths.{default_tenant}
use my_test_bot_repo.Core.Refs.{put_ref, resolve_ref, list_refs, delete_ref}
use my_test_bot_repo.Core.Gc
use my_test_bot_repo.Core.Shares.{create_share}
use my_test_bot_repo.Admin
use my_test_bot_repo.Admin.{Parsed}
use my_test_bot_repo.Admin.Sizes.{Floats}
use my_test_bot_repo.Admin.Printing.{Output, printed, failed}

-- What a command prints, and the bytes that it writes to standard output.
pub record Outcome : Type 0 where
  pub output : Output
  pub binary : Bytes

abbrev pub echo : List Str → Outcome
echo lines = record { output = printed lines; binary = [] }

-- `click.echo(..., err=True)` and `sys.exit(1)`
abbrev pub not_found : Str → Outcome
not_found path = record { output = failed (codes "not found: " ++ path); binary = [] }

abbrev pub new_or_updated : Bool → Str
new_or_updated true = codes "new"
new_or_updated false = codes "updated"

abbrev pub read_out : Str → Option Bytes → Outcome
read_out path none = not_found path
read_out path (some bytes) = record { output = printed []; binary = bytes }

abbrev pub removed : Str → Bool → Outcome
removed path true = echo ((codes "deleted " ++ path) ∷ [])
removed path false = not_found path

abbrev pub ls_lines : List (Str × Ref) → List Str
ls_lines [] = []
ls_lines ((path, ref) ∷ rows) = (take 12 ref.hash ++ (codes "  " ++ path)) ∷ ls_lines rows

module _ (S : Storage) where
  unfoldable pub read : Str → App S.State Outcome
  read path = do bytes ← resolve_ref S path default_tenant; pure (read_out path bytes)

  unfoldable pub rm : Str → App S.State Outcome
  rm path = do gone ← delete_ref S path default_tenant; pure (removed path gone)

  unfoldable pub ls : (Str → Str → Bool) → Str → App S.State Outcome
  ls like prefix = do
    rows ← gets (list_refs like prefix default_tenant)
    pure (echo (ls_lines rows))

  unfoldable pub share : ℕ → Str → Str → Option ℤ → App S.State Outcome
  share now drawn path ttl = do
    token ← create_share S now drawn path ttl default_tenant
    pure (echo (token ∷ []))

  unfoldable pub gc : App S.State Outcome
  gc = do n ← Gc.gc S none; pure (echo ((codes "removed " ++ (decimal n ++ codes " blobs")) ∷ []))

  unfoldable pub write : Hasher → ℕ → Str → Bytes → App S.State Outcome
  write H now path file = do
    (h, created) ← put_ref S H now path file default_tenant
    pure (
        echo (
          (path ++ (codes " -> " ++ (h ++ (codes " (" ++ (new_or_updated created ++ codes ")")))))
          ∷ []))

-- The arguments of `admin` go on to its own parser, behind the root.
unfoldable pub admin :
    (K : Floats) (repr : Str → Str) {S : Type 0}
    → (List Str → Parsed)
    → ℕ
    → Str
    → Str
    → List Str
    → App S Output
admin K repr parse_args now drawn root extra =
    Admin.main K repr parse_args now drawn (codes "--root" ∷ root ∷ extra)
