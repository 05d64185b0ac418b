-- ===== src/Setup/Laws.antt =====
-- What a server and a command line start with.
use my_test_bot_repo.Prelude.{sym, subst}
use my_test_bot_repo.Prelude.{
  ℕ, Str, none, some, [], ◌∷◌, ◌++◌, str_eq, get_or, codes, ◌≡◌, refl, arith,
}
use my_test_bot_repo.Result.{Result, ok, err}
use my_test_bot_repo.Storage.Config.{Environ}
use my_test_bot_repo.Factory.{Backend, azure, s3, gcs, local, made_dir, make_storage}
use my_test_bot_repo.Factory.Laws.{IsConfigured, make_storage-IsConfigured}
use my_test_bot_repo.Api.Metrics.{initial_counters}
use my_test_bot_repo.Setup.{
  Started, ClawFs, local_fs, cli_root, create_app, opened, started, with_dir,
}

made_backend :
    (env : Environ) (r : Str) (b : Backend) (app : Started)
    → make_storage env (some r) ≡ ok b
    → started r (opened r (make_storage env (some r))) ≡ ok app
    → (app.fs.backend ≡ b)
      × (app.fs.db_url ≡ codes "sqlite:///" ++ (r ++ codes "/clawfs.db"))
      × (app.counters ≡ initial_counters)
made_backend env r b app e made = ground (arith, e)

-- A command line without a root opens what a server has that runs on the local backend.
abbrev pub IsShared : Environ → ClawFs → Backend → Type 0
IsShared env fs (local root) = local_fs (cli_root env none) ≡ ok fs
IsShared env fs _ = Unit

-- The directory that is meant where no root is given.
abbrev pub data_dir : Environ → Str
data_dir env = get_or (env (codes "CLAWFS_ROOT")) (codes "./clawfs-data")

shared_lem :
    (env : Environ) (fs : ClawFs) (b : Backend) (c : ℕ) (s : Str)
    → data_dir env ≡ c ∷ s
    → IsConfigured env (c ∷ s) b
    → fs.backend ≡ b
    → fs.db_url ≡ codes "sqlite:///" ++ ((c ∷ s) ++ codes "/clawfs.db")
    → IsShared env fs b
unfolding local_fs cli_root
shared_lem env fs (local root) c s dir configured same url = ground (arith, configured)
shared_lem env fs (azure cfg) c s dir configured same url = tt
shared_lem env fs (s3 cfg) c s dir configured same url = tt
shared_lem env fs (gcs bucket) c s dir configured same url = tt

abbrev StartsIn : Environ → Str → Started → Type 0
StartsIn env dir app =
    IsConfigured env dir app.fs.backend
    × (app.fs.db_url ≡ codes "sqlite:///" ++ (dir ++ codes "/clawfs.db"))
    × (app.counters ≡ initial_counters)
    × IsShared env app.fs app.fs.backend

at_root :
    (env : Environ) (r : Str) (app : Started)
    → data_dir env ≡ r
    → with_dir env r (made_dir r) ≡ ok app
    → StartsIn env r app
at_root env [] app dir made = cc
at_root env (c ∷ s) app dir made = go (make_storage env (some (c ∷ s))) refl
  where
    go : (o : Result Backend) → make_storage env (some (c ∷ s)) ≡ o → StartsIn env (c ∷ s) app
    go (ok b) e =
        let (same, url, zeros) = made_backend env (c ∷ s) b app e made in
        let configured = make_storage-IsConfigured env (some (c ∷ s)) b e in
        (
          rw same configured,
          url,
          zeros,
          subst (λ (x : Backend). IsShared env app.fs x) (sym same)
              (shared_lem env app.fs b c s dir configured same url),
        )
    go (err x) e = absurd (ground (arith, e, made))

-- A server that starts has the backend that CLAWFS_BACKEND names, with the settings of the
-- environment, its database in the directory of CLAWFS_ROOT, and all its counters at zero. On the
-- local backend, a command line that is given no root opens the same directory and database.
pub create_app-IsConfigured :
    (env : Environ) (app : Started)
    → create_app env none ≡ ok app
    → IsConfigured env (data_dir env) app.fs.backend
      × (app.fs.db_url ≡ codes "sqlite:///" ++ (data_dir env ++ codes "/clawfs.db"))
      × (app.counters ≡ initial_counters)
      × IsShared env app.fs app.fs.backend
unfolding create_app
create_app-IsConfigured env app made = at_root env (data_dir env) app refl made
