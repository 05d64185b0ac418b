-- ===== src/Tests/Servers.antt =====
-- Servers that requests lead to.
use my_test_bot_repo.Prelude.{
  Str, Bytes, false, none, some, [], ◌≡◌, refl, codes, str_eq, pair_eq, path_eq, nat_eq,
}
use my_test_bot_repo.Prelude.Table.{lookup}
use my_test_bot_repo.Text.{lower, contains}
use my_test_bot_repo.Http.{done}
use my_test_bot_repo.Db.{Ref}
use my_test_bot_repo.Core.Paths.{tpath}
use my_test_bot_repo.Auth.{Env, is_on}
use my_test_bot_repo.Api.{reply, Server}
use my_test_bot_repo.Api.Tenancy.{maybe_auth}
use my_test_bot_repo.Api.Requests.Metered.{IsMetered, Reached-IsMetered}
use my_test_bot_repo.Text.{split}
use my_test_bot_repo.Api.Metrics.Scrape.{read_metric, uptime_name, counter_name}
use my_test_bot_repo.Tests.Data.{managed-IsAccounted, managed-IsWithin}
use my_test_bot_repo.Tests.Data.{toy, disk, managed}
use my_test_bot_repo.Prelude.{Bool, Option, List}
use my_test_bot_repo.Core.Contents.Reads.{seen}
use my_test_bot_repo.Api.{found, tenant, listing, text_body}
use my_test_bot_repo.Api.Requests.{
  serve, Reached, here, after, ref_put, ref_get, gc_run, ref_list, metrics,
}
use my_test_bot_repo.Api.Requests.Keeps.{IsValid, serve-IsValid, ref_get-Reached}
use my_test_bot_repo.Tests.Data.{lawful, managed-IsCounted, managed-IsStored}
use my_test_bot_repo.Api.Metrics.{initial_counters}
use my_test_bot_repo.Api.Requests.Counters.{served, metrics-Reached}
use my_test_bot_repo.Api.Requests.Listed.{IsListed, ref_list-Reached}
use my_test_bot_repo.Core.Refs.Listing.{listed}

abbrev text : Bytes
text = codes "hi"

abbrev note : Str
note = codes "a.md"

abbrev server : Server disk.State
server = record { world = managed; counters = initial_counters }

-- A server that anyone may read from.
abbrev open_env : Env
open_env = record { api_tokens = codes "sk_root"; require_auth_read = [] }

managed-IsValid : IsValid disk lawful toy managed
managed-IsValid = record { counted = managed-IsCounted; stored = managed-IsStored }

abbrev no_like : Str → Str → Bool
no_like path prefix = false

abbrev root_header : Option Str
root_header = some (codes "Bearer sk_root")

-- A put, and then a collection.
abbrev put_server : Server disk.State
put_server = (serve disk toy no_like open_env 7 root_header (ref_put note text) server).1

abbrev later_server : Server disk.State
later_server = (serve disk toy no_like open_env 8 root_header gc_run put_server).1

later_server-Reached : Reached disk toy no_like open_env server later_server
later_server-Reached = after (after here 7 root_header (ref_put note text)) 8 root_header gc_run

serve-IsValid_example : IsValid disk lawful toy put_server.world
serve-IsValid_example =
    serve-IsValid disk lawful toy open_env root_header server no_like 7 (ref_put note text)
      managed-IsValid

read_open : maybe_auth open_env none ≡ done none
unfolding maybe_auth is_on contains lower str_eq
read_open = refl

ref_get-Reached_example :
    (serve disk toy no_like open_env 9 none (ref_get note) later_server).0
    ≡ found (seen disk lawful later_server.world (tpath (tenant none later_server) note))
ref_get-Reached_example =
    ref_get-Reached disk lawful toy open_env no_like server later_server managed-IsValid
      later_server-Reached 9 none none note read_open

Reached-IsMetered_example : IsMetered later_server.world.db
Reached-IsMetered_example =
    Reached-IsMetered disk toy open_env no_like server later_server
      (record {
        counted = managed-IsCounted;
        accounted = managed-IsAccounted;
        within = managed-IsWithin;
      })
      later_server-Reached

metrics-Reached_example :
    (page : Str) × (serve disk toy no_like open_env 9 none (metrics 2) later_server
      ≡ (reply (text_body page), later_server))
    × (read_metric uptime_name (split 10 page) ≡ some 2)
    × (read_metric (counter_name (codes "ref_put")) (split 10 page)
        ≡ some (served disk toy no_like open_env later_server-Reached (codes "ref_put")))
metrics-Reached_example =
    metrics-Reached disk toy no_like open_env server later_server refl later_server-Reached 9 2 none
      (ref_put note text) (codes "ref_put") refl

managed-IsListed : IsListed disk toy managed
unfolding lookup
managed-IsListed = record { counted = managed-IsCounted; named = record { named = λ stored. refl } }

ref_list-Reached_example :
    (rows : List (Str × Ref)) × ((serve disk toy no_like open_env 9 none
        (ref_list [])
        later_server).0
      ≡ reply (listing rows))
    × ((p : Str)
        → lookup p rows
          ≡ listed no_like []
              (tenant none later_server)
              (tpath (tenant none later_server) p)
              (lookup (tpath (tenant none later_server) p) later_server.world.db.refs))
ref_list-Reached_example =
    ref_list-Reached disk toy open_env no_like server later_server managed-IsListed
      later_server-Reached 9 none none [] read_open
