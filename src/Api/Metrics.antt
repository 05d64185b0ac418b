-- ===== src/Api/Metrics.antt =====
-- clawfs/api.py `create_app`: the counters, and what `/metrics` prints of them.
pub mod Laws
pub mod Scrape
use my_test_bot_repo.Prelude.{ℕ, Str, List, [], ◌∷◌, ◌++◌, codes, map}
use my_test_bot_repo.Prelude.Table.{Table}
use my_test_bot_repo.Text.{join}
use my_test_bot_repo.Text.Decimal.{decimal}

-- The operations that are counted, in the order of `counters`.
abbrev pub operations : List Str
operations =
    codes "blob_put"
    ∷ codes "blob_get"
    ∷ codes "ref_put"
    ∷ codes "ref_get"
    ∷ codes "ref_del"
    ∷ codes "ref_list"
    ∷ codes "share_create"
    ∷ codes "share_resolve"
    ∷ codes "gc_run"
    ∷ codes "upload_create"
    ∷ codes "upload_part"
    ∷ codes "upload_complete"
    ∷ codes "upload_abort"
    ∷ []

-- A number for each of some operations.
unfoldable pub tally : (Str → ℕ) → List Str → Table Str ℕ
tally f [] = []
tally f (op ∷ ops) = (op, f op) ∷ tally f ops

-- `counters`, where the server starts
abbrev pub initial_counters : Table Str ℕ
initial_counters = tally (λ op. 0) operations

abbrev pub uptime_line : ℕ → Str
uptime_line uptime = codes "clawfs_uptime_seconds " ++ decimal uptime

abbrev pub counter_lines : Table Str ℕ → List Str
counter_lines [] = []
counter_lines ((op, n) ∷ rest) =
    (codes "clawfs_requests_total{op=\"" ++ (op ++ (codes "\"} " ++ decimal n)))
    ∷ counter_lines rest

unfoldable pub metrics_text : ℕ → Table Str ℕ → Str
metrics_text uptime counters =
    join 10 (
      codes "# HELP clawfs_uptime_seconds Process uptime in seconds."
      ∷ codes "# TYPE clawfs_uptime_seconds gauge"
      ∷ uptime_line uptime
      ∷ codes "# HELP clawfs_requests_total Request counters by operation."
      ∷ codes "# TYPE clawfs_requests_total counter"
      ∷ counter_lines counters)
    ++ 10 ∷ []
