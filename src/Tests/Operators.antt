-- ===== src/Tests/Operators.antt =====
-- Commands of operators and of users.
use my_test_bot_repo.Prelude.{
  ℕ, ◌*◌, ◌/◌, Str, Bytes, true, Option, none, some, [], ◌∷◌, ◌++◌, length, ◌≡◌, refl, arith, codes,
  str_eq, nat_eq, ◌==◌, is_some, if◌then◌else◌,
}
use my_test_bot_repo.Prelude.Int.{pos}
use my_test_bot_repo.Prelude.Table.{lookup}
use my_test_bot_repo.Text.Decimal.{decimal, value_from}
use my_test_bot_repo.Result.{ok, is_ok}
use my_test_bot_repo.Core.Paths.{default_tenant}
use my_test_bot_repo.Core.Quota.{enforce_quota}
use my_test_bot_repo.Core.Tenants.Laws.{owns}
use my_test_bot_repo.Core.Contents.Refinement.{NoCollision}
use my_test_bot_repo.Admin.{cmd_tenant_rotate, cmd_tenant_delete, fresh_token}
use my_test_bot_repo.Admin.Printing.{printed}
use my_test_bot_repo.Admin.Sizes.{Floats, parse_size, fmt_size, unit_factor, upper, in_unit}
use my_test_bot_repo.Admin.Sizes.Laws.{
  kilo, spell, IsDouble, IsLargest, unit_factor-spell, parse_size-decimal, fmt_size_bounds,
}
use my_test_bot_repo.Admin.Tokens.{rotate-owns}
use my_test_bot_repo.Admin.Keeps.{status_of, cmd_tenant_delete_lem}
use my_test_bot_repo.Cli.{read, write}
use my_test_bot_repo.Cli.Laws.{read-write}
use my_test_bot_repo.Tests.Data.{
  toy, toy_digest-IsDigest, disk, lawful, fresh, fresh-IsCounted, fresh-IsStored, managed, acme,
  nothing_stored,
}

-- Floats that are whole numbers.
abbrev whole : Floats
whole = record {
  Float = ℕ;
  float = value_from 0;
  times = λ x n. x * n;
  int = ok;
  ratio = λ n d. decimal (n / d);
}

whole-IsDouble : IsDouble whole
whole-IsDouble = record { exact = λ s n ne digits low high fits. refl }

upper_kib : upper (codes "kib") ≡ spell kilo true true
unfolding upper
upper_kib = refl

unit_factor-spell_example : unit_factor (codes "kib") ≡ ok 1024
unit_factor-spell_example = unit_factor-spell (codes "kib") kilo true true upper_kib

parse_size-decimal_example : parse_size whole (decimal 5 ++ codes "kib") ≡ ok 5120
parse_size-decimal_example =
    parse_size-decimal whole whole-IsDouble 5 (codes "kib") kilo true true upper_kib (omega arith)

fmt_size_bounds_example :
    (o : Option (Str × ℕ)) × (fmt_size whole (some (pos 2048)) ≡ in_unit whole 2048 o)
    × IsLargest 2048 o
fmt_size_bounds_example = fmt_size_bounds whole 2048

-- What `repr` prints of a text without quotes.
abbrev quoted : Str → Str
quoted s = 39 ∷ (s ++ 39 ∷ [])

rotate-owns_example :
    let (r, w') = cmd_tenant_rotate whole quoted 7 (codes "Zm9v") acme managed in
    (is_ok r ≡ true)
    × (owns (codes "sk_acme") (lookup acme w'.db.tenants) ≡ (
        if acme == acme
        then codes "sk_acme" == fresh_token (codes "Zm9v")
        else owns (codes "sk_acme") (lookup acme managed.db.tenants)))
rotate-owns_example =
    rotate-owns whole quoted 7 (codes "Zm9v") acme managed (ground arith) acme (codes "sk_acme")

cmd_tenant_delete_lem_example :
    let (r, w') = cmd_tenant_delete whole quoted acme managed in
    (status_of r ≡ (if is_some (lookup acme managed.db.tenants) then 0 else 1))
    × (lookup acme w'.db.tenants ≡ (if acme == acme then none else lookup acme managed.db.tenants))
    × (enforce_quota acme (codes "00") 100 w'.db ≡ ok tt)
cmd_tenant_delete_lem_example =
    cmd_tenant_delete_lem whole quoted acme managed acme (codes "00") 100

abbrev note : Str
note = codes "n/a.md"

abbrev text : Bytes
text = codes "hi"

no_limits : enforce_quota default_tenant (toy.hexdigest text) (length text) fresh.db ≡ ok tt
unfolding enforce_quota lookup
no_limits = refl

no_others : NoCollision disk lawful toy text fresh
no_others d e = ground (arith, e, nothing_stored (toy.hexdigest text) (toy_digest-IsDigest text))

read-write_example :
    (read disk note (write disk toy 7 note text fresh).1).0
    ≡ ok (record { output = printed []; binary = text })
read-write_example =
    read-write disk lawful toy note 7 text fresh fresh-IsCounted fresh-IsStored no_limits no_others
