-- ===== src/Api/Metrics/Laws.antt =====
-- Tallies of operations.
use my_test_bot_repo.Prelude.{
  ℕ, ◌+◌, Str, true, false, List, [], ◌∷◌, ◌==◌, str_eq, nat_eq, get_or, ◌≡◌, refl, arith,
  if◌then◌else◌,
}
use my_test_bot_repo.Prelude.Table.{lookup, insert}
use my_test_bot_repo.Text.{contains}
use my_test_bot_repo.Api.Metrics.{operations, tally}

pub tally_same :
    (f g : Str → ℕ) (ops : List Str) → ((op : Str) → f op ≡ g op) → tally f ops ≡ tally g ops
unfolding tally
tally_same f g [] same = refl
tally_same f g (op ∷ ops) same = ground (arith, same op, tally_same f g ops same)

abbrev Distinct : List Str → Type 0
Distinct [] = Unit
Distinct (op ∷ ops) = (contains op ops ≡ false) × Distinct ops

-- A tally with one more for an operation.
abbrev one_more : (Str → ℕ) → Str → Str → ℕ
one_more f o op = f op + (if op == o then 1 else 0)

tally_fresh :
    (f : Str → ℕ) (o : Str) (ops : List Str)
    → contains o ops ≡ false
    → tally (one_more f o) ops ≡ tally f ops
unfolding tally contains
tally_fresh f o [] fresh = refl
tally_fresh f o (op ∷ ops) fresh = ground (arith, tally_fresh f o ops)

pub insert-tally :
    (f : Str → ℕ) (o : Str) (ops : List Str)
    → Distinct ops
    → contains o ops ≡ true
    → insert o (get_or (lookup o (tally f ops)) 0 + 1) (tally f ops) ≡ tally (one_more f o) ops
unfolding tally contains insert lookup
insert-tally f o [] distinct there = cc
insert-tally f o (op ∷ ops) distinct there =
    ground (arith, insert-tally f o ops distinct.1, tally_fresh f o ops)

pub operations-Distinct : Distinct operations
unfolding contains str_eq nat_eq
operations-Distinct = ground arith
