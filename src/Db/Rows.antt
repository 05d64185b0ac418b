-- ===== src/Db/Rows.antt =====
-- A row that is read, changed and added again.
use my_test_bot_repo.Prelude.{◌≡◌, Option, none, some, Eq, ◌==◌, if◌then◌else◌, arith}
use my_test_bot_repo.Prelude.Table.{
  Table, lookup, insert, lookup-insert, NodupKeys, insert-NodupKeys,
}

abbrev pub map_row {ℓ} : {V : Type ℓ} → (V → V) → Option V → Option V
map_row f none = none
map_row f (some v) = some (f v)

module _ {ℓ κ} {K : Type ℓ} {V : Type κ} ⦃e : Eq K⦄ where
  -- `v = s.get(Row, k)`, and if there is one, `f` on its fields and `s.add(v)`
  unfoldable pub update : K → (V → V) → Table K V → Table K V
  update k f d = elim (lookup k d) [ none ↦ d | some v ↦ insert k (f v) d ]

  pub lookup-update :
      (j k : K) (f : V → V) (d : Table K V)
      → lookup j (update k f d) ≡ (if j == k then map_row f (lookup k d) else lookup j d)
  unfolding update
  lookup-update j k f d = grind (arith, lookup-insert)

  pub update-NodupKeys :
      (k : K) (f : V → V) (d : Table K V) → NodupKeys d → NodupKeys (update k f d)
  unfolding update
  update-NodupKeys k f d u = grind (arith, insert-NodupKeys)
