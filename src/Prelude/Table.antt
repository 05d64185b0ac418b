-- ===== src/Prelude/Table.antt =====
-- A database table: its rows in order, each beside its primary key.
use mathlib.Core.Path.{◌≡◌, refl}
use mathlib.Core.Option.{Option, none, some}
use mathlib.Core.List.{List, [], ◌∷◌}
use Prim.Native.Nat.{ℕ, ◌+◌}
use native.Mathlib.Omega.{arith}
use my_test_bot_repo.Prelude.Tests.{if◌then◌else◌}
use my_test_bot_repo.Prelude.Equality.{Eq, ◌==◌}

abbrev pub Table {ℓ κ} : Type ℓ → Type κ → Type (ℓ ⊔ κ)
Table K V = List (K × V)

module _ {ℓ κ} {K : Type ℓ} {V : Type κ} ⦃e : Eq K⦄ where
  -- `s.get(Row, key)`
  unfoldable pub lookup : K → Table K V → Option V
  lookup k [] = none
  lookup k ((j, v) ∷ d) = if k == j then some v else lookup k d

  -- `s.add(row)`: a new row goes to the end, a row of the table is written in its place.
  unfoldable pub insert : K → V → Table K V → Table K V
  insert k v [] = (k, v) ∷ []
  insert k v ((j, w) ∷ d) = if k == j then (k, v) ∷ d else (j, w) ∷ insert k v d

  -- `s.delete(row)`
  unfoldable pub erase : K → Table K V → Table K V
  erase k [] = []
  erase k ((j, w) ∷ d) = let rest = erase k d in if k == j then rest else (j, w) ∷ rest

  pub lookup-nil : (k : K) → lookup k [] ≡ none
  unfolding lookup
  lookup-nil k = refl

  pub lookup-insert :
      (j k : K) (v : V) (d : Table K V)
      → lookup j (insert k v d) ≡ (if j == k then some v else lookup j d)
  unfolding insert lookup
  lookup-insert j k v [] = ground arith
  lookup-insert j k v (x ∷ d) = ground (arith, lookup-insert j k v d)

  pub lookup-erase :
      (j k : K) (d : Table K V) → lookup j (erase k d) ≡ (if j == k then none else lookup j d)
  unfolding erase lookup
  lookup-erase j k [] = ground arith
  lookup-erase j k (x ∷ d) = ground (arith, lookup-erase j k d)

  -- No key has two rows.
  abbrev pub NodupKeys : Table K V → Type κ
  NodupKeys [] = Unit
  NodupKeys ((k, v) ∷ d) = (lookup k d ≡ none) × NodupKeys d

  pub insert-NodupKeys : (k : K) (v : V) (d : Table K V) → NodupKeys d → NodupKeys (insert k v d)
  unfolding insert
  insert-NodupKeys k v [] h = (lookup-nil k, tt)
  insert-NodupKeys k v ((j, w) ∷ d) h =
      ground (arith, insert-NodupKeys k v d h.1, lookup-insert j k v d)

  pub erase-NodupKeys : (k : K) (d : Table K V) → NodupKeys d → NodupKeys (erase k d)
  unfolding erase
  erase-NodupKeys k [] h = tt
  erase-NodupKeys k ((j, w) ∷ d) h = ground (arith, erase-NodupKeys k d h.1, lookup-erase j k d)

  -- The sum of a number over the rows.
  unfoldable pub sum : (K → V → ℕ) → Table K V → ℕ
  sum f [] = 0
  sum f ((k, v) ∷ d) = f k v + sum f d

  -- The share of one key in a sum.
  abbrev pub share : (K → V → ℕ) → K → Option V → ℕ
  share f k none = 0
  share f k (some v) = f k v

  pub sum-insert :
      (f : K → V → ℕ) (k : K) (v : V) (d : Table K V)
      → sum f (insert k v d) + share f k (lookup k d) ≡ sum f d + f k v
  unfolding sum insert lookup
  sum-insert f k v [] = omega arith
  sum-insert f k v ((j, w) ∷ d) = ground (arith, sum-insert f k v d)

  pub erase_absent : (k : K) (d : Table K V) → lookup k d ≡ none → erase k d ≡ d
  unfolding erase lookup
  erase_absent k [] h = refl
  erase_absent k ((j, w) ∷ d) h = ground (arith, erase_absent k d)

  pub sum-erase :
      (f : K → V → ℕ) (k : K) (d : Table K V)
      → NodupKeys d
      → sum f (erase k d) + share f k (lookup k d) ≡ sum f d
  unfolding sum erase lookup
  sum-erase f k [] h = omega arith
  sum-erase f k ((j, w) ∷ d) h = ground (arith, sum-erase f k d h.1, erase_absent k d)
