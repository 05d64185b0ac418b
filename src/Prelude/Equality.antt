-- ===== src/Prelude/Equality.antt =====
-- Python's `==` at every type whose equality can be decided, and the types of texts and bytes.
use Prim.Native.Nat.{ℕ}
use mathlib.Core.Path.{◌≡◌}
use mathlib.Core.Logic.{ite}
use mathlib.Core.Bool.{Bool, true, false}
use mathlib.Core.List.{List}
use native.Mathlib.Omega.{arith}
use native.Mathlib.Decide.{ℕ_discrete}

-- A `str`: its code points.
abbrev pub Str : Type 0
Str = List ℕ

-- A `bytes`: its bytes.
abbrev pub Bytes : Type 0
Bytes = List ℕ

pub record Eq {ℓ} (A : Type ℓ) : Type ℓ where
  pub dec : Discrete A

module _ {ℓ} {A : Type ℓ} ⦃e : Eq A⦄ where
  infix 50 ◌==◌
  abbrev pub ◌==◌ : A → A → Bool
  a == b = ite (e.dec a b) true false

  pub ==_self : (a : A) → (a == a) ≡ true
  ==_self a = ground arith

str_dec : Discrete (List ℕ)
str_dec = hlevel ℕ_discrete

pair_dec : Discrete (List ℕ × List ℕ)
pair_dec = hlevel ℕ_discrete

path_dec : Discrete (List (List ℕ))
path_dec = hlevel ℕ_discrete

instance unfoldable pub nat_eq : Eq ℕ
unfolding ℕ_discrete
nat_eq = record { dec = ℕ_discrete }

instance unfoldable pub str_eq : Eq Str
unfolding str_dec ℕ_discrete
str_eq = record { dec = str_dec }

-- The composite primary key (tenant_id, hash).
instance unfoldable pub pair_eq : Eq (Str × Str)
unfolding pair_dec ℕ_discrete
pair_eq = record { dec = pair_dec }

-- The components of a file's path.
instance unfoldable pub path_eq : Eq (List Str)
unfolding path_dec ℕ_discrete
path_eq = record { dec = path_dec }
