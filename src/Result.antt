-- ===== src/Result.antt =====
-- The exceptions that the program raises or lets through, and values that may be one.
use my_test_bot_repo.Prelude.{ℕ, Str, Bool, true, false}
use my_test_bot_repo.Prelude.Int.{ℤ}

-- `kind` of clawfs/db.py `QuotaExceeded`
pub data Kind : Type 0 where
  bytes objects : Kind

pub data Error : Type 0 where
  -- `QuotaExceeded(kind, used, limit)`
  quota_exceeded : Kind → ℕ → ℤ → Error
  -- `KeyError` with the path
  no_such_ref : Str → Error
  file_not_found : Error
  -- `FileExistsError`
  file_exists : Error
  value_error : Error
  -- `OverflowError` of the arithmetic on dates
  overflow_error : Error
  -- `IntegrityError` of the database: a second row with one primary key
  integrity_error : Error
  import_error : Error
  -- any other exception of a storage backend
  backend_error : Error

pub data Result {ℓ} (A : Type ℓ) : Type ℓ where
  ok : A → Result A
  err : Error → Result A

infixl 5 ◌>>=◌ ◌>>◌
abbrev pub ◌>>=◌ {ℓ κ} : {A : Type ℓ} {B : Type κ} → Result A → (A → Result B) → Result B
ok a >>= f = f a
err e >>= f = err e

abbrev pub ◌>>◌ {ℓ κ} : {A : Type ℓ} {B : Type κ} → Result A → Result B → Result B
m >> k = m >>= λ _. k

-- No exception was raised.
abbrev pub is_ok {ℓ} : {A : Type ℓ} → Result A → Bool
is_ok (ok a) = true
is_ok (err e) = false
