-- ===== src/Http.antt =====
-- What a request ends with: a value, or the status and the detail of an `HTTPException`.
use my_test_bot_repo.Prelude.{ℕ, Str}

pub data Http {ℓ} (A : Type ℓ) : Type ℓ where
  done : A → Http A
  http_error : ℕ → Str → Http A
