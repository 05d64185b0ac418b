-- ===== src/Admin/Tokens.antt =====
-- Rotating a tenant's token.
use my_test_bot_repo.Prelude.{
  ℕ, Str, Bool, true, false, ◌&&◌, ◌||◌, Option, none, some, [], ◌∷◌, ◌≡◌, ◌≢◌, ◌==◌, nat_eq,
  str_eq, refl, arith, leb, if◌then◌else◌, get_or,
}
use my_test_bot_repo.Prelude.{◌∙◌}
use my_test_bot_repo.Prelude.Table.{lookup, insert, lookup-insert}
use my_test_bot_repo.Text.{is_space, lstrip, rstrip, strip, split, join, stripped, contains}
use my_test_bot_repo.Result.{is_ok}
use my_test_bot_repo.Db.{Tenant}
use my_test_bot_repo.App.{World}
use my_test_bot_repo.Core.Tenants.{comma, has_token, upsert_tenant, set_fields, new_tenant}
use my_test_bot_repo.Core.Tenants.Laws.{owns}
use my_test_bot_repo.Admin.{cmd_tenant_rotate, fresh_token}
use my_test_bot_repo.Admin.Sizes.{Floats}

or_false : (b : Bool) → (b || false) ≡ b
or_false true = refl
or_false false = refl

-- The characters of `secrets.token_urlsafe`: letters, digits, '-' and '_'.
abbrev pub is_url_safe : ℕ → Bool
is_url_safe c =
    (leb 97 c && leb c 122)
    || ((leb 65 c && leb c 90) || ((leb 48 c && leb c 57) || (c == 45 || c == 95)))

abbrev pub UrlSafe : Str → Type 0
UrlSafe [] = Unit
UrlSafe (c ∷ s) = (is_url_safe c ≡ true) × UrlSafe s

safe_prefix : (s : Str) → UrlSafe s → UrlSafe (fresh_token s)
safe_prefix s h = ground arith

lstrip-UrlSafe : (s : Str) → UrlSafe s → lstrip s ≡ s
unfolding lstrip is_space
lstrip-UrlSafe [] h = refl
lstrip-UrlSafe (c ∷ s) h = ground arith

rstrip-UrlSafe : (s : Str) → UrlSafe s → rstrip s ≡ s
unfolding rstrip is_space
rstrip-UrlSafe [] h = refl
rstrip-UrlSafe (c ∷ []) h = ground arith
rstrip-UrlSafe (c ∷ d ∷ s) h = ground (arith, rstrip-UrlSafe (d ∷ s) h.1)

strip-UrlSafe : (s : Str) → UrlSafe s → strip s ≡ s
unfolding strip
strip-UrlSafe s h = ground (arith, lstrip-UrlSafe s h, rstrip-UrlSafe s h)

split-UrlSafe : (s : Str) → UrlSafe s → split comma s ≡ s ∷ []
unfolding split
split-UrlSafe [] h = refl
split-UrlSafe (c ∷ s) h = ground (arith, split-UrlSafe s h.1)

stripped-UrlSafe : (s : Str) → UrlSafe s → s ≢ [] → stripped (s ∷ []) ≡ s ∷ []
unfolding stripped
stripped-UrlSafe [] h ne = absurd (ne refl)
stripped-UrlSafe (c ∷ s) h ne = rw (strip-UrlSafe (c ∷ s) h) refl

has_token-UrlSafe :
    (token tok : Str) (t : Tenant)
    → UrlSafe tok
    → tok ≢ []
    → t.tokens_csv ≡ tok
    → has_token token t ≡ (token == tok)
unfolding has_token contains
has_token-UrlSafe token tok t h ne e =
    rw (e, split-UrlSafe tok h, stripped-UrlSafe tok h ne) (or_false (token == tok))

-- A row whose tokens are one token without special characters lists that token only.
owns-one :
    (token tok : Str) (t : Tenant)
    → UrlSafe tok
    → tok ≢ []
    → t.tokens_csv ≡ join comma (stripped (tok ∷ []))
    → owns token (some t) ≡ (token == tok)
unfolding join
owns-one token [] t h ne e = absurd (ne refl)
owns-one token (c ∷ s) t h ne e =
    let same : t.tokens_csv ≡ c ∷ s = e ∙ rw (stripped-UrlSafe (c ∷ s) h ne) refl in
    rw (has_token-UrlSafe token (c ∷ s) t h ne same) (rw same refl)

-- The row of a tenant after its rotation.
abbrev rotated : ℕ → Str → Option Tenant → Tenant
rotated now tok o = set_fields [] (some (tok ∷ [])) none none (get_or o (new_tenant now []))

rotated_tokens :
    (now : ℕ) (tok : Str) (o : Option Tenant)
    → (rotated now tok o).tokens_csv ≡ join comma (stripped (tok ∷ []))
unfolding set_fields
rotated_tokens now tok o = refl

module _ (K : Floats) (repr : Str → Str) {S : Type 0} where
  rotate_db :
      (now : ℕ) (drawn id : Str) (w : World S)
      → (is_ok (cmd_tenant_rotate K repr now drawn id w).0 ≡ true)
        × ((cmd_tenant_rotate K repr now drawn id w).1.db.tenants
            ≡ insert id (rotated now (fresh_token drawn) (lookup id w.db.tenants)) w.db.tenants)
  unfolding cmd_tenant_rotate upsert_tenant
  rotate_db now drawn id w = (refl, refl)

  -- `tenant rotate-token` succeeds; afterwards the tenant has the token that was drawn and no
  -- other, and every other tenant has the tokens that it had.
  pub rotate-owns :
      (now : ℕ) (drawn id : Str) (w : World S)
      → UrlSafe drawn
      → (j token : Str)
      → let (r, w') = cmd_tenant_rotate K repr now drawn id w in
        (is_ok r ≡ true)
        × (owns token (lookup j w'.db.tenants)
            ≡ (if j == id then token == fresh_token drawn else owns token (lookup j w.db.tenants)))
  rotate-owns now drawn id w safe j token =
      let row = rotated now (fresh_token drawn) (lookup id w.db.tenants) in
      let (fine, rows) = rotate_db now drawn id w in
      (
        fine,
        rw (rows, lookup-insert j id row w.db.tenants)
            (ground (
              arith,
              owns-one token (fresh_token drawn) row (safe_prefix drawn safe) (λ e. cc)
                  (rotated_tokens now (fresh_token drawn) (lookup id w.db.tenants)),
            )),
      )
