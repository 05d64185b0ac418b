-- ===== src/Core/Paths/Laws.antt =====
-- Stored paths: the user's path comes back, and the namespaces of tenants whose ids hold no '/'
-- are disjoint.
use my_test_bot_repo.Prelude.{
  Str, ◌≡◌, ap, [], ◌∷◌, ◌++◌, arith, length, drop, drop-length-append, nat_eq,
}
use mathlib.Core.List.{append_assoc}
use my_test_bot_repo.Text.{starts_with}
use my_test_bot_repo.Text.Laws.{NoSlash, starts_with-append}
use my_test_bot_repo.Core.Paths.{slash, tpath, untpath}

pub tpath_prefix : (t path : Str) → tpath t path ≡ (t ++ slash) ++ path
unfolding tpath
tpath_prefix t path = simp append_assoc

-- A path that is stored for a tenant is shown to the tenant as it was given.
pub untpath-tpath : (t path : Str) → untpath t (tpath t path) ≡ path
unfolding untpath
untpath-tpath t path = ground (
  arith,
  ap (λ (s : Str). drop (length (t ++ slash)) s) (tpath_prefix t path),
  ap (λ (s : Str). starts_with s (t ++ slash)) (tpath_prefix t path),
  starts_with-append (t ++ slash) path,
  drop-length-append (t ++ slash) path,
)

-- Two tenants whose ids hold no '/' never store under one name, nor does one tenant store two
-- paths under one name.
pub tpath-injective :
    (t u p q : Str) → NoSlash t → NoSlash u → tpath t p ≡ tpath u q → (t ≡ u) × (p ≡ q)
unfolding tpath
tpath-injective [] [] p q ht hu e = ground arith
tpath-injective [] (d ∷ u) p q ht hu e = ground arith
tpath-injective (c ∷ t) [] p q ht hu e = ground arith
tpath-injective (c ∷ t) (d ∷ u) p q ht hu e = ground (arith, tpath-injective t u p q ht.1 hu.1)

-- A tenant whose id is another's, a '/' and more stores where the other one does.
pub tpath_overlap : (t u p : Str) → tpath (t ++ slash ++ u) p ≡ tpath t (u ++ slash ++ p)
unfolding tpath
tpath_overlap t u p = simp append_assoc
