-- ===== src/Text/Laws.antt =====
-- Prefixes and separators.
use my_test_bot_repo.Prelude.{Str, ◌≡◌, ◌≢◌, refl, true, [], ◌∷◌, ◌++◌, arith, length, drop, nat_eq}
use my_test_bot_repo.Text.{starts_with}

-- A text without '/'.
abbrev pub NoSlash : Str → Type 0
NoSlash [] = Unit
NoSlash (c ∷ s) = (c ≢ 47) × NoSlash s

pub starts_with-append : (p s : Str) → starts_with (p ++ s) p ≡ true
unfolding starts_with
starts_with-append [] [] = refl
starts_with-append [] (c ∷ s) = refl
starts_with-append (c ∷ p) s = ground (arith, starts_with-append p s)

-- A text with a prefix is the prefix and the rest.
pub starts_with-split : (s p : Str) → starts_with s p ≡ true → s ≡ p ++ drop (length p) s
unfolding starts_with
starts_with-split s [] h = refl
starts_with-split [] (c ∷ p) h = cc
starts_with-split (d ∷ s) (c ∷ p) h = ground (arith, starts_with-split s p)
