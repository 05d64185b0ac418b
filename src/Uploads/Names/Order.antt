-- ===== src/Uploads/Names/Order.antt =====
-- The names of part files sort like their numbers, as long as the numbers have 8 digits at most.
use my_test_bot_repo.Prelude.{
  ℕ, zero, suc, ◌+◌, ◌/◌, ◌%◌, ◌^◌, ◌<◌, Str, true, [], ◌∷◌, ◌++◌, length, length-append, ◌≡◌, refl,
  ap, sym, ◌∙◌, arith, leb, ◌==◌, nat_eq, str_eq, if◌then◌else◌,
}
use native.Mathlib.Nat.{pow-suc}
use my_test_bot_repo.Text.Decimal.{low_digits}
use my_test_bot_repo.Uploads.Names.{width, part_name, part_suffix, leb_str}

length-low_digits : (k n : ℕ) → length (low_digits k n) ≡ k
unfolding low_digits
length-low_digits zero n = refl
length-low_digits (suc k) n =
    length-append (low_digits k (n / 10)) _ ∙ omega (arith, length-low_digits k (n / 10))

-- Texts of one length, each with something behind it.
leb_str-append :
    (s t u v : Str)
    → length s ≡ length t
    → leb_str (s ++ u) (t ++ v) ≡ (if s == t then leb_str u v else leb_str s t)
unfolding leb_str
leb_str-append [] [] u v e = ground arith
leb_str-append [] (d ∷ t) u v e = absurd (omega arith)
leb_str-append (c ∷ s) [] u v e = absurd (omega arith)
leb_str-append (c ∷ s) (d ∷ t) u v e = ground (arith, leb_str-append s t u v)

div_bound : (k n : ℕ) → n < 10 ^ suc k → n / 10 < 10 ^ k
div_bound k n h = omega (arith, pow-suc 10 k)

append-injective : (s t u v : Str) → length s ≡ length t → s ++ u ≡ t ++ v → (s ≡ t) × (u ≡ v)
append-injective [] [] u v e h = (refl, h)
append-injective [] (d ∷ t) u v e h = absurd (omega arith)
append-injective (c ∷ s) [] u v e h = absurd (omega arith)
append-injective (c ∷ s) (d ∷ t) u v e h = ground (arith, append-injective s t u v)

low_digits-injective :
    (k a b : ℕ) → a < 10 ^ k → b < 10 ^ k → low_digits k a ≡ low_digits k b → a ≡ b
unfolding low_digits
low_digits-injective zero a b ha hb e = omega arith
low_digits-injective (suc k) a b ha hb e =
    let (front, last) =
      append-injective (low_digits k (a / 10)) (low_digits k (b / 10)) _ _
        (length-low_digits k (a / 10) ∙ sym (length-low_digits k (b / 10))) e in
    let same : a / 10 ≡ b / 10 =
      low_digits-injective k (a / 10) (b / 10) (div_bound k a ha) (div_bound k b hb) front in
    let digit : 48 + a % 10 ≡ 48 + b % 10 = ground (arith, last) in omega arith

leb_str-low_digits :
    (k a b : ℕ) → a < 10 ^ k → b < 10 ^ k → leb_str (low_digits k a) (low_digits k b) ≡ leb a b
unfolding low_digits leb_str
leb_str-low_digits zero a b ha hb = ground arith
leb_str-low_digits (suc k) a b ha hb =
    leb_str-append (low_digits k (a / 10)) (low_digits k (b / 10)) _ _
      (length-low_digits k (a / 10) ∙ sym (length-low_digits k (b / 10)))
    ∙ ground (
      arith,
      leb_str-low_digits k (a / 10) (b / 10) (div_bound k a ha) (div_bound k b hb),
      low_digits-injective k (a / 10) (b / 10) (div_bound k a ha) (div_bound k b hb),
      ap (low_digits k) {x = a / 10} {y = b / 10},
    )

leb_str_self : (s : Str) → leb_str s s ≡ true
unfolding leb_str
leb_str_self [] = refl
leb_str_self (c ∷ s) = ground (arith, leb_str_self s)

width_8 : (n : ℕ) → n < 100000000 → width n ≡ 8
unfolding width
width_8 n h = ground arith

-- Below 100,000,000 the names of parts stand in dictionary order exactly when their numbers stand
-- in numeric order.
pub leb_str-part_name :
    (a b : ℕ) → a < 100000000 → b < 100000000 → leb_str (part_name a) (part_name b) ≡ leb a b
unfolding part_name
leb_str-part_name a b ha hb = ground (
  arith,
  leb_str-append (low_digits 8 a) (low_digits 8 b) part_suffix part_suffix
      (length-low_digits 8 a ∙ sym (length-low_digits 8 b)),
  leb_str-low_digits 8 a b ha hb,
  low_digits-injective 8 a b ha hb,
  leb_str_self part_suffix,
  width_8 a ha,
  width_8 b hb,
)
