-- ===== src/Text/Decimal.antt =====
-- Decimal prints of numbers, as `str` and f-strings make them.
use my_test_bot_repo.Prelude.{
  ℕ, zero, suc, ◌+◌, ◌-◌, ◌*◌, ◌/◌, ◌%◌, ◌<◌, Str, Bool, true, ◌&&◌, [], ◌∷◌, ◌++◌, ◌≡◌, ◌≢◌, refl,
  ◌∙◌, arith, ltb, leb, Bool-cases, inl, inr, if◌then◌else◌,
}
use my_test_bot_repo.Prelude.Int.{ℤ, pos, negsuc}

-- The last `k` decimal digits of a number.
unfoldable pub low_digits : ℕ → ℕ → Str
low_digits zero n = []
low_digits (suc k) n = low_digits k (n / 10) ++ (48 + n % 10) ∷ []

-- The number of digits of a number, with fuel; a number has at most as many digits as one more
-- than itself.
unfoldable pub count_digits : ℕ → ℕ → ℕ
count_digits zero n = 0
count_digits (suc fuel) n =
    let more = count_digits fuel (n / 10) in if ltb n 10 then 1 else suc more

-- `str(n)`
unfoldable pub decimal : ℕ → Str
unfolding low_digits count_digits
decimal n = low_digits (count_digits (suc n) n) n

abbrev pub minus : ℕ
minus = 45

unfoldable pub decimal_ℤ : ℤ → Str
unfolding decimal
decimal_ℤ (pos n) = decimal n
decimal_ℤ (negsuc n) = minus ∷ decimal (suc n)

abbrev pub is_digit : ℕ → Bool
is_digit c = leb 48 c && leb c 57

-- The number that digits spell behind `n`.
unfoldable pub value_from : ℕ → Str → ℕ
value_from n [] = n
value_from n (c ∷ s) = value_from (n * 10 + (c - 48)) s

abbrev pub AllDigits : Str → Type 0
AllDigits [] = Unit
AllDigits (c ∷ s) = (is_digit c ≡ true) × AllDigits s

AllDigits-append : (s : Str) (c : ℕ) → AllDigits s → is_digit c ≡ true → AllDigits (s ++ c ∷ [])
AllDigits-append [] c hs hc = (hc, tt)
AllDigits-append (d ∷ s) c hs hc = (hs.0, AllDigits-append s c hs.1 hc)

AllDigits-low_digits : (k n : ℕ) → AllDigits (low_digits k n)
unfolding low_digits
AllDigits-low_digits zero n = tt
AllDigits-low_digits (suc k) n =
    AllDigits-append (low_digits k (n / 10)) (48 + n % 10) (AllDigits-low_digits k (n / 10))
      (ground arith)

pub AllDigits-decimal : (n : ℕ) → AllDigits (decimal n)
unfolding decimal
AllDigits-decimal n = AllDigits-low_digits (count_digits (suc n) n) n

value_from-append :
    (m : ℕ) (s : Str) (c : ℕ) → value_from m (s ++ c ∷ []) ≡ value_from m s * 10 + (c - 48)
unfolding value_from
value_from-append m [] c = refl
value_from-append m (d ∷ s) c = value_from-append (m * 10 + (d - 48)) s c

-- With fuel above the number, the digits that are counted are all of its digits.
value-digits : (f n : ℕ) → n < f → value_from 0 (low_digits (count_digits f n) n) ≡ n
unfolding low_digits count_digits
value-digits zero n h = absurd (omega arith)
value-digits (suc f) n h = elim (Bool-cases (ltb n 10)) [
  | inl one ↦ rw one (unfold value_from in ground arith)
  | inr more ↦ rw more (
      value_from-append 0 (low_digits (count_digits f (n / 10)) (n / 10)) (48 + n % 10)
      ∙ ground (arith, value-digits f (n / 10)))
]

-- The digits of a number spell it.
pub value-decimal : (n : ℕ) → value_from 0 (decimal n) ≡ n
unfolding decimal
value-decimal n = value-digits (suc n) n (omega arith)

append-ne-nil : (s : Str) (c : ℕ) → s ++ c ∷ [] ≢ []
append-ne-nil [] c e = cc
append-ne-nil (d ∷ s) c e = cc

pub decimal-ne-nil : (n : ℕ) → decimal n ≢ []
unfolding decimal low_digits count_digits
decimal-ne-nil n e = elim (Bool-cases (ltb n 10)) [
  | inl one ↦ append-ne-nil (low_digits 0 (n / 10)) (48 + n % 10) (rw one at e)
  | inr more ↦
      append-ne-nil (low_digits (count_digits n (n / 10)) (n / 10)) (48 + n % 10) (rw more at e)
]
