-- ===== src/Admin/Sizes/Laws.antt =====
-- Which sizes are read, and in which unit a size is shown.
use my_test_bot_repo.Prelude.{
  ℕ, ◌*◌, ◌^◌, ◌≤◌, ◌<◌, Str, Bool, true, false, ◌&&◌, Option, none, some, [], ◌∷◌, ◌++◌, ◌≡◌, ◌≢◌,
  ◌⊎◌, nat_eq, str_eq, refl, ap, ◌∙◌, arith, leb, if◌then◌else◌, codes,
}
use my_test_bot_repo.Prelude.Int.{pos}
use my_test_bot_repo.Prelude.Table.{lookup}
use my_test_bot_repo.Text.{is_space, lstrip, is_empty}
use my_test_bot_repo.Text.Decimal.{
  is_digit, decimal, AllDigits, AllDigits-decimal, decimal-ne-nil, value_from, value-decimal,
}
use my_test_bot_repo.Result.{Result, ok, err, value_error}
use my_test_bot_repo.Admin.Sizes.{fmt_size, in_unit, scaled}
use my_test_bot_repo.Admin.Sizes.{
  Floats, upper, span_digits, fraction, unit_letters, match_size, unit_factor, normal_unit,
  rstrip_b, ends_ib, key_of, try_key, units, parse_size, largest_unit,
}

pub data Scale : Type 0 where
  plain kilo mega giga tera peta : Scale

abbrev pub letter : Scale → Str
letter plain = []
letter kilo = codes "K"
letter mega = codes "M"
letter giga = codes "G"
letter tera = codes "T"
letter peta = codes "P"

-- A unit in capitals: its scale, an I and a B.
abbrev pub spell : Scale → Bool → Bool → Str
spell s i b = letter s ++ ((if i then codes "I" else []) ++ (if b then codes "B" else []))

abbrev pub base : Bool → ℕ
base true = 1024
base false = 1000

-- The bytes of a unit: powers of 1024 with an I, of 1000 without. There is no I without a scale,
-- and no scale P.
abbrev pub bytes_in : Scale → Bool → Result ℕ
bytes_in plain false = ok 1
bytes_in plain true = err value_error
bytes_in kilo i = ok (base i)
bytes_in mega i = ok (base i ^ 2)
bytes_in giga i = ok (base i ^ 3)
bytes_in tera i = ok (base i ^ 4)
bytes_in peta i = err value_error

-- The factor by the unit in capitals.
abbrev factor_of : Str → Result ℕ
factor_of u =
    try_key
      (lookup
        (key_of
          (rstrip_b u ++ (if ends_ib u then codes "IB" else if is_empty u then [] else codes "B")))
        units)
      (lookup u units)

unit_factor-factor_of : (u : Str) → unit_factor u ≡ factor_of (upper u)
unfolding unit_factor normal_unit upper
unit_factor-factor_of [] = refl
unit_factor-factor_of (c ∷ u) = refl

factor_of-spell : (s : Scale) (i b : Bool) → factor_of (spell s i b) ≡ bytes_in s i
unfolding lookup rstrip_b ends_ib str_eq nat_eq
factor_of-spell plain true true = refl
factor_of-spell plain true false = refl
factor_of-spell plain false true = refl
factor_of-spell plain false false = refl
factor_of-spell kilo true true = refl
factor_of-spell kilo true false = refl
factor_of-spell kilo false true = refl
factor_of-spell kilo false false = refl
factor_of-spell mega true true = refl
factor_of-spell mega true false = refl
factor_of-spell mega false true = refl
factor_of-spell mega false false = refl
factor_of-spell giga true true = refl
factor_of-spell giga true false = refl
factor_of-spell giga false true = refl
factor_of-spell giga false false = refl
factor_of-spell tera true true = refl
factor_of-spell tera true false = refl
factor_of-spell tera false true = refl
factor_of-spell tera false false = refl
factor_of-spell peta true true = refl
factor_of-spell peta true false = refl
factor_of-spell peta false true = refl
factor_of-spell peta false false = refl

-- In any letter case, a unit that the pattern accepts stands for its power of 1000 or 1024, with
-- or without its B; an I with no scale and the scale P are refused.
pub unit_factor-spell :
    (u : Str) (s : Scale) (i b : Bool) → upper u ≡ spell s i b → unit_factor u ≡ bytes_in s i
unit_factor-spell u s i b e = unit_factor-factor_of u ∙ ap factor_of e ∙ factor_of-spell s i b

-- Letters of units are neither digits, nor white space, nor a dot.
abbrev NotInNumber : Str → Type 0
NotInNumber [] = Unit
NotInNumber (c ∷ s) = (is_digit c ≡ false) × (c ≢ 46) × (is_space c ≡ false)

span_digits-append : (ds u : Str) → AllDigits ds → NotInNumber u → span_digits (ds ++ u) ≡ (ds, u)
unfolding span_digits
span_digits-append [] [] hd hu = refl
span_digits-append [] (c ∷ u) hd hu = ground arith
span_digits-append (d ∷ ds) u hd hu = ground (arith, span_digits-append ds u hd.1 hu)

fraction-letters : (ds u : Str) → NotInNumber u → fraction ds u ≡ (ds, u)
unfolding fraction
fraction-letters ds [] hu = refl
fraction-letters ds (c ∷ u) hu = ground arith

lstrip-letters : (u : Str) → NotInNumber u → lstrip u ≡ u
unfolding lstrip
lstrip-letters [] hu = refl
lstrip-letters (c ∷ u) hu = ground arith

lstrip-digit : (d : ℕ) (s : Str) → is_digit d ≡ true → lstrip (d ∷ s) ≡ d ∷ s
unfolding lstrip is_space
lstrip-digit d s h = ground arith

abbrev AllCapitals : Str → Type 0
AllCapitals [] = Unit
AllCapitals (c ∷ s) = ((leb 65 c && leb c 90) ≡ true) × AllCapitals s

AllCapitals-spell : (s : Scale) (i b : Bool) → AllCapitals (spell s i b)
AllCapitals-spell s i b = ground arith

capitals-NotInNumber : (u : Str) → AllCapitals (upper u) → NotInNumber u
unfolding upper is_space
capitals-NotInNumber [] h = tt
capitals-NotInNumber (c ∷ u) h = ground (arith, capitals-NotInNumber u h.1)

unit_letters-spell :
    (u : Str) (s : Scale) (i b : Bool) → upper u ≡ spell s i b → unit_letters u ≡ (u, [])
unfolding unit_letters upper
unit_letters-spell [] s i b e = refl
unit_letters-spell (x ∷ []) s i b e = ground arith
unit_letters-spell (x ∷ y ∷ []) s i b e = ground arith
unit_letters-spell (x ∷ y ∷ z ∷ []) s i b e = ground arith
unit_letters-spell (x ∷ y ∷ z ∷ t ∷ u) s i b e = absurd (ground (arith, e))

match_size-digits :
    (ds u : Str)
    → ds ≢ []
    → AllDigits ds
    → NotInNumber u
    → unit_letters u ≡ (u, [])
    → match_size (ds ++ u) ≡ some (ds, u)
unfolding match_size
match_size-digits [] u ne hd hu letters = absurd (ne refl)
match_size-digits (d ∷ ds) u ne hd hu letters =
    rw
      (
        lstrip-digit d (ds ++ u) hd.0,
        span_digits-append (d ∷ ds) u hd hu,
        fraction-letters (d ∷ ds) u hu,
        lstrip-letters u hu,
        letters,
      )
      (unfold lstrip in refl)

-- The arithmetic of doubles on whole numbers up to 2 ^ 53 is exact.
pub record IsDouble (K : Floats) : Type 0 where
  pub exact :
      (s : Str) (n : ℕ)
      → s ≢ []
      → AllDigits s
      → 1 ≤ n
      → n ≤ 2 ^ 53
      → value_from 0 s * n ≤ 2 ^ 53
      → K.int (K.times (K.float s) n) ≡ ok (value_from 0 s * n)

bytes_in_bounds : (s : Scale) (i : Bool) (f : ℕ) → bytes_in s i ≡ ok f → (1 ≤ f) × (f ≤ 2 ^ 53)
bytes_in_bounds s i f e = ground (arith, e)

-- A number of units, or the refusal of the unit.
abbrev pub of_units : ℕ → Result ℕ → Result ℕ
of_units n (ok f) = ok (n * f)
of_units n (err e) = err e

-- The bytes are whole numbers of a double.
abbrev pub Fits : ℕ → Result ℕ → Type 0
Fits n (ok f) = n * f ≤ 2 ^ 53
Fits n (err e) = Unit

scaled-decimal :
    (K : Floats)
    → IsDouble K
    → (n : ℕ) (s : Scale) (i : Bool) (r : Result ℕ) → bytes_in s i ≡ r
    → Fits n r
    → scaled K (decimal n) r ≡ of_units n r
scaled-decimal K D n s i (err e) known fits = refl
scaled-decimal K D n s i (ok f) known fits =
    let (low, high) = bytes_in_bounds s i f known in
    D.exact (decimal n) f (decimal-ne-nil n) (AllDigits-decimal n) low high
      (rw (value-decimal n) fits)
    ∙ rw (value-decimal n) refl

-- Over doubles: a whole number in decimal with a unit behind it, in any letter case, is read as
-- that many of the unit's bytes, as long as the result is at most 2 ^ 53; and behind any whole
-- number, a unit that stands for nothing is refused with ValueError.
pub parse_size-decimal :
    (K : Floats)
    → IsDouble K
    → (n : ℕ) (u : Str) (s : Scale) (i b : Bool) → upper u ≡ spell s i b
    → Fits n (bytes_in s i)
    → parse_size K (decimal n ++ u) ≡ of_units n (bytes_in s i)
unfolding parse_size
parse_size-decimal K D n u s i b e fits =
    let letters = unit_letters-spell u s i b e in
    let safe = capitals-NotInNumber u (rw e (AllCapitals-spell s i b)) in
    rw
      (
        match_size-digits (decimal n) u (decimal-ne-nil n) (AllDigits-decimal n) safe letters,
        unit_factor-spell u s i b e,
      )
      (scaled-decimal K D n s i (bytes_in s i) refl fits)

-- No unit is larger and still reached by the size; below all units there is none.
abbrev pub IsLargest : ℕ → Option (Str × ℕ) → Type 0
IsLargest n none = n < 1024
IsLargest n (some (unit, div)) =
    (unit_factor unit ≡ ok div) × (div ≤ n) × ((div ≡ 1024 ^ 4) ⊎ (n < div * 1024))

shown_unit : (u : Str) (s : Scale) → upper u ≡ spell s true true → unit_factor u ≡ bytes_in s true
shown_unit u s e = unit_factor-spell u s true true e

capitals_tib : upper (codes "TiB") ≡ spell tera true true
unfolding upper
capitals_tib = refl

capitals_gib : upper (codes "GiB") ≡ spell giga true true
unfolding upper
capitals_gib = refl

capitals_mib : upper (codes "MiB") ≡ spell mega true true
unfolding upper
capitals_mib = refl

capitals_kib : upper (codes "KiB") ≡ spell kilo true true
unfolding upper
capitals_kib = refl

largest_unit_bounds : (n : ℕ) → IsLargest n (largest_unit n)
largest_unit_bounds n = ground (
  arith,
  shown_unit (codes "TiB") tera capitals_tib,
  shown_unit (codes "GiB") giga capitals_gib,
  shown_unit (codes "MiB") mega capitals_mib,
  shown_unit (codes "KiB") kilo capitals_kib,
)

-- A size is shown in the largest unit that it reaches, by the factor that `parse_size` has for the
-- unit; a size below all units is shown in bytes.
pub fmt_size_bounds :
    (K : Floats) (n : ℕ)
    → (o : Option (Str × ℕ)) × (fmt_size K (some (pos n)) ≡ in_unit K n o) × IsLargest n o
unfolding fmt_size
fmt_size_bounds K n = (largest_unit n, refl, largest_unit_bounds n)
