-- ===== src/Admin/Sizes.antt =====
-- clawfs/admin.py `parse_size` and `fmt_size`, over ASCII texts. Floats are a parameter.
pub mod Laws
use my_test_bot_repo.Prelude.{
  ℕ, ◌+◌, ◌*◌, ◌-◌, ◌^◌, Str, Bool, true, false, ◌&&◌, ◌||◌, Option, none, some, List, [], ◌∷◌,
  ◌++◌, ◌==◌, nat_eq, str_eq, leb, if◌then◌else◌, codes,
}
use my_test_bot_repo.Prelude.Int.{ℤ, pos, negsuc}
use my_test_bot_repo.Prelude.Table.{Table, lookup}
use my_test_bot_repo.Text.{is_space, lstrip, is_empty}
use my_test_bot_repo.Text.Decimal.{is_digit, decimal, decimal_ℤ}
use my_test_bot_repo.Result.{Result, ok, err, value_error}

-- What the code does with floats: `float(s)`, `x * n`, `int(x)`, which refuses an infinity, and
-- the text of `f"{n/div:.2f}"`.
pub record Floats : Type 1 where
  pub Float : Type 0
  pub float : Str → Float
  pub times : Float → ℕ → Float
  pub int : Float → Result ℕ
  pub ratio : ℕ → ℕ → Str

-- `s.upper()`, on the ASCII letters
abbrev pub upper_code : ℕ → ℕ
upper_code c = if leb 97 c && leb c 122 then c - 32 else c

unfoldable pub upper : Str → Str
upper [] = []
upper (c ∷ s) = upper_code c ∷ upper s

-- `\d*`: the digits in front, and the rest.
unfoldable pub span_digits : Str → Str × Str
span_digits [] = ([], [])
span_digits (c ∷ s) =
    let (ds, rest) = span_digits s in if is_digit c then (c ∷ ds, rest) else ([], c ∷ s)

-- `(?:\.\d+)?` behind digits
abbrev pub with_fraction : Str → Str × Str → Str → Str × Str
with_fraction ds ([], rest) behind = (ds, behind)
with_fraction ds (f ∷ fs, rest) behind = (ds ++ 46 ∷ f ∷ fs, rest)

unfoldable pub fraction : Str → Str → Str × Str
unfolding span_digits
fraction ds [] = (ds, [])
fraction ds (c ∷ s) = if c == 46 then with_fraction ds (span_digits s) (c ∷ s) else (ds, c ∷ s)

-- One optional letter of those that a test accepts.
unfoldable pub optional_letter : (ℕ → Bool) → Str → Str × Str
optional_letter accepts [] = ([], [])
optional_letter accepts (c ∷ s) = if accepts (upper_code c) then (c ∷ [], s) else ([], c ∷ s)

-- `[KMGTP]`
abbrev pub is_scale : ℕ → Bool
is_scale c = c == 75 || (c == 77 || (c == 71 || (c == 84 || c == 80)))

-- `[KMGTP]?I?B?`
unfoldable pub unit_letters : Str → Str × Str
unfolding optional_letter
unit_letters s =
    let (scale, s₁) = optional_letter is_scale s in
    let (i, s₂) = optional_letter (λ c. c == 73) s₁ in
    let (b, rest) = optional_letter (λ c. c == 66) s₂ in (scale ++ (i ++ b), rest)

-- `\s*$` behind the unit
abbrev pub at_end : Str → Str × Str → Option (Str × Str)
at_end number (unit, rest) = if is_empty (lstrip rest) then some (number, unit) else none

abbrev pub unit_behind : Str × Str → Option (Str × Str)
unit_behind (number, rest) = at_end number (unit_letters (lstrip rest))

abbrev pub number_first : Str × Str → Option (Str × Str)
number_first ([], rest) = none
number_first (d ∷ ds, rest) = unit_behind (fraction (d ∷ ds) rest)

-- `_SIZE_RE.match(s)`: its two groups.
unfoldable pub match_size : Str → Option (Str × Str)
match_size s = number_first (span_digits (lstrip s))

-- `_UNITS`
abbrev pub units : Table Str ℕ
units =
    ([], 1)
    ∷ (codes "B", 1)
    ∷ (codes "KB", 1000)
    ∷ (codes "KIB", 1024)
    ∷ (codes "MB", 1000000)
    ∷ (codes "MIB", 1024 ^ 2)
    ∷ (codes "GB", 1000000000)
    ∷ (codes "GIB", 1024 ^ 3)
    ∷ (codes "TB", 1000000000000)
    ∷ (codes "TIB", 1024 ^ 4)
    ∷ []

-- `s.rstrip("B")`
abbrev pub keep_unless_b : ℕ → Str → Str
keep_unless_b c [] = if c == 66 then [] else c ∷ []
keep_unless_b c (d ∷ s) = c ∷ d ∷ s

unfoldable pub rstrip_b : Str → Str
rstrip_b [] = []
rstrip_b (c ∷ s) = keep_unless_b c (rstrip_b s)

unfoldable pub ends_ib : Str → Bool
ends_ib [] = false
ends_ib (c ∷ s) = if (c ∷ s) == codes "IB" then true else ends_ib s

-- The normal form of a unit, and the key that is tried first.
unfoldable pub normal_unit : Str → Str
unfolding rstrip_b ends_ib upper
normal_unit unit =
    rstrip_b (upper unit)
    ++ (if ends_ib (upper unit) then codes "IB" else if is_empty unit then [] else codes "B")

abbrev pub key_of : Str → Str
key_of normal = if is_empty normal then codes "B" else normal

abbrev pub try_key : Option ℕ → Option ℕ → Result ℕ
try_key (some factor) second = ok factor
try_key none (some factor) = ok factor
try_key none none = err value_error

unfoldable pub unit_factor : Str → Result ℕ
unfolding normal_unit
unit_factor unit = try_key (lookup (key_of (normal_unit unit)) units) (lookup (upper unit) units)

abbrev pub largest_unit : ℕ → Option (Str × ℕ)
largest_unit n =
    if leb (1024 ^ 4) n
    then some (codes "TiB", 1024 ^ 4)
    else if leb (1024 ^ 3) n
    then some (codes "GiB", 1024 ^ 3)
    else if leb (1024 ^ 2) n
    then some (codes "MiB", 1024 ^ 2)
    else if leb 1024 n
    then some (codes "KiB", 1024)
    else none

module _ (K : Floats) where
  abbrev pub scaled : Str → Result ℕ → Result ℕ
  scaled number (ok factor) = K.int (K.times (K.float number) factor)
  scaled number (err e) = err e

  abbrev pub parsed : Option (Str × Str) → Result ℕ
  parsed none = err value_error
  parsed (some (number, unit)) = scaled number (unit_factor unit)

  unfoldable pub parse_size : Str → Result ℕ
  parse_size s = parsed (match_size s)

  abbrev pub in_unit : ℕ → Option (Str × ℕ) → Str
  in_unit n none = decimal n ++ codes " B"
  in_unit n (some (unit, div)) = K.ratio n div ++ 32 ∷ unit

  unfoldable pub fmt_size : Option ℤ → Str
  fmt_size none = codes "∞"
  fmt_size (some (pos n)) = in_unit n (largest_unit n)
  fmt_size (some (negsuc n)) = decimal_ℤ (negsuc n) ++ codes " B"
