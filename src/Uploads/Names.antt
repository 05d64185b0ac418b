-- ===== src/Uploads/Names.antt =====
-- clawfs/uploads.py: the names of part files, f"{part_number:08d}.part", and their order.
pub mod Order
use my_test_bot_repo.Prelude.{
  ℕ, zero, suc, ◌+◌, ◌-◌, ◌*◌, ◌/◌, ◌%◌, Str, Bytes, Bool, true, false, List, [], ◌∷◌, ◌++◌, length,
  take, ltb, leb, ◌==◌, ◌&&◌, nat_eq, str_eq, if◌then◌else◌, codes,
}
use my_test_bot_repo.Prelude.Int.{ℤ, pos, negsuc, negate}
use my_test_bot_repo.Prelude.Table.{Table}
use my_test_bot_repo.Text.Decimal.{low_digits, count_digits}

-- The width of `:08d`: 8, or more where the number has more digits.
unfoldable pub width : ℕ → ℕ
unfolding count_digits
width n = if ltb n 100000000 then 8 else count_digits (suc n) n

abbrev pub part_suffix : Str
part_suffix = codes ".part"

unfoldable pub part_name : ℕ → Str
unfolding width low_digits
part_name n = low_digits (width n) n ++ part_suffix

-- The name of a part with any number: behind a minus sign, the width counts the sign.
abbrev pub signed_width : ℕ → ℕ
signed_width n = if ltb n 10000000 then 7 else width n

unfoldable pub signed_part_name : ℤ → Str
unfolding part_name width low_digits
signed_part_name (pos n) = part_name n
signed_part_name (negsuc n) = 45 ∷ (low_digits (signed_width (suc n)) (suc n) ++ part_suffix)

-- `name.endswith(suffix)`
unfoldable pub ends_with : Str → Str → Bool
ends_with suffix [] = suffix == []
ends_with suffix (c ∷ s) = if (c ∷ s) == suffix then true else ends_with suffix s

-- `p.suffix == ".part"`: a file's suffix has something in front of it.
unfoldable pub is_part : Str → Bool
unfolding ends_with
is_part name = ends_with part_suffix name && ltb (length part_suffix) (length name)

-- The number that digits spell.
unfoldable pub number_of : ℕ → Str → ℕ
number_of n [] = n
number_of n (c ∷ s) = number_of (n * 10 + (c - 48)) s

-- `int` of a text of digits, with a minus sign or without
unfoldable pub int_of : Str → ℤ
unfolding number_of
int_of [] = pos 0
int_of (c ∷ s) = if c == 45 then negate (number_of 0 s) else pos (number_of 0 (c ∷ s))

-- `int(p.stem)` of a part's name
unfoldable pub stem_number : Str → ℤ
unfolding int_of
stem_number name = int_of (take (length name - length part_suffix) name)

-- Texts in dictionary order.
unfoldable pub leb_str : Str → Str → Bool
leb_str [] t = true
leb_str (c ∷ s) [] = false
leb_str (c ∷ s) (d ∷ t) = if ltb c d then true else if c == d then leb_str s t else false

unfoldable pub insert_part : Str × Bytes → Table Str Bytes → Table Str Bytes
insert_part p [] = p ∷ []
insert_part p (q ∷ ps) = if leb_str p.0 q.0 then p ∷ q ∷ ps else q ∷ insert_part p ps

-- `sorted(p for p in scratch.iterdir() if p.suffix == ".part")`, each file with its contents
unfoldable pub sorted_parts : Table Str Bytes → Table Str Bytes
unfolding insert_part is_part leb_str
sorted_parts [] = []
sorted_parts ((name, bytes) ∷ files) =
    let rest = sorted_parts files in if is_part name then insert_part (name, bytes) rest else rest
