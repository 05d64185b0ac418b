-- ===== src/Text.antt =====
-- The methods of Python's `str` that the program calls, over code points.
pub mod Laws
pub mod Decimal
use my_test_bot_repo.Prelude.{
  ℕ, Str, Bool, true, false, ◌&&◌, ◌||◌, List, [], ◌∷◌, ◌++◌, ◌+◌, arith,
}
use my_test_bot_repo.Prelude.{ltb, leb, ◌==◌, nat_eq, str_eq, if◌then◌else◌}

-- `s.startswith(prefix)`
unfoldable pub starts_with : Str → Str → Bool
starts_with s [] = true
starts_with [] (p ∷ ps) = false
starts_with (c ∷ s) (p ∷ ps) = c == p && starts_with s ps

-- `x in xs`
unfoldable pub contains : Str → List Str → Bool
contains x [] = false
contains x (y ∷ ys) = x == y || contains x ys

-- The white space of the ASCII range that `str.strip` removes.
unfoldable pub is_space : ℕ → Bool
is_space c = (leb 9 c && leb c 13) || (leb 28 c && leb c 32)

unfoldable pub lstrip : Str → Str
unfolding is_space
lstrip [] = []
lstrip (c ∷ s) = let rest = lstrip s in if is_space c then rest else c ∷ s

-- `x ∷ s`, or nothing where nothing but white space follows and `x` is white space too
abbrev pub keep : ℕ → Str → Str
keep c [] = if is_space c then [] else c ∷ []
keep c (d ∷ s) = c ∷ d ∷ s

unfoldable pub rstrip : Str → Str
unfolding is_space
rstrip [] = []
rstrip (c ∷ s) = keep c (rstrip s)

-- `s.strip()`
unfoldable pub strip : Str → Str
unfolding lstrip rstrip
strip s = rstrip (lstrip s)

abbrev pub lower_code : ℕ → ℕ
lower_code c = if leb 65 c && leb c 90 then c + 32 else c

-- `s.lower()`, on the ASCII letters
unfoldable pub lower : Str → Str
lower [] = []
lower (c ∷ s) = lower_code c ∷ lower s

-- `not s`
abbrev pub is_empty : Str → Bool
is_empty [] = true
is_empty (c ∷ s) = false

-- The first field gets one more character in front.
abbrev pub onto_head : ℕ → List Str → List Str
onto_head c [] = (c ∷ []) ∷ []
onto_head c (s ∷ rest) = (c ∷ s) ∷ rest

-- `s.split(sep)` for a one-character separator
unfoldable pub split : ℕ → Str → List Str
split sep [] = [] ∷ []
split sep (c ∷ s) = let rest = split sep s in if c == sep then [] ∷ rest else onto_head c rest

-- `s.split(sep, 1)[1]` where the separator occurs
unfoldable pub after_first : ℕ → Str → Str
after_first sep [] = []
after_first sep (c ∷ s) = let rest = after_first sep s in if c == sep then s else rest

-- `sep.join(parts)` for a one-character separator
unfoldable pub join : ℕ → List Str → Str
join sep [] = []
join sep (s ∷ []) = s
join sep (s ∷ t ∷ rest) = s ++ sep ∷ join sep (t ∷ rest)

-- `[x.strip() for x in parts if x.strip()]`
unfoldable pub stripped : List Str → List Str
unfolding strip
stripped [] = []
stripped (x ∷ rest) =
    let more = stripped rest in if is_empty (strip x) then more else strip x ∷ more
