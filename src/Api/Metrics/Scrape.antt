-- ===== src/Api/Metrics/Scrape.antt =====
-- Reading `/metrics`: the number behind a name.
use mathlib.Core.List.{append_assoc}
use my_test_bot_repo.Prelude.{
  ℕ, Str, Bool, true, false, not, ◌&&◌, Option, none, some, List, [], ◌∷◌, ◌++◌, ◌≡◌, ◌≢◌, ◌∙◌,
  refl, ap, arith, ◌==◌, nat_eq, str_eq, codes, if◌then◌else◌,
}
use my_test_bot_repo.Prelude.Table.{Table}
use my_test_bot_repo.Text.{split, join, contains, is_empty}
use my_test_bot_repo.Text.Decimal.{
  decimal, is_digit, value_from, value-decimal, AllDigits, AllDigits-decimal, decimal-ne-nil,
}
use my_test_bot_repo.Api.Metrics.{operations, tally, counter_lines, uptime_line, metrics_text}

-- What stands behind a prefix.
unfoldable pub behind : Str → Str → Option Str
behind [] s = some s
behind (p ∷ ps) [] = none
behind (p ∷ ps) (c ∷ s) = let rest = behind ps s in if p == c then rest else none

abbrev all_digits : Str → Bool
all_digits [] = true
all_digits (c ∷ s) = is_digit c && all_digits s

-- A number in decimal, with nothing else around it.
abbrev number : Str → Option ℕ
number s = if not (is_empty s) && all_digits s then some (value_from 0 s) else none

abbrev read_or : Option Str → Option ℕ → Option ℕ
read_or none next = next
read_or (some s) next = number s

-- The number on the first line that begins with a name.
unfoldable pub read_metric : Str → List Str → Option ℕ
read_metric name [] = none
read_metric name (line ∷ lines) = read_or (behind name line) (read_metric name lines)

-- The name of an operation's counter, as Prometheus writes it.
abbrev pub counter_name : Str → Str
counter_name op = codes "clawfs_requests_total{op=\"" ++ (op ++ codes "\"} ")

abbrev pub uptime_name : Str
uptime_name = codes "clawfs_uptime_seconds "

all_digits-AllDigits : (s : Str) → AllDigits s → all_digits s ≡ true
all_digits-AllDigits [] h = refl
all_digits-AllDigits (c ∷ s) h = ground (arith, all_digits-AllDigits s h.1)

is_empty-ne-nil : (s : Str) → s ≢ [] → is_empty s ≡ false
is_empty-ne-nil [] h = absurd (h refl)
is_empty-ne-nil (c ∷ s) h = refl

number-decimal : (n : ℕ) → number (decimal n) ≡ some n
number-decimal n =
    rw
      (
        is_empty-ne-nil (decimal n) (decimal-ne-nil n),
        all_digits-AllDigits (decimal n) (AllDigits-decimal n),
      )
      (ap some (value-decimal n))

unfoldable no_char : ℕ → Str → Bool
no_char x [] = true
no_char x (c ∷ s) = not (c == x) && no_char x s

no_char-append :
    (x : ℕ) (s t : Str) → no_char x s ≡ true → no_char x t ≡ true → no_char x (s ++ t) ≡ true
unfolding no_char
no_char-append x [] t hs ht = ht
no_char-append x (c ∷ s) t hs ht = ground (arith, no_char-append x s t)

no_char-digits : (s : Str) → AllDigits s → no_char 10 s ≡ true
unfolding no_char
no_char-digits [] h = refl
no_char-digits (c ∷ s) h = ground (arith, no_char-digits s h.1)

split-line : (s t : Str) → no_char 10 s ≡ true → split 10 (s ++ 10 ∷ t) ≡ s ∷ split 10 t
unfolding split no_char
split-line [] t h = ground arith
split-line (c ∷ s) t h = ground (arith, split-line s t)

abbrev AllLines : List Str → Type 0
AllLines [] = Unit
AllLines (l ∷ ls) = (no_char 10 l ≡ true) × AllLines ls

split-join :
    (l : Str) (ls : List Str)
    → AllLines (l ∷ ls)
    → split 10 (join 10 (l ∷ ls) ++ 10 ∷ []) ≡ (l ∷ ls) ++ [] ∷ []
unfolding join
split-join l [] h = split-line l [] h.0 ∙ (unfold split in refl)
split-join l (m ∷ ls) h =
    ap (split 10) (append_assoc l (10 ∷ join 10 (m ∷ ls)) (10 ∷ []))
    ∙ split-line l (join 10 (m ∷ ls) ++ 10 ∷ []) h.0
    ∙ ap (λ (x : List Str). l ∷ x) (split-join m ls h.1)

-- Names without quotes, up to the quote behind them.
behind-quoted :
    (a b s t : Str)
    → no_char 34 a ≡ true
    → no_char 34 b ≡ true
    → behind (a ++ 34 ∷ s) (b ++ 34 ∷ t) ≡ (if a == b then behind s t else none)
unfolding behind no_char
behind-quoted [] [] s t ha hb = ground arith
behind-quoted [] (d ∷ b) s t ha hb = ground arith
behind-quoted (c ∷ a) [] s t ha hb = ground arith
behind-quoted (c ∷ a) (d ∷ b) s t ha hb = ground (arith, behind-quoted a b s t)

-- Names that the text can hold.
abbrev AllPlain : List Str → Type 0
AllPlain [] = Unit
AllPlain (op ∷ ops) = (no_char 10 op ≡ true) × (no_char 34 op ≡ true) × AllPlain ops

operations-AllPlain : AllPlain operations
unfolding no_char nat_eq
operations-AllPlain = ground arith

plain_name :
    (op : Str) (ops : List Str) → contains op ops ≡ true → AllPlain ops → no_char 34 op ≡ true
unfolding contains
plain_name op [] there plain = cc
plain_name op (o ∷ ops) there plain = ground (arith, plain_name op ops)

-- A counter's name and the line of a counter.
behind-line :
    (op o : Str) (n : ℕ)
    → no_char 34 op ≡ true
    → no_char 34 o ≡ true
    → behind
        (counter_name op)
        (codes "clawfs_requests_total{op=\"" ++ (o ++ (codes "\"} " ++ decimal n)))
      ≡ (if op == o then some (decimal n) else none)
unfolding behind nat_eq
behind-line op o n hp ho = behind-quoted op o (codes "} ") (codes "} " ++ decimal n) hp ho

read_counter :
    (f : Str → ℕ) (op : Str) (ops more : List Str)
    → contains op ops ≡ true
    → no_char 34 op ≡ true
    → AllPlain ops
    → read_metric (counter_name op) (counter_lines (tally f ops) ++ more) ≡ some (f op)
unfolding contains tally read_metric
read_counter f op [] more there plain all = cc
read_counter f op (o ∷ ops) more there plain all =
    rw (behind-line op o (f o) plain all.1)
      (ground (arith, there, number-decimal (f o), read_counter f op ops more))

counter_lines-AllLines :
    (f : Str → ℕ) (ops : List Str) → AllPlain ops → AllLines (counter_lines (tally f ops))
unfolding tally
counter_lines-AllLines f [] plain = tt
counter_lines-AllLines f (o ∷ ops) plain = (
  no_char-append 10 (codes "clawfs_requests_total{op=\"") _ (unfold no_char nat_eq in refl) (
      no_char-append 10 o _ plain.0 (
        no_char-append 10 (codes "\"} ") _ (unfold no_char nat_eq in refl)
          (no_char-digits (decimal (f o)) (AllDigits-decimal (f o))))),
  counter_lines-AllLines f ops plain.2,
)

uptime-no_char : (n : ℕ) → no_char 10 (uptime_line n) ≡ true
uptime-no_char n =
    no_char-append 10 (codes "clawfs_uptime_seconds ") (decimal n) (unfold no_char nat_eq in refl)
      (no_char-digits (decimal n) (AllDigits-decimal n))

-- The lines of the page, the last one empty.
abbrev page : ℕ → Table Str ℕ → List Str
page uptime counters =
    (codes "# HELP clawfs_uptime_seconds Process uptime in seconds."
      ∷ codes "# TYPE clawfs_uptime_seconds gauge"
      ∷ uptime_line uptime
      ∷ codes "# HELP clawfs_requests_total Request counters by operation."
      ∷ codes "# TYPE clawfs_requests_total counter"
      ∷ counter_lines counters)
    ++ [] ∷ []

split-metrics_text :
    (uptime : ℕ) (f : Str → ℕ)
    → split 10 (metrics_text uptime (tally f operations)) ≡ page uptime (tally f operations)
unfolding metrics_text
split-metrics_text uptime f = split-join _ _ (
  unfold no_char nat_eq in refl,
  (
    unfold no_char nat_eq in refl,
    (
      uptime-no_char uptime,
      (
        unfold no_char nat_eq in refl,
        (unfold no_char nat_eq in refl, counter_lines-AllLines f operations operations-AllPlain),
      ),
    ),
  ),
)

pub read_uptime :
    (uptime : ℕ) (f : Str → ℕ)
    → read_metric uptime_name (split 10 (metrics_text uptime (tally f operations))) ≡ some uptime
unfolding read_metric behind nat_eq
read_uptime uptime f = rw (split-metrics_text uptime f) (number-decimal uptime)

pub read_operation :
    (uptime : ℕ) (f : Str → ℕ) (op : Str)
    → contains op operations ≡ true
    → read_metric (counter_name op) (split 10 (metrics_text uptime (tally f operations)))
      ≡ some (f op)
unfolding read_metric behind nat_eq
read_operation uptime f op there = rw (split-metrics_text uptime f) (
    read_counter f op operations ([] ∷ []) there
      (plain_name op operations there operations-AllPlain) operations-AllPlain)
