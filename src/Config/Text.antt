-- ===== src/Config/Text.antt =====
-- The functions of Go's strings and bufio packages that stconfig/ini.go calls. A string is the list of
-- its code points.
use gotools.Common.{
  ℕ, suc, ◌+◌, List, [], ◌∷◌, ltb, leb, ◌==◌, Bool, true, false, ◌&&◌, ◌||◌, not, if◌then◌else◌,
  Option, none, some, map, ℕ_discrete,
}
use mathlib.Core.Path.{refl, ap}

abbrev pub Str : Type 0
Str = List ℕ

abbrev tail : Str → Str
tail [] = []
tail (c ∷ s) = s

abbrev head : Str → ℕ
head [] = 0
head (c ∷ s) = c

unfoldable pub str_discrete : Discrete Str
unfolding ℕ_discrete
str_discrete [] [] = yes refl
str_discrete [] (d ∷ t) = no (λ e. cc)
str_discrete (c ∷ s) [] = no (λ e. cc)
str_discrete (c ∷ s) (d ∷ t) = elim (ℕ_discrete c d) [
  | no n ↦ no (λ e. n (ap head e))
  | yes p ↦ elim (str_discrete s t) [ no n ↦ no (λ e. n (ap tail e)) | yes q ↦ yes (cc) ]
]

-- unicode.IsSpace
unfoldable pub is_space : ℕ → Bool
is_space c =
    (leb 9 c && leb c 13)
    || c == 32
    || c == 0x85
    || c == 0xa0
    || c == 0x1680
    || (leb 0x2000 c && leb c 0x200a)
    || c == 0x2028
    || c == 0x2029
    || c == 0x202f
    || c == 0x205f
    || c == 0x3000

-- The cutset "\"'".
unfoldable pub is_quote : ℕ → Bool
is_quote c = c == b'"' || c == b'\''

abbrev pub is_nil : Str → Bool
is_nil [] = true
is_nil (c ∷ s) = false

-- TrimLeftFunc and TrimRightFunc.
unfoldable pub trim_left : (ℕ → Bool) → Str → Str
trim_left p [] = []
trim_left p (c ∷ s) = if p c then trim_left p s else c ∷ s

unfoldable pub trim_right : (ℕ → Bool) → Str → Str
trim_right p [] = []
trim_right p (c ∷ s) = let rest = trim_right p s in if p c && is_nil rest then [] else c ∷ rest

-- TrimSpace, and Trim with the quotes.
unfoldable pub trim_space : Str → Str
unfolding trim_left trim_right is_space
trim_space s = trim_right is_space (trim_left is_space s)

unfoldable pub trim_quotes : Str → Str
unfolding trim_left trim_right is_quote
trim_quotes s = trim_right is_quote (trim_left is_quote s)

-- HasPrefix and HasSuffix for a text of one character.
unfoldable pub has_prefix : ℕ → Str → Bool
has_prefix c [] = false
has_prefix c (d ∷ s) = d == c

unfoldable pub has_suffix : ℕ → Str → Bool
has_suffix c [] = false
has_suffix c (d ∷ []) = d == c
has_suffix c (d ∷ e ∷ s) = has_suffix c (e ∷ s)

-- Index of a text of one character; `none` is -1.
unfoldable pub index : ℕ → Str → Option ℕ
index c [] = none
index c (d ∷ s) =
    if d == c then some 0 else elim (index c s) [ none ↦ none | some i ↦ some (suc i) ]

-- bufio.ScanLines: the lines without their ends, and without a carriage return before them.
abbrev pub in_first : ℕ → List Str → List Str
in_first c [] = (c ∷ []) ∷ []
in_first c (l ∷ ls) = (c ∷ l) ∷ ls

unfoldable pub split_lines : Str → List Str
split_lines [] = []
split_lines (c ∷ s) = let rest = split_lines s in if c == b'\n' then [] ∷ rest else in_first c rest

unfoldable pub drop_cr : Str → Str
drop_cr [] = []
drop_cr (c ∷ []) = if c == b'\r' then [] else c ∷ []
drop_cr (c ∷ d ∷ s) = c ∷ drop_cr (d ∷ s)

-- The bytes of a code point in UTF-8, and those of a text.
abbrev pub utf8_len : ℕ → ℕ
utf8_len c = if ltb c 0x80 then 1 else if ltb c 0x800 then 2 else if ltb c 0x10000 then 3 else 4

abbrev pub byte_length : Str → ℕ
byte_length [] = 0
byte_length (c ∷ s) = utf8_len c + byte_length s

-- bufio.MaxScanTokenSize. A line that fills a buffer of this size before its end is seen is too long.
abbrev pub max_scan_token_size : ℕ
max_scan_token_size = 65536

abbrev pub too_long_line : Str → Bool
too_long_line line = not (ltb (byte_length line) max_scan_token_size)

-- Scan stops at the first line that is too long, and Err is ErrTooLong then.
abbrev pub before_long : List Str → List Str
before_long [] = []
before_long (l ∷ ls) = if too_long_line l then [] else l ∷ before_long ls

abbrev pub has_long : List Str → Bool
has_long [] = false
has_long (l ∷ ls) = too_long_line l || has_long ls

-- The lines that a Scanner gives, and whether its error is ErrTooLong behind them.
unfoldable pub scan_lines : Str → List Str × Bool
unfolding split_lines drop_cr
scan_lines s = let ls = split_lines s in (map drop_cr (before_long ls), has_long ls)
