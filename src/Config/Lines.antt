-- ===== src/Config/Lines.antt =====
-- Trimming, prefixes and lines of the texts that stconfig/ini.go reads: what a clean line comes to.
use gotools.Common.{
  ℕ, ◌≡◌, refl, arith, List, [], ◌∷◌, ◌++◌, length, ◌==◌, Bool, true, false, some, map, All,
}
use gotools.Config.Text.{
  Str, is_space, is_quote, trim_left, trim_right, trim_space, trim_quotes, index, split_lines,
  drop_cr, before_long, has_long,
}

-- The first and the last character do not pass the test.
abbrev pub First : (ℕ → Bool) → Str → Type 0
First p [] = Unit
First p (c ∷ s) = p c ≡ false

abbrev pub Last : (ℕ → Bool) → Str → Type 0
Last p [] = Unit
Last p (c ∷ []) = p c ≡ false
Last p (c ∷ d ∷ s) = Last p (d ∷ s)

pub Last-append : (p : ℕ → Bool) (x : Str) (c : ℕ) (w : Str) → Last p (c ∷ w) → Last p (x ++ c ∷ w)
Last-append p [] c w h = h
Last-append p (a ∷ []) c w h = h
Last-append p (a ∷ b ∷ x) c w h = Last-append p (b ∷ x) c w h

pub trim_left-First : (p : ℕ → Bool) (s : Str) → First p s → trim_left p s ≡ s
unfolding trim_left
trim_left-First p [] h = refl
trim_left-First p (c ∷ s) h = rw h refl

pub trim_right-Last : (p : ℕ → Bool) (s : Str) → Last p s → trim_right p s ≡ s
unfolding trim_right
trim_right-Last p [] h = refl
trim_right-Last p (c ∷ []) h = rw h refl
trim_right-Last p (c ∷ d ∷ s) h = ground (arith, trim_right-Last p (d ∷ s) h)

-- One character more behind, which goes.
pub trim_right-append :
    (p : ℕ → Bool) (s : Str) (c : ℕ) → p c ≡ true → trim_right p (s ++ c ∷ []) ≡ trim_right p s
unfolding trim_right
trim_right-append p [] c h = rw h refl
trim_right-append p (a ∷ s) c h = rw (trim_right-append p s c h) refl

pub trim_space-clean : (s : Str) → First is_space s → Last is_space s → trim_space s ≡ s
unfolding trim_space
trim_space-clean s f l = rw (trim_left-First is_space s f) (trim_right-Last is_space s l)

pub trim_quotes-clean : (s : Str) → First is_quote s → Last is_quote s → trim_quotes s ≡ s
unfolding trim_quotes
trim_quotes-clean s f l = rw (trim_left-First is_quote s f) (trim_right-Last is_quote s l)

-- A character does not stand in a text.
abbrev pub Without : ℕ → Str → Type 0
Without c s = All (λ d. (d == c) ≡ false) s

pub Without-append : (c : ℕ) (x y : Str) → Without c x → Without c y → Without c (x ++ y)
Without-append c [] y hx hy = hy
Without-append c (d ∷ x) y hx hy = (hx.0, Without-append c x y hx.1 hy)

pub index-Without : (c : ℕ) (x y : Str) → Without c x → index c (x ++ c ∷ y) ≡ some (length x)
unfolding index
index-Without c [] y h = ground arith
index-Without c (d ∷ x) y h = rw (h.0, index-Without c x y h.1) refl

-- Lines without line feeds, one behind the other.
abbrev pub unlines : List Str → Str
unlines [] = []
unlines (l ∷ ls) = l ++ b'\n' ∷ unlines ls

abbrev pub IsLine : Str → Type 0
IsLine l = Without b'\n' l × Last (λ c. c == b'\r') l

split_lines-append :
    (l rest : Str) → Without b'\n' l → split_lines (l ++ b'\n' ∷ rest) ≡ l ∷ split_lines rest
unfolding split_lines
split_lines-append [] rest h = refl
split_lines-append (c ∷ l) rest h = rw (h.0, split_lines-append l rest h.1) refl

drop_cr-Last : (l : Str) → Last (λ c. c == b'\r') l → drop_cr l ≡ l
unfolding drop_cr
drop_cr-Last [] h = refl
drop_cr-Last (c ∷ []) h = rw h refl
drop_cr-Last (c ∷ d ∷ l) h = rw (drop_cr-Last (d ∷ l) h) refl

pub split_lines-unlines : (ls : List Str) → All IsLine ls → split_lines (unlines ls) ≡ ls
unfolding split_lines
split_lines-unlines [] h = refl
split_lines-unlines (l ∷ ls) h =
    rw (split_lines-append l (unlines ls) h.0.0, split_lines-unlines ls h.1) refl

pub before_long-IsLine :
    (ls : List Str) → All IsLine ls → map drop_cr (before_long ls) ≡ before_long ls
before_long-IsLine [] h = refl
before_long-IsLine (l ∷ ls) h = ground (arith, drop_cr-Last l h.0.1, before_long-IsLine ls h.1)

pub before_long-short : (ls : List Str) → has_long ls ≡ false → before_long ls ≡ ls
before_long-short [] h = refl
before_long-short (l ∷ ls) h = ground (arith, before_long-short ls)
