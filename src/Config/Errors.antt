-- ===== src/Config/Errors.antt =====
-- The errors of readIniFile in stconfig/ini.go.
use gotools.Common.{
  ℕ, zero, suc, ◌+◌, ◌≡◌, ◌≢◌, refl, arith, List, [], ◌∷◌, ◌⊎◌, inl, inr, Bool, true, false, not,
  if◌then◌else◌, none, some, Outcome, ok, err, map,
}
use gotools.Config.{
  Config, ConfigError, too_long, not_closed, no_equals, Reader, trim_space_and_comment, drop_bom,
  read_text, read_line, read_lines, first_reader, with_scanner_err, read_ini_file,
}
use gotools.Config.Text.{
  Str, is_nil, has_prefix, has_suffix, index, split_lines, drop_cr, too_long_line, before_long,
  has_long, scan_lines,
}

-- A line that is no comment, no section in brackets and no key with a value.
abbrev pub is_bad : Str → Bool
is_bad line =
    if is_nil line
    then false
    else if has_prefix b'[' line
    then not (has_suffix b']' line)
    else elim (index b'=' line) [ none ↦ true | some zero ↦ true | some (suc i) ↦ false ]

-- What the reader makes of a text: it takes it, or names a line, or finds one that is too long.
pub data Report : Type 0 where
  good long_line panics : Report
  bad_line : ℕ → Report

-- The report of the lines of a file, with their carriage returns, from line `ln` on.
abbrev pub first_bad : ℕ → List Str → Report
first_bad ln [] = good
first_bad ln (l ∷ ls) =
    if too_long_line l
    then long_line
    else if is_bad (trim_space_and_comment (drop_bom ln (drop_cr l))).0
    then bad_line ln
    else first_bad (ln + 1) ls

abbrev pub report : {A : Type 0} → Outcome ConfigError A → Report
report (ok a) = good
report (err too_long) = long_line
report (err (not_closed n)) = bad_line n
report (err (no_equals n)) = bad_line n
report (Outcome.panic e) = panics

pub Outcome-cases :
    {A : Type 0} (o : Outcome ConfigError A)
    → ((a : A) × (o ≡ ok a))
      ⊎ ((e : ConfigError) × (o ≡ err e))
      ⊎ ((e : ConfigError) × (o ≡ Outcome.panic e))
Outcome-cases (ok a) = inl (a, refl)
Outcome-cases (err e) = inr (inl (e, refl))
Outcome-cases (Outcome.panic e) = inr (inr (e, refl))

read_line-ok :
    (l : Str) (r r' : Reader)
    → read_line l r ≡ ok r'
    → (r'.ln ≡ r.ln + 1) × (is_bad (trim_space_and_comment (drop_bom (r.ln + 1) l)).0 ≡ false)
unfolding read_line read_text
read_line-ok l r r' h = ground arith

read_line-err :
    (l : Str) (r : Reader) (e : ConfigError)
    → read_line l r ≡ err e
    → (report {A = Config} (err e) ≡ bad_line (r.ln + 1))
      × (is_bad (trim_space_and_comment (drop_bom (r.ln + 1) l)).0 ≡ true)
unfolding read_line read_text
read_line-err l r e h = ground arith

not_panic : (l : Str) (r : Reader) (e : ConfigError) → read_line l r ≢ Outcome.panic e
unfolding read_line read_text
not_panic l r e h = ground arith

read_lines-first_bad :
    (ls : List Str) (r : Reader)
    → report (with_scanner_err (has_long ls) (read_lines (map drop_cr (before_long ls)) r))
      ≡ first_bad (r.ln + 1) ls
unfolding read_lines
read_lines-first_bad [] r = refl
read_lines-first_bad (l ∷ ls) r = elim (Outcome-cases (read_line (drop_cr l) r)) [
  | inl (r', fine) ↦
      ground (arith, fine, read_line-ok (drop_cr l) r r' fine, read_lines-first_bad ls r')
  | inr (inl (e, bad)) ↦ ground (arith, bad, read_line-err (drop_cr l) r e bad)
  | inr (inr (e, bad)) ↦ absurd (not_panic (drop_cr l) r e bad)
]

-- readIniFile looks at the lines in order. It succeeds exactly if none is bad and none takes 65536
-- bytes or more. Otherwise the first line of either kind decides: for a bad one the error carries its
-- number, and for one too long the error is that of the scanner.
pub read_ini_file-first_bad :
    (text : Str) → report (read_ini_file text) ≡ first_bad 1 (split_lines text)
unfolding read_ini_file scan_lines
read_ini_file-first_bad text = read_lines-first_bad (split_lines text) first_reader
