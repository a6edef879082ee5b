-- ===== src/Config.antt =====
-- stconfig/ini.go: configuration files. The reading of the file into lines and its writing go through
-- the whole text of the file; a string is the list of its code points. A pointer to a section is its
-- name, since a section is reached through the map `sections` only.
pub mod Text
pub mod Values
pub mod Lines
pub mod Doc
pub mod Saved
pub mod Read
pub mod RoundTrip
pub mod Errors
mod Tests
use gotools.Common.{
  ℕ, zero, suc, ◌+◌, ◌-◌, List, [], ◌∷◌, ◌++◌, ◌==◌, length, take, drop, Bool, true, false, ◌||◌,
  if◌then◌else◌, Option, none, some, map, Outcome, ok, err,
}
use gotools.Common.Assoc.{get, insert, delete}
use gotools.Config.Text.{
  Str, str_discrete, is_nil, trim_space, trim_quotes, has_prefix, has_suffix, index, scan_lines,
}

pub record Section : Type 0 where
  pub name : Str
  pub values : List (Str × Str)
  pub comment_section : Str
  pub comment_values : List (Str × Str)
  pub keys : List Str

-- `own` is the embedded section.
pub record Config : Type 0 where
  pub own : Section
  pub sections : List (Str × Section)
  pub section_keys : List Str
  pub path : Str

-- The errors of the reader: two with their line, and bufio.ErrTooLong.
pub data ConfigError : Type 0 where
  too_long : ConfigError
  not_closed : ℕ → ConfigError
  no_equals : ℕ → ConfigError

-- trimSpaceAndComment: the line and the comment.
unfoldable pub trim_space_and_comment : Str → Str × Str
unfolding trim_space has_prefix
trim_space_and_comment s =
    let line = trim_space s in
    if is_nil line
    then ([], [])
    else if has_prefix b'#' line || has_prefix b';' line
    then ([], line)
    else (line, [])

-- The variables of readIniFile.
pub record Reader : Type 0 where
  pub config : Config
  pub ln : ℕ
  pub comment : Str
  pub current : Option Str

abbrev pub new_section : Str → Str → Section
new_section name comment = record {
  name = name;
  values = [];
  comment_section = comment;
  comment_values = [];
  keys = [];
}

abbrev pub empty_config : Config
empty_config = record { own = new_section [] []; sections = []; section_keys = []; path = [] }

-- `currentSection.values[key] = value` and what goes with it.
unfoldable pub put_key : Str → Str → Str → Section → Section
unfolding insert
put_key key value comment s = record s {
  values = insert str_discrete key value s.values;
  comment_values = insert str_discrete key comment s.comment_values;
  keys = s.keys ++ key ∷ [];
}

unfoldable pub put_in : Option Str → Str → Str → Str → Config → Config
unfolding put_key get insert
put_in none key value comment c = record c { own = put_key key value comment c.own }
put_in (some name) key value comment c = elim (get str_discrete name c.sections) [
  | none ↦ c
  | some s ↦ record c {
    sections = insert str_discrete name (put_key key value comment s) c.sections;
  }
]

-- A line `[name]`.
unfoldable pub read_section : Str → Reader → Reader
unfolding get insert
read_section name r = elim (get str_discrete name r.config.sections) [
  | none ↦ record r {
    config = record r.config {
      sections = insert str_discrete name (new_section name r.comment) r.config.sections;
      section_keys = r.config.section_keys ++ name ∷ [];
    };
    comment = [];
    current = some name;
  }
  | some s ↦ record r { comment = []; current = some name }
]

abbrev pub drop_bom : ℕ → Str → Str
drop_bom ln [] = []
drop_bom ln (c ∷ s) = if ln == 1 then (if c == 65279 then s else c ∷ s) else c ∷ s

-- The body of the loop, behind the counting of the line.
unfoldable pub read_text : Str → Reader → Outcome ConfigError Reader
unfolding has_prefix has_suffix index trim_space trim_quotes put_in read_section
read_text line r =
    if has_prefix b'[' line
    then (if has_suffix b']' line
        then ok (read_section (take (length line - 2) (drop 1 line)) r)
        else err (not_closed r.ln))
    else elim (index b'=' line) [
      | none ↦ err (no_equals r.ln)
      | some zero ↦ err (no_equals r.ln)
      | some (suc i) ↦ ok (record r {
        config =
            put_in r.current (trim_space (take (suc i) line))
              (trim_quotes (trim_space (drop (i + 2) line))) r.comment r.config;
        comment = [];
      })
    ]

unfoldable pub read_line : Str → Reader → Outcome ConfigError Reader
unfolding trim_space_and_comment read_text
read_line text r =
    let r' = record r { ln = r.ln + 1 } in
    let (line, comment) = trim_space_and_comment (drop_bom r'.ln text) in
    if is_nil line then ok (record r' { comment = r.comment ++ comment }) else read_text line r'

unfoldable pub read_lines : List Str → Reader → Outcome ConfigError Reader
unfolding read_line
read_lines [] r = ok r
read_lines (l ∷ ls) r = elim (read_line l r) [
  | ok r' ↦ read_lines ls r'
  | err e ↦ err e
  | Outcome.panic e ↦ Outcome.panic e
]

abbrev pub first_reader : Reader
first_reader = record { config = empty_config; ln = 0; comment = []; current = none }

-- `return scanner.Err()` behind the loop.
abbrev pub with_scanner_err : Bool → Outcome ConfigError Reader → Outcome ConfigError Config
with_scanner_err long (ok r) = if long then err too_long else ok r.config
with_scanner_err long (err e) = err e
with_scanner_err long (Outcome.panic e) = Outcome.panic e

-- readIniFile, of the whole text.
unfoldable pub read_ini_file : Str → Outcome ConfigError Config
unfolding read_lines scan_lines
read_ini_file text =
    let (lines, long) = scan_lines text in with_scanner_err long (read_lines lines first_reader)

-- LoadINI, with what the files hold; `none` stands for the error of os.Open.
unfoldable pub load_ini : (Str → Option Str) → Str → Option (Outcome ConfigError Config)
unfolding read_ini_file
load_ini files path = elim (files path) [
  | none ↦ none
  | some text ↦ some (elim (read_ini_file text) [
    | ok c ↦ ok (record c { path = path })
    | err e ↦ err e
    | Outcome.panic e ↦ Outcome.panic e
  ])
]

abbrev pub line_of : Str → Str
line_of s = s ++ b'\n' ∷ []

abbrev pub comment_line : Option Str → Str
comment_line none = []
comment_line (some c) = if is_nil c then [] else line_of c

-- The lines of one section's keys in Save. A key that is not in the map is passed over.
unfoldable pub save_keys : List Str → Section → Str
unfolding get
save_keys [] sec = []
save_keys (key ∷ keys) sec = elim (get str_discrete key sec.values) [
  | none ↦ save_keys keys sec
  | some val ↦
      comment_line (get str_discrete key sec.comment_values)
      ++ (line_of (key ++ (b' ' ∷ b'=' ∷ b' ' ∷ val)) ++ save_keys keys sec)
]

unfoldable pub save_sections : List Str → List (Str × Section) → Str
unfolding save_keys get
save_sections [] sections = []
save_sections (key ∷ keys) sections = elim (get str_discrete key sections) [
  | none ↦ save_sections keys sections
  | some sec ↦
      line_of []
      ++ (comment_line (some sec.comment_section)
          ++ (line_of (b'[' ∷ (sec.name ++ b']' ∷ []))
              ++ (save_keys sec.keys sec ++ save_sections keys sections)))
]

-- Save: what it writes to the file.
unfoldable pub save : Config → Str
unfolding save_keys save_sections
save c = save_keys c.own.keys c.own ++ save_sections c.section_keys c.sections
