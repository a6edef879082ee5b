-- ===== src/Config/Values.antt =====
-- The setters and the getters of stconfig/ini.go.
use gotools.Common.{
  ◌≡◌, arith, List, [], ◌∷◌, ◌++◌, Bool, true, false, if◌then◌else◌, Option, none, some,
  Option-cases, inl, inr,
}
use gotools.Common.Assoc.{get, insert, delete, get-insert}
use gotools.Config.{Section, Config, new_section}
use gotools.Config.Text.{Str, str_discrete, is_nil}
use mathlib.Core.Logic.{ite}

-- `if comment != "" { comment = "#" + comment }`
abbrev pub hashed : Str → Str
hashed [] = []
hashed (c ∷ s) = b'#' ∷ c ∷ s

-- set
unfoldable pub set : Str → Str → Str → Section → Section
unfolding get insert
set key val comment s = elim (get str_discrete key s.values) [
  | some old ↦ record s {
    values = insert str_discrete key val s.values;
    comment_values =
        if is_nil comment
        then s.comment_values
        else insert str_discrete key (hashed comment) s.comment_values;
  }
  | none ↦ record s {
    values = insert str_discrete key val s.values;
    comment_values = insert str_discrete key (hashed comment) s.comment_values;
    keys = s.keys ++ key ∷ [];
  }
]

-- Set
unfoldable pub config_set : Str → Str → Str → Config → Config
unfolding set
config_set key val comment c = record c { own = set key val comment c.own }

-- SectionSet
unfoldable pub section_set : Str → Str → Str → Str → Config → Config
unfolding set get insert
section_set section key val comment c = elim (get str_discrete section c.sections) [
  | some sec ↦ record c {
    sections = insert str_discrete section (set key val comment sec) c.sections;
  }
  | none ↦ record c {
    sections =
        insert str_discrete section
          (record (new_section section []) {
            values = (key, val) ∷ [];
            comment_values = if is_nil comment then [] else (key, hashed comment) ∷ [];
            keys = key ∷ [];
          })
          c.sections;
    section_keys = c.section_keys ++ section ∷ [];
  }
]

-- DelSection
unfoldable pub del_section : Str → Config → Config
unfolding delete
del_section section c = record c { sections = delete str_discrete section c.sections }

-- `string`, `boolean`, `integer` and `float` of a map of values: what the parser of the type makes of
-- the value, or the default if there is none or it does not parse.
unfoldable pub typed : {A : Type 0} → (Str → Option A) → List (Str × Str) → Str → A → A
unfolding get
typed parse kv key def = elim (get str_discrete key kv) [
  | none ↦ def
  | some v ↦ elim (parse v) [ none ↦ def | some a ↦ a ]
]

-- ParseBool of strconv, by its two lists of words.
abbrev truths : List Str
truths =
    (b'1' ∷ [])
    ∷ (b't' ∷ [])
    ∷ (b'T' ∷ [])
    ∷ (b'T' ∷ b'R' ∷ b'U' ∷ b'E' ∷ [])
    ∷ (b't' ∷ b'r' ∷ b'u' ∷ b'e' ∷ [])
    ∷ (b'T' ∷ b'r' ∷ b'u' ∷ b'e' ∷ [])
    ∷ []

abbrev falsehoods : List Str
falsehoods =
    (b'0' ∷ [])
    ∷ (b'f' ∷ [])
    ∷ (b'F' ∷ [])
    ∷ (b'F' ∷ b'A' ∷ b'L' ∷ b'S' ∷ b'E' ∷ [])
    ∷ (b'f' ∷ b'a' ∷ b'l' ∷ b's' ∷ b'e' ∷ [])
    ∷ (b'F' ∷ b'a' ∷ b'l' ∷ b's' ∷ b'e' ∷ [])
    ∷ []

unfoldable pub one_of : Str → List Str → Bool
unfolding str_discrete
one_of s [] = false
one_of s (w ∷ ws) = ite (str_discrete s w) true (one_of s ws)

unfoldable pub parse_bool : Str → Option Bool
unfolding one_of
parse_bool s =
    if one_of s truths then some true else if one_of s falsehoods then some false else none

-- String, Boolean, Integer and Float: the values of the file's own section. `parse_int` and
-- `parse_float` stand for ParseInt and ParseFloat of strconv.
unfoldable pub string : Config → Str → Str → Str
unfolding typed
string c = typed some c.own.values

unfoldable pub boolean : Config → Str → Bool → Bool
unfolding typed parse_bool
boolean c = typed parse_bool c.own.values

unfoldable pub integer : {A : Type 0} → (Str → Option A) → Config → Str → A → A
unfolding typed
integer parse_int c = typed parse_int c.own.values

unfoldable pub float : {A : Type 0} → (Str → Option A) → Config → Str → A → A
unfolding typed
float parse_float c = typed parse_float c.own.values

-- Section: `none` is the nil map.
unfoldable pub section : Config → Str → Option (List (Str × Str))
unfolding get
section c sec = elim (get str_discrete sec c.sections) [ none ↦ none | some m ↦ some m.values ]

-- StringSection, BooleanSection, IntegerSection and FloatSection.
unfoldable pub typed_section : {A : Type 0} → (Str → Option A) → Config → Str → Str → A → A
unfolding section typed
typed_section parse c sec key def = elim (section c sec) [
  | none ↦ def
  | some values ↦ typed parse values key def
]

-- After Set, String reads the value under the key, and every other key as before, whatever comment is
-- given with it.
pub string-config_set :
    (c : Config) (key val comment j def : Str)
    → string (config_set key val comment c) j def ≡ ite (str_discrete key j) val (string c j def)
unfolding string config_set typed set
string-config_set c key val comment j def =
    ground (arith, get-insert str_discrete key j val c.own.values)

abbrev old_values : Option (List (Str × Str)) → List (Str × Str)
old_values none = []
old_values (some m) = m

values-set :
    (key val comment : Str) (s : Section)
    → (set key val comment s).values ≡ insert str_discrete key val s.values
unfolding set
values-set key val comment s = ground arith

section-section_set :
    (c : Config) (sec key val comment other : Str)
    → section (section_set sec key val comment c) other
      ≡ ite
          (str_discrete sec other)
          (some (insert str_discrete key val (old_values (section c sec))))
          (section c other)
unfolding section section_set insert
section-section_set c sec key val comment other =
    elim (Option-cases (get str_discrete sec c.sections)) [
      | inl miss ↦ ground (
        arith,
        get-insert str_discrete sec other
            (record (new_section sec []) {
              values = (key, val) ∷ [];
              comment_values = if is_nil comment then [] else (key, hashed comment) ∷ [];
              keys = key ∷ [];
            })
            c.sections,
      )
      | inr (s, hit) ↦ ground (
        arith,
        get-insert str_discrete sec other (set key val comment s) c.sections,
        values-set key val comment s,
      )
    ]

-- After SectionSet the section holds the value under the key and every other key as before, and every
-- other section is as before; a section that was not there comes to hold that one key.
pub typed_section-section_set :
    {A : Type 0} (parse : Str → Option A) (c : Config) (sec key val comment other j : Str) (def : A)
    → typed_section parse (section_set sec key val comment c) other j def
      ≡ ite
          (str_discrete sec other)
          (ite
            (str_discrete key j)
            (elim (parse val) [ none ↦ def | some a ↦ a ])
            (typed_section parse c other j def))
          (typed_section parse c other j def)
unfolding typed_section typed get
typed_section-section_set parse c sec key val comment other j def = ground (
  arith,
  section-section_set c sec key val comment other,
  get-insert str_discrete key j val (old_values (section c sec)),
)
