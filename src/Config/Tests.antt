-- ===== src/Config/Tests.antt =====
-- Runs of stconfig/ini.go, and the theorems at concrete inputs.
use gotools.Common.{◌≡◌, refl, arith, [], ◌∷◌, ok, err, if◌then◌else◌}
use gotools.Common.Assoc.{get, insert}
use gotools.Config.{no_equals, too_long, read_ini_file, save}
use gotools.Config.Text.{str_discrete, is_space, is_quote}
use gotools.Config.Values.{string, config_set, section_set, typed_section, del_section, boolean}
use gotools.Config.Text.{split_lines, has_long}
use gotools.Config.Errors.{report, first_bad, read_ini_file-first_bad}
use gotools.Config.Doc.{Doc, config_of, doc_lines, Clean}
use gotools.Config.RoundTrip.{read_ini_file-save}

program : Unit {0}
unfolding read_ini_file save string config_set section_set typed_section del_section boolean
    str_discrete get insert is_space is_quote
program = tt

-- "a = 1", "#c", "[s]" with "b = "
abbrev doc : Doc
doc = record {
  entries = record { comment = []; key = b'a' ∷ []; value = b'1' ∷ [] } ∷ [];
  parts =
      record {
        comment = b'#' ∷ b'c' ∷ [];
        name = b's' ∷ [];
        entries = record { comment = []; key = b'b' ∷ []; value = [] } ∷ [];
      }
      ∷ [];
}

doc_text :
    save (config_of doc)
    ≡ b'a' ∷ b' ' ∷ b'=' ∷ b' ' ∷ b'1' ∷ b'\n' ∷ b'\n' ∷ b'#' ∷ b'c' ∷ b'\n' ∷ b'[' ∷ b's' ∷ b']'
      ∷ b'\n' ∷ b'b' ∷ b' ' ∷ b'=' ∷ b' ' ∷ b'\n' ∷ []
unfolding program
doc_text = refl

-- A value in quotes, and a line without an equals sign.
quoted :
    read_ini_file (b'a' ∷ b'=' ∷ b'"' ∷ b'x' ∷ b'"' ∷ b'\n' ∷ [])
    ≡ ok (
        config_of (record {
          entries = record { comment = []; key = b'a' ∷ []; value = b'x' ∷ [] } ∷ [];
          parts = [];
        }))
unfolding program
quoted = refl

second_line_bad : read_ini_file (b'\n' ∷ b'a' ∷ []) ≡ err (no_equals 2)
unfolding program
second_line_bad = refl

doc-Clean : Clean doc
unfolding program
doc-Clean = ground arith

read_ini_file-save_example :
    read_ini_file (save (config_of doc))
    ≡ (if has_long (doc_lines doc) then err too_long else ok (config_of doc))
read_ini_file-save_example = read_ini_file-save doc doc-Clean

read_ini_file-first_bad_example :
    report (read_ini_file (b'\n' ∷ b'a' ∷ [])) ≡ first_bad 1 (split_lines (b'\n' ∷ b'a' ∷ []))
read_ini_file-first_bad_example = read_ini_file-first_bad (b'\n' ∷ b'a' ∷ [])

-- A section that is deleted and set again is listed twice, and saved twice.
saved_twice :
    (section_set
      (b's' ∷ [])
      (b'k' ∷ [])
      (b'v' ∷ [])
      []
      (del_section (b's' ∷ []) (config_of doc))).section_keys
    ≡ (b's' ∷ []) ∷ (b's' ∷ []) ∷ []
unfolding program
saved_twice = refl
