-- ===== src/Config/Saved.antt =====
-- Save of stconfig/ini.go on the configuration of a document.
use gotools.Common.{
  ◌≡◌, refl, sym, ap, ◌∙◌, arith, List, [], ◌∷◌, ◌++◌, append_assoc, none, some, map,
}
use gotools.Common.Assoc.{get, get-append}
use gotools.Config.{save, save_keys, save_sections, line_of, comment_line}
use gotools.Config.Text.{Str, str_discrete}
use gotools.Config.Lines.{unlines}
use gotools.Config.Doc.{
  Entry, Part, Doc, pairs, comments, section_of, sections_of, config_of, comment_lines, text_of,
  head_of, entry_lines, part_lines, doc_lines, Fresh, FreshParts, unlines-append,
  comment_line-lines, comments-absent,
}
use mathlib.Core.List.{map-append}

found :
    {V : Type 0} (k : Str) (v : V) (m n : List (Str × V))
    → get str_discrete k m ≡ none
    → get str_discrete k (m ++ (k, v) ∷ n) ≡ some v
unfolding get
found k v m n h = ground (arith, get-append str_discrete k m ((k, v) ∷ n))

pub value_found :
    (acc es : List Entry) (e : Entry)
    → get str_discrete e.key (pairs acc) ≡ none
    → get str_discrete e.key (pairs (acc ++ e ∷ es)) ≡ some e.value
value_found acc es e h = rw map-append (found e.key e.value (pairs acc) (pairs es) h)

pub comment_found :
    (acc es : List Entry) (e : Entry)
    → get str_discrete e.key (pairs acc) ≡ none
    → get str_discrete e.key (comments (acc ++ e ∷ es)) ≡ some e.comment
comment_found acc es e h =
    rw map-append (found e.key e.comment (comments acc) (comments es) (comments-absent e.key acc h))

pub section_found :
    (acc ps : List Part) (p : Part)
    → get str_discrete p.name (sections_of acc) ≡ none
    → get str_discrete p.name (sections_of (acc ++ p ∷ ps))
      ≡ some (section_of p.name p.comment p.entries)
section_found acc ps p h =
    rw map-append
      (found p.name (section_of p.name p.comment p.entries) (sections_of acc) (sections_of ps) h)

-- The lines of an entry, with a comment or without.
entry_text :
    (e : Entry) (rest : List Str)
    → comment_line (some e.comment) ++ (line_of (text_of e) ++ unlines rest)
      ≡ unlines (comment_lines e.comment ++ (text_of e ∷ rest))
entry_text e rest =
    comment_line-lines e.comment (line_of (text_of e) ++ unlines rest)
    ∙ ap (λ t. unlines (comment_lines e.comment) ++ t)
        (append_assoc (text_of e) (b'\n' ∷ []) (unlines rest))
    ∙ sym (unlines-append (comment_lines e.comment) (text_of e ∷ rest))

save_keys-lines :
    (name comment : Str) (acc es : List Entry)
    → Fresh acc es
    → save_keys (map (λ e. e.key) es) (section_of name comment (acc ++ es))
      ≡ unlines (entry_lines es)
unfolding save_keys
save_keys-lines name comment acc [] h = refl
save_keys-lines name comment acc (e ∷ es) h =
    let rest = save_keys-lines name comment (acc ++ e ∷ []) es h.1 in
    rw (value_found acc es e h.0, comment_found acc es e h.0, save_keys)
      (ap (λ t. comment_line (some e.comment) ++ (line_of (text_of e) ++ t))
          (rw append_assoc at rest)
        ∙ entry_text e (entry_lines es))

-- The lines of a section.
part_text :
    (p : Part) (keys rest : List Str)
    → line_of []
        ++ (comment_line (some p.comment)
            ++ (line_of (head_of p) ++ (unlines keys ++ unlines rest)))
      ≡ unlines ([] ∷ (comment_lines p.comment ++ (head_of p ∷ (keys ++ rest))))
part_text p keys rest =
    ap (λ t. b'\n' ∷ t)
      (comment_line-lines p.comment (line_of (head_of p) ++ (unlines keys ++ unlines rest))
        ∙ ap (λ t. unlines (comment_lines p.comment) ++ t)
            (append_assoc (head_of p) (b'\n' ∷ []) (unlines keys ++ unlines rest)
              ∙ ap (λ t. head_of p ++ b'\n' ∷ t) (sym (unlines-append keys rest)))
        ∙ sym (unlines-append (comment_lines p.comment) (head_of p ∷ (keys ++ rest))))

save_sections-lines :
    (acc ps : List Part)
    → FreshParts acc ps
    → save_sections (map (λ p. p.name) ps) (sections_of (acc ++ ps)) ≡ unlines (part_lines ps)
unfolding save_sections
save_sections-lines acc [] h = refl
save_sections-lines acc (p ∷ ps) h =
    let rest = save_sections-lines (acc ++ p ∷ []) ps h.2 in
    let keys = save_keys-lines p.name p.comment [] p.entries h.1 in
    rw (section_found acc ps p h.0, save_sections)
      (ap
          (λ t.
            line_of []
            ++ (comment_line (some p.comment)
                ++ (line_of (head_of p)
                    ++ (save_keys (map (λ e. e.key) p.entries)
                          (section_of p.name p.comment p.entries)
                        ++ t))))
          (rw append_assoc at rest)
        ∙ rw keys (part_text p (entry_lines p.entries) (part_lines ps)))

-- Save writes the lines of the document.
pub save-lines :
    (d : Doc)
    → Fresh [] d.entries
    → FreshParts [] d.parts
    → save (config_of d) ≡ unlines (doc_lines d)
unfolding save
save-lines d h hs =
    rw (save_keys-lines [] [] [] d.entries h, save_sections-lines [] d.parts hs)
      (sym (unlines-append (entry_lines d.entries) (part_lines d.parts)))
