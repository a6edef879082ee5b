-- ===== src/Config/RoundTrip.antt =====
-- readIniFile of stconfig/ini.go on what Save writes.
use gotools.Common.{
  ◌==◌, ◌+◌, ◌≡◌, refl, ap, ◌∙◌, arith, List, [], ◌∷◌, ◌++◌, append_assoc, append-nil, Option, none,
  some, map, All, ok, err, if◌then◌else◌, Bool-cases, inl, inr,
}
use gotools.Common.Assoc.{get, get-append, insert_absent, insert_last}
use gotools.Config.{
  Section, Config, Reader, new_section, empty_config, put_key, put_in, read_section, read_line,
  read_lines, first_reader, read_ini_file, save, too_long,
}
use gotools.Config.Text.{Str, str_discrete, is_space, too_long_line, before_long, has_long}
use gotools.Config.Lines.{
  Last, Without, Last-append, Without-append, IsLine, split_lines-unlines, before_long-IsLine,
  before_long-short,
}
use gotools.Config.Doc.{
  Entry, Part, Doc, pairs, comments, section_of, sections_of, config_of, comment_lines, text_of,
  head_of, entry_lines, part_lines, doc_lines, Fresh, FreshParts, CleanComment, CleanKey,
  CleanValue, CleanEntry, CleanPart, Clean, comments-absent,
}
use gotools.Config.Errors.{Outcome-cases}
use gotools.Config.Saved.{save-lines}
use gotools.Config.Read.{read_line-nil, read_line-comment, read_line-head, read_line-entry}
use mathlib.Core.List.{map-append}

-- What the lines of a comment, of an entry and of a section make of the reader.
abbrev commented : Str → Reader → Reader
commented [] r = r
commented (c ∷ s) r = record r { ln = r.ln + 1; comment = r.comment ++ c ∷ s }

abbrev entered : Entry → Reader → Reader
entered e r = record r {
  ln = r.ln + 1;
  config = put_in r.current e.key e.value r.comment r.config;
  comment = [];
}

abbrev after_entries : List Entry → Reader → Reader
after_entries [] r = r
after_entries (e ∷ es) r = after_entries es (entered e (commented e.comment r))

abbrev opened : Part → Reader → Reader
opened p r =
    let r' = commented p.comment (record r { ln = r.ln + 1 }) in
    read_section p.name (record r' { ln = r'.ln + 1 })

abbrev after_parts : List Part → Reader → Reader
after_parts [] r = r
after_parts (p ∷ ps) r = after_parts ps (after_entries p.entries (opened p r))

step :
    (l : Str) (ls : List Str) (r r' : Reader)
    → read_line l r ≡ ok r'
    → read_lines (l ∷ ls) r ≡ read_lines ls r'
unfolding read_lines
step l ls r r' e = ground (arith, e)

read_comment :
    (c : Str) (ls : List Str) (r : Reader)
    → CleanComment c
    → read_lines (comment_lines c ++ ls) r ≡ read_lines ls (commented c r)
read_comment [] ls r h = refl
read_comment (c ∷ s) ls r h = step (c ∷ s) ls r _ (read_line-comment c s r h)

read_entries :
    (es : List Entry) (ls : List Str) (r : Reader)
    → All CleanEntry es
    → read_lines (entry_lines es ++ ls) r ≡ read_lines ls (after_entries es r)
read_entries [] ls r h = refl
read_entries (e ∷ es) ls r h =
    let r' = commented e.comment r in
    ap (λ t. read_lines t r)
      (append_assoc (comment_lines e.comment) (text_of e ∷ entry_lines es) ls)
    ∙ read_comment e.comment (text_of e ∷ (entry_lines es ++ ls)) r h.0.0
    ∙ step (text_of e) (entry_lines es ++ ls) r' (entered e r')
        (read_line-entry e.key e.value r' h.0.1 h.0.2)
    ∙ read_entries es ls (entered e r') h.1

read_parts :
    (ps : List Part) (r : Reader)
    → All CleanPart ps
    → read_lines (part_lines ps) r ≡ ok (after_parts ps r)
unfolding read_lines
read_parts [] r h = refl
read_parts (p ∷ ps) r h =
    let r1 = record r { ln = r.ln + 1 } in
    let r2 = commented p.comment r1 in
    let inner = entry_lines p.entries ++ part_lines ps in
    step [] (comment_lines p.comment ++ (head_of p ∷ inner)) r r1 (read_line-nil r)
    ∙ read_comment p.comment (head_of p ∷ inner) r1 h.0.0
    ∙ step (head_of p) inner r2 (opened p r) (read_line-head p r2)
    ∙ read_entries p.entries (part_lines ps) (opened p r) h.0.2
    ∙ read_parts ps (after_entries p.entries (opened p r)) h.1

-- The configuration that the reader has, between two entries.
abbrev At : Reader → Config → Option Str → Type 0
At r c current = (r.config ≡ c) × (r.comment ≡ []) × (r.current ≡ current)

entered-At :
    (e : Entry) (comment : Str) (r : Reader) (c : Config) (current : Option Str)
    → At r c current
    → At (entered e (commented comment r)) (put_in current e.key e.value comment c) current
entered-At e [] r c current h = (cc, refl, h.2)
entered-At e (d ∷ s) r c current (config, comment, cur) = (cc, refl, cur)

put_key-section_of :
    (name comment : Str) (acc : List Entry) (e : Entry)
    → get str_discrete e.key (pairs acc) ≡ none
    → put_key e.key e.value e.comment (section_of name comment acc)
      ≡ section_of name comment (acc ++ e ∷ [])
unfolding put_key
put_key-section_of name comment acc e h =
    rw
      (
        insert_absent str_discrete e.key e.value (pairs acc) h,
        insert_absent str_discrete e.key e.comment (comments acc) (comments-absent e.key acc h),
      )
      (simp map-append)

abbrev own_at : List Entry → Config
own_at acc = record empty_config { own = section_of [] [] acc }

own_entries :
    (es acc : List Entry) (r : Reader)
    → At r (own_at acc) none
    → Fresh acc es
    → At (after_entries es r) (own_at (acc ++ es)) none
unfolding put_in
own_entries [] acc r h fresh = rw append-nil h
own_entries (e ∷ es) acc r h fresh =
    let entered_one = entered-At e e.comment r (own_at acc) none h in
    let next = ap (λ s. record empty_config { own = s }) (put_key-section_of [] [] acc e fresh.0) in
    rw append_assoc at (
      own_entries es (acc ++ e ∷ []) (entered e (commented e.comment r))
        (entered_one.0 ∙ next, entered_one.1, entered_one.2) fresh.1)

-- The configuration while the entries of the last section are read.
module _ (own : Section) (ps : List Part) (p : Part) where
  abbrev part_at : List Entry → Config
  part_at acc = record {
    own = own;
    sections = sections_of ps ++ (p.name, section_of p.name p.comment acc) ∷ [];
    section_keys = map (λ q. q.name) ps ++ p.name ∷ [];
    path = [];
  }

  put_in-part_at :
      (acc : List Entry) (e : Entry)
      → get str_discrete p.name (sections_of ps) ≡ none
      → get str_discrete e.key (pairs acc) ≡ none
      → put_in (some p.name) e.key e.value e.comment (part_at acc) ≡ part_at (acc ++ e ∷ [])
  unfolding put_in get
  put_in-part_at acc e new fresh =
      let sec = section_of p.name p.comment acc in
      let sec' = section_of p.name p.comment (acc ++ e ∷ []) in
      ground (
        arith,
        get-append str_discrete p.name (sections_of ps) ((p.name, sec) ∷ []),
        put_key-section_of p.name p.comment acc e fresh,
        insert_last str_discrete p.name sec' sec (sections_of ps),
      )

  part_entries :
      (es acc : List Entry) (r : Reader)
      → At r (part_at acc) (some p.name)
      → get str_discrete p.name (sections_of ps) ≡ none
      → Fresh acc es
      → At (after_entries es r) (part_at (acc ++ es)) (some p.name)
  part_entries [] acc r h new fresh = rw append-nil h
  part_entries (e ∷ es) acc r h new fresh =
      let entered_one = entered-At e e.comment r (part_at acc) (some p.name) h in
      rw append_assoc at (
        part_entries es (acc ++ e ∷ []) (entered e (commented e.comment r))
          (entered_one.0 ∙ put_in-part_at acc e new fresh.0, entered_one.1, entered_one.2) new
          fresh.1)

module _ (own : Section) where
  abbrev done_at : List Part → Config
  done_at ps = record {
    own = own;
    sections = sections_of ps;
    section_keys = map (λ q. q.name) ps;
    path = [];
  }

  part_at-done_at :
      (ps : List Part) (p : Part) → part_at own ps p p.entries ≡ done_at (ps ++ p ∷ [])
  part_at-done_at ps p = simp map-append

  opened-At :
      (ps : List Part) (p : Part) (comment : Str) (r : Reader) (current : Option Str)
      → At r (done_at ps) current
      → get str_discrete p.name (sections_of ps) ≡ none
      → p.comment ≡ comment
      → (let r' = commented comment (record r { ln = r.ln + 1 }) in
          At
            (read_section p.name (record r' { ln = r'.ln + 1 }))
            (part_at own ps p [])
            (some p.name))
  unfolding read_section
  opened-At ps p [] r current h new e =
      ground (
        arith,
        h,
        e,
        insert_absent str_discrete p.name (new_section p.name []) (sections_of ps) new,
      )
  opened-At ps p (c ∷ s) r current h new e = ground (
    arith,
    h,
    e,
    insert_absent str_discrete p.name (new_section p.name (c ∷ s)) (sections_of ps) new,
  )

  parts_read :
      (ps acc : List Part) (r : Reader) (current : Option Str)
      → At r (done_at acc) current
      → FreshParts acc ps
      → (after_parts ps r).config ≡ done_at (acc ++ ps)
  parts_read [] acc r current h fresh = rw append-nil (h.0)
  parts_read (p ∷ ps) acc r current h fresh =
      let entries =
        part_entries own acc p p.entries [] (opened p r)
          (opened-At acc p p.comment r current h fresh.0 refl) fresh.0 fresh.1 in
      rw append_assoc at (
        parts_read ps (acc ++ p ∷ []) (after_entries p.entries (opened p r)) (some p.name)
          (entries.0 ∙ part_at-done_at acc p, entries.1, entries.2) fresh.2)

-- The lines of a clean document hold no line ends.
Last-cr : (s : Str) → Last is_space s → Last (λ c. c == b'\r') s
unfolding is_space
Last-cr [] h = tt
Last-cr (c ∷ []) h = ground arith
Last-cr (c ∷ d ∷ s) h = Last-cr (d ∷ s) h

All-append : (xs ys : List Str) → All IsLine xs → All IsLine ys → All IsLine (xs ++ ys)
All-append [] ys hx hy = hy
All-append (x ∷ xs) ys hx hy = (hx.0, All-append xs ys hx.1 hy)

comment_lines-IsLine : (c : Str) → CleanComment c → All IsLine (comment_lines c)
comment_lines-IsLine [] h = tt
comment_lines-IsLine (c ∷ s) h = ((h.2, Last-cr (c ∷ s) h.1), tt)

key-Without : (k : Str) → CleanKey k → Without b'\n' k
key-Without [] h = absurd h
key-Without (c ∷ s) h = h.7

text-IsLine : (k v : Str) → Without b'\n' k → CleanValue v → IsLine (k ++ (b' ' ∷ b'=' ∷ b' ' ∷ v))
text-IsLine k [] hk h = (
  Without-append b'\n' k (b' ' ∷ b'=' ∷ b' ' ∷ []) hk (refl, (refl, (refl, tt))),
  Last-append (λ c. c == b'\r') k b' ' (b'=' ∷ b' ' ∷ []) refl,
)
text-IsLine k (a ∷ w) hk h = (
  Without-append b'\n' k (b' ' ∷ b'=' ∷ b' ' ∷ a ∷ w) hk (refl, (refl, (refl, h.4))),
  Last-append (λ c. c == b'\r') k b' ' (b'=' ∷ b' ' ∷ a ∷ w) (Last-cr (a ∷ w) h.1),
)

entry_lines-IsLine : (es : List Entry) → All CleanEntry es → All IsLine (entry_lines es)
entry_lines-IsLine [] h = tt
entry_lines-IsLine (e ∷ es) h =
    All-append (comment_lines e.comment) (text_of e ∷ entry_lines es)
      (comment_lines-IsLine e.comment h.0.0)
      (text-IsLine e.key e.value (key-Without e.key h.0.1) h.0.2, entry_lines-IsLine es h.1)

head-IsLine : (p : Part) → Without b'\n' p.name → IsLine (head_of p)
head-IsLine p h = (
  (refl, Without-append b'\n' p.name (b']' ∷ []) h (refl, tt)),
  Last-append (λ c. c == b'\r') (b'[' ∷ p.name) b']' [] refl,
)

part_lines-IsLine : (ps : List Part) → All CleanPart ps → All IsLine (part_lines ps)
part_lines-IsLine [] h = tt
part_lines-IsLine (p ∷ ps) h = (
  (tt, tt),
  All-append (comment_lines p.comment) (head_of p ∷ (entry_lines p.entries ++ part_lines ps))
      (comment_lines-IsLine p.comment h.0.0)
      (
        head-IsLine p h.0.1,
        All-append (entry_lines p.entries) (part_lines ps) (entry_lines-IsLine p.entries h.0.2)
            (part_lines-IsLine ps h.1),
      ),
)

-- The lines in front of one that is too long are read like all of them.
prefix-ok :
    (ls : List Str) (r r' : Reader)
    → read_lines ls r ≡ ok r'
    → (q : Reader) × (read_lines (before_long ls) r ≡ ok q)
unfolding read_lines
prefix-ok [] r r' h = (r', h)
prefix-ok (l ∷ ls) r r' h = elim (Bool-cases (too_long_line l)) [
  | inl long ↦ (r, ground (arith, long))
  | inr short ↦ elim (Outcome-cases (read_line l r)) [
    | inl (m, fine) ↦
        let (q, e) = prefix-ok ls m r' (ground (arith, fine, h)) in
        (q, ground (arith, short, fine, e))
    | inr (inl (e, bad)) ↦ absurd (ground (arith, bad, h))
    | inr (inr (e, bad)) ↦ absurd (ground (arith, bad, h))
  ]
]

-- The lines of a clean document give its configuration, whatever their lengths.
doc_read :
    (d : Doc)
    → Clean d
    → (r : Reader) × (read_lines (doc_lines d) first_reader ≡ ok r) × (r.config ≡ config_of d)
doc_read d (entries, parts, fresh, fresh_parts) =
    let own_reader = after_entries d.entries first_reader in
    let own = own_entries d.entries [] first_reader (refl, refl, refl) fresh in
    (
      after_parts d.parts own_reader,
      read_entries d.entries (part_lines d.parts) first_reader entries
          ∙ read_parts d.parts own_reader parts,
      parts_read (section_of [] [] d.entries) d.parts [] own_reader none own fresh_parts,
    )

-- For every clean document, whose keys and section names do not stand twice, readIniFile of what Save
-- writes for the document's configuration gives that configuration back if each line written takes
-- less than 65536 bytes: its values, comments and keys and those of its sections, all in their order.
-- Otherwise readIniFile fails with the scanner's error.
pub read_ini_file-save :
    (d : Doc)
    → Clean d
    → read_ini_file (save (config_of d))
      ≡ (if has_long (doc_lines d) then err too_long else ok (config_of d))
unfolding read_ini_file
read_ini_file-save d clean =
    let (entries, parts, fresh, fresh_parts) = clean in
    let are_lines =
      All-append (entry_lines d.entries) (part_lines d.parts) (entry_lines-IsLine d.entries entries)
        (part_lines-IsLine d.parts parts) in
    let split = split_lines-unlines (doc_lines d) are_lines in
    let kept = before_long-IsLine (doc_lines d) are_lines in
    let (r, read, config) = doc_read d clean in
    elim (Bool-cases (has_long (doc_lines d))) [
      | inl long ↦
          let (q, e) = prefix-ok (doc_lines d) first_reader r read in
          rw (save-lines d fresh fresh_parts, split, kept, e, long) refl
      | inr short ↦
          let whole = before_long-short (doc_lines d) short in
          rw (save-lines d fresh fresh_parts, split, kept, whole, read, short)
            (ap (λ c. ok c) config)
    ]
