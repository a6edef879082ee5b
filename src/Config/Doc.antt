-- ===== src/Config/Doc.antt =====
-- Configuration files as documents: their entries and sections in order, the configuration that
-- stconfig/ini.go keeps for them, and the lines of the file.
use gotools.Common.{
  ◌≡◌, refl, sym, ap, ◌∙◌, arith, List, [], ◌∷◌, ◌++◌, append_assoc, ◌==◌, true, false, ◌||◌, none,
  some, map, All,
}
use gotools.Common.Assoc.{get}
use gotools.Config.{Section, Config, comment_line}
use gotools.Config.Text.{Str, str_discrete, is_space, is_quote}
use gotools.Config.Lines.{First, Last, Without, unlines}

pub record Entry : Type 0 where
  pub comment : Str
  pub key : Str
  pub value : Str

pub record Part : Type 0 where
  pub comment : Str
  pub name : Str
  pub entries : List Entry

pub record Doc : Type 0 where
  pub entries : List Entry
  pub parts : List Part

abbrev pub pairs : List Entry → List (Str × Str)
pairs es = map (λ e. (e.key, e.value)) es

abbrev pub comments : List Entry → List (Str × Str)
comments es = map (λ e. (e.key, e.comment)) es

abbrev pub section_of : Str → Str → List Entry → Section
section_of name comment es = record {
  name = name;
  values = pairs es;
  comment_section = comment;
  comment_values = comments es;
  keys = map (λ e. e.key) es;
}

abbrev pub sections_of : List Part → List (Str × Section)
sections_of ps = map (λ p. (p.name, section_of p.name p.comment p.entries)) ps

abbrev pub config_of : Doc → Config
config_of d = record {
  own = section_of [] [] d.entries;
  sections = sections_of d.parts;
  section_keys = map (λ p. p.name) d.parts;
  path = [];
}

-- The lines.
abbrev pub comment_lines : Str → List Str
comment_lines [] = []
comment_lines (c ∷ s) = (c ∷ s) ∷ []

abbrev pub text_of : Entry → Str
text_of e = e.key ++ (b' ' ∷ b'=' ∷ b' ' ∷ e.value)

abbrev pub head_of : Part → Str
head_of p = b'[' ∷ (p.name ++ b']' ∷ [])

abbrev pub entry_lines : List Entry → List Str
entry_lines [] = []
entry_lines (e ∷ es) = comment_lines e.comment ++ (text_of e ∷ entry_lines es)

abbrev pub part_lines : List Part → List Str
part_lines [] = []
part_lines (p ∷ ps) =
    [] ∷ (comment_lines p.comment ++ (head_of p ∷ (entry_lines p.entries ++ part_lines ps)))

abbrev pub doc_lines : Doc → List Str
doc_lines d = entry_lines d.entries ++ part_lines d.parts

-- No key and no name stands twice: each is new after those of `acc`.
abbrev pub Fresh : List Entry → List Entry → Type 0
Fresh acc [] = Unit
Fresh acc (e ∷ es) = (get str_discrete e.key (pairs acc) ≡ none) × Fresh (acc ++ e ∷ []) es

abbrev pub FreshParts : List Part → List Part → Type 0
FreshParts acc [] = Unit
FreshParts acc (p ∷ ps) =
    (get str_discrete p.name (sections_of acc) ≡ none)
    × Fresh [] p.entries
    × FreshParts (acc ++ p ∷ []) ps

-- A comment is one line that says so; a key, a value and a name come back from their lines.
abbrev pub CleanComment : Str → Type 0
CleanComment [] = Unit
CleanComment (c ∷ s) =
    (((c == b'#') || (c == b';')) ≡ true) × Last is_space (c ∷ s) × Without b'\n' (c ∷ s)

abbrev pub CleanKey : Str → Type 0
CleanKey [] = ⊥
CleanKey (c ∷ s) =
    (is_space c ≡ false)
    × ((c == b'#') ≡ false)
    × ((c == b';') ≡ false)
    × ((c == b'[') ≡ false)
    × ((c == 65279) ≡ false)
    × Last is_space (c ∷ s)
    × Without b'=' (c ∷ s)
    × Without b'\n' (c ∷ s)

abbrev pub CleanValue : Str → Type 0
CleanValue v =
    First is_space v × Last is_space v × First is_quote v × Last is_quote v × Without b'\n' v

abbrev pub CleanEntry : Entry → Type 0
CleanEntry e = CleanComment e.comment × CleanKey e.key × CleanValue e.value

abbrev pub CleanPart : Part → Type 0
CleanPart p = CleanComment p.comment × Without b'\n' p.name × All CleanEntry p.entries

abbrev pub Clean : Doc → Type 0
Clean d =
    All CleanEntry d.entries × All CleanPart d.parts × Fresh [] d.entries × FreshParts [] d.parts

-- Save of a document's configuration writes its lines.
pub unlines-append : (a b : List Str) → unlines (a ++ b) ≡ unlines a ++ unlines b
unlines-append [] b = refl
unlines-append (l ∷ a) b =
    ap (λ t. l ++ b'\n' ∷ t) (unlines-append a b)
    ∙ sym (append_assoc l (b'\n' ∷ unlines a) (unlines b))

pub comment_line-lines :
    (c : Str) (t : Str) → comment_line (some c) ++ t ≡ unlines (comment_lines c) ++ t
comment_line-lines [] t = refl
comment_line-lines (c ∷ s) t = refl

pub comments-absent :
    (k : Str) (es : List Entry)
    → get str_discrete k (pairs es) ≡ none
    → get str_discrete k (comments es) ≡ none
unfolding get
comments-absent k [] h = refl
comments-absent k (e ∷ es) h = ground (arith, comments-absent k es)
