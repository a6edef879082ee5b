-- ===== src/Config/Read.antt =====
-- readIniFile of stconfig/ini.go on one clean line.
use gotools.Common.{
  ℕ, suc, ◌+◌, ◌-◌, ◌≡◌, refl, sym, ap, ◌∙◌, arith, [], ◌∷◌, ◌++◌, append_assoc, append-nil, length,
  ◌==◌, true, false, take, drop, take-append, drop-append, length-append, drop-drop, ok,
}
use gotools.Config.{Reader, trim_space_and_comment, put_in, read_section, read_text, read_line}
use gotools.Config.Text.{
  Str, is_space, trim_left, trim_right, trim_space, trim_quotes, has_prefix, has_suffix,
}
use gotools.Config.Lines.{
  First, Last, Without, Last-append, Without-append, trim_left-First, trim_right-Last,
  trim_right-append, trim_space-clean, trim_quotes-clean, index-Without,
}
use gotools.Config.Doc.{Part, head_of, CleanComment, CleanKey, CleanValue}

pub read_line-nil : (r : Reader) → read_line [] r ≡ ok (record r { ln = r.ln + 1 })
unfolding read_line trim_space_and_comment trim_space
read_line-nil r = ap (λ c. ok (record r { ln = r.ln + 1; comment = c })) (append-nil r.comment)

pub read_line-comment :
    (c : ℕ) (s : Str) (r : Reader)
    → CleanComment (c ∷ s)
    → read_line (c ∷ s) r ≡ ok (record r { ln = r.ln + 1; comment = r.comment ++ c ∷ s })
unfolding read_line trim_space_and_comment has_prefix is_space
read_line-comment c s r h = ground (arith, trim_space-clean (c ∷ s))

has_suffix-append : (c : ℕ) (s : Str) → has_suffix c (s ++ c ∷ []) ≡ true
unfolding has_suffix
has_suffix-append c [] = ground arith
has_suffix-append c (d ∷ []) = has_suffix-append c []
has_suffix-append c (d ∷ e ∷ s) = has_suffix-append c (e ∷ s)

-- A line that is neither empty nor a comment once it is trimmed.
read_line-text :
    (c : ℕ) (s : Str) (d : ℕ) (t : Str) (r : Reader)
    → (c == 65279) ≡ false
    → trim_space (c ∷ s) ≡ d ∷ t
    → (d == b'#') ≡ false
    → (d == b';') ≡ false
    → read_line (c ∷ s) r ≡ read_text (d ∷ t) (record r { ln = r.ln + 1 })
unfolding read_line trim_space_and_comment has_prefix
read_line-text c s d t r bom trimmed hash semi = ground (arith, trimmed, bom)

pub read_line-head :
    (p : Part) (r : Reader)
    → read_line (head_of p) r ≡ ok (read_section p.name (record r { ln = r.ln + 1 }))
unfolding is_space read_text has_prefix
read_line-head p r =
    let line = head_of p in
    let clean = trim_space-clean line refl (Last-append is_space (b'[' ∷ p.name) b']' [] refl) in
    let size : length line - 2 ≡ length p.name = omega (arith, length-append p.name (b']' ∷ [])) in
    let inner : take (length line - 2) (p.name ++ b']' ∷ []) ≡ p.name =
      rw size (take-append p.name (b']' ∷ [])) in
    read_line-text b'[' (p.name ++ b']' ∷ []) b'[' (p.name ++ b']' ∷ []) r refl clean refl refl
    ∙ rw (has_suffix-append b']' (b'[' ∷ p.name), inner) refl

key_trimmed :
    (c : ℕ) (s : Str)
    → is_space c ≡ false
    → Last is_space (c ∷ s)
    → trim_space (c ∷ (s ++ b' ' ∷ [])) ≡ c ∷ s
unfolding trim_space is_space
key_trimmed c s f l =
    rw (trim_left-First is_space (c ∷ (s ++ b' ' ∷ [])) f)
      (trim_right-append is_space (c ∷ s) b' ' refl ∙ trim_right-Last is_space (c ∷ s) l)

value_trimmed : (v : Str) → First is_space v → Last is_space v → trim_space (b' ' ∷ v) ≡ v
unfolding trim_space trim_left is_space
value_trimmed v f l = rw (trim_left-First is_space v f) (trim_right-Last is_space v l)

-- The two sides of the equals sign.
read_text-sides :
    (c : ℕ) (b tail key v : Str) (r : Reader)
    → (c == b'[') ≡ false
    → Without b'=' (c ∷ b)
    → trim_space (c ∷ b) ≡ key
    → trim_space tail ≡ v
    → trim_quotes v ≡ v
    → read_text (c ∷ (b ++ b'=' ∷ tail)) r
      ≡ ok (record r { config = put_in r.current key v r.comment r.config; comment = [] })
unfolding read_text has_prefix
read_text-sides c b tail key v r bracket eq keyed trimmed quotes =
    let at = index-Without b'=' (c ∷ b) tail eq in
    let left : take (length b) (b ++ b'=' ∷ tail) ≡ b = take-append b (b'=' ∷ tail) in
    let n : length b + 2 ≡ suc (length b + 1) = omega arith in
    let right : drop (length b + 1) (b ++ b'=' ∷ tail) ≡ tail =
      sym (drop-drop (length b) 1 (b ++ b'=' ∷ tail)) ∙ ap (drop 1) (drop-append b (b'=' ∷ tail)) in
    ground (arith, at, left, n, right, keyed, trimmed, quotes)

read_text-pair :
    (c : ℕ) (s tail v : Str) (r : Reader)
    → CleanKey (c ∷ s)
    → trim_space tail ≡ v
    → trim_quotes v ≡ v
    → read_text (c ∷ (s ++ (b' ' ∷ b'=' ∷ tail))) r
      ≡ ok (record r { config = put_in r.current (c ∷ s) v r.comment r.config; comment = [] })
read_text-pair c s tail v r (f, hash, semi, bracket, bom, l, eq, lf) trimmed quotes =
    ap (λ t. read_text (c ∷ t) r) (sym (append_assoc s (b' ' ∷ []) (b'=' ∷ tail)))
    ∙ read_text-sides c (s ++ b' ' ∷ []) tail (c ∷ s) v r bracket
        (eq.0, Without-append b'=' s (b' ' ∷ []) eq.1 (refl, tt)) (key_trimmed c s f l) trimmed
        quotes

-- The line of an entry, trimmed: the blank behind the equals sign goes if there is no value.
text_trimmed :
    (c : ℕ) (s : Str) (v : Str)
    → is_space c ≡ false
    → Last is_space v
    → trim_space (c ∷ (s ++ (b' ' ∷ b'=' ∷ b' ' ∷ v)))
      ≡ c ∷ (s ++ (b' ' ∷ b'=' ∷ elim v [ [] ↦ [] | a ∷ w ↦ b' ' ∷ a ∷ w ]))
unfolding trim_space is_space
text_trimmed c s [] f l = rw (trim_left-First is_space (c ∷ (s ++ (b' ' ∷ b'=' ∷ b' ' ∷ []))) f) (
    ap (λ t. trim_right is_space (c ∷ t)) (sym (append_assoc s (b' ' ∷ b'=' ∷ []) (b' ' ∷ [])))
    ∙ trim_right-append is_space (c ∷ (s ++ (b' ' ∷ b'=' ∷ []))) b' ' refl
    ∙ trim_right-Last is_space _ (Last-append is_space (c ∷ s) b' ' (b'=' ∷ []) refl))
text_trimmed c s (a ∷ w) f l =
    rw (trim_left-First is_space (c ∷ (s ++ (b' ' ∷ b'=' ∷ b' ' ∷ a ∷ w))) f)
      (trim_right-Last is_space _ (Last-append is_space (c ∷ s) b' ' (b'=' ∷ b' ' ∷ a ∷ w) l))

entry_read :
    (c : ℕ) (s v : Str) (r : Reader)
    → CleanKey (c ∷ s)
    → CleanValue v
    → read_line (c ∷ (s ++ (b' ' ∷ b'=' ∷ b' ' ∷ v))) r
      ≡ ok (record r {
        ln = r.ln + 1;
        config = put_in r.current (c ∷ s) v r.comment r.config;
        comment = [];
      })
unfolding trim_space trim_left
entry_read c s [] r k (f, l, qf, ql, lf) =
    read_line-text c _ c _ r k.4 (text_trimmed c s [] k.0 l) k.1 k.2
    ∙ read_text-pair c s [] [] (record r { ln = r.ln + 1 }) k refl (trim_quotes-clean [] qf ql)
entry_read c s (a ∷ w) r k (f, l, qf, ql, lf) =
    read_line-text c _ c _ r k.4 (text_trimmed c s (a ∷ w) k.0 l) k.1 k.2
    ∙ read_text-pair c s (b' ' ∷ a ∷ w) (a ∷ w) (record r { ln = r.ln + 1 }) k
        (value_trimmed (a ∷ w) f l) (trim_quotes-clean (a ∷ w) qf ql)

pub read_line-entry :
    (key v : Str) (r : Reader)
    → CleanKey key
    → CleanValue v
    → read_line (key ++ (b' ' ∷ b'=' ∷ b' ' ∷ v)) r
      ≡ ok (record r {
        ln = r.ln + 1;
        config = put_in r.current key v r.comment r.config;
        comment = [];
      })
read_line-entry [] v r k h = absurd k
read_line-entry (c ∷ s) v r k h = entry_read c s v r k h
