-- ===== src/Frame/Cut.antt =====
-- One chunk of a stream of frames in the loop of dohand (stnet/session.go): the bodies that are whole,
-- and the part that waits for more.
use gotools.Common.{
  ◌==◌, ℕ, zero, suc, ◌+◌, ◌-◌, ◌≤◌, ◌<◌, ◌≡◌, refl, sym, ap, ◌∙◌, arith, List, [], ◌∷◌, ◌++◌, ltb,
  length, drop, length-append, take-append, append_assoc, append-nil, map, Bool, true, false, ◌||◌,
  Option, none, some, Bool-cases, inl, inr,
}
use gotools.Frame.{msg_len, max_msg_size, Message, message, unmarshal, Hand, hand_loop}
use gotools.Frame.Bytes.{frame, msg_len-frame}

abbrev pub stream : List (List ℕ) → List ℕ
stream [] = []
stream (d ∷ ds) = frame d ++ stream ds

abbrev pub together : List (List ℕ) → List ℕ
together [] = []
together (b ∷ bs) = b ++ together bs

-- The bodies that the receiver's limit lets through.
abbrev pub Small : List (List ℕ) → Type 0
Small [] = Unit
Small (d ∷ ds) = (length d + 4 < max_msg_size) × Small ds

msg_len-append : (buf rest : List ℕ) → 4 ≤ length buf → msg_len (buf ++ rest) ≡ msg_len buf
unfolding msg_len
msg_len-append [] rest h = absurd (omega arith)
msg_len-append (a ∷ []) rest h = absurd (omega arith)
msg_len-append (a ∷ b ∷ []) rest h = absurd (omega arith)
msg_len-append (a ∷ b ∷ c ∷ []) rest h = absurd (omega arith)
msg_len-append (a ∷ b ∷ c ∷ d ∷ buf) rest h = refl

abbrev tail : List ℕ → List ℕ
tail [] = []
tail (x ∷ l) = l

abbrev head : List ℕ → ℕ
head [] = 0
head (x ∷ l) = x

-- A list that is in front of a longer one.
front :
    (f buf rest l : List ℕ)
    → buf ++ rest ≡ f ++ l
    → length f ≤ length buf
    → (f ++ drop (length f) buf ≡ buf) × (drop (length f) buf ++ rest ≡ l)
front [] buf rest l e h = (refl, e)
front (x ∷ f) [] rest l e h = absurd (omega arith)
front (x ∷ f) (y ∷ buf) rest l e h =
    let (p, q) = front f buf rest l (ap tail e) (omega arith) in
    (rw (ap head e) (ap (λ (t : List ℕ). x ∷ t) p), q)

or_false : (b : Bool) → b || false ≡ b
or_false true = refl
or_false false = refl

nil_of_length : (b : List ℕ) → length b ≡ 0 → b ≡ []
nil_of_length [] h = refl
nil_of_length (c ∷ b) h = absurd (omega arith)

module _ {M : Type 0} (body : List ℕ → M) where
  abbrev pub messages : List (List ℕ) → List (Message M)
  messages ds = map (λ d. message (body d)) ds

  pub unmarshal-frame :
      (d rest : List ℕ)
      → length d + 4 < max_msg_size
      → unmarshal body (frame d ++ rest) ≡ (length (frame d), some (message (body d)))
  unfolding unmarshal
  unmarshal-frame d rest h =
      let n = msg_len-frame d rest (omega arith) in
      let l = length-append d rest in
      let e : length d + 4 - 4 ≡ length d = omega arith in
      ground (arith, n, l, e, take-append d rest)

  -- A part of a frame waits for more.
  unmarshal-part :
      (buf rest d l : List ℕ)
      → length d + 4 < max_msg_size
      → buf ++ rest ≡ frame d ++ l
      → length buf < length d + 4
      → unmarshal body buf ≡ (0, none)
  unfolding unmarshal
  unmarshal-part buf rest d l small e h =
      let n = msg_len-frame d l (omega arith) in
      ground (arith, msg_len-append buf rest, ap msg_len e, n)

  module _ (fuel : ℕ) (buf : List ℕ) (h : Hand M) where
    round_part :
        unmarshal body buf ≡ (0, none)
        → length buf ≤ max_msg_size
        → hand_loop body false (suc fuel) buf h ≡ some (record h { temp_buf = buf })
    unfolding hand_loop
    round_part e l = ground (arith, e, append-nil h.sent, or_false h.closed, nil_of_length buf)

    round_last :
        (m : Message M)
        → unmarshal body buf ≡ (length buf, some m)
        → hand_loop body false (suc fuel) buf h
          ≡ some (record h { temp_buf = []; sent = h.sent ++ (m ∷ []) })
    unfolding hand_loop
    round_last m e = ground (arith, e)

    round_more :
        (n : ℕ) (m : Message M)
        → unmarshal body buf ≡ (n, some m)
        → 0 < n
        → n < length buf
        → hand_loop body false (suc fuel) buf h
          ≡ hand_loop body false fuel (drop n buf) (record h { sent = h.sent ++ (m ∷ []) })
    unfolding hand_loop
    round_more n m e p q = ground (arith, e)

  -- What is left waits for more of the first body.
  abbrev pub Waits : List ℕ → List (List ℕ) → Type 0
  Waits t [] = t ≡ []
  Waits t (d ∷ ds) = length t < length d + 4

  -- What handing on a part of the stream of `ds` comes to, `rest` being the part that is not in yet.
  pub record Cut (result : Option (Hand M)) (h : Hand M) (ds : List (List ℕ)) (rest : List ℕ)
      : Type 0 where
    pub next : Hand M
    pub before : List (List ℕ)
    pub after : List (List ℕ)
    pub runs : result ≡ some next
    pub split : before ++ after ≡ ds
    pub handed : next.sent ≡ h.sent ++ messages before
    pub same : next.closed ≡ h.closed
    pub left : next.temp_buf ++ rest ≡ stream after
    pub waits : Waits next.temp_buf after

  Cut-part :
      (fuel : ℕ) (buf : List ℕ) (h : Hand M) (d : List ℕ) (ds : List (List ℕ)) (rest : List ℕ)
      → length d + 4 < max_msg_size
      → buf ++ rest ≡ stream (d ∷ ds)
      → length buf < length d + 4
      → Cut (hand_loop body false (suc fuel) buf h) h (d ∷ ds) rest
  Cut-part fuel buf h d ds rest small e part = record {
    next = record h { temp_buf = buf };
    before = [];
    after = d ∷ ds;
    runs = round_part fuel buf h (unmarshal-part buf rest d (stream ds) small e part) (omega arith);
    split = refl;
    handed = sym (append-nil h.sent);
    same = refl;
    left = e;
    waits = part;
  }

  -- One body is handed on, and the others follow.
  Cut-more :
      (first second : Option (Hand M)) (h : Hand M) (d : List ℕ) (ds : List (List ℕ))
      (rest : List ℕ)
      → first ≡ second
      → Cut second (record h { sent = h.sent ++ (message (body d) ∷ []) }) ds rest
      → Cut first h (d ∷ ds) rest
  Cut-more first second h d ds rest e c = record {
    next = c.next;
    before = d ∷ c.before;
    after = c.after;
    runs = e ∙ c.runs;
    split = ap (λ l. d ∷ l) c.split;
    handed = c.handed ∙ append_assoc h.sent (message (body d) ∷ []) (messages c.before);
    same = c.same;
    left = c.left;
    waits = c.waits;
  }

  pub Waits-nil : (ds : List (List ℕ)) → Waits [] ds
  Waits-nil [] = refl
  Waits-nil (d ∷ ds) = omega arith

  unmarshal-nil : unmarshal body [] ≡ (0, none)
  unfolding unmarshal
  unmarshal-nil = refl

  Cut-nil :
      (h : Hand M) (ds : List (List ℕ)) (rest : List ℕ)
      → rest ≡ stream ds
      → Cut (some (record h { temp_buf = [] })) h ds rest
  Cut-nil h ds rest e = record {
    next = record h { temp_buf = [] };
    before = [];
    after = ds;
    runs = refl;
    split = refl;
    handed = sym (append-nil h.sent);
    same = refl;
    left = e;
    waits = Waits-nil ds;
  }

  pub hand_loop-Cut :
      (fuel : ℕ) (buf : List ℕ) (h : Hand M) (ds : List (List ℕ)) (rest : List ℕ)
      → length buf < fuel
      → Small ds
      → buf ++ rest ≡ stream ds
      → Cut (hand_loop body false fuel buf h) h ds rest
  hand_loop-Cut zero buf h ds rest enough small e = absurd (omega arith)
  hand_loop-Cut (suc fuel) buf h [] rest enough small e =
      let l : length buf + length rest ≡ 0 = sym (length-append buf rest) ∙ ap length e in
      let empty : buf ≡ [] = nil_of_length buf (omega arith) in
      rw empty (
        rw (round_part fuel [] h unmarshal-nil (omega arith))
          (Cut-nil h [] rest (nil_of_length rest (omega arith))))
  hand_loop-Cut (suc fuel) buf h (d ∷ ds) rest enough small e =
      elim (Bool-cases (ltb (length buf) (length d + 4))) [
        | inl part ↦ Cut-part fuel buf h d ds rest small.0 e (ground arith)
        | inr whole ↦
            let more = drop (length (frame d)) buf in
            let (p, q) = front (frame d) buf rest (stream ds) e (ground arith) in
            let parsed = ap (unmarshal body) (sym p) ∙ unmarshal-frame d more small.0 in
            let size = sym (length-append (frame d) more) ∙ ap length p in
            let h' = record h { sent = h.sent ++ (message (body d) ∷ []) } in
            elim (Bool-cases (length more == 0)) [
              | inl last ↦
                  let none_left : more ≡ [] = nil_of_length more (ground arith) in
                  let all : length (frame d) ≡ length buf = ground arith in
                  Cut-more _ _ h d ds rest
                    (round_last fuel buf h (message (body d)) (rw all at parsed))
                    (Cut-nil h' ds rest (rw none_left at q))
              | inr others ↦
                  let some_left : 0 < length more = ground arith in
                  Cut-more _ _ h d ds rest
                    (round_more fuel buf h (length (frame d)) (message (body d)) parsed
                      (omega arith) (omega arith))
                    (hand_loop-Cut fuel more h' ds rest (omega arith) small.1 q)
            ]
      ]
