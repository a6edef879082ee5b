-- ===== src/Transport/Written.antt =====
-- A message that dosend writes (stnet/session.go): it ends, and what the socket has taken.
use gotools.Common.{
  ℕ, zero, suc, ◌+◌, ◌≤◌, ◌<◌, ◌≡◌, refl, sym, ap, ◌∙◌, arith, List, [], ◌++◌, append_assoc,
  append-nil, length, length-drop, take-append-drop, drop-drop, drop_of_length-le, take, drop, Bool,
  true, false, Option, some, Bool-cases, inl, inr, dec_lt,
}
use mathlib.Core.Path.{subst}
use gotools.Transport.{Accepts, write_from}

-- What a Write of a connection promises: it takes no more bytes than it is given, and one at least of
-- some bytes unless it fails.
pub record Writes (accepts : Accepts) : Type 0 where
  pub fits : (out bytes : List ℕ) → (accepts out bytes).0 ≤ length bytes
  pub moves :
      (out bytes : List ℕ)
      → 0 < length bytes
      → (accepts out bytes).1 ≡ false
      → 0 < (accepts out bytes).0

-- The outcome of writing `bytes` behind `out`: the whole of it, or a part when a Write failed.
pub record Wrote (result : Option (List ℕ × Bool)) (out bytes : List ℕ) : Type 0 where
  pub written : List ℕ
  pub lost : List ℕ
  pub failed : Bool
  pub ends : result ≡ some (out ++ written, failed)
  pub parts : written ++ lost ≡ bytes
  pub whole : failed ≡ false → lost ≡ []

module _ (accepts : Accepts) (w : Writes accepts) where
  Wrote-more :
      (result : Option (List ℕ × Bool)) (out bytes : List ℕ) (k : ℕ)
      → Wrote result (out ++ take k bytes) (drop k bytes)
      → Wrote result out bytes
  Wrote-more result out bytes k h = record {
    written = take k bytes ++ h.written;
    lost = h.lost;
    failed = h.failed;
    ends = h.ends ∙ ap (λ l. some (l, h.failed)) (append_assoc out (take k bytes) h.written);
    parts =
        append_assoc (take k bytes) h.written h.lost
        ∙ ap (λ l. take k bytes ++ l) h.parts
        ∙ take-append-drop k bytes;
    whole = h.whole;
  }

  write_from-Wrote :
      (fuel n : ℕ) (bytes out : List ℕ)
      → n ≤ length bytes
      → length bytes < n + fuel
      → Wrote (write_from accepts fuel n bytes out) out (drop n bytes)
  unfolding write_from
  write_from-Wrote zero n bytes out le lt = absurd (omega arith)
  write_from-Wrote (suc fuel) n bytes out le lt =
      let d = drop n bytes in
      let r = accepts out d in
      let len = length-drop n bytes in
      let fits = w.fits out d in
      elim (dec_lt n (length bytes)) [
        | no ge ↦ record {
          written = [];
          lost = drop n bytes;
          failed = false;
          ends = ground (arith, append-nil out);
          parts = refl;
          whole = λ e. drop_of_length-le n bytes (omega arith);
        }
        | yes more ↦ elim (Bool-cases r.1) [
          | inl bad ↦ record {
            written = take r.0 d;
            lost = drop r.0 d;
            failed = true;
            ends = ground (arith, bad);
            parts = take-append-drop r.0 d;
            whole = λ e. absurd (ground (arith, e));
          }
          | inr good ↦
              let moves = w.moves out d (omega arith) good in
              let rest =
                write_from-Wrote fuel (n + r.0) bytes (out ++ take r.0 d) (omega arith)
                  (omega arith) in
              let after =
                subst
                  (λ l.
                    Wrote (write_from accepts fuel (n + r.0) bytes (out ++ take r.0 d))
                      (out ++ take r.0 d) l)
                  (sym (drop-drop n r.0 bytes)) rest in
              let next : write_from accepts (suc fuel) n bytes out
                  ≡ write_from accepts fuel (n + r.0) bytes (out ++ take r.0 d) =
                ground (arith, good) in
              subst (λ o. Wrote o out d) (sym next)
                (Wrote-more (write_from accepts fuel (n + r.0) bytes (out ++ take r.0 d)) out d r.0
                  after)
        ]
      ]

  -- With a socket that keeps what a Write promises, the loop of dosend ends for every message: the
  -- socket has then taken the whole message behind what it had, or a first part of it when a Write
  -- failed.
  pub write_from-ends :
      (bytes out : List ℕ) → Wrote (write_from accepts (suc (length bytes)) 0 bytes out) out bytes
  write_from-ends bytes out =
      write_from-Wrote (suc (length bytes)) 0 bytes out (omega arith) (omega arith)
