-- ===== src/Spb/RoundTrip.antt =====
-- unpack of stnet/spb.go against the format and against pack.
use gotools.Common.{
  ℕ, zero, suc, ◌+◌, ◌*◌, ◌^◌, ◌≤◌, ◌<◌, ◌≡◌, refl, sym, ap, ◌∙◌, arith, List, [], ◌++◌, length,
  length-append, append_assoc, append-nil, Bool, true, false, none, some, inl, inr,
}
use gotools.Common.Varint.{varint64}
use gotools.Spb.Values.{
  Ty, Value, Values, Entries, Fields, length_values, length_entries, length_fields,
}
use gotools.Spb.Pack.{spb_encode}
use gotools.Spb.Read.{Spb, done, M}
use gotools.Spb.Unpack.{Runtime, Target, itself, at_field, target_of, value_at, put_at, new_elem}
use gotools.Spb.Decode.{unpack, spb_decode, unpack_field, elems_loop, entries_loop, fields_loop}
use gotools.Spb.Numbers.{advance, Ahead, Ahead-advance, length-Ahead, header_bytes}
use gotools.Spb.Wire.{
  magnitude, wire_number, bool_number, wire, wire_elems, wire_entries, wire_fields, blank,
  blank_fields, Carried, CarriedElems, CarriedEntries, CarriedFields, Found, length-header,
}
use gotools.Spb.PackWire.{pack-wire, magnitude-IsU64, uint-IsU64, wire_number-lt}
use gotools.Spb.Steps.{read_vector, read_mapping, read_struct, read_end}
use gotools.Spb.Structs.{join, one, join_assoc, length-join, make_map-KeysApart}
use gotools.Spb.Decoded.{
  landed, landed_twice, landed_thrice, length-spread, int_sign, positive-reads, negative-reads,
  text-reads, dropped,
}
use gotools.Spb.Loops.{
  bool_back, bool_number-IsU64, uint_back, elem_step, entry_step, field_step, elems_end,
  entries_end, end_step, length-wire, length-wire_fields, spread-Ahead, Ahead-twice, room,
  field_target, field_put, field_value, key_reads, through-blank,
}

module _ (rt : Runtime) where
  mutual
    unfolding wire blank Carried target_of value_at put_at

    pub value-reads :
        (v : Value) (fuel : ℕ) (first : Bool) (tag : ℕ) (x : Value) (t : Target) (s : Spb)
        (rest : List ℕ)
        → Carried rt v
        → tag < 2 ^ 32
        → 2 * length (wire tag v true) ≤ suc fuel
        → length s.buf < 2 ^ 63
        → target_of first tag x ≡ t
        → value_at t x ≡ some (blank v)
        → Ahead s (wire tag v true ++ rest)
        → unpack_field rt (suc fuel) first x s
          ≡ done (put_at t v x) (advance (length (wire tag v true)) s)
    value-reads (Value.bool b) fuel first tag x t s rest c ht hf hb target value ahead =
        positive-reads rt first x t tag fuel s (bool_number b) rest _ _ ht (bool_number-IsU64 b)
          target value (bool_back b) ahead
    value-reads (Value.int w p) fuel first tag x t s rest c ht hf hb target value ahead =
        elim (int_sign w p c) [
          | inl (e, back) ↦ rw e (
              positive-reads rt first x t tag fuel s (magnitude w p) rest _ _ ht
                (magnitude-IsU64 w p c) target value back (rw e at ahead))
          | inr (e, back) ↦ rw e (
              negative-reads rt first x t tag fuel s (magnitude w p) rest _ _ ht
                (magnitude-IsU64 w p c) target value back (rw e at ahead))
        ]
    value-reads (Value.uint w n) fuel first tag x t s rest c ht hf hb target value ahead =
        positive-reads rt first x t tag fuel s n rest _ _ ht (uint-IsU64 w n c) target value
          (uint_back w n c) ahead
    value-reads (Value.float32 n) fuel first tag x t s rest c ht hf hb target value ahead = absurd c
    value-reads (Value.float64 n) fuel first tag x t s rest c ht hf hb target value ahead = absurd c
    value-reads (Value.string b) fuel first tag x t s rest c ht hf hb target value ahead =
        text-reads rt first x t tag fuel s b rest ht c hb target value ahead
    value-reads (Value.slice e vs) fuel first tag x t s rest c ht hf hb target value ahead =
        let h = header_bytes tag 5 in
        let n = varint64 (length_values vs) in
        let w = wire_elems vs in
        let ahead' : Ahead s (h ++ (n ++ (w ++ rest))) = spread-Ahead s h n w rest ahead in
        let loop =
          elems-reads vs e fuel (advance (length h + length n) s) rest c.2
            (room h n w fuel (length-header tag 5) hf) hb (Ahead-twice s h n (w ++ rest) ahead') in
        read_vector rt first x t tag fuel s e (length_values vs) Values.nil vs (w ++ rest) _ ht c.0
          c.1 target value ahead' loop
        ∙ landed_twice s _ _ _ _ _ refl (length-spread h n w)
    value-reads (Value.mapping k e es) fuel first tag x t s rest c ht hf hb target value ahead =
        let h = header_bytes tag 6 in
        let n = varint64 (length_entries es) in
        let w = wire_entries es in
        let ahead' : Ahead s (h ++ (n ++ (w ++ rest))) = spread-Ahead s h n w rest ahead in
        let loop =
          entries-reads es k e fuel (advance (length h + length n) s) rest c.3
            (room h n w fuel (length-header tag 6) hf) hb (Ahead-twice s h n (w ++ rest) ahead') in
        read_mapping rt first x t tag fuel s k e (length_entries es) Entries.empty es (w ++ rest) _
          ht c.0 c.1 target value ahead' loop
        ∙ landed_twice s _ _ _ _ _
            (ap (λ (m : Entries). put_at t (Value.mapping k e m) x) (make_map-KeysApart rt es c.2))
            (length-spread h n w)
    value-reads (Value.struct fs) fuel first tag x t s rest c ht hf hb target value ahead =
        let h = header_bytes tag 7 in
        let w = wire_fields 0 fs in
        let ahead' : Ahead s (h ++ (w ++ rest)) = ahead ∙ append_assoc h w rest in
        let size = length-append h w in
        let some_header = length-header tag 7 in
        let loop =
          fields-reads fs Fields.no_field fs 0 fuel (advance (length h) s) rest refl refl c.0 c.1
            (omega arith) hb (Ahead-advance s h (w ++ rest) ahead') in
        read_struct rt first x t tag fuel s (blank_fields fs) (Value.struct fs) (w ++ rest) _ ht
          target value ahead' loop
        ∙ landed_twice s _ _ _ _ _ refl (sym size)
    value-reads (Value.ptr v) fuel first tag x t s rest c ht hf hb target value ahead = absurd c
    value-reads (Value.nil_ptr e) fuel first tag x t s rest c ht hf hb target value ahead = absurd c
    value-reads Value.other fuel first tag x t s rest c ht hf hb target value ahead = absurd c

    elems-reads :
        (vs : Values) (t : Ty) (fuel : ℕ) (s : Spb) (rest : List ℕ)
        → CarriedElems rt t vs
        → 2 * length (wire_elems vs) + 1 ≤ fuel
        → length s.buf < 2 ^ 63
        → Ahead s (wire_elems vs ++ rest)
        → elems_loop rt fuel (length_values vs) t s ≡ done vs (advance (length (wire_elems vs)) s)
    elems-reads Values.nil t zero s rest c hf hb ahead = absurd (omega arith)
    elems-reads Values.nil t (suc fuel) s rest c hf hb ahead = elems_end rt fuel s s s t
    elems-reads (Values.cons v vs) t zero s rest c hf hb ahead = absurd (omega arith)
    elems-reads (Values.cons v vs) t (suc zero) s rest c hf hb ahead =
        absurd
          (omega (arith, length-wire rt v 0 c.2, length-append (wire 0 v true) (wire_elems vs)))
    elems-reads (Values.cons v vs) t (suc (suc fuel)) s rest c hf hb ahead =
        let w = wire 0 v true in
        let us = wire_elems vs in
        let size = length-append w us in
        let ahead' : Ahead s (w ++ (us ++ rest)) = ahead ∙ append_assoc w us rest in
        let some_byte = length-wire rt v 0 c.2 in
        let field =
          value-reads v fuel true 0 (new_elem t) itself s (us ++ rest) c.2 (omega arith)
            (omega arith) hb refl (ap some c.0) ahead' in
        let loop =
          elems-reads vs t (suc fuel) (advance (length w) s) rest c.3 (omega arith) hb
            (Ahead-advance s w (us ++ rest) ahead') in
        elem_step rt (suc fuel) s _ _ (length_values vs) t v vs c.1 field loop
        ∙ landed_twice s _ _ _ _ _ refl (sym size)

    entries-reads :
        (es : Entries) (k t : Ty) (fuel : ℕ) (s : Spb) (rest : List ℕ)
        → CarriedEntries rt k t es
        → 2 * length (wire_entries es) + 1 ≤ fuel
        → length s.buf < 2 ^ 63
        → Ahead s (wire_entries es ++ rest)
        → entries_loop rt fuel (length_entries es) k t s
          ≡ done es (advance (length (wire_entries es)) s)
    entries-reads Entries.empty k t zero s rest c hf hb ahead = absurd (omega arith)
    entries-reads Entries.empty k t (suc fuel) s rest c hf hb ahead = entries_end rt fuel s s s k t
    entries-reads (Entries.entry a v es) k t zero s rest c hf hb ahead = absurd (omega arith)
    entries-reads (Entries.entry a v es) k t (suc zero) s rest c hf hb ahead = absurd (
        omega (
          arith,
          length-wire rt a 0 c.1,
          length-append (wire 0 a true) (wire 0 v true ++ wire_entries es),
        ))
    entries-reads (Entries.entry a v es) k t (suc (suc fuel)) s rest c hf hb ahead =
        let wk = wire 0 a true in
        let w = wire 0 v true in
        let us = wire_entries es in
        let size = length-append wk (w ++ us) in
        let inner = length-append w us in
        let ahead_key : Ahead s (wk ++ (w ++ (us ++ rest))) = spread-Ahead s wk w us rest ahead in
        let ahead_elem = Ahead-advance s wk (w ++ (us ++ rest)) ahead_key in
        let key_byte = length-wire rt a 0 c.1 in
        let elem_byte = length-wire rt v 0 c.4 in
        let key = key_reads rt k a (suc fuel) s _ c.0 c.1 (
          value-reads a fuel true 0 (blank a) itself s (w ++ (us ++ rest)) c.1 (omega arith)
            (omega arith) hb refl refl ahead_key) in
        let elem =
          value-reads v fuel true 0 (new_elem t) itself (advance (length wk) s) (us ++ rest) c.4
            (omega arith) (omega arith) hb refl (ap some c.2) ahead_elem in
        let loop =
          entries-reads es k t (suc fuel) (advance (length w) (advance (length wk) s)) rest c.5
            (omega arith) hb (Ahead-advance (advance (length wk) s) w (us ++ rest) ahead_elem) in
        entry_step rt (suc fuel) s _ _ (length_entries es) k t a v es _ c.3 key elem loop
        ∙ landed_thrice s _ _ _ _ _ (length-spread wk w us)

    fields-reads :
        (fs pre all : Fields) (i fuel : ℕ) (s : Spb) (rest : List ℕ)
        → all ≡ join pre fs
        → length_fields pre ≡ i
        → Found all i fs
        → CarriedFields rt fs
        → 2 * length (wire_fields i fs) ≤ fuel
        → length s.buf < 2 ^ 63
        → Ahead s (wire_fields i fs ++ rest)
        → fields_loop rt fuel (Value.struct (join pre (blank_fields fs))) s
          ≡ done (Value.struct (join pre fs)) (advance (length (wire_fields i fs)) s)
    fields-reads fs pre all i zero s rest e len found c hf hb ahead =
        absurd (omega (arith, length-wire_fields i fs))
    fields-reads fs pre all i (suc zero) s rest e len found c hf hb ahead =
        absurd (omega (arith, length-wire_fields i fs))
    fields-reads Fields.no_field pre all i (suc (suc fuel)) s rest e len found c hf hb ahead =
        end_step rt (suc fuel) s _ s (Value.struct (join pre Fields.no_field)) (
          read_end rt false (Value.struct (join pre Fields.no_field)) itself 0 fuel s rest
            (omega arith) ahead)
    fields-reads (Fields.field g r v fs) pre all i (suc (suc fuel)) s rest e len found c hf hb
          ahead =
        let tag = wire_number i g in
        let us = wire_fields (i + 1) fs in
        let pre' = join pre (one g r v) in
        let e' : all ≡ join pre' fs = e ∙ sym (join_assoc pre (one g r v) fs) in
        let len' : length_fields pre' ≡ i + 1 = omega (arith, length-join pre (one g r v)) in
        elim (dropped rt v tag r c.0) [
          | inl (w0, v0) ↦
              let loop =
                fields-reads fs pre' all (i + 1) (suc (suc fuel)) s rest e' len' found.2 c.1
                  (rw w0 at hf) hb (rw w0 at ahead) in
              rw (w0, v0)
                (rw (join_assoc pre (one g r v) (blank_fields fs), join_assoc pre (one g r v) fs) at
                  loop)
          | inr w1 ↦
              let w = wire tag v true in
              let size = length-append w us in
              let ahead' : Ahead s (w ++ (us ++ rest)) =
                (rw w1 at ahead) ∙ append_assoc w us rest in
              let some_byte = length-wire rt v tag c.0 in
              let some_rest = length-wire_fields (i + 1) fs in
              let hf' = rw w1 at hf in
              let x = Value.struct (join pre (blank_fields (Fields.field g r v fs))) in
              let field =
                value-reads v fuel false tag x (at_field i) s (us ++ rest) c.0
                  (wire_number-lt i g found.0) (omega arith) hb
                  (field_target pre fs g r v i (rw e at found.1))
                  (field_value pre (blank_fields fs) g r (blank v) i len) ahead' in
              let loop =
                fields-reads fs pre' all (i + 1) (suc fuel) (advance (length w) s) rest e' len'
                  found.2 c.1 (omega arith) hb (Ahead-advance s w (us ++ rest) ahead') in
              rw w1 (
                field_step rt (suc fuel) s _ _ x _ _
                  (field
                    ∙ landed s _ _ _ _ (field_put pre (blank_fields fs) g r v i (blank v) len) refl)
                  loop
                ∙ landed_twice s _ _ _ _ _ (ap Value.struct (join_assoc pre (one g r v) fs))
                    (sym size))
        ]

  -- unpack reads back what pack wrote, wherever it stands in the buffer.
  unpack-wire :
      (v : Value) (fuel : ℕ) (s : Spb) (rest : List ℕ)
      → Carried rt v
      → 2 * length (wire 0 v true) ≤ suc fuel
      → length s.buf < 2 ^ 63
      → Ahead s (wire 0 v true ++ rest)
      → unpack rt (suc fuel) (blank v) true s ≡ done v (advance (length (wire 0 v true)) s)
  unfolding unpack target_of value_at put_at
  unpack-wire v fuel s rest c hf hb ahead =
      let reads =
        value-reads v fuel true 0 (blank v) itself s rest c (omega arith) hf hb refl refl ahead in
      let through_it =
        ap (λ (m : M Value). m s) (through-blank rt v (λ x. unpack_field rt (suc fuel) true x) c)
        ∙ reads in
      let some_byte = length-wire rt v 0 c in
      let inside = length-Ahead s _ ahead in
      let all = length-append (wire 0 v true) rest in ground (arith, through_it)

  spb_decode-wire :
      (v : Value) (w : List ℕ)
      → Carried rt v
      → w ≡ wire 0 v true
      → length w < 2 ^ 63
      → spb_decode rt w (some (blank v)) ≡ done v (record { buf = w; index = length w })
  unfolding spb_decode
  spb_decode-wire v w c e h =
      let reads =
        unpack-wire v (2 * length w + 1) (record { buf = w; index = 0 }) [] c
          (rw (sym e) (omega arith)) h (e ∙ sym (append-nil (wire 0 v true))) in
      let room_for : 2 * length w + 2 ≡ suc (2 * length w + 1) = omega arith in
      let none_before : 0 + length w ≡ length w = omega arith in
      rw room_for
        ((rw (sym e) at reads) ∙ ap (λ (i : ℕ). done v (record { buf = w; index = i })) none_before)

  -- For every value that the format carries and whose encoding is shorter than 2 ^ 63 bytes,
  -- SpbEncode succeeds, and SpbDecode of its bytes into the zero value of the same type succeeds,
  -- restores the value and has read the whole buffer.
  pub spb_decode-spb_encode :
      (v : Value)
      → Carried rt v
      → length (spb_encode v).0 < 2 ^ 63
      → ((spb_encode v).1 ≡ none)
        × (spb_decode rt (spb_encode v).0 (some (blank v))
            ≡ done v (record { buf = (spb_encode v).0; index = length (spb_encode v).0 }))
  unfolding spb_encode
  spb_decode-spb_encode v c h =
      let e = pack-wire rt v 0 true [] c (omega arith) in
      (ap (λ p. p.1) e, spb_decode-wire v (spb_encode v).0 c (ap (λ p. p.0) e) h)
