-- ===== src/Spb/Decode.antt =====
-- `unpack` of stnet/spb.go, by recursion on fuel: each call and each round of a loop takes a unit.
use gotools.Common.{
  ℕ, zero, suc, ◌+◌, ◌*◌, List, ltb, leb, length, Bool, true, false, if◌then◌else◌, Option, none,
  some,
}
use gotools.Spb.Values.{Ty, Value, Values, Entries, zero_of}
use gotools.Spb.Pack.{no_enough_data, invalid_type, struct_end, need_ptr, panicked, out_of_fuel}
use gotools.Spb.Read.{
  Run, done, failed, M, ◌>>=◌, ret, fail, int_of, unpack_number, unpack_byte, unpack_header, repeat,
  skip_head, skip_field, skip_to_struct_end, wire_type, positive, negative, float, double, text,
  vector, mapping, struct_begin, end, unknown,
}
use gotools.Spb.Unpack.{
  Runtime, target_of, value_at, put_at, modify_at, set_positive, set_negative, set_string,
  set_float, make_map, new_elem, elem_of, shape_of, as_slice, as_map, as_struct,
}

-- `if x.Kind() == reflect.Ptr { x = x.Elem() }` around the rest of `unpack`. Behind a nil pointer
-- there is no value, and asking for its type panics.
abbrev pub through : Value → (Value → M Value) → M Value
through (Value.ptr v) k = k v >>= λ v'. ret (Value.ptr v')
through (Value.nil_ptr t) k = unpack_header >>= λ h. fail panicked
through v k = k v

-- A loop's allocation, `make([]reflect.Value, 0, ln)`.
abbrev pub allocate : {A : Type 0} → Runtime → ℕ → M A → M A
allocate rt ln m = if ltb rt.max_cap ln then fail panicked else m

module _ (rt : Runtime) where
  unfoldable mutual
    pub unpack_field : ℕ → Bool → Value → M Value
    unpack_field zero first x s = failed out_of_fuel s
    unpack_field (suc fuel) first x s =
        (unpack_header >>= λ h.
        let t = target_of first h.tag x in
        elim (wire_type h.typ) [
          | positive ↦ unpack_number >>= λ v. ret (modify_at t (set_positive v) x)
          | negative ↦ unpack_number >>= λ v. ret (modify_at t (set_negative v) x)
          | float ↦ unpack_number >>= λ v. ret (modify_at t (set_float rt v) x)
          | double ↦ unpack_number >>= λ v. ret (modify_at t (set_float rt v) x)
          | text ↦
              unpack_number >>= λ ln. unpack_byte ln >>= λ b. ret (modify_at t (set_string b) x)
          | vector ↦ unpack_number >>= λ ln. elim (shape_of (value_at t x)) [
            | as_slice e ↦ allocate rt ln (elems_loop fuel (int_of ln) e) >>= λ vs.
                ret (put_at t (Value.slice e vs) x)
            | _ ↦ repeat (int_of ln) (skip_head (skip_field fuel)) >>= λ _. ret x
          ]
          | mapping ↦ unpack_number >>= λ ln. elim (shape_of (value_at t x)) [
            | as_map k e ↦ allocate rt ln (entries_loop fuel (int_of ln) k e) >>= λ es.
                ret (put_at t (Value.mapping k e (make_map rt es Entries.empty)) x)
            | _ ↦
                repeat (int_of ln)
                  (skip_head (skip_field fuel) >>= λ _. skip_head (skip_field fuel))
                >>= λ _. ret x
          ]
          | struct_begin ↦ elim (shape_of (value_at t x)) [
            | as_struct v ↦ fields_loop fuel v >>= λ v'. ret (put_at t v' x)
            | _ ↦ skip_to_struct_end fuel >>= λ _. ret x
          ]
          | end ↦ fail struct_end
          | unknown ↦ fail invalid_type
        ])
          s

    -- The loop of a vector: `n` elements of the type.
    pub elems_loop : ℕ → ℕ → Ty → M Values
    elems_loop zero n t s = failed out_of_fuel s
    elems_loop (suc fuel) zero t s = done Values.nil s
    elems_loop (suc fuel) (suc n) t s =
        (unpack_field fuel true (new_elem t) >>= λ v.
        elems_loop fuel n t >>= λ vs. ret (Values.cons (elem_of t v) vs))
          s

    -- The loop of a map: `n` keys and elements.
    pub entries_loop : ℕ → ℕ → Ty → Ty → M Entries
    entries_loop zero n k t s = failed out_of_fuel s
    entries_loop (suc fuel) zero k t s = done Entries.empty s
    entries_loop (suc fuel) (suc n) k t s =
        (through (zero_of k) (λ x. unpack_field fuel true x) >>= λ a.
        unpack_field fuel true (new_elem t) >>= λ b.
        entries_loop fuel n k t >>= λ es. ret (Entries.entry a (elem_of t b) es))
          s

    -- The loop of a struct, up to the end mark. It comes up in malformed data inside a vector or a
    -- map of the struct, too: the field keeps the value that it had then, where Go has emptied its
    -- slice already.
    pub fields_loop : ℕ → Value → M Value
    fields_loop zero x s = failed out_of_fuel s
    fields_loop (suc fuel) x s = elim (unpack_field fuel false x s) [
      | done x' s' ↦ fields_loop fuel x' s'
      | failed struct_end s' ↦ done x s'
      | failed e s' ↦ failed e s'
    ]

  -- `unpack`, with its first test and the pointer.
  unfoldable pub unpack : ℕ → Value → Bool → M Value
  unfolding unpack_field
  unpack fuel x first s =
      let rest = through x (λ v. unpack_field fuel first v) s in
      if leb (length s.buf) s.index then failed no_enough_data s else rest

  -- Each call reads a byte at least: two units for a byte, and two more.
  abbrev pub enough : List ℕ → ℕ
  enough buf = 2 * length buf + 2

  -- SpbDecode into the value that the pointer `x` leads to; `none` stands for an `x` that is no
  -- pointer.
  unfoldable pub spb_decode : List ℕ → Option Value → Run Value
  unfolding unpack
  spb_decode buf none = failed need_ptr (record { buf = buf; index = 0 })
  spb_decode buf (some x) = unpack (enough buf) x true (record { buf = buf; index = 0 })
