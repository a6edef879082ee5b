-- ===== src/Spb/Read.antt =====
-- The primitive reads of the decoder, and the skipping of fields that nothing wants. A method reads
-- from `buf` at `index`; its result carries the state that it leaves, also beside an error.
use gotools.Common.{
  ℕ, zero, suc, ◌+◌, ◌/◌, ◌%◌, ◌^◌, List, [], ◌∷◌, ltb, leb, ◌==◌, length, take, drop, bit_and,
  if◌then◌else◌,
}
use gotools.Common.Varint.{or_group}
use gotools.Spb.Pack.{SpbError, no_enough_data, unexpected_eof, overflow, panicked, out_of_fuel}

pub record Spb : Type 0 where
  pub buf : List ℕ
  pub index : ℕ

pub data Run (A : Type 0) : Type 0 where
  done : A → Spb → Run A
  failed : SpbError → Spb → Run A

abbrev pub M : Type 0 → Type 0
M A = Spb → Run A

infixl 5 ◌>>=◌ ◌>>◌
abbrev pub ◌>>=◌ : {A B : Type 0} → M A → (A → M B) → M B
◌>>=◌ m f s = elim (m s) [ done a s' ↦ f a s' | failed e s' ↦ failed e s' ]

abbrev pub ◌>>◌ : {B : Type 0} → M (Unit {0}) → M B → M B
m >> k = m >>= λ _. k

abbrev pub ret : {A : Type 0} → A → M A
ret a s = done a s

abbrev pub fail : {A : Type 0} → SpbError → M A
fail e s = failed e s

-- `int(ln)` as the bound of a loop or a length: negative from 2 ^ 63 on.
abbrev pub int_of : ℕ → ℕ
int_of ln = if ltb ln (2 ^ 63) then ln else 0

-- `for shift := uint(0); shift < 64; shift += 7` over what stands behind the index. `used` counts
-- the bytes.
unfoldable pub digit_loop : List ℕ → ℕ → ℕ → ℕ → Spb → Run ℕ
digit_loop [] shift x used s = failed (if ltb shift 64 then unexpected_eof else overflow) s
digit_loop (b ∷ rest) shift x used s =
    let x' = or_group x b shift in
    let more = digit_loop rest (shift + 7) x' (used + 1) s in
    if ltb shift 64
    then (if ltb b 0x80 then done x' (record s { index = s.index + (used + 1) }) else more)
    else failed overflow s

unfoldable pub unpack_number : M ℕ
unfolding digit_loop
unpack_number s = digit_loop (drop s.index s.buf) 0 0 0 s

-- `unpackByte(int(ln))`. A sum that wraps is negative: it passes the test, and `make` panics.
unfoldable pub unpack_byte : ℕ → M (List ℕ)
unpack_byte ln s =
    let n = int_of ln in
    if n == 0
    then done [] s
    else if leb (2 ^ 63) (s.index + n)
    then failed panicked s
    else if ltb (length s.buf) (s.index + n)
    then failed no_enough_data s
    else done (take n (drop s.index s.buf)) (record s { index = s.index + n })

-- A field's number and type.
pub record Header : Type 0 where
  pub tag : ℕ
  pub typ : ℕ

abbrev pub first_byte : List ℕ → ℕ
first_byte [] = 0
first_byte (b ∷ rest) = b

unfoldable pub unpack_header : M Header
unfolding unpack_number
unpack_header s =
    let b = first_byte (drop s.index s.buf) in
    let s' = record s { index = s.index + 1 } in
    let long : Run Header = elim (unpack_number s') [
      | done tag s2 ↦ done (record { tag = tag % 2 ^ 32; typ = b / 2 ^ 4 }) s2
      | failed e s2 ↦ failed e s2
    ] in
    if leb (length s.buf) s.index
    then failed no_enough_data s
    else if bit_and b 0xf == 0xf
    then long
    else done (record { tag = bit_and b 0xf; typ = b / 2 ^ 4 }) s'

-- What the skipping methods do with an error: they return. A panic is no error.
unfoldable pub returned : SpbError → M (Unit {0})
returned panicked s = failed panicked s
returned out_of_fuel s = failed out_of_fuel s
returned e s = done tt s

unfoldable pub quiet : {A : Type 0} → Run A → Run (Unit {0})
unfolding returned
quiet (done a s) = done tt s
quiet (failed e s) = returned e s

-- `x, err := …; if err != nil { return }`, and otherwise the rest.
abbrev pub or_return : {A : Type 0} → M A → (A → M (Unit {0})) → M (Unit {0})
or_return m f s = elim (m s) [ done a s' ↦ f a s' | failed e s' ↦ returned e s' ]

-- `for i := 0; i < n; i++`
unfoldable pub repeat : ℕ → M (Unit {0}) → M (Unit {0})
repeat zero m s = done tt s
repeat (suc n) m s = (m >>= λ _ s'. repeat n m s') s

pub data WireType : Type 0 where
  positive negative float double text vector mapping struct_begin end unknown : WireType

abbrev pub wire_type : ℕ → WireType
wire_type t =
    if t == 0
    then positive
    else if t == 1
    then negative
    else if t == 2
    then float
    else if t == 3
    then double
    else if t == 4
    then text
    else if t == 5
    then vector
    else if t == 6
    then mapping
    else if t == 7
    then struct_begin
    else if t == 8
    then end
    else unknown

-- skipHeadField, over the skipField of the nested value.
abbrev pub skip_head : (ℕ → M (Unit {0})) → M (Unit {0})
skip_head skip = or_return unpack_header (λ h. skip h.typ)

-- skipField and skipToStructEnd. Each nested value and each round of the loop takes a unit of fuel.
unfoldable mutual
  pub skip_field : ℕ → ℕ → M (Unit {0})
  skip_field zero typ s = failed out_of_fuel s
  skip_field (suc fuel) typ s = elim (wire_type typ) [
    | positive ↦ quiet (unpack_number s)
    | negative ↦ quiet (unpack_number s)
    | float ↦ quiet (unpack_number s)
    | double ↦ quiet (unpack_number s)
    | text ↦ or_return unpack_number (λ ln s'. quiet (unpack_byte ln s')) s
    | vector ↦
        or_return unpack_number (λ ln s'. repeat (int_of ln) (skip_head (skip_field fuel)) s') s
    | mapping ↦
        or_return unpack_number
          (λ ln s'.
            repeat (int_of ln)
              (λ t. (skip_head (skip_field fuel) >>= λ _. skip_head (skip_field fuel)) t) s')
          s
    | struct_begin ↦ skip_to_struct_end fuel s
    | end ↦ done tt s
    | unknown ↦ done tt s
  ]

  pub skip_to_struct_end : ℕ → M (Unit {0})
  skip_to_struct_end zero s = failed out_of_fuel s
  skip_to_struct_end (suc fuel) s =
      or_return unpack_header
        (λ h s1.
          let more = (skip_field fuel h.typ >>= λ _ s2. skip_to_struct_end fuel s2) s1 in
          if h.typ == 8 then done tt s1 else more)
        s
