-- ===== src/Spb/Floats.antt =====
-- Floats in stnet/spb.go: pack by their bits, and what unpack makes of these.
use gotools.Common.{
  ℕ, suc, ◌+◌, ◌*◌, ◌≡◌, refl, sym, ap, ◌∙◌, arith, List, [], ◌++◌, leb, length, length-append,
  append-nil, true, false, none, some,
}
use gotools.Common.Varint.{IsU64, varint64}
use gotools.Spb.Values.{Value}
use gotools.Spb.Pack.{pack_value, spb_encode}
use gotools.Spb.Read.{Spb, done}
use gotools.Spb.Unpack.{Runtime, itself, set_positive, target_of, value_at, put_at, modify_at}
use gotools.Spb.Decode.{unpack_field, unpack, spb_decode}
use gotools.Spb.Numbers.{advance, Ahead, header_bytes}
use gotools.Spb.PackWire.{pack_scalar-wire}
use gotools.Spb.Steps.{read_positive}

abbrev float_bytes : ℕ → List ℕ
float_bytes n = header_bytes 0 0 ++ varint64 n

spb_encode-float : (n : ℕ) → IsU64 n → spb_encode (Value.float64 n) ≡ (float_bytes n, none)
unfolding spb_encode pack_value
spb_encode-float n h = rw (pack_scalar-wire 0 0 n true [] (omega arith) (omega arith) h) refl

module _ (rt : Runtime) (n m : ℕ) where
  unpack-float :
      (fuel : ℕ) (s : Spb)
      → IsU64 n
      → Ahead s (float_bytes n)
      → unpack_field rt (suc fuel) true (Value.float64 m) s
        ≡ done (Value.float64 m) (advance (length (header_bytes 0 0) + length (varint64 n)) s)
  unfolding target_of value_at put_at modify_at set_positive
  unpack-float fuel s h ahead =
      read_positive rt true (Value.float64 m) itself 0 fuel s n [] (omega arith) h refl
        (ahead ∙ ap (λ (l : List ℕ). header_bytes 0 0 ++ l) (sym (append-nil (varint64 n))))

  spb_decode-float :
      (w : List ℕ)
      → IsU64 n
      → w ≡ float_bytes n
      → spb_decode rt w (some (Value.float64 m))
        ≡ done (Value.float64 m) (record { buf = w; index = length w })
  unfolding spb_decode unpack
  spb_decode-float w h e =
      let reads = unpack-float (2 * length w + 1) (record { buf = w; index = 0 }) h e in
      let size : 0 + (length (header_bytes 0 0) + length (varint64 n)) ≡ length w =
        omega (arith, ap length e, length-append (header_bytes 0 0) (varint64 n)) in
      let some_byte : leb (length w) 0 ≡ false =
        ground (arith, ap length e, length-append (header_bytes 0 0) (varint64 n)) in
      let room_for : 2 * length w + 2 ≡ suc (2 * length w + 1) = omega arith in
      rw (room_for, some_byte)
        (reads ∙ ap (λ (i : ℕ). done (Value.float64 m) (record { buf = w; index = i })) size)

  -- A float is lost on the wire: SpbEncode of the float64 with any bits succeeds, and SpbDecode of
  -- the bytes into a float64 succeeds and reads all of them, but leaves the float64 what it was.
  pub float_is_lost :
      IsU64 n
      → ((spb_encode (Value.float64 n)).1 ≡ none)
        × (spb_decode rt (spb_encode (Value.float64 n)).0 (some (Value.float64 m))
            ≡ done (Value.float64 m) (record {
              buf = (spb_encode (Value.float64 n)).0;
              index = length (spb_encode (Value.float64 n)).0;
            }))
  float_is_lost h =
      let e = spb_encode-float n h in
      (ap (λ p. p.1) e, spb_decode-float (spb_encode (Value.float64 n)).0 h (ap (λ p. p.0) e))
