-- ===== src/Rpc/Args.antt =====
-- The parameters of a call in stnet/rpc.go: each goes out under its number, and is read back into the
-- type that the function has there.
use gotools.Common.{
  ℕ, suc, ◌+◌, ◌*◌, ◌^◌, ◌<◌, ◌≡◌, refl, ap, arith, List, [], ◌∷◌, ◌++◌, append_assoc, append-nil,
  length, length-append, true, Option, none, some,
}
use gotools.Spb.Values.{Ty, Value}
use gotools.Spb.Pack.{SpbError, panicked, out_of_fuel, pack, pack_value}
use gotools.Spb.Read.{Spb, done, failed}
use gotools.Spb.Unpack.{Runtime, new_elem, elem_of, itself, target_of, value_at, put_at}
use gotools.Spb.Decode.{unpack_field, enough}
use gotools.Spb.Numbers.{advance, Ahead, Ahead-advance, length-Ahead}
use gotools.Spb.Wire.{wire, blank, Carried}
use gotools.Spb.PackWire.{pack-wire}
use gotools.Spb.RoundTrip.{value-reads}

-- The loop over the parameters, `rpcMarshal(&spb, uint32(i+1), v)`: the error has the index.
unfoldable pub pack_params : ℕ → List Value → List ℕ → List ℕ × Option (ℕ × SpbError)
unfolding pack_value
pack_params i [] buf = (buf, none)
pack_params i (v ∷ vs) buf =
    let (buf', e) = pack (i + 1) v true true buf in
    elim e [ none ↦ pack_params (i + 1) vs buf' | some err ↦ (buf', some (i, err)) ]

-- What the reading of the parameters comes to.
pub data Args : Type 0 where
  args : List Value → Args
  bad_args : Args
  args_panic : Args

abbrev pub and_arg : Value → Args → Args
and_arg v (args vs) = args (v ∷ vs)
and_arg v bad_args = bad_args
and_arg v args_panic = args_panic

abbrev pub failed_args : SpbError → Args
failed_args panicked = args_panic
failed_args out_of_fuel = args_panic
failed_args e = bad_args

-- The loop over the types of a function's parameters, `rpcUnmarshal` into a new value of each.
unfoldable pub unpack_args : Runtime → List Ty → Spb → Args
unfolding unpack_field
unpack_args rt [] s = args []
unpack_args rt (t ∷ ts) s = elim (unpack_field rt (enough rt s.buf) true (new_elem t) s) [
  | done v s' ↦ and_arg (elem_of t v) (unpack_args rt ts s')
  | failed e s' ↦ failed_args e
]

-- The values are carried by the format, and are of the types, one by one.
abbrev pub Fits : Runtime → List Ty → List Value → Type 0
Fits rt [] [] = Unit
Fits rt [] (v ∷ vs) = ⊥
Fits rt (t ∷ ts) [] = ⊥
Fits rt (t ∷ ts) (v ∷ vs) =
    Carried rt v × (new_elem t ≡ blank v) × (elem_of t v ≡ v) × Fits rt ts vs

abbrev pub args_wire : ℕ → List Value → List ℕ
args_wire i [] = []
args_wire i (v ∷ vs) = wire (i + 1) v true ++ args_wire (i + 1) vs

module _ (rt : Runtime) where
  pub pack_params-wire :
      (ts : List Ty) (vs : List Value) (i : ℕ) (buf : List ℕ)
      → Fits rt ts vs
      → i + length vs < 2 ^ 32
      → pack_params i vs buf ≡ (buf ++ args_wire i vs, none)
  unfolding pack_params
  pack_params-wire [] [] i buf h n = rw append-nil
  pack_params-wire [] (v ∷ vs) i buf h n = absurd h
  pack_params-wire (t ∷ ts) [] i buf h n = absurd h
  pack_params-wire (t ∷ ts) (v ∷ vs) i buf h n =
      let first = pack-wire rt v (i + 1) true buf h.0 (omega arith) in
      let rest = pack_params-wire ts vs (i + 1) (buf ++ wire (i + 1) v true) h.3 (omega arith) in
      ground (arith, first, rest, append_assoc buf (wire (i + 1) v true) (args_wire (i + 1) vs))

  unpack_one :
      (t : Ty) (v : Value) (i : ℕ) (s : Spb) (rest : List ℕ)
      → Carried rt v
      → new_elem t ≡ blank v
      → i < 2 ^ 32
      → length s.buf < 2 ^ 63
      → Ahead s (wire i v true ++ rest)
      → unpack_field rt (enough rt s.buf) true (new_elem t) s
        ≡ done v (advance (length (wire i v true)) s)
  unfolding target_of value_at put_at
  unpack_one t v i s rest c e ti small ahead =
      let size = length-append (wire i v true) rest in
      let inside = length-Ahead s (wire i v true ++ rest) ahead in
      let fuel : 2 * length s.buf + 2 ≡ suc (2 * length s.buf + 1) = omega arith in
      rw (e, fuel)
        (value-reads rt v (2 * length s.buf + 1) true i (blank v) itself s rest c ti (omega arith)
          small refl refl ahead)

  -- Reading the parameters gives back what was packed, if the types of the function are those of the
  -- values.
  pub unpack_args-wire :
      (ts : List Ty) (vs : List Value) (i : ℕ) (s : Spb)
      → Fits rt ts vs
      → i + length vs < 2 ^ 32
      → length s.buf < 2 ^ 63
      → Ahead s (args_wire i vs)
      → unpack_args rt ts s ≡ args vs
  unfolding unpack_args
  unpack_args-wire [] [] i s h n small ahead = refl
  unpack_args-wire [] (v ∷ vs) i s h n small ahead = absurd h
  unpack_args-wire (t ∷ ts) [] i s h n small ahead = absurd h
  unpack_args-wire (t ∷ ts) (v ∷ vs) i s h n small ahead =
      let w = wire (i + 1) v true in
      let first =
        unpack_one t v (i + 1) s (args_wire (i + 1) vs) h.0 h.1 (omega arith) small ahead in
      let rest =
        unpack_args-wire ts vs (i + 1) (advance (length w) s) h.3 (omega arith) small
          (Ahead-advance s w (args_wire (i + 1) vs) ahead) in
      ground (arith, first, rest, h.2)

  -- What pack_params makes of values, a function with parameters of their types receives.
  pub unpack_args-pack_params :
      (ts : List Ty) (vs : List Value)
      → Fits rt ts vs
      → length vs < 2 ^ 32
      → length (pack_params 0 vs []).0 < 2 ^ 63
      → ((pack_params 0 vs []).1 ≡ none)
        × (unpack_args rt ts (record { buf = (pack_params 0 vs []).0; index = 0 }) ≡ args vs)
  unpack_args-pack_params ts vs h n small =
      let e = pack_params-wire ts vs 0 [] h (omega arith) in
      (
        ap (λ p. p.1) e,
        unpack_args-wire ts vs 0 (record { buf = (pack_params 0 vs []).0; index = 0 }) h
            (omega arith) small (ap (λ p. p.0) e),
      )
