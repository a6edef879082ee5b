-- ===== src/Rpc/Frames.antt =====
-- The frames of stnet/rpc.go, sent and received.
use gotools.Common.{
  ℕ, suc, ◌+◌, ◌-◌, ◌*◌, ◌/◌, ◌%◌, ◌^◌, ◌≤◌, ◌<◌, ◌≡◌, refl, ap, ◌∙◌, arith, bit_or, [], ◌∷◌, ◌++◌,
  length, take-append, length-append, none, some, All,
}
use gotools.Common.Bits.{bit_or-add}
use gotools.Spb.Values.{w8, Ty, Value, Fields, length_values, zero_of}
use gotools.Spb.Pack.{spb_encode, pack_value, field_number}
use gotools.Spb.Unpack.{Runtime, field_index}
use gotools.Spb.Wire.{blank, Carried, CarriedElems}
use gotools.Spb.RoundTrip.{spb_decode-spb_encode}
use gotools.Frame.{rpc_encode_protocol, max_msg_size}
use gotools.Rpc.{Bytes, ReqProto, RspProto, ServiceRpc}
use gotools.Rpc.Proto.{
  byte_values, bytes_of, req_value, rsp_value, req_of, rsp_of, send_frame, rpc_msg_len, request,
  rpc_body, rpc_unmarshal, to_waiter,
}

-- What the fields of the structs may hold: 32-bit numbers, bytes, and lengths within the limits.
abbrev pub AreBytes : Runtime → Bytes → Type 0
AreBytes rt bs = All (λ b. b < 256) bs × (length bs < 2 ^ 31) × (length bs ≤ rt.max_cap)

abbrev pub ReqFits : Runtime → ReqProto → Type 0
ReqFits rt r =
    (r.req_cmd_id < 2 ^ 32)
    × (r.req_cmd_seq < 2 ^ 32)
    × AreBytes rt r.req_data
    × (length r.func_name < 2 ^ 31)

abbrev pub RspFits : Runtime → RspProto → Type 0
RspFits rt r =
    (r.rsp_cmd_id < 2 ^ 32)
    × (r.rsp_cmd_seq < 2 ^ 32)
    × (r.push_seq_id < 2 ^ 32)
    × (r.rsp_code < 2 ^ 32)
    × AreBytes rt r.rsp_data
    × (length r.func_name < 2 ^ 31)

length-byte_values : (bs : Bytes) → length_values (byte_values bs) ≡ length bs
length-byte_values [] = refl
length-byte_values (b ∷ bs) = ap suc (length-byte_values bs)

pub bytes_of-byte_values : (bs : Bytes) → bytes_of (byte_values bs) ≡ bs
bytes_of-byte_values [] = refl
bytes_of-byte_values (b ∷ bs) = ap (λ t. b ∷ t) (bytes_of-byte_values bs)

module _ (rt : Runtime) where
  bytes-Carried :
      (bs : Bytes) → All (λ b. b < 256) bs → CarriedElems rt (Ty.uint w8) (byte_values bs)
  unfolding Carried blank zero_of
  bytes-Carried [] h = tt
  bytes-Carried (b ∷ bs) h = (refl, refl, h.0, bytes-Carried bs h.1)

  pub slice-Carried :
      (bs : Bytes) → AreBytes rt bs → Carried rt (Value.slice (Ty.uint w8) (byte_values bs))
  unfolding Carried
  slice-Carried bs h =
      let n = length-byte_values bs in (omega arith, omega arith, bytes-Carried bs h.0)

  req-Carried : (r : ReqProto) → ReqFits rt r → Carried rt (req_value r)
  unfolding Carried field_index field_number
  req-Carried r (id, seq, bytes, name) = (
    (
      omega arith,
      refl,
      (omega arith, refl, (omega arith, refl, (omega arith, refl, (omega arith, refl, tt)))),
    ),
    (id, (seq, (slice-Carried r.req_data bytes, (tt, (omega arith, tt))))),
  )

  rsp-Carried : (r : RspProto) → RspFits rt r → Carried rt (rsp_value r)
  unfolding Carried field_index field_number
  rsp-Carried r (id, seq, push, code, bytes, name) = (
    (
      omega arith,
      refl,
      (
        omega arith,
        refl,
        (omega arith, refl, (omega arith, refl, (omega arith, refl, (omega arith, refl, tt)))),
      ),
    ),
    (id, (seq, (push, (code, (slice-Carried r.rsp_data bytes, (omega arith, tt)))))),
  )

req_of-req_value : (r : ReqProto) → req_of (req_value r) ≡ r
req_of-req_value r = ap (λ (b : Bytes). record r { req_data = b }) (bytes_of-byte_values r.req_data)

rsp_of-rsp_value : (r : RspProto) → rsp_of (rsp_value r) ≡ r
rsp_of-rsp_value r = ap (λ (b : Bytes). record r { rsp_data = b }) (bytes_of-byte_values r.rsp_data)

-- A frame with its flags in the first byte.
abbrev flag_frame : ℕ → Bytes → Bytes
flag_frame flag w =
    let n : ℕ = length w + 4 in flag ∷ (n / 2 ^ 16 % 256) ∷ (n / 2 ^ 8 % 256) ∷ (n % 256) ∷ w

rpc_msg_len-frame :
    (flag : ℕ) (w rest : Bytes)
    → length w + 4 < 2 ^ 24
    → rpc_msg_len (flag_frame flag w ++ rest) ≡ length w + 4
unfolding rpc_msg_len
rpc_msg_len-frame flag w rest h =
    let n : ℕ = length w + 4 in
    rw
      (
        bit_or-add 8 (n % 256) (n / 2 ^ 8 % 256) (omega arith),
        bit_or-add 16 (n % 256 + n / 2 ^ 8 % 256 * 2 ^ 8) (n / 2 ^ 16 % 256) (omega arith),
      )
      (omega arith)

-- Behind a whole frame the body goes to its flags.
rpc_unmarshal-frame :
    (rt : Runtime) (s : ServiceRpc) (flag : ℕ) (w rest : Bytes)
    → length w + 4 < max_msg_size
    → rpc_unmarshal rt s (flag_frame flag w ++ rest)
      ≡ (length w + 4, (rpc_body rt flag w s).0, (rpc_body rt flag w s).1)
unfolding rpc_unmarshal
rpc_unmarshal-frame rt s flag w rest h =
    let n = rpc_msg_len-frame flag w rest (omega arith) in
    let l = length-append w rest in
    let e : length w + 4 - 4 ≡ length w = omega arith in
    rw n (rw (e, take-append w rest) (ground (arith, l)))

-- A pointer to a struct is written as the struct.
spb_encode-ptr :
    (fs : Fields) → spb_encode (Value.ptr (Value.struct fs)) ≡ spb_encode (Value.struct fs)
unfolding spb_encode pack_value
spb_encode-ptr fs = refl

-- What is sent for a struct whose encoding is `w`.
send_frame-encoded :
    (flag : ℕ) (fs : Fields) (w : Bytes)
    → bit_or 0 flag ≡ flag
    → spb_encode (Value.struct fs) ≡ (w, none)
    → length w + 4 < max_msg_size
    → send_frame flag (Value.struct fs) ≡ some (flag_frame flag w)
unfolding send_frame rpc_encode_protocol
send_frame-encoded flag fs w or e h =
    let top : (length w + 4) / 2 ^ 24 % 256 ≡ 0 = omega arith in
    let whole = spb_encode-ptr fs ∙ e in ground (arith, whole, top, or)

-- A request that fits, sent in one frame, is received as that request with the number 2, whatever
-- follows it, and the service is as it was.
pub rpc_unmarshal-send_request :
    (rt : Runtime) (s : ServiceRpc) (r : ReqProto) (rest : Bytes)
    → ReqFits rt r
    → length (spb_encode (req_value r)).0 + 4 < max_msg_size
    → (f : Bytes) × (send_frame 2 (req_value r) ≡ some f)
      × (rpc_unmarshal rt s (f ++ rest) ≡ (length f, request 2 r, s))
unfolding rpc_body blank
rpc_unmarshal-send_request rt s r rest fits small =
    let w = (spb_encode (req_value r)).0 in
    let (encoded, decoded) =
      spb_decode-spb_encode rt (req_value r) (req-Carried rt r fits) (omega arith) in
    let sent = send_frame-encoded 2 _ w refl (ap (λ e. (w, e)) encoded) small in
    let size : length (flag_frame 2 w) ≡ length w + 4 = omega arith in
    (
      flag_frame 2 w,
      sent,
      rw size
          (rpc_unmarshal-frame rt s 2 w rest small ∙ ground (arith, decoded, req_of-req_value r)),
    )

-- A response that fits, sent in one frame, is received as that response: by the call that waits for
-- it, or else with the number 3.
pub rpc_unmarshal-send_response :
    (rt : Runtime) (s : ServiceRpc) (r : RspProto) (rest : Bytes)
    → RspFits rt r
    → length (spb_encode (rsp_value r)).0 + 4 < max_msg_size
    → (f : Bytes) × (send_frame 3 (rsp_value r) ≡ some f)
      × (rpc_unmarshal rt s (f ++ rest) ≡ (length f, (to_waiter r s).0, (to_waiter r s).1))
unfolding rpc_body blank
rpc_unmarshal-send_response rt s r rest fits small =
    let w = (spb_encode (rsp_value r)).0 in
    let (encoded, decoded) =
      spb_decode-spb_encode rt (rsp_value r) (rsp-Carried rt r fits) (omega arith) in
    let sent = send_frame-encoded 3 _ w refl (ap (λ e. (w, e)) encoded) small in
    let size : length (flag_frame 3 w) ≡ length w + 4 = omega arith in
    (
      flag_frame 3 w,
      sent,
      rw size
          (rpc_unmarshal-frame rt s 3 w rest small ∙ ground (arith, decoded, rsp_of-rsp_value r)),
    )
