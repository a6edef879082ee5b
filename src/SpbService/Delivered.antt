-- ===== src/SpbService/Delivered.antt =====
-- A message from SendSpbCmd to the implementation on the other side (stnet/simpleimp.go).
use gotools.Common.{
  ℕ, ◌+◌, ◌^◌, ◌<◌, ◌≡◌, refl, sym, ap, ◌∙◌, arith, ◌++◌, length, Option, none, some, ℕ_discrete,
}
use gotools.Common.Assoc.{get}
use gotools.Spb.Values.{Ty, Value, zero_of}
use gotools.Spb.Pack.{spb_encode, field_number}
use gotools.Spb.Read.{Run, done}
use gotools.Spb.Unpack.{Runtime, field_index}
use gotools.Spb.Decode.{spb_decode}
use gotools.Spb.Wire.{blank, Carried}
use gotools.Spb.RoundTrip.{spb_decode-spb_encode}
use gotools.Frame.{encode_protocol, unmarshal, Message, message}
use gotools.Frame.Bytes.{frame, encode_protocol-frame}
use gotools.Frame.Cut.{unmarshal-frame}
use gotools.Rpc.{Bytes}
use gotools.Rpc.Frames.{AreBytes, slice-Carried, bytes_of-byte_values}
use gotools.SpbService.{
  JsonProto, proto_value, zero_proto, proto_of, ServiceSpb, bytes_msg, decoded, handle_typed,
  handle_message, command, of_body, spb_unmarshal, spb_cmd,
}

proto_of-proto_value : (p : JsonProto) → proto_of (proto_value p) ≡ p
proto_of-proto_value p =
    ap (λ (b : Bytes). record p { cmd_data = b }) (bytes_of-byte_values p.cmd_data)

module _ (rt : Runtime) where
  proto-Carried :
      (p : JsonProto) → p.cmd_id < 2 ^ 64 → AreBytes rt p.cmd_data → Carried rt (proto_value p)
  unfolding Carried field_index field_number
  proto-Carried p id bytes =
      ((omega arith, refl, (omega arith, refl, tt)), (id, (slice-Carried rt p.cmd_data bytes, tt)))

  -- The frame of a struct is read back as the struct's fields.
  spb_unmarshal-frame :
      (p : JsonProto) (rest : Bytes)
      → p.cmd_id < 2 ^ 64
      → AreBytes rt p.cmd_data
      → length (spb_encode (proto_value p)).0 + 4 < 2 ^ 16
      → let w = (spb_encode (proto_value p)).0 in
        ((spb_encode (proto_value p)).1 ≡ none)
        × (spb_unmarshal rt (encode_protocol w ++ rest)
            ≡ (length (frame w), command p.cmd_id p.cmd_data))
  unfolding spb_unmarshal blank
  spb_unmarshal-frame p rest id bytes small =
      let w = (spb_encode (proto_value p)).0 in
      let (encoded, decoded_back) =
        spb_decode-spb_encode rt (proto_value p) (proto-Carried p id bytes) (omega arith) in
      let body = λ (b : Bytes). spb_decode rt b (some (proto_value zero_proto)) in
      let cut = unmarshal-frame body w rest (omega arith) in
      let received : unmarshal body (encode_protocol w ++ rest) ≡ (
        length (frame w),
        some (message (done (proto_value p) (record { buf = w; index = length w }))),
      ) =
        ap (λ (f : Bytes). unmarshal body (f ++ rest)) (encode_protocol-frame w small)
        ∙ cut
        ∙ ap (λ r. (length (frame w), some (message r))) decoded_back in
      (
        encoded,
        ap (λ (r : ℕ × Option (Message (Run Value))). (r.0, of_body r.1)) received
            ∙ ap (λ (q : JsonProto). (length (frame w), command q.cmd_id q.cmd_data))
                (proto_of-proto_value p),
      )

  -- A message of a registered type, which the format carries, is sent and delivered as it was: what
  -- SendSpbCmd sends for it, with whatever follows, is read by Unmarshal as its number and its
  -- bytes, and HandleMessage of these calls the implementation with the message. The number is one
  -- of 63 bits, the frame is shorter than 2 ^ 16 bytes, and the encoding of the message fits into a
  -- slice of bytes.
  pub handle_message-spb_cmd :
      (s : ServiceSpb) (id : ℕ) (t : Ty) (v : Value) (rest : Bytes)
      → Carried rt v
      → get ℕ_discrete id s.msg_reg ≡ some t
      → zero_of t ≡ blank v
      → id < 2 ^ 63
      → AreBytes rt (spb_encode v).0
      → length (spb_encode (proto_value (record { cmd_id = id; cmd_data = (spb_encode v).0 }))).0
          + 4
        < 2 ^ 16
      → let d = (spb_encode v).0 in
        (f : Bytes) × (spb_cmd id v ≡ some f)
        × (spb_unmarshal rt (f ++ rest) ≡ (length f, command id d))
        × (handle_message rt id (bytes_msg d) s ≡ decoded id v)
  unfolding spb_cmd handle_message handle_typed
  handle_message-spb_cmd s id t v rest carried registered typed small bytes fits =
      let d = (spb_encode v).0 in
      let p : JsonProto = record { cmd_id = id; cmd_data = d } in
      let w = (spb_encode (proto_value p)).0 in
      let (encoded, decoded_back) = spb_decode-spb_encode rt v carried (omega (arith, bytes.1)) in
      let (packed, read) = spb_unmarshal-frame p rest (omega arith) bytes fits in
      let size : length (encode_protocol w) ≡ length (frame w) =
        ap (λ (f : Bytes). length f) (encode_protocol-frame w fits) in
      let back : spb_decode rt d (some (zero_of t))
          ≡ done v (record { buf = d; index = length d }) =
        ap (λ z. spb_decode rt d (some z)) typed ∙ decoded_back in
      (
        encode_protocol w,
        ground (arith, encoded, packed),
        read ∙ ap (λ (n : ℕ). (n, command id d)) (sym size),
        ground (arith, registered, back),
      )
