-- ===== src/Protocol/Encoding.antt =====
-- The layout of a frame on the wire, as docs/host_protocol_v1.md tabulates it, and `encode_frame`
-- against it.
use navigation_robot.Base.{
  ℕ, ◌/◌, ◌%◌, ◌≤◌, ◌≡◌, List, ◌∷◌, ◌++◌, arith, length, ltb, All, ok, err, value_error, lt→ltb,
  ltb→ge, Bool-cases, inl, inr, if◌then◌else◌,
}
use navigation_robot.Base.Bytes.{IsByte, le16, low8}
use navigation_robot.Protocol.{
  sof, version, max_payload, crc16_ccitt_false, encode_frame, HostFrame,
}
use navigation_robot.Protocol.Crc.{crc16-IsU16}

-- The part of a frame that its CRC covers, and the whole frame.
abbrev pub body : HostFrame → List ℕ
body f =
    version
    ∷ f.msg_type
    ∷ f.sequence
    ∷ f.flags
    ∷ (length f.payload % 256)
    ∷ (length f.payload / 256)
    ∷ f.payload

-- The bytes with some CRC, and with the right one.
abbrev pub sent : HostFrame → ℕ → List ℕ
sent f crc = sof ++ (body f ++ le16 crc)

abbrev pub wire : HostFrame → List ℕ
wire f = sent f (crc16_ccitt_false (body f))

pub record IsFrame (f : HostFrame) : Type 0 where
  pub type_byte : IsByte f.msg_type
  pub sequence_byte : IsByte f.sequence
  pub flags_byte : IsByte f.flags
  pub payload_bytes : All IsByte f.payload
  pub payload_fits : length f.payload ≤ max_payload

pub body-bytes : (f : HostFrame) → IsFrame f → All IsByte (body f)
body-bytes f v = (
  omega arith,
  (
    v.type_byte,
    (
      v.sequence_byte,
      (v.flags_byte, (omega arith, (omega (arith, v.payload_fits), v.payload_bytes))),
    ),
  ),
)

-- A frame's fields, each cut to a byte as `encode_frame` does it.
abbrev pub cut : ℕ → ℕ → ℕ → List ℕ → HostFrame
cut msg_type sequence flags payload = record {
  msg_type = low8 msg_type;
  sequence = low8 sequence;
  flags = low8 flags;
  payload = payload;
}

pub cut-IsFrame :
    (msg_type sequence flags : ℕ) (payload : List ℕ)
    → All IsByte payload
    → length payload ≤ max_payload
    → IsFrame (cut msg_type sequence flags payload)
cut-IsFrame msg_type sequence flags payload h k = record {
  type_byte = omega arith;
  sequence_byte = omega arith;
  flags_byte = omega arith;
  payload_bytes = h;
  payload_fits = k;
}

-- A payload of at most 128 bytes is framed in the documented layout, and no `struct.error` can
-- arise; a longer one is refused with `ValueError`.
pub encode_frame-wire :
    (msg_type sequence flags : ℕ) (payload : List ℕ)
    → All IsByte payload
    → encode_frame msg_type sequence flags payload ≡ (
        if ltb max_payload (length payload)
        then err value_error
        else ok (wire (cut msg_type sequence flags payload)))
unfolding encode_frame
encode_frame-wire msg_type sequence flags payload h =
    elim (Bool-cases (ltb max_payload (length payload))) [
      | inl long ↦ rw long
      | inr fits ↦
          let f = cut msg_type sequence flags payload in
          let v = cut-IsFrame msg_type sequence flags payload h (ltb→ge _ _ fits) in
          rw (
            fits,
            lt→ltb (low8 msg_type) 256 (omega arith),
            lt→ltb (low8 sequence) 256 (omega arith),
            lt→ltb (low8 flags) 256 (omega arith),
            lt→ltb (length payload) 65536 (omega (arith, v.payload_fits)),
            lt→ltb (crc16_ccitt_false (body f)) 65536 (crc16-IsU16 (body f) (body-bytes f v)),
          )
    ]

-- A successful call of `encode_frame` had a payload that fits.
pub encode_frame-ok :
    (msg_type sequence flags : ℕ) (payload bytes : List ℕ)
    → All IsByte payload
    → encode_frame msg_type sequence flags payload ≡ ok bytes
    → (bytes ≡ wire (cut msg_type sequence flags payload)) × (length payload ≤ max_payload)
encode_frame-ok msg_type sequence flags payload bytes h e =
    ground (arith, encode_frame-wire msg_type sequence flags payload h)
