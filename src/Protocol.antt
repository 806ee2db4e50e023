-- ===== src/Protocol.antt =====
-- navigation_robot/host/protocol.py: the constants of the wire protocol, CRC16/CCITT-FALSE,
-- `encode_frame` and the streaming `FrameParser`. Bytes are numbers below 256.
pub mod Crc
pub mod Encoding
pub mod Step
pub mod Stream
pub mod RoundTrip
use navigation_robot.Base.{
  ℕ, zero, suc, ◌+◌, ◌*◌, ◌/◌, ◌%◌, Bool, true, false, not, Option, none, some, List, [], ◌∷◌, ◌++◌,
  length, get_or, take, drop, ltb, ◌==◌, if◌then◌else◌, Result, ok, err, value_error, ◌>>=◌,
}
use navigation_robot.Base.Bytes.{low8, pack_u8, pack_u16, u16_at, starts_with, find, last}
use Prim.Native.Nat.{bit_xor}

abbrev pub sof : List ℕ
sof = 0xAA ∷ 0x55 ∷ []

abbrev pub version : ℕ
version = 1

abbrev pub max_payload : ℕ
max_payload = 128

abbrev pub flag_ack_required : ℕ
flag_ack_required = 0x01

abbrev pub msg_hello : ℕ
msg_hello = 0x01

abbrev pub msg_set_single_rpm : ℕ
msg_set_single_rpm = 0x10

abbrev pub msg_stop : ℕ
msg_stop = 0x12

abbrev pub msg_query_motor : ℕ
msg_query_motor = 0x13

abbrev pub msg_query_unique_id : ℕ
msg_query_unique_id = 0x14

abbrev pub msg_set_id : ℕ
msg_set_id = 0x15

abbrev pub msg_set_mode : ℕ
msg_set_mode = 0x16

abbrev pub msg_set_current : ℕ
msg_set_current = 0x17

abbrev pub msg_set_position : ℕ
msg_set_position = 0x18

abbrev pub msg_control_keepalive : ℕ
msg_control_keepalive = 0x19

abbrev pub msg_set_dual_rpm : ℕ
msg_set_dual_rpm = 0x1A

abbrev pub msg_dual_keepalive : ℕ
msg_dual_keepalive = 0x1B

abbrev pub msg_stop_dual : ℕ
msg_stop_dual = 0x1C

abbrev pub msg_ack : ℕ
msg_ack = 0x80

abbrev pub msg_heartbeat : ℕ
msg_heartbeat = 0x90

abbrev pub msg_chassis_telemetry : ℕ
msg_chassis_telemetry = 0x92

abbrev pub msg_imu_telemetry : ℕ
msg_imu_telemetry = 0x93

-- One round of the inner loop: `crc & 0x8000` is the digit of weight 2 ^ 15.
unfoldable pub crc_round : ℕ → ℕ
crc_round crc = if crc / 32768 % 2 == 1 then bit_xor (crc * 2) 0x1021 % 65536 else crc * 2 % 65536

unfoldable pub crc_rounds : ℕ → ℕ → ℕ
crc_rounds zero crc = crc
crc_rounds (suc n) crc = crc_rounds n (crc_round crc)

unfoldable pub crc_byte : ℕ → ℕ → ℕ
crc_byte crc byte = crc_rounds 8 (bit_xor crc (byte * 256))

unfoldable pub crc_from : ℕ → List ℕ → ℕ
crc_from crc [] = crc
crc_from crc (byte ∷ bytes) = crc_from (crc_byte crc byte) bytes

unfoldable pub crc16_ccitt_false : List ℕ → ℕ
crc16_ccitt_false bytes = crc_from 0xFFFF bytes

-- `struct.pack("<BBBBH", VERSION, type & 0xFF, sequence & 0xFF, flags & 0xFF, len(payload))`
unfoldable pub encode_frame : ℕ → ℕ → ℕ → List ℕ → Result (List ℕ)
encode_frame msg_type sequence flags payload =
    if ltb max_payload (length payload) then err value_error else do
      v ← pack_u8 version
      t ← pack_u8 (low8 msg_type)
      s ← pack_u8 (low8 sequence)
      f ← pack_u8 (low8 flags)
      n ← pack_u16 (length payload)
      let body = v ++ (t ++ (s ++ (f ++ (n ++ payload))))
      crc ← pack_u16 (crc16_ccitt_false body)
      ok (sof ++ (body ++ crc))

pub record HostFrame : Type 0 where
  pub msg_type : ℕ
  pub sequence : ℕ
  pub flags : ℕ
  pub payload : List ℕ

pub record FrameParser : Type 0 where
  pub buffer : List ℕ
  pub valid_frames : ℕ
  pub crc_errors : ℕ
  pub length_errors : ℕ

abbrev pub new_parser : FrameParser
new_parser = record { buffer = []; valid_frames = 0; crc_errors = 0; length_errors = 0 }

-- What one round of the loop of `feed` does: `break`, `continue`, or append a frame and go on.
pub data Round : Type 0 where
  stop : FrameParser → Round
  again : FrameParser → Round
  emit : HostFrame → FrameParser → Round

-- A round from the point where the buffer starts with `SOF`. Every index that is read is below the
-- length that was tested before.
unfoldable pub at_sof : FrameParser → Round
at_sof p =
    let b = p.buffer in
    let payload_length = u16_at b 6 in
    let total = 10 + payload_length in
    if ltb (length b) 8
    then stop p
    else if not (get_or b 2 0 == version)
    then again (record p { buffer = drop 1 b })
    else if ltb max_payload payload_length
    then again (record p { length_errors = p.length_errors + 1; buffer = drop 1 b })
    else if ltb (length b) total
    then stop p
    else if not
        (u16_at b (8 + payload_length) == crc16_ccitt_false (take (6 + payload_length) (drop 2 b)))
    then again (record p { crc_errors = p.crc_errors + 1; buffer = drop 1 b })
    else emit
        (record {
          msg_type = get_or b 3 0;
          sequence = get_or b 4 0;
          flags = get_or b 5 0;
          payload = take payload_length (drop 8 b);
        })
        (record p { valid_frames = p.valid_frames + 1; buffer = drop total b })

-- `buffer[-1:] if buffer[-1:] == SOF[:1] else b""`
abbrev pub keep_sof : List ℕ → List ℕ
keep_sof b = if starts_with (0xAA ∷ []) (last 1 b) then last 1 b else []

unfoldable pub round : FrameParser → Round
round p = elim (find sof p.buffer) [
  | none ↦ stop (record p { buffer = keep_sof p.buffer })
  | some position ↦ at_sof (record p { buffer = drop position p.buffer })
]

-- The loop of `feed`, on fuel; the frames are listed in the order in which they are appended.
-- `prepend` joins the frame of this round with those of the later ones.
abbrev pub prepend : HostFrame → FrameParser × List HostFrame → FrameParser × List HostFrame
prepend frame (p, frames) = (p, frame ∷ frames)

unfoldable pub loop : ℕ → FrameParser → FrameParser × List HostFrame
loop zero p = (p, [])
loop (suc fuel) p = elim (round p) [
  | stop q ↦ (q, [])
  | again q ↦ loop fuel q
  | emit frame q ↦ prepend frame (loop fuel q)
]

-- Every round that goes on takes a byte at least, so one round more than there are bytes is enough.
unfoldable pub feed : FrameParser → List ℕ → FrameParser × List HostFrame
feed p bytes =
    let buffer = p.buffer ++ bytes in loop (length buffer + 1) (record p { buffer = buffer })
