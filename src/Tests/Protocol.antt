-- ===== src/Tests/Protocol.antt =====
-- Runs of navigation_robot/host/protocol.py on the golden frames of docs/host_protocol_v1.md.
use navigation_robot.Base.{ok, ◌≡◌, ◌≢◌, refl, List, [], ◌∷◌, ◌++◌, ℕ, arith, drop, All}
use navigation_robot.Base.Bytes.{IsByte}
use navigation_robot.Protocol.{HostFrame, again}
use navigation_robot.Protocol.Encoding.{body, sent, IsFrame}
use navigation_robot.Protocol.Stream.{Rounds, loop-Rounds, feed-append, feed_both, feed_all, join}
use navigation_robot.Protocol.RoundTrip.{
  idle, wires, stream_round_trip, feed-encode_frame, round_detects_byte,
}
use navigation_robot.Protocol.{
  crc_round, crc_rounds, crc_byte, crc_from, crc16_ccitt_false, encode_frame, new_parser, at_sof,
  round, loop, feed,
}
use navigation_robot.Base.Bytes.{find}

abbrev hello_bytes : List ℕ
hello_bytes = 0xAA ∷ 0x55 ∷ 1 ∷ 1 ∷ 0x2A ∷ 0 ∷ 0 ∷ 0 ∷ 0x04 ∷ 0xBE ∷ []

abbrev dual_bytes : List ℕ
dual_bytes =
    0xAA ∷ 0x55 ∷ 1 ∷ 0x1A ∷ 1 ∷ 1 ∷ 8 ∷ 0 ∷ 1 ∷ 2 ∷ 0x19 ∷ 0 ∷ 0x19 ∷ 0 ∷ 0 ∷ 0 ∷ 0xD2 ∷ 0x49 ∷ []

encode_hello : encode_frame 1 0x2A 0 [] ≡ ok hello_bytes
unfolding encode_frame crc16_ccitt_false crc_from crc_byte crc_rounds crc_round
encode_hello = refl

encode_dual : encode_frame 0x1A 1 1 (1 ∷ 2 ∷ 0x19 ∷ 0 ∷ 0x19 ∷ 0 ∷ 0 ∷ 0 ∷ []) ≡ ok dual_bytes
unfolding encode_frame crc16_ccitt_false crc_from crc_byte crc_rounds crc_round
encode_dual = refl

-- Noise, a frame, a frame with a wrong CRC, a frame, and the first byte of a further one.
feed_noise :
    (feed new_parser (
      0x00 ∷ 0xAA ∷ hello_bytes
      ++ ((0xAA ∷ 0x55 ∷ 1 ∷ 1 ∷ 0x2B ∷ 0 ∷ 0 ∷ 0 ∷ 0x04 ∷ 0xBE ∷ [])
          ++ (dual_bytes ++ (0xAA ∷ []))))).0
    ≡ record { buffer = 0xAA ∷ []; valid_frames = 2; crc_errors = 1; length_errors = 0 }
unfolding feed loop round at_sof find crc16_ccitt_false crc_from crc_byte crc_rounds crc_round
feed_noise = refl

abbrev hello : HostFrame
hello = record { msg_type = 1; sequence = 0x2A; flags = 0; payload = [] }

abbrev dual : HostFrame
dual = record {
  msg_type = 0x1A;
  sequence = 1;
  flags = 1;
  payload = 1 ∷ 2 ∷ 0x19 ∷ 0 ∷ 0x19 ∷ 0 ∷ 0 ∷ 0 ∷ [];
}

abbrev dual_payload-bytes : All IsByte dual.payload
dual_payload-bytes = (
  omega arith,
  (
    omega arith,
    (omega arith, (omega arith, (omega arith, (omega arith, (omega arith, (omega arith, tt)))))),
  ),
)

abbrev hello-IsFrame : IsFrame hello
hello-IsFrame = record {
  type_byte = omega arith;
  sequence_byte = omega arith;
  flags_byte = omega arith;
  payload_bytes = tt;
  payload_fits = omega arith;
}

abbrev dual-IsFrame : IsFrame dual
dual-IsFrame = record {
  type_byte = omega arith;
  sequence_byte = omega arith;
  flags_byte = omega arith;
  payload_bytes = dual_payload-bytes;
  payload_fits = omega arith;
}

-- The two frames in two chunks, cut within the second frame.
abbrev first_chunk : List ℕ
first_chunk = hello_bytes ++ (0xAA ∷ 0x55 ∷ 1 ∷ [])

abbrev second_chunk : List ℕ
second_chunk = 0x1A ∷ 1 ∷ 1 ∷ 8 ∷ 0 ∷ 1 ∷ 2 ∷ 0x19 ∷ 0 ∷ 0x19 ∷ 0 ∷ 0 ∷ 0 ∷ 0xD2 ∷ 0x49 ∷ []

chunks-wires : first_chunk ++ join (second_chunk ∷ []) ≡ wires (hello ∷ dual ∷ [])
unfolding join wires crc16_ccitt_false crc_from crc_byte crc_rounds crc_round
chunks-wires = refl

stream_round_trip_example :
    feed_all (idle new_parser) (first_chunk ∷ second_chunk ∷ [])
    ≡ (idle (record new_parser { valid_frames = 2 }), hello ∷ dual ∷ [])
stream_round_trip_example =
    stream_round_trip new_parser (hello ∷ dual ∷ []) first_chunk (second_chunk ∷ [])
      (hello-IsFrame, (dual-IsFrame, tt)) chunks-wires

feed-encode_frame_example :
    feed (idle new_parser) dual_bytes ≡ (idle (record new_parser { valid_frames = 1 }), dual ∷ [])
feed-encode_frame_example =
    feed-encode_frame new_parser 0x1A 1 1 dual.payload dual_bytes dual_payload-bytes encode_dual

abbrev bad_hello : HostFrame
bad_hello = record hello { sequence = 0x2B }

abbrev bad_hello-IsFrame : IsFrame bad_hello
bad_hello-IsFrame = record {
  type_byte = omega arith;
  sequence_byte = omega arith;
  flags_byte = omega arith;
  payload_bytes = tt;
  payload_fits = omega arith;
}

abbrev first_number : ℕ
first_number = 0x2A

different : first_number ≢ 0x2B
different e = omega arith

round_detects_byte_example :
    round (record new_parser { buffer = sent bad_hello (crc16_ccitt_false (body hello)) ++ [] })
    ≡ again (record new_parser {
      crc_errors = 1;
      buffer = drop 1 (sent bad_hello (crc16_ccitt_false (body hello)) ++ []);
    })
round_detects_byte_example =
    round_detects_byte new_parser hello bad_hello (1 ∷ 1 ∷ []) (0 ∷ 0 ∷ 0 ∷ []) [] 0x2A 0x2B
      hello-IsFrame bad_hello-IsFrame refl refl different

feed-append_example :
    feed new_parser (first_chunk ++ second_chunk) ≡ feed_both new_parser first_chunk second_chunk
feed-append_example = feed-append new_parser first_chunk second_chunk

loop-Rounds_example :
    Rounds
      (record new_parser { buffer = first_chunk })
      (loop 14 (record new_parser { buffer = first_chunk })).1
      (loop 14 (record new_parser { buffer = first_chunk })).0
loop-Rounds_example = loop-Rounds 14 (record new_parser { buffer = first_chunk }) (omega arith)
