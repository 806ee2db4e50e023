-- ===== src/Telemetry/Records.antt =====
-- Which payloads the decoders accept: exactly those that are long enough.
use navigation_robot.Base.{
  ℕ, ◌+◌, ◌≤◌, ◌<◌, ◌≡◌, List, arith, length, ok, inl, inr, Bool-cases, ltb, ltb→ge, ltb→lt, ◌≢◌,
  ◌↔◌, sym, ap, ◌∙◌, get_or,
}
use navigation_robot.Base.Bytes.{u16_at, u32_at, i16_at}
use navigation_robot.Telemetry.{
  motor_at, decode_motor_record, Chassis, chassis_of, imu_at, decode_chassis_telemetry, Imu,
  decode_imu_telemetry,
}

pub decode_motor_record-ok :
    (payload : List ℕ) (offset : ℕ)
    → offset + 24 ≤ length payload
    → decode_motor_record payload offset ≡ ok (motor_at payload offset)
unfolding decode_motor_record
decode_motor_record-ok payload offset h = ground arith

-- The values of a payload of 56 bytes: the header, and the two records at their offsets.
abbrev pub chassis_at : List ℕ → Chassis
chassis_at payload = chassis_of payload (motor_at payload 8) (motor_at payload 32)

pub decode_chassis_telemetry-ok :
    (payload : List ℕ)
    → 56 ≤ length payload
    → decode_chassis_telemetry payload ≡ ok (chassis_at payload)
unfolding decode_chassis_telemetry
decode_chassis_telemetry-ok payload h = ground arith

-- A chassis payload is decoded exactly when it has at least 56 bytes, and one that is shorter
-- raises.
pub decode_chassis_telemetry-total :
    (payload : List ℕ)
    → (56 ≤ length payload → decode_chassis_telemetry payload ≡ ok (chassis_at payload))
      × (length payload < 56 → (c : Chassis) → decode_chassis_telemetry payload ≢ ok c)
unfolding decode_chassis_telemetry
decode_chassis_telemetry-total payload =
    (decode_chassis_telemetry-ok payload, λ h c e. ground arith)

-- An IMU payload is decoded exactly when it has at least 44 bytes, and one that is shorter raises.
pub decode_imu_telemetry-total :
    (payload : List ℕ)
    → (44 ≤ length payload → decode_imu_telemetry payload ≡ ok (imu_at payload))
      × (length payload < 44 → (i : Imu) → decode_imu_telemetry payload ≢ ok i)
unfolding decode_imu_telemetry
decode_imu_telemetry-total payload = (λ h. ground arith, λ h i e. ground arith)

-- What stands where in a chassis payload.
abbrev pub layout : List ℕ → Chassis
layout payload = record {
  uptime = u32_at payload 0;
  owner = get_or payload 4 0;
  flags = get_or payload 5 0;
  watchdogs = u16_at payload 6;
  left = record {
    motor_id = get_or payload 8 0;
    mode = get_or payload 9 0;
    state = get_or payload 10 0;
    fault = get_or payload 11 0;
    target = i16_at payload 12;
    speed = i16_at payload 14;
    current = i16_at payload 16;
    position = u16_at payload 18;
    query_position = get_or payload 20 0;
    age = u16_at payload 22;
    feedback = u32_at payload 24;
    crc_errors = u16_at payload 28;
    timeouts = u16_at payload 30;
  };
  right = record {
    motor_id = get_or payload 32 0;
    mode = get_or payload 33 0;
    state = get_or payload 34 0;
    fault = get_or payload 35 0;
    target = i16_at payload 36;
    speed = i16_at payload 38;
    current = i16_at payload 40;
    position = u16_at payload 42;
    query_position = get_or payload 44 0;
    age = u16_at payload 46;
    feedback = u32_at payload 48;
    crc_errors = u16_at payload 52;
    timeouts = u16_at payload 54;
  };
}

-- A chassis payload is decoded exactly when it has at least 56 bytes, and then to the values of this
-- layout: the header in the bytes 0 to 7, the left motor in 8 to 31 and the right one in 32 to 55, each
-- with its numbers, in the order of the record, 0, 1, 2, 3, 4, 6, 8, 10, 12, 14, 16, 20 and 22 bytes on.
pub decode_chassis_telemetry-exact :
    (payload : List ℕ) (c : Chassis)
    → (decode_chassis_telemetry payload ≡ ok c) ↔ ((56 ≤ length payload) × (c ≡ layout payload))
decode_chassis_telemetry-exact payload c =
    (decoded, λ h. (decode_chassis_telemetry-total payload).0 h.0 ∙ ap ok (sym h.1))
  where
    decoded : decode_chassis_telemetry payload ≡ ok c → (56 ≤ length payload) × (c ≡ layout payload)
    decoded e = elim (Bool-cases (ltb (length payload) 56)) [
      | inr fits ↦
          let long = ltb→ge _ _ fits in
          (long, ground (arith, (decode_chassis_telemetry-total payload).0 long))
      | inl few ↦
          let short = ltb→lt _ _ few in
          absurd ((decode_chassis_telemetry-total payload).1 short c e)
    ]

-- An IMU payload is decoded exactly when it has at least 44 bytes, and then to the values at the
-- documented offsets.
pub decode_imu_telemetry-exact :
    (payload : List ℕ) (i : Imu)
    → (decode_imu_telemetry payload ≡ ok i) ↔ ((44 ≤ length payload) × (i ≡ imu_at payload))
decode_imu_telemetry-exact payload i =
    (decoded, λ h. (decode_imu_telemetry-total payload).0 h.0 ∙ ap ok (sym h.1))
  where
    decoded : decode_imu_telemetry payload ≡ ok i → (44 ≤ length payload) × (i ≡ imu_at payload)
    decoded e = elim (Bool-cases (ltb (length payload) 44)) [
      | inr fits ↦
          let long = ltb→ge _ _ fits in
          (long, ground (arith, (decode_imu_telemetry-total payload).0 long))
      | inl few ↦
          let short = ltb→lt _ _ few in absurd ((decode_imu_telemetry-total payload).1 short i e)
    ]
