-- ===== src/Emulator/Reports.antt =====
-- The host reads the chassis telemetry of the emulator as the emulator means it.
use navigation_robot.Base.{
  ℕ, ◌+◌, ◌-◌, ◌*◌, ◌/◌, ◌%◌, ◌<◌, ◌≡◌, refl, ap, ◌∙◌, arith, List, [], ◌∷◌, ◌++◌, lt→ltb,
  if◌then◌else◌, ok, ◌>>=◌,
}
use navigation_robot.Base.Int.{ℤ, pos, negsuc, eq_ℤ}
use navigation_robot.Base.Bytes.{pack_i16, le16, le32, i16_of}
use navigation_robot.Telemetry.{Chassis, MotorRecord, decode_chassis_telemetry}
use navigation_robot.Telemetry.Records.{chassis_at, decode_chassis_telemetry-ok}
use navigation_robot.Emulator.{Emulator, motor_record, is_active, chassis_payload}

-- The number whose bytes stand for a signed one.
abbrev raw : ℤ → ℕ
raw (pos n) = n
raw (negsuc n) = 65535 - n

-- The signed number fits into 16 bits.
abbrev pub FitsI16 : ℤ → Type 0
FitsI16 (pos n) = n < 32768
FitsI16 (negsuc n) = n < 32768

pack_i16-raw : (z : ℤ) → FitsI16 z → pack_i16 z ≡ ok (le16 (raw z))
pack_i16-raw (pos n) h = rw (lt→ltb n 32768 h) refl
pack_i16-raw (negsuc n) h = rw (lt→ltb n 32768 h) refl

i16_of-raw : (z : ℤ) → FitsI16 z → i16_of (raw z) ≡ z
i16_of-raw (pos n) h = ground arith
i16_of-raw (negsuc n) h = ground arith

join16 : (n : ℕ) → n % 256 + 256 * (n / 256) ≡ n
join16 n = omega arith

join32 :
    (n : ℕ) → n % 256 + 256 * (n / 256 % 256) + 65536 * (n / 65536 % 256 + 256 * (n / 16777216)) ≡ n
join32 n = omega arith

-- The record of a wheel that follows its target at once.
abbrev pub wheel : ℕ → ℤ → ℕ → MotorRecord
wheel motor_id target count = record {
  motor_id = motor_id;
  mode = 2;
  state = if eq_ℤ target (pos 0) then 1 else 2;
  fault = 0;
  target = target;
  speed = target;
  current = pos 0;
  position = 0;
  query_position = 0;
  age = 0;
  feedback = count;
  crc_errors = 0;
  timeouts = 0;
}

-- What the emulator reports at a moment.
abbrev pub reported : ℕ → Emulator → Chassis
reported now s = record {
  uptime = (now - s.started) / 1000 % 4294967296;
  owner = is_active s;
  flags = 0x18 + is_active s;
  watchdogs = s.watchdog_count;
  left = wheel 1 s.target_left s.telemetry_count;
  right = wheel 2 s.target_right s.telemetry_count;
}

abbrev motor_bytes : ℕ → ℤ → ℕ → List ℕ
motor_bytes n z count =
    n
    ∷ 2
    ∷ (if eq_ℤ z (pos 0) then 1 else 2)
    ∷ 0
    ∷ (le16 (raw z)
        ++ (le16 (raw z) ++ (0 ∷ 0 ∷ 0 ∷ 0 ∷ 0 ∷ 0 ∷ 0 ∷ 0 ∷ (le32 count ++ (0 ∷ 0 ∷ 0 ∷ 0 ∷ [])))))

motor_record-bytes :
    (n : ℕ) (z : ℤ) (count : ℕ)
    → n < 256
    → FitsI16 z
    → count < 4294967296
    → motor_record n z z count ≡ ok (motor_bytes n z count)
unfolding motor_record
motor_record-bytes n z count h f c =
    rw (lt→ltb n 256 h, pack_i16-raw z f, lt→ltb count 4294967296 c) refl

abbrev payload_bytes : ℕ → Emulator → List ℕ
payload_bytes now s =
    le32 ((now - s.started) / 1000 % 4294967296)
    ++ (is_active s
        ∷ (0x18 + is_active s)
        ∷ (le16 s.watchdog_count
            ++ (motor_bytes 1 s.target_left s.telemetry_count
                ++ motor_bytes 2 s.target_right s.telemetry_count)))

chassis_payload-bytes :
    (now : ℕ) (s : Emulator)
    → FitsI16 s.target_left
    → FitsI16 s.target_right
    → s.telemetry_count < 4294967296
    → s.watchdog_count < 65536
    → chassis_payload now s ≡ ok (payload_bytes now s)
unfolding chassis_payload
chassis_payload-bytes now s l r c w =
    rw
      (
        lt→ltb ((now - s.started) / 1000 % 4294967296) 4294967296 (omega arith),
        lt→ltb s.watchdog_count 65536 w,
        motor_record-bytes 1 s.target_left s.telemetry_count (omega arith) l c,
        motor_record-bytes 2 s.target_right s.telemetry_count (omega arith) r c,
      )
      refl

values :
    (now : ℕ) (s : Emulator)
    → FitsI16 s.target_left
    → FitsI16 s.target_right
    → chassis_at (payload_bytes now s) ≡ reported now s
values now s l r =
    rw
      (
        join32 ((now - s.started) / 1000 % 4294967296),
        join32 s.telemetry_count,
        join16 s.watchdog_count,
        join16 (raw s.target_left),
        join16 (raw s.target_right),
        i16_of-raw s.target_left l,
        i16_of-raw s.target_right r,
      )
      refl

-- While its targets fit into 16 bits and its counters into their fields, what the emulator packs as
-- chassis telemetry is decoded by the host, to what the emulator means: its time, its owner and flags,
-- its watchdog's count, and for each wheel the target, which is also the speed, the state that goes
-- with it, and the number of reports.
pub chassis_payload-decode :
    (now : ℕ) (s : Emulator)
    → FitsI16 s.target_left
    → FitsI16 s.target_right
    → s.telemetry_count < 4294967296
    → s.watchdog_count < 65536
    → (chassis_payload now s >>= decode_chassis_telemetry) ≡ ok (reported now s)
chassis_payload-decode now s l r c w =
    rw (chassis_payload-bytes now s l r c w)
      (decode_chassis_telemetry-ok (payload_bytes now s) (omega arith) ∙ ap ok (values now s l r))
