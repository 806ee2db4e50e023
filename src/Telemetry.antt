-- ===== src/Telemetry.antt =====
-- navigation_robot/host/telemetry.py: `TelemetryRateMeter` and the decoders of the telemetry
-- payloads. Times are in microseconds, a rate is an exact fraction, and the 32-bit floats of the IMU
-- are their bit patterns.
pub mod Rates
pub mod Records
use navigation_robot.Base.{
  ℕ, zero, suc, ◌+◌, ◌-◌, ◌%◌, ◌*◌, Bool, true, false, not, Option, none, some, List, [], ◌∷◌, ◌++◌,
  ltb, leb, if◌then◌else◌, length, get_or, Result, ok, guard, struct_error, index_error, ◌>>=◌,
  ◌>>◌,
}
use navigation_robot.Base.Int.{ℤ}
use navigation_robot.Base.Bytes.{u16_at, i16_at, u32_at}
use navigation_robot.Config.{telemetry_rate_window}

-- One entry of `samples`: (now, heartbeat_total, feedback_count).
pub record Sample : Type 0 where
  pub time : ℕ
  pub frames : ℕ
  pub feedback : ℕ

pub record TelemetryRateMeter : Type 0 where
  pub window : ℕ
  pub samples : List Sample
  pub last_sequence : Option ℕ
  pub last_feedback : Option ℕ
  pub heartbeat_total : ℕ

abbrev pub new_meter : TelemetryRateMeter
new_meter = record {
  window = telemetry_rate_window;
  samples = [];
  last_sequence = none;
  last_feedback = none;
  heartbeat_total = 0;
}

unfoldable pub reset : TelemetryRateMeter → TelemetryRateMeter
reset m = record m { samples = []; last_sequence = none; last_feedback = none; heartbeat_total = 0 }

-- A number of events in a number of microseconds.
pub record Rate : Type 0 where
  pub count : ℕ
  pub duration : ℕ

-- `0.0`
abbrev pub no_rate : Rate
no_rate = record { count = 0; duration = 1 }

-- `feedback_count < self.last_feedback`, where the latter may be `None`.
abbrev pub falls_below : ℕ → Option ℕ → Bool
falls_below n none = false
falls_below n (some last) = ltb n last

-- `(sequence - self.last_sequence) & 0xFF`, where both are bytes.
abbrev pub steps_since : ℕ → Option ℕ → ℕ
steps_since sequence none = 0
steps_since sequence (some last) = (sequence + 256 - last) % 256

-- `while len(self.samples) > 2 and self.samples[1][0] <= cutoff: del self.samples[0]`, where
-- `cutoff` is `now - self.window_s`.
unfoldable pub trim : ℕ → ℕ → List Sample → List Sample
trim window now [] = []
trim window now (a ∷ []) = a ∷ []
trim window now (a ∷ b ∷ []) = a ∷ b ∷ []
trim window now (a ∷ b ∷ c ∷ rest) =
    let later = trim window now (b ∷ c ∷ rest) in
    if leb (b.time + window) now then later else a ∷ b ∷ c ∷ rest

-- The rates from the oldest sample on. `max(0, …)` is the truncated subtraction.
unfoldable pub rates : List Sample → ℕ → ℕ → ℕ → Rate × Rate
rates [] now total feedback_count = (no_rate, no_rate)
rates (a ∷ []) now total feedback_count = (no_rate, no_rate)
rates (a ∷ b ∷ rest) now total feedback_count = if leb now a.time then (no_rate, no_rate) else (
  record { count = total - a.frames; duration = now - a.time },
  record { count = feedback_count - a.feedback; duration = now - a.time },
)

-- The meter at the start of an update, after the reset that a falling counter causes.
unfoldable pub restarted : TelemetryRateMeter → ℕ → TelemetryRateMeter
unfolding reset
restarted m feedback_count = if falls_below feedback_count m.last_feedback then reset m else m

unfoldable pub update : TelemetryRateMeter → ℕ → ℕ → ℕ → TelemetryRateMeter × (Rate × Rate)
update m now sequence feedback_count =
    let r = restarted m feedback_count in
    let total = r.heartbeat_total + steps_since sequence r.last_sequence in
    let samples =
      trim r.window now
        (r.samples ++ (record { time = now; frames = total; feedback = feedback_count } ∷ [])) in
    (
      record r {
        heartbeat_total = total;
        last_sequence = some sequence;
        last_feedback = some feedback_count;
        samples = samples;
      },
      rates samples now total feedback_count,
    )

-- `struct.unpack_from` raises if the bytes do not reach to here; an index raises another exception.
abbrev pub reaches : List ℕ → ℕ → Bool
reaches payload end = not (ltb (length payload) end)

pub record MotorRecord : Type 0 where
  pub motor_id : ℕ
  pub mode : ℕ
  pub state : ℕ
  pub fault : ℕ
  pub target : ℤ
  pub speed : ℤ
  pub current : ℤ
  pub position : ℕ
  pub query_position : ℕ
  pub age : ℕ
  pub feedback : ℕ
  pub crc_errors : ℕ
  pub timeouts : ℕ

-- The values at an offset of bytes that are long enough.
abbrev pub motor_at : List ℕ → ℕ → MotorRecord
motor_at payload offset = record {
  motor_id = get_or payload offset 0;
  mode = get_or payload (offset + 1) 0;
  state = get_or payload (offset + 2) 0;
  fault = get_or payload (offset + 3) 0;
  target = i16_at payload (offset + 4);
  speed = i16_at payload (offset + 6);
  current = i16_at payload (offset + 8);
  position = u16_at payload (offset + 10);
  query_position = get_or payload (offset + 12) 0;
  age = u16_at payload (offset + 14);
  feedback = u32_at payload (offset + 16);
  crc_errors = u16_at payload (offset + 20);
  timeouts = u16_at payload (offset + 22);
}

unfoldable pub decode_motor_record : List ℕ → ℕ → Result MotorRecord
decode_motor_record payload offset = do
  guard (reaches payload (offset + 4)) struct_error
  guard (reaches payload (offset + 10)) struct_error
  guard (reaches payload (offset + 12)) struct_error
  guard (reaches payload (offset + 13)) index_error
  guard (reaches payload (offset + 16)) struct_error
  guard (reaches payload (offset + 20)) struct_error
  guard (reaches payload (offset + 24)) struct_error
  ok (motor_at payload offset)

pub record Chassis : Type 0 where
  pub uptime : ℕ
  pub owner : ℕ
  pub flags : ℕ
  pub watchdogs : ℕ
  pub left : MotorRecord
  pub right : MotorRecord

abbrev pub chassis_of : List ℕ → MotorRecord → MotorRecord → Chassis
chassis_of payload left right = record {
  uptime = u32_at payload 0;
  owner = get_or payload 4 0;
  flags = get_or payload 5 0;
  watchdogs = u16_at payload 6;
  left = left;
  right = right;
}

unfoldable pub decode_chassis_telemetry : List ℕ → Result Chassis
unfolding decode_motor_record
decode_chassis_telemetry payload = do
  guard (reaches payload 8) struct_error
  left ← decode_motor_record payload 8
  right ← decode_motor_record payload 32
  ok (chassis_of payload left right)

-- The fields of `accel` and `gyro` are bit patterns of 32-bit floats.
pub record Imu : Type 0 where
  pub timestamp : ℕ
  pub flags : ℕ
  pub accel : ℕ × ℕ × ℕ
  pub gyro : ℕ × ℕ × ℕ
  pub samples : ℕ
  pub read_errors : ℕ
  pub init_errors : ℕ

abbrev pub imu_at : List ℕ → Imu
imu_at payload = record {
  timestamp = u32_at payload 0 + 4294967296 * u32_at payload 4;
  flags = get_or payload 8 0;
  accel = (u32_at payload 12, u32_at payload 16, u32_at payload 20);
  gyro = (u32_at payload 24, u32_at payload 28, u32_at payload 32);
  samples = u32_at payload 36;
  read_errors = u16_at payload 40;
  init_errors = u16_at payload 42;
}

unfoldable pub decode_imu_telemetry : List ℕ → Result Imu
decode_imu_telemetry payload = do
  guard (reaches payload 8) struct_error
  guard (reaches payload 9) index_error
  guard (reaches payload 24) struct_error
  guard (reaches payload 36) struct_error
  guard (reaches payload 40) struct_error
  guard (reaches payload 44) struct_error
  ok (imu_at payload)
