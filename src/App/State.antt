-- ===== src/App/State.antt =====
-- The state of `MotorTestApp`, and methods as actions on it: an action that raises keeps what it
-- has changed before.
use navigation_robot.Base.{
  ℕ, Bool, true, false, not, ◌&&◌, ◌||◌, Option, none, some, List, [], ◌∷◌, ◌++◌, if◌then◌else◌,
  Result, ok, err, Error, value_error, struct_error,
}
use navigation_robot.Base.Int.{ℤ, pos, negsuc, eq_ℤ, leb_ℤ}
use navigation_robot.Base.Bytes.{pack_u8}
use navigation_robot.Config.{m0601_mode_speed, m0601_reserved_query_id}
use navigation_robot.Protocol.{FrameParser, new_parser}
use navigation_robot.Motion.{MotionCommandGate, new_gate}
use navigation_robot.Link.{HandshakeController, new_handshake, ResetDetector, new_detector}
use navigation_robot.Telemetry.{TelemetryRateMeter, new_meter, Rate, Chassis, Imu}
use navigation_robot.Mapping.{Direction, ControlFlags, control_state_flags}

pub data ConnectionType : Type 0 where
  usb_serial wifi_tcp : ConnectionType

-- A worker as the application sees it: what it was given to send, and whether it was told to stop.
pub record Worker : Type 0 where
  pub kind : ConnectionType
  pub session : ℕ
  pub stopped : Bool
  pub tx : List (List ℕ)

-- The steps of the preparation of both wheels.
pub data Preparation : Type 0 where
  query_left mode_left query_right mode_right : Preparation

-- The context of a request that waits for its ACK.
pub record Request : Type 0 where
  pub request_type : ℕ
  pub motion : Bool
  pub id : Option ℤ
  pub mode : Option ℕ
  pub prepare : Option Preparation
  pub maintenance : Bool

abbrev pub no_context : Request
no_context = record {
  request_type = 0;
  motion = false;
  id = none;
  mode = none;
  prepare = none;
  maintenance = false;
}

-- What was given to `root.after`, and has not run yet.
pub data Job : Type 0 where
  poll control_tick handshake_tick open_timeout finish_disconnect close_now : Job
  -- A message with its payload, which is packed when the job runs, and its context.
  late_send : ℕ → Result (List ℕ) → Request → Job

-- The joystick as its widget leaves it, with its axes in thousandths.
pub record Joystick : Type 0 where
  pub active : Bool
  pub x_permille : ℤ
  pub y_permille : ℤ

pub record App : Type 0 where
  pub parser : FrameParser
  pub worker : Option Worker
  pub sequence : ℕ
  pub session_id : ℕ
  pub hello_sequence : Option ℕ
  pub hello_frame : Option (List ℕ)
  pub pending_requests : List (ℕ × Request)
  pub motion_gate : MotionCommandGate
  pub left_rate : TelemetryRateMeter
  pub right_rate : TelemetryRateMeter
  pub imu_rate : TelemetryRateMeter
  pub link_ready : Bool
  pub disconnect_pending : Bool
  pub handshake : HandshakeController
  pub handshake_job : Bool
  pub open_timeout_job : Bool
  pub reset_detector : ResetDetector
  pub confirmed_id : Option ℤ
  pub current_mode : Option ℕ
  pub dual_prepared : Bool
  pub dual_ready : Bool
  pub pressed_directions : List Direction
  pub latest_imu : Option (Imu × (Rate × Rate))
  pub latest_chassis_data : Option (Chassis × (Rate × Rate) × (Rate × Rate))
  pub next_imu_render : ℕ
  pub jobs : List Job
  -- The fields that the user sets: the kind of connection, the serial port, the stripped host name,
  -- the TCP port (`none` for a text that is no number), the gear, the motor's number and the new one
  -- (`none` for a text that `int` refuses), the box of the maintenance, the mode (`none` for a text
  -- that names none), the target in thousandths (`none` for a text that `float` refuses).
  pub connection_type : ConnectionType
  pub port : List ℕ
  pub host : List ℕ
  pub tcp_port : Option ℕ
  pub gear : ℕ
  pub motor_id_text : Option ℤ
  pub new_id_text : Option ℤ
  pub maintenance : Bool
  pub mode_text : Option ℕ
  pub target : Option ℤ
  pub joystick : Joystick

abbrev pub Action : Type 0 → Type 0
Action A = App → Result A × App

module _ {A : Type 0} where
  abbrev pub pure : A → Action A
  pure x a = (ok x, a)

  abbrev pub raise : Error → Action A
  raise e a = (err e, a)

  -- A computation that may raise and does not touch the state.
  abbrev pub lift : Result A → Action A
  lift r a = (r, a)

  abbrev pub gets : (App → A) → Action A
  gets f a = (ok (f a), a)

infixl 5 ◌>>=◌ ◌>>◌
abbrev pub ◌>>=◌ : {A B : Type 0} → Action A → (A → Action B) → Action B
◌>>=◌ m f a = let (r, b) = m a in elim r [ ok x ↦ f x b | err e ↦ (err e, b) ]

abbrev pub ◌>>◌ : {A B : Type 0} → Action A → Action B → Action B
m >> k = m >>= λ _. k

abbrev pub Done : Type 0
Done = Unit {0}

abbrev pub modify : (App → App) → Action Done
modify f a = (ok tt, f a)

abbrev pub skip : Action Done
skip = pure tt

-- `if test: m`
abbrev pub when : Bool → Action Done → Action Done
when test m a = if test then m a else (ok tt, a)

-- `root.after`, and `root.after_cancel` for a job that is there at most once.
unfoldable pub after : Job → App → App
after job a = record a { jobs = a.jobs ++ (job ∷ []) }

pub data JobKind : Type 0 where
  handshake_kind open_timeout_kind : JobKind

abbrev is_kind : JobKind → Job → Bool
is_kind handshake_kind handshake_tick = true
is_kind open_timeout_kind open_timeout = true
is_kind _ _ = false

unfoldable pub without : JobKind → List Job → List Job
without kind [] = []
without kind (job ∷ jobs) = if is_kind kind job then jobs else job ∷ without kind jobs

-- `_motor_id`, without its error text.
unfoldable pub checked_id : Option ℤ → Result ℤ
checked_id none = err value_error
checked_id (some value) =
    if not (leb_ℤ (pos 0) value && leb_ℤ value (pos 255))
      || eq_ℤ value (pos m0601_reserved_query_id)
    then err value_error
    else ok value

unfoldable pub motor_id : Action ℤ
unfolding checked_id
motor_id a = (checked_id a.motor_id_text, a)

-- `struct.pack("<B", value)`
abbrev pub pack_byte : ℤ → Result (List ℕ)
pack_byte (pos n) = pack_u8 n
pack_byte (negsuc n) = err struct_error

-- `target_confirmed` in `_set_controls_enabled`, and the switches of that method.
abbrev pub is_confirmed : Result ℤ → Option ℤ → Bool
is_confirmed (ok value) (some id) = eq_ℤ value id
is_confirmed _ _ = false

unfoldable pub controls : App → ControlFlags
unfolding checked_id control_state_flags
controls a =
    control_state_flags a.link_ready (is_confirmed (checked_id a.motor_id_text) a.confirmed_id)
      a.current_mode a.maintenance

-- `__init__`: the application at its start, with a serial port that was found.
unfoldable pub start : List ℕ → App
unfolding new_gate
start port = record {
  parser = new_parser;
  worker = none;
  sequence = 0;
  session_id = 0;
  hello_sequence = none;
  hello_frame = none;
  pending_requests = [];
  motion_gate = new_gate;
  left_rate = new_meter;
  right_rate = new_meter;
  imu_rate = new_meter;
  link_ready = false;
  disconnect_pending = false;
  handshake = new_handshake;
  handshake_job = false;
  open_timeout_job = false;
  reset_detector = new_detector;
  confirmed_id = none;
  current_mode = none;
  dual_prepared = false;
  dual_ready = false;
  pressed_directions = [];
  latest_imu = none;
  latest_chassis_data = none;
  next_imu_render = 0;
  jobs = poll ∷ control_tick ∷ [];
  connection_type = usb_serial;
  port = port;
  host = [];
  tcp_port = some 3333;
  gear = 25;
  motor_id_text = some (pos 1);
  new_id_text = some (pos 2);
  maintenance = false;
  mode_text = some m0601_mode_speed;
  target = some (pos 30000);
  joystick = record { active = false; x_permille = pos 0; y_permille = pos 0 };
}
