-- ===== src/Teleop/Node.antt =====
-- keyboard_teleop.py of navigation_robot_ros2: the state of the `KeyboardTeleop` node and its
-- methods. What the node has published stands in its state, the latest last.
use navigation_robot.Base.{
  ℕ, ◌+◌, ◌-◌, ◌/◌, ◌*◌, Bool, true, false, not, ◌&&◌, ◌||◌, Option, none, some, List, [], ◌∷◌,
  ◌++◌, ltb, leb, if◌then◌else◌, Result, ok, err, value_error, index_error, guard, ◌>>◌,
}
use navigation_robot.Base.Int.{ℤ, pos, negsuc, pos_part, leb_ℤ, ltb_ℤ, eq_ℤ}
use navigation_robot.Base.Texts.{codes, eq_text, is_part}
use navigation_robot.Teleop.Keys.{normalize_key, command_for_key}

-- The level of a status, as `rclpy` hands it over.
pub data Level : Type 0 where
  level_bytes : List ℕ → Level
  level_int : ℤ → Level

unfoldable pub diagnostic_level_value : Level → ℤ
diagnostic_level_value (level_bytes []) = negsuc 0
diagnostic_level_value (level_bytes (c ∷ _)) = pos c
diagnostic_level_value (level_int n) = n

pub record Status : Type 0 where
  pub name : List ℕ
  pub level : Level
  pub message : List ℕ

abbrev pub is_base_driver : Status → Bool
is_base_driver status = eq_text status.name (codes "navigation_robot/base_driver")

-- `diagnostic_level_value(status.level) == 0 and status.message == 'ready'`
unfoldable pub is_healthy : Status → Bool
unfolding diagnostic_level_value
is_healthy status =
    eq_ℤ (diagnostic_level_value status.level) (pos 0) && eq_text status.message (codes "ready")

-- `any`, over the statuses of a `DiagnosticArray`.
unfoldable pub base_status_ready : List Status → Bool
base_status_ready [] = false
base_status_ready (status ∷ array) =
    (is_base_driver status && is_healthy status) || base_status_ready array

unfoldable pub command_must_stop : Bool → Bool → ℕ → ℕ → ℕ → Bool
command_must_stop active ready last_key_time now key_timeout =
    active && (not ready || (ltb 0 key_timeout && ltb (last_key_time + key_timeout) now))

pub record Parameters : Type 0 where
  pub max_linear_speed : ℤ
  pub max_angular_speed : ℤ
  pub initial_gear : ℤ
  -- In thousandths of a hertz.
  pub publish_rate : ℤ
  pub key_timeout : ℤ
  pub diagnostic_timeout : ℤ
  pub require_base_ready : Bool

-- A linear and an angular speed.
abbrev pub Twist : Type 0
Twist = ℤ × ℤ

abbrev pub halt : Twist
halt = (pos 0, pos 0)

pub record Teleop : Type 0 where
  pub max_linear_speed : ℕ
  pub max_angular_speed : ℕ
  pub gear : ℕ
  pub publish_period : ℕ
  pub key_timeout : ℕ
  pub diagnostic_timeout : ℤ
  pub require_base_ready : Bool
  pub desired : Twist
  pub command_active : Bool
  pub last_key_time : ℕ
  pub next_publish_time : ℕ
  pub base_ready : Bool
  pub last_diagnostic_time : ℕ
  pub last_lock_warning : ℕ
  pub published : List Twist

abbrev pub is_positive : ℤ → Bool
is_positive n = ltb_ℤ (pos 0) n

abbrev pub initial : Parameters → Teleop
initial p = record {
  max_linear_speed = pos_part p.max_linear_speed;
  max_angular_speed = pos_part p.max_angular_speed;
  gear = pos_part p.initial_gear;
  publish_period = 1000000000 / pos_part p.publish_rate;
  key_timeout = pos_part p.key_timeout;
  diagnostic_timeout = p.diagnostic_timeout;
  require_base_ready = p.require_base_ready;
  desired = halt;
  command_active = false;
  last_key_time = 0;
  next_publish_time = 0;
  base_ready = false;
  last_diagnostic_time = 0;
  last_lock_warning = 0;
  published = [];
}

-- `__init__`, with the parameters of the node.
unfoldable pub new_teleop : Parameters → Result Teleop
new_teleop p =
    guard (is_positive p.max_linear_speed && is_positive p.max_angular_speed) value_error
    >> (guard (leb_ℤ (pos 1) p.initial_gear && leb_ℤ p.initial_gear (pos 5)) value_error
        >> (guard (is_positive p.publish_rate && leb_ℤ (pos 0) p.key_timeout) value_error
            >> ok (initial p)))

abbrev pub publish : Twist → Teleop → Teleop
publish twist t = record t { published = t.published ++ (twist ∷ []) }

unfoldable pub stop : Teleop → Teleop
stop t =
    let stopped = record t { desired = halt; command_active = false } in
    if t.command_active then publish halt stopped else stopped

-- What the first status of the base driver does.
unfoldable pub take_status : Status → ℕ → Teleop → Teleop
unfolding stop
take_status status now t =
    let told = record t { base_ready = is_healthy status; last_diagnostic_time = now } in
    if t.require_base_ready && not (is_healthy status) && t.command_active then stop told else told

unfoldable pub diagnostics_callback : List Status → ℕ → Teleop → Teleop
diagnostics_callback [] now t = t
diagnostics_callback (status ∷ array) now t =
    let rest = diagnostics_callback array now t in
    if is_base_driver status then take_status status now t else rest

-- `now - then <= limit`, where the limit may be negative.
abbrev pub is_recent : ℕ → ℕ → ℤ → Bool
is_recent earlier now (pos limit) = leb now (earlier + limit)
is_recent earlier now (negsuc limit) = ltb (now + limit) earlier

unfoldable pub ready : Teleop → ℕ → Bool
ready t now =
    not t.require_base_ready
    || (t.base_ready
        && ltb 0 t.last_diagnostic_time
        && is_recent t.last_diagnostic_time now t.diagnostic_timeout)

-- `int(key)` on a part of `12345`.
abbrev digits : ℕ → List ℕ → ℕ
digits n [] = n
digits n (c ∷ key) = digits (10 * n + (c - b'0')) key

-- The digit is taken, and then the factor of the new gear is shown.
abbrev pub set_gear : List ℕ → Teleop → Result Bool × Teleop
set_gear [] t = (err value_error, t)
set_gear (c ∷ key) t =
    let gear = digits 0 (c ∷ key) in
    (if leb gear 5 then ok true else err index_error, record t { gear = gear })

abbrev pub warn : ℕ → Teleop → Teleop
warn now t =
    if leb (t.last_lock_warning + 2000000) now then record t { last_lock_warning = now } else t

unfoldable pub take_command : Option Twist → ℕ → Teleop → Teleop
unfolding ready stop
take_command none now t = t
take_command (some command) now t =
    if ready t now
    then record t {
      desired = command;
      last_key_time = now;
      next_publish_time = now;
      command_active = true;
    }
    else stop (warn now t)

unfoldable pub handle_normalized : List ℕ → ℕ → Teleop → Result Bool × Teleop
unfolding stop command_for_key
handle_normalized key now t =
    if eq_text key (codes "q")
    then (ok false, stop t)
    else if eq_text key (codes " ")
    then (ok true, stop t)
    else if is_part key (codes "12345")
    then set_gear key t
    else (
      ok true,
      take_command (command_for_key key t.gear t.max_linear_speed t.max_angular_speed) now t,
    )

unfoldable pub handle_key : List ℕ → ℕ → Teleop → Result Bool × Teleop
unfolding normalize_key
handle_key raw now t = handle_normalized (normalize_key raw) now t

abbrev pub publish_due : ℕ → Teleop → Teleop
publish_due now t =
    if leb t.next_publish_time now
    then record (publish t.desired t) { next_publish_time = now + t.publish_period }
    else t

unfoldable pub tick : ℕ → Teleop → Teleop
unfolding command_must_stop ready stop
tick now t =
    if not t.command_active
    then t
    else if command_must_stop t.command_active (ready t now) t.last_key_time now t.key_timeout
    then stop t
    else publish_due now t

unfoldable pub stop_again : Teleop → Teleop
unfolding stop
stop_again t = record (stop t) { command_active = true }

unfoldable pub shutdown_stop : Teleop → Teleop
shutdown_stop t =
    let armed = record t { command_active = true } in
    record (stop_again (stop_again (stop_again armed))) { command_active = false }
