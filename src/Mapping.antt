-- ===== src/Mapping.antt =====
-- navigation_robot/host/mapping.py: the units of the motor protocol, and the wheel speeds of the
-- joystick and of the arrow keys. A text such as "12.5" that stands for a float is the number of its
-- thousandths; there the products and quotients of floats round to the same integers as the exact
-- ones do.
pub mod Speeds
pub mod Units
use navigation_robot.Base.{
  ℕ, ◌+◌, ◌-◌, ◌*◌, ◌/◌, ◌%◌, Bool, true, false, not, ◌&&◌, Option, none, some, List, [], ◌∷◌, ltb,
  leb, ◌==◌, if◌then◌else◌, Result, ok, err, value_error, max, min,
}
use navigation_robot.Base.Int.{
  ℤ, pos, negsuc, ◌+ℤ◌, ◌-ℤ◌, ◌*ℤ◌, neg, max_ℤ, min_ℤ, trunc_div, ltb_ℤ, leb_ℤ, sub_ℕ, pos_part,
  neg_part,
}
use navigation_robot.Config.{max_current_ma, max_rpm, speed_gears, m0601_mode_speed}

-- Python's `round` of the quotient of two natural numbers: to the nearest, and half to even.
unfoldable pub round_div : ℕ → ℕ → ℕ
round_div a b =
    let q = a / b in
    let r = 2 * (a % b) in
    if ltb r b then q else if ltb b r then q + 1 else if q % 2 == 0 then q else q + 1

-- `round` is odd, so that it works on the absolute value.
unfoldable pub round_div_ℤ : ℤ → ℕ → ℤ
round_div_ℤ a b = sub_ℕ (round_div (pos_part a) b) (round_div (neg_part a) b)

-- `not -limit <= value <= limit`
abbrev pub within : ℕ → ℤ → Bool
within limit value = leb_ℤ (neg (pos limit)) value && leb_ℤ value (pos limit)

-- The current is in thousandths of a milliampere.
unfoldable pub current_ma_to_raw : ℤ → Result ℤ
unfolding round_div_ℤ neg
current_ma_to_raw current =
    if not (within (max_current_ma * 1000) current)
    then err value_error
    else ok (round_div_ℤ (current *ℤ pos 32767) 8000000)

-- The angle is in thousandths of a degree.
unfoldable pub degrees_to_position_raw : ℤ → Result ℤ
unfolding round_div_ℤ
degrees_to_position_raw degrees =
    if not (leb_ℤ (pos 0) degrees && leb_ℤ degrees (pos 360000))
    then err value_error
    else ok (round_div_ℤ (degrees *ℤ pos 32767) 360000)

-- `max(-limit, min(limit, value))`
unfoldable pub clamp : ℕ → ℤ → ℤ
unfolding neg
clamp limit value = max_ℤ (neg (pos limit)) (min_ℤ (pos limit) value)

-- `max(1, min(MAX_RPM, int(maximum_rpm)))`
unfoldable pub speed_limit : ℤ → ℕ
speed_limit maximum_rpm = pos_part (max_ℤ (pos 1) (min_ℤ (pos max_rpm) maximum_rpm))

unfoldable pub differential_rpm : ℤ → ℤ → ℤ → ℤ × ℤ
unfolding clamp speed_limit
differential_rpm x_permille y_permille maximum_rpm =
    let maximum = speed_limit maximum_rpm in
    let x = clamp 1000 x_permille in
    let y = clamp 1000 y_permille in
    (
      clamp maximum (trunc_div ((y +ℤ x) *ℤ pos maximum) 1000),
      clamp maximum (trunc_div ((y -ℤ x) *ℤ pos maximum) 1000),
    )

-- The key names "Up", "Down", "Left" and "Right", and any other.
pub data Direction : Type 0 where
  up down left right other : Direction

unfoldable pub is_gear : ℕ → List ℕ → Bool
is_gear gear [] = false
is_gear gear (g ∷ gears) = if gear == g then true else is_gear gear gears

abbrev pub direction_rpm : Direction → ℕ → Result (ℤ × ℤ)
direction_rpm up gear = ok (pos gear, pos gear)
direction_rpm down gear = ok (neg (pos gear), neg (pos gear))
direction_rpm left gear = ok (neg (pos gear), pos gear)
direction_rpm right gear = ok (pos gear, neg (pos gear))
direction_rpm other gear = err value_error

unfoldable pub keyboard_direction_rpm : Direction → ℕ → Result (ℤ × ℤ)
unfolding is_gear neg
keyboard_direction_rpm direction gear =
    if not (is_gear gear speed_gears) then err value_error else direction_rpm direction gear

pub record ControlFlags : Type 0 where
  pub query : Bool
  pub motion : Bool
  pub joystick : Bool
  pub maintenance : Bool

abbrev pub is_mode : Option ℕ → ℕ → Bool
is_mode none mode = false
is_mode (some m) mode = m == mode

unfoldable pub control_state_flags : Bool → Bool → Option ℕ → Bool → ControlFlags
control_state_flags link_ready target_confirmed current_mode maintenance_enabled =
    let motion_ready = link_ready && target_confirmed in
    record {
      query = link_ready;
      motion = motion_ready;
      joystick = motion_ready && is_mode current_mode m0601_mode_speed;
      maintenance = link_ready && maintenance_enabled;
    }
