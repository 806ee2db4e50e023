-- ===== src/Tests/Mapping.antt =====
-- The theorems on speeds and units at concrete values.
use navigation_robot.Base.{◌≡◌, ◌≢◌, refl, arith, ok, true}
use navigation_robot.Base.Int.{pos, negsuc, neg, ◌≤ℤ◌, ◌*ℤ◌}
use navigation_robot.Config.{max_rpm, speed_gears}
use navigation_robot.Mapping.{
  differential_rpm, left, other, is_gear, keyboard_direction_rpm, current_ma_to_raw,
  degrees_to_position_raw, round_div, round_div_ℤ,
}
use navigation_robot.Mapping.Speeds.{differential_rpm_bounds, stick, keyboard_direction_rpm-stick}

differential_rpm_bounds_example :
    let (l, r) = differential_rpm (pos 900) (negsuc 700) (pos 300) in
    (neg (pos max_rpm) ≤ℤ l) × (l ≤ℤ pos max_rpm) × (neg (pos max_rpm) ≤ℤ r) × (r ≤ℤ pos max_rpm)
differential_rpm_bounds_example = differential_rpm_bounds (pos 900) (negsuc 700) (pos 300)

left_named : left ≢ other
left_named e = ground arith

gear_listed : is_gear 75 speed_gears ≡ true
unfolding is_gear
gear_listed = refl

keyboard_direction_rpm-stick_example :
    keyboard_direction_rpm left 75 ≡ ok (differential_rpm (stick left).0 (stick left).1 (pos 75))
keyboard_direction_rpm-stick_example = keyboard_direction_rpm-stick left 75 left_named gear_listed

half_ampere : current_ma_to_raw (negsuc 499999) ≡ ok (negsuc 2047)
unfolding current_ma_to_raw round_div_ℤ round_div ◌*ℤ◌
half_ampere = refl

quarter_turn : degrees_to_position_raw (pos 90000) ≡ ok (pos 8192)
unfolding degrees_to_position_raw round_div_ℤ round_div ◌*ℤ◌
quarter_turn = refl
