-- ===== src/Mapping/Speeds.antt =====
-- The wheel speeds of the joystick and of the arrow keys.
use navigation_robot.Base.{ℕ, ◌≤◌, ◌≡◌, ◌≢◌, ◌⊎◌, inl, inr, refl, true, arith, ok}
use navigation_robot.Base.Int.{ℤ, pos, negsuc, neg, ◌≤ℤ◌, ◌+ℤ◌, ◌-ℤ◌, ◌*ℤ◌, trunc_div}
use navigation_robot.Config.{max_rpm, speed_gears}
use navigation_robot.Mapping.{
  clamp, speed_limit, differential_rpm, Direction, up, down, left, right, other, is_gear,
  keyboard_direction_rpm,
}

pub clamp_bounds :
    (limit : ℕ) (value : ℤ)
    → (neg (pos limit) ≤ℤ clamp limit value) × (clamp limit value ≤ℤ pos limit)
unfolding clamp
clamp_bounds limit value = ground arith

pub speed_limit_bounds : (maximum : ℤ) → (1 ≤ speed_limit maximum) × (speed_limit maximum ≤ max_rpm)
unfolding speed_limit
speed_limit_bounds maximum = ground arith

-- Whatever the stick and the gear say, both wheel speeds are within ±125 RPM.
pub differential_rpm_bounds :
    (x y maximum : ℤ)
    → let (l, r) = differential_rpm x y maximum in
      (neg (pos max_rpm) ≤ℤ l) × (l ≤ℤ pos max_rpm) × (neg (pos max_rpm) ≤ℤ r) × (r ≤ℤ pos max_rpm)
unfolding differential_rpm neg
differential_rpm_bounds x y maximum = ground (
  arith,
  speed_limit_bounds maximum,
  clamp_bounds (speed_limit maximum)
      (trunc_div ((clamp 1000 y +ℤ clamp 1000 x) *ℤ pos (speed_limit maximum)) 1000),
  clamp_bounds (speed_limit maximum)
      (trunc_div ((clamp 1000 y -ℤ clamp 1000 x) *ℤ pos (speed_limit maximum)) 1000),
)

clamp-neg : (limit : ℕ) (value : ℤ) → clamp limit (neg value) ≡ neg (clamp limit value)
unfolding clamp neg
clamp-neg limit value = ground arith

+ℤ-neg : (a b : ℤ) → a +ℤ neg b ≡ a -ℤ b
unfolding ◌+ℤ◌ ◌-ℤ◌ neg
+ℤ-neg a b = ground arith

-ℤ-neg : (a b : ℤ) → a -ℤ neg b ≡ a +ℤ b
unfolding ◌+ℤ◌ ◌-ℤ◌ neg
-ℤ-neg a b = ground arith

abbrev pub swap : ℤ × ℤ → ℤ × ℤ
swap (l, r) = (r, l)

-- Mirroring the stick left to right exchanges the two wheels.
pub differential_rpm-mirror :
    (x y maximum : ℤ) → differential_rpm (neg x) y maximum ≡ swap (differential_rpm x y maximum)
unfolding differential_rpm
differential_rpm-mirror x y maximum = rw (clamp-neg 1000 x, +ℤ-neg, -ℤ-neg)

-- The stick that an arrow key stands for, pushed to its end.
abbrev pub stick : Direction → ℤ × ℤ
stick up = (pos 0, pos 1000)
stick down = (pos 0, negsuc 999)
stick left = (negsuc 999, pos 0)
stick right = (pos 1000, pos 0)
stick other = (pos 0, pos 0)

is_gear-cases :
    (gear : ℕ)
    → is_gear gear speed_gears ≡ true
    → (gear ≡ 25) ⊎ (gear ≡ 50) ⊎ (gear ≡ 75) ⊎ (gear ≡ 100) ⊎ (gear ≡ 125)
unfolding is_gear
is_gear-cases gear h = ground arith

abbrev Agrees : Direction → ℕ → Type 0
Agrees direction gear =
    keyboard_direction_rpm direction gear
    ≡ ok (differential_rpm (stick direction).0 (stick direction).1 (pos gear))

gears-Agree :
    (direction : Direction)
    → direction ≢ other
    → Agrees direction 25
      × Agrees direction 50
      × Agrees direction 75
      × Agrees direction 100
      × Agrees direction 125
unfolding keyboard_direction_rpm differential_rpm ◌+ℤ◌ ◌-ℤ◌ ◌*ℤ◌
gears-Agree up h = (refl, refl, refl, refl, refl)
gears-Agree down h = (refl, refl, refl, refl, refl)
gears-Agree left h = (refl, refl, refl, refl, refl)
gears-Agree right h = (refl, refl, refl, refl, refl)
gears-Agree other h = absurd (h refl)

-- At each gear an arrow key drives the wheels as the joystick does at its end in that direction.
pub keyboard_direction_rpm-stick :
    (direction : Direction) (gear : ℕ)
    → direction ≢ other
    → is_gear gear speed_gears ≡ true
    → keyboard_direction_rpm direction gear
      ≡ ok (differential_rpm (stick direction).0 (stick direction).1 (pos gear))
keyboard_direction_rpm-stick direction gear h is_one =
    let (a, b, c, d, e) = gears-Agree direction h in
    elim (is_gear-cases gear is_one) [
      | inl p ↦ rw p a
      | inr (inl p) ↦ rw p b
      | inr (inr (inl p)) ↦ rw p c
      | inr (inr (inr (inl p))) ↦ rw p d
      | inr (inr (inr (inr p))) ↦ rw p e
    ]
