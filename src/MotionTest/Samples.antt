-- ===== src/MotionTest/Samples.antt =====
-- test_real_base_motion.py of navigation_robot_ros2: the speeds that were measured in a pulse, their
-- median, and the check of it.
use navigation_robot.Base.{
  ℕ, ◌+◌, ◌-◌, ◌*◌, ◌/◌, ◌%◌, Bool, ◌&&◌, List, [], ◌∷◌, length, get_or, leb, ◌==◌, if◌then◌else◌,
}
use navigation_robot.Base.Int.{ℤ, pos, pos_part, neg_part, ◌+ℤ◌, ◌*ℤ◌, ltb_ℤ, leb_ℤ}

-- A moment, and the speeds of the left and of the right wheel.
pub record Sample : Type 0 where
  pub time : ℕ
  pub left : ℤ
  pub right : ℤ

-- `TARGET_RAD_S`, to the nearest millionth: 25 rotations per minute.
abbrev pub target_rad_s : ℕ
target_rad_s = 2617994

-- `LINEAR_MPS`, and `ANGULAR_RAD_S`.
abbrev pub linear_mps : ℤ
linear_mps = pos 130900

abbrev pub angular_rad_s : ℤ
angular_rad_s = pos 1047198

-- `abs`
abbrev pub magnitude : ℤ → ℕ
magnitude z = pos_part z + neg_part z

-- The samples from 0.45 s after the start of the pulse to its end.
unfoldable pub usable : ℕ → ℕ → List Sample → List Sample
usable start end' [] = []
usable start end' (sample ∷ samples) =
    let rest = usable start end' samples in
    if leb (start + 450000) sample.time && leb sample.time end' then sample ∷ rest else rest

unfoldable pub sorted_insert : ℤ → List ℤ → List ℤ
sorted_insert z [] = z ∷ []
sorted_insert z (y ∷ ys) = if leb_ℤ z y then z ∷ y ∷ ys else y ∷ sorted_insert z ys

unfoldable pub sorted : List ℤ → List ℤ
unfolding sorted_insert
sorted [] = []
sorted (z ∷ zs) = sorted_insert z (sorted zs)

-- Twice `statistics.median`, which is the mean of the two values in the middle of an even number.
unfoldable pub twice_median : List ℤ → ℤ
unfolding sorted
twice_median zs =
    let ordered = sorted zs in
    let half = length zs / 2 in
    if length zs % 2 == 1
    then get_or ordered half (pos 0) +ℤ get_or ordered half (pos 0)
    else get_or ordered (half - 1) (pos 0) +ℤ get_or ordered half (pos 0)

abbrev pub lefts : List Sample → List ℤ
lefts [] = []
lefts (sample ∷ samples) = sample.left ∷ lefts samples

abbrev pub rights : List Sample → List ℤ
rights [] = []
rights (sample ∷ samples) = sample.right ∷ rights samples

-- One wheel: the sign is the expected one, and the speed is between 55 % and 145 % of the target.
unfoldable pub wheel_ok : ℤ → ℤ → Bool
wheel_ok twice sign =
    ltb_ℤ (pos 0) (twice *ℤ sign)
    && leb (2 * target_rad_s * 55) (magnitude twice * 100)
    && leb (magnitude twice * 100) (2 * target_rad_s * 145)

-- `signs_and_speed_ok`, on twice the speeds.
unfoldable pub signs_and_speed_ok : ℤ × ℤ → ℤ × ℤ → Bool
unfolding wheel_ok
signs_and_speed_ok (left, right) (left_sign, right_sign) =
    wheel_ok left left_sign && wheel_ok right right_sign
