-- ===== src/Teleop/Bounds.antt =====
-- The speeds that a key asks for, and those that the node publishes.
use native.Mathlib.Nat.{mul-le-mul_left}
use navigation_robot.Base.{
  ℕ, zero, suc, ◌*◌, ◌-◌, ◌≤◌, ◌≡◌, ◌⊎◌, inl, inr, refl, arith, Bool, true, false, Option, none,
  some, List, if◌then◌else◌, get_or,
}
use navigation_robot.Base.Int.{ℤ, pos, negsuc, ◌*ℤ◌, pos_part, neg_part}
use navigation_robot.Base.Texts.{codes, eq_text}
use navigation_robot.Teleop.Keys.{
  normalize_key, motion_key, command_for_key, command_of, scaled, gear_factors, is_gear,
}
use navigation_robot.Teleop.Node.{Twist, halt}

-- The speed is at most the limit either way.
abbrev pub IsBounded : ℕ → ℤ → Type 0
IsBounded limit n = (pos_part n ≤ limit) × (neg_part n ≤ limit)

-- Both speeds are at most their maxima, of which they are so many hundredths, and one of them is 0.
abbrev pub IsAllowed : ℕ → ℕ → Twist → Type 0
IsAllowed max_linear max_angular (linear, angular) =
    IsBounded (100 * max_linear) linear
    × IsBounded (100 * max_angular) angular
    × ((linear ≡ pos 0) ⊎ (angular ≡ pos 0))

pub halt-IsAllowed : (m n : ℕ) → IsAllowed m n halt
halt-IsAllowed m n = ((omega arith, omega arith), (omega arith, omega arith), inl refl)

factor-bound : (i : ℕ) → get_or gear_factors i 0 ≤ 100
factor-bound zero = omega arith
factor-bound (suc zero) = omega arith
factor-bound (suc (suc zero)) = omega arith
factor-bound (suc (suc (suc zero))) = omega arith
factor-bound (suc (suc (suc (suc zero)))) = omega arith
factor-bound (suc (suc (suc (suc (suc i))))) = omega arith

-- A sign times a part of the maximum.
signed-bound :
    (limit b : ℕ)
    → b ≤ limit
    → IsBounded limit (pos 1 *ℤ pos b)
      × IsBounded limit (negsuc 0 *ℤ pos b)
      × IsBounded limit (pos 0 *ℤ pos b)
      × (pos 0 *ℤ pos b ≡ pos 0)
unfolding ◌*ℤ◌
signed-bound limit b h = ground arith

-- A command that is taken, if there is one, is allowed.
abbrev pub IsAllowedIf : ℕ → ℕ → Option Twist → Type 0
IsAllowedIf m n none = Unit
IsAllowedIf m n (some twist) = IsAllowed m n twist

part-bound : (limit factor : ℕ) → factor ≤ 100 → limit * factor ≤ 100 * limit
part-bound limit factor h = omega (arith, mul-le-mul_left limit h)

-- The command of a direction, and of what a test chooses between two.
module _ (gear m n : ℕ) where
  abbrev factor : ℕ
  factor = get_or gear_factors (gear - 1) 0

  abbrev IsGood : Option (ℤ × ℤ) → Type 0
  IsGood direction = IsAllowedIf m n (command_of direction gear m n)

  if-IsGood :
      (test : Bool) (x y : Option (ℤ × ℤ)) → IsGood x → IsGood y → IsGood (if test then x else y)
  if-IsGood true x y h k = h
  if-IsGood false x y h k = k

  direction-IsGood :
      (direction : ℤ × ℤ) → IsAllowed m n (scaled direction m n factor) → IsGood (some direction)
  direction-IsGood direction h = kept (is_gear gear)
    where
      kept : (b : Bool) → IsAllowedIf m n (if b then some (scaled direction m n factor) else none)
      kept true = h
      kept false = tt

  motion_key-IsGood : (key : List ℕ) → IsGood (motion_key key)
  unfolding motion_key
  motion_key-IsGood key =
      let (forward, back, level, still) =
        signed-bound (100 * m) (m * factor) (part-bound m factor (factor-bound (gear - 1))) in
      let (left, right, centred, straight) =
        signed-bound (100 * n) (n * factor) (part-bound n factor (factor-bound (gear - 1))) in
      if-IsGood (eq_text key (codes "w")) (some (pos 1, pos 0)) _
        (direction-IsGood (pos 1, pos 0) (forward, centred, inr straight))
        (if-IsGood (eq_text key (codes "s")) (some (negsuc 0, pos 0)) _
          (direction-IsGood (negsuc 0, pos 0) (back, centred, inr straight))
          (if-IsGood (eq_text key (codes "a")) (some (pos 0, pos 1)) _
            (direction-IsGood (pos 0, pos 1) (level, left, inl still))
            (if-IsGood (eq_text key (codes "d")) (some (pos 0, negsuc 0)) none
              (direction-IsGood (pos 0, negsuc 0) (level, right, inl still)) tt)))

pub command_for_key-IsAllowed :
    (key : List ℕ) (gear m n : ℕ) → IsAllowedIf m n (command_for_key key gear m n)
unfolding command_for_key
command_for_key-IsAllowed key gear m n = motion_key-IsGood gear m n (normalize_key key)
