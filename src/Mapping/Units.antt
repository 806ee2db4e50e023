-- ===== src/Mapping/Units.antt =====
-- The raw units of currents and positions.
use navigation_robot.Base.{
  ℕ, ◌+◌, ◌*◌, ◌/◌, ◌%◌, ◌≤◌, ◌<◌, ◌≡◌, ◌⊎◌, inl, inr, arith, ok, err, value_error,
}
use navigation_robot.Base.Int.{ℤ, pos, negsuc, pos_part, neg_part, ◌*ℤ◌}
use navigation_robot.Mapping.{round_div, round_div_ℤ, current_ma_to_raw, degrees_to_position_raw}
use native.Mathlib.Nat.{div-add-mod, mod-lt}

round_div-cases :
    (a b : ℕ)
    → ((round_div a b ≡ a / b) × (2 * (a % b) ≤ b))
      ⊎ ((round_div a b ≡ a / b + 1) × (b ≤ 2 * (a % b)))
unfolding round_div
round_div-cases a b = ground arith

-- The rounded quotient is at most a half away from the exact one.
pub round_div_near :
    (a b : ℕ)
    → 0 < b
    → (2 * (b * round_div a b) ≤ 2 * a + b) × (2 * a ≤ 2 * (b * round_div a b) + b)
round_div_near a b h = elim (round_div-cases a b) [
  | inl (e, below) ↦ rw e (omega (arith, div-add-mod a b))
  | inr (e, above) ↦ rw e (omega (arith, div-add-mod a b, mod-lt a h))
]

round_div_zero : (b : ℕ) → round_div 0 b ≡ 0
unfolding round_div
round_div_zero b = ground arith

-- What the raw value of a current is, for the two signs alike.
current-parts :
    (c raw : ℤ)
    → current_ma_to_raw c ≡ ok raw
    → (pos_part c ≤ 1000000)
      × (neg_part c ≤ 1000000)
      × (pos_part raw ≡ round_div (pos_part c * 32767) 8000000)
      × (neg_part raw ≡ round_div (neg_part c * 32767) 8000000)
unfolding current_ma_to_raw ◌*ℤ◌
current-parts (pos n) raw h = ground (arith, round_div_zero 8000000)
current-parts (negsuc n) raw h = ground (arith, round_div_zero 8000000)

-- A target of at most ±1000 mA becomes a raw value of at most ±4096, which fits the 16 bits of the
-- frame, and that is at most half a raw unit away from the exact current, for each sign.
pub current_ma_to_raw_near :
    (c raw : ℤ)
    → current_ma_to_raw c ≡ ok raw
    → (pos_part raw ≤ 4096)
      × (neg_part raw ≤ 4096)
      × (2 * (8000000 * pos_part raw) ≤ 2 * (32767 * pos_part c) + 8000000)
      × (2 * (32767 * pos_part c) ≤ 2 * (8000000 * pos_part raw) + 8000000)
      × (2 * (8000000 * neg_part raw) ≤ 2 * (32767 * neg_part c) + 8000000)
      × (2 * (32767 * neg_part c) ≤ 2 * (8000000 * neg_part raw) + 8000000)
current_ma_to_raw_near c raw h =
    let (below, above, e, f) = current-parts c raw h in
    omega (
      arith,
      e,
      f,
      round_div_near (pos_part c * 32767) 8000000 (omega arith),
      round_div_near (neg_part c * 32767) 8000000 (omega arith),
    )

-- Any other current is refused with `ValueError`.
pub current_ma_to_raw_total :
    (c : ℤ)
    → (1000000 < pos_part c + neg_part c → current_ma_to_raw c ≡ err value_error)
      × (pos_part c + neg_part c ≤ 1000000 → (raw : ℤ) × (current_ma_to_raw c ≡ ok raw))
unfolding current_ma_to_raw
current_ma_to_raw_total c =
    (λ h. ground arith, λ h. (round_div_ℤ (c *ℤ pos 32767) 8000000, ground arith))

position-parts :
    (d raw : ℤ)
    → degrees_to_position_raw d ≡ ok raw
    → (pos_part d ≤ 360000)
      × (neg_part d ≡ 0)
      × (pos_part raw ≡ round_div (pos_part d * 32767) 360000)
      × (neg_part raw ≡ 0)
unfolding degrees_to_position_raw ◌*ℤ◌
position-parts (pos n) raw h = ground (arith, round_div_zero 360000)
position-parts (negsuc n) raw h = ground (arith, round_div_zero 360000)

-- An angle of 0 to 360° becomes a raw position of 0 to 32767, at most half a raw unit away from the
-- exact one.
pub degrees_to_position_raw_near :
    (d raw : ℤ)
    → degrees_to_position_raw d ≡ ok raw
    → (pos_part raw ≤ 32767)
      × (neg_part raw ≡ 0)
      × (2 * (360000 * pos_part raw) ≤ 2 * (32767 * pos_part d) + 360000)
      × (2 * (32767 * pos_part d) ≤ 2 * (360000 * pos_part raw) + 360000)
degrees_to_position_raw_near d raw h =
    let (below, positive, e, f) = position-parts d raw h in
    omega (arith, e, f, round_div_near (pos_part d * 32767) 360000 (omega arith))
