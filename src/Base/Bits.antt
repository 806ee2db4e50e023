-- ===== src/Base/Bits.antt =====
-- Laws of `^` on numbers at variables, from the recursion on binary digits.
use Prim.Native.Nat.{
  ℕ, zero, suc, ◌+◌, ◌*◌, ◌/◌, ◌%◌, ◌^◌, ◌≤◌, ◌<◌, bit_xor, digits, differ, bit_xor-bitwise,
}
use mathlib.Core.Path.{◌≡◌, refl, sym, ap, ◌∙◌}
use native.Mathlib.Omega.{arith}
use native.Mathlib.Nat.{pow-suc, mod-one}

abbrev xor_digits : ℕ → ℕ → ℕ → ℕ
xor_digits n a b = digits (λ b. b) differ n a b

xor_digits_fuel : (n m a b : ℕ) → a ≤ n → a ≤ m → xor_digits n a b ≡ xor_digits m a b
xor_digits_fuel zero zero a b p q = refl
xor_digits_fuel zero (suc m) zero b p q = refl
xor_digits_fuel zero (suc m) (suc a) b p q = absurd (omega arith)
xor_digits_fuel (suc n) zero zero b p q = refl
xor_digits_fuel (suc n) zero (suc a) b p q = absurd (omega arith)
xor_digits_fuel (suc n) (suc m) zero b p q = refl
xor_digits_fuel (suc n) (suc m) (suc a) b p q =
    omega (arith, xor_digits_fuel n m (suc a / 2) (b / 2) (omega arith) (omega arith))

pub zero-bit_xor : (b : ℕ) → bit_xor 0 b ≡ b
zero-bit_xor b = bit_xor-bitwise 0 b

differ_lem : (x y : ℕ) → x < 2 → y < 2 → differ x y ≡ (x + y) % 2
differ_lem zero y p q = omega arith
differ_lem (suc zero) zero p q = refl
differ_lem (suc zero) (suc zero) p q = refl
differ_lem (suc zero) (suc (suc y)) p q = absurd (omega arith)
differ_lem (suc (suc x)) y p q = absurd (omega arith)

-- The lowest digits are added without a carry, and the others go on by themselves.
pub bit_xor_step : (a b : ℕ) → bit_xor a b ≡ bit_xor (a / 2) (b / 2) * 2 + (a % 2 + b % 2) % 2
bit_xor_step zero b = omega (arith, zero-bit_xor b, zero-bit_xor (b / 2))
bit_xor_step (suc a) b = omega (
  arith,
  bit_xor-bitwise (suc a) b,
  bit_xor-bitwise (suc a / 2) (b / 2),
  xor_digits_fuel a (suc a / 2) (suc a / 2) (b / 2) (omega arith) (omega arith),
  differ_lem (suc a % 2) (b % 2) (omega arith) (omega arith),
)

pub bit_xor_bound : (k a b : ℕ) → a < 2 ^ k → b < 2 ^ k → bit_xor a b < 2 ^ k
bit_xor_bound zero a b p q =
    let a0 : a ≡ 0 = omega arith in let b0 : b ≡ 0 = omega arith in rw (a0, b0) (omega arith)
bit_xor_bound (suc k) a b p q = omega (
  arith,
  pow-suc 2 k,
  bit_xor_step a b,
  bit_xor_bound k (a / 2) (b / 2) (omega (arith, pow-suc 2 k)) (omega (arith, pow-suc 2 k)),
)

xor-cancel_fuel : (n a k : ℕ) → a ≤ n → k ≤ n → bit_xor (bit_xor a k) k ≡ a
xor-cancel_fuel zero zero zero p q = refl
xor-cancel_fuel zero zero (suc k) p q = absurd (omega arith)
xor-cancel_fuel zero (suc a) k p q = absurd (omega arith)
xor-cancel_fuel (suc n) a k p q =
    let high : bit_xor a k / 2 ≡ bit_xor (a / 2) (k / 2) = omega (arith, bit_xor_step a k) in
    rw bit_xor_step (
      rw high (
        rw (xor-cancel_fuel n (a / 2) (k / 2) (omega arith) (omega arith))
          (omega (arith, bit_xor_step a k))))

-- The same exclusive or twice changes nothing.
pub xor-cancel : (a k : ℕ) → bit_xor (bit_xor a k) k ≡ a
xor-cancel a k = xor-cancel_fuel (a + k) a k (omega arith) (omega arith)

-- So it is injective.
pub xor-injective : (a b k : ℕ) → bit_xor a k ≡ bit_xor b k → a ≡ b
xor-injective a b k h = sym (xor-cancel a k) ∙ ap (λ t. bit_xor t k) h ∙ xor-cancel b k

xor_comm_fuel : (n a b : ℕ) → a ≤ n → b ≤ n → bit_xor a b ≡ bit_xor b a
xor_comm_fuel zero zero zero p q = refl
xor_comm_fuel zero zero (suc b) p q = absurd (omega arith)
xor_comm_fuel zero (suc a) b p q = absurd (omega arith)
xor_comm_fuel (suc n) a b p q = omega (
  arith,
  bit_xor_step a b,
  bit_xor_step b a,
  xor_comm_fuel n (a / 2) (b / 2) (omega arith) (omega arith),
)

pub xor_comm : (a b : ℕ) → bit_xor a b ≡ bit_xor b a
xor_comm a b = xor_comm_fuel (a + b) a b (omega arith) (omega arith)

half_mod : (a m : ℕ) → 0 < m → a % (2 * m) ≡ 2 * (a / 2 % m) + a % 2
half_mod a m h = grind arith

half_mod_parts : (a m : ℕ) → 0 < m → (a % (2 * m) / 2 ≡ a / 2 % m) × (a % (2 * m) % 2 ≡ a % 2)
half_mod_parts a m h = rw half_mod (omega arith, omega arith)

xor-mod_double :
    (m a b : ℕ)
    → 0 < m
    → bit_xor (a / 2) (b / 2) % m ≡ bit_xor (a / 2 % m) (b / 2 % m)
    → bit_xor a b % (2 * m) ≡ bit_xor (a % (2 * m)) (b % (2 * m))
xor-mod_double m a b h ih =
    let (a_high, a_low) = half_mod_parts a m h in
    let (b_high, b_low) = half_mod_parts b m h in
    let whole : bit_xor a b / 2 ≡ bit_xor (a / 2) (b / 2) = omega (arith, bit_xor_step a b) in
    let low : bit_xor a b % 2 ≡ (a % 2 + b % 2) % 2 = omega (arith, bit_xor_step a b) in
    half_mod (bit_xor a b) m h
    ∙ rw (whole, low, ih)
        (sym (
          bit_xor_step (a % (2 * m)) (b % (2 * m))
          ∙ rw (a_high, a_low, b_high, b_low) (omega arith)))

pow-pos : (k : ℕ) → 0 < 2 ^ k
pow-pos zero = omega arith
pow-pos (suc k) = omega (arith, pow-suc 2 k, pow-pos k)

-- The low digits of an exclusive or are that of the low digits.
pub xor-mod : (k a b : ℕ) → bit_xor a b % 2 ^ k ≡ bit_xor (a % 2 ^ k) (b % 2 ^ k)
xor-mod zero a b = simp mod-one
xor-mod (suc k) a b =
    let double : 2 ^ suc k ≡ 2 * 2 ^ k = omega (arith, pow-suc 2 k) in
    rw double (xor-mod_double (2 ^ k) a b (pow-pos k) (xor-mod k (a / 2) (b / 2)))
