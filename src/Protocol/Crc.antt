-- ===== src/Protocol/Crc.antt =====
-- What CRC16 guarantees: its range, and the detection of every error within one byte.
use navigation_robot.Base.{
  ℕ, zero, suc, ◌*◌, ◌/◌, ◌%◌, ◌<◌, ◌≡◌, ◌≢◌, refl, sym, ◌∙◌, List, [], ◌∷◌, ◌++◌, arith, All,
}
use navigation_robot.Base.Bytes.{IsByte}
use navigation_robot.Base.Bits.{bit_xor_step, bit_xor_bound, xor-injective, xor_comm, xor-mod}
use navigation_robot.Protocol.{crc_round, crc_rounds, crc_byte, crc_from, crc16_ccitt_false}
use Prim.Native.Nat.{bit_xor}

abbrev pub IsU16 : ℕ → Type 0
IsU16 n = n < 65536

crc_round-IsU16 : (crc : ℕ) → IsU16 (crc_round crc)
unfolding crc_round
crc_round-IsU16 crc = ground arith

crc_rounds-IsU16 : (n crc : ℕ) → IsU16 crc → IsU16 (crc_rounds n crc)
unfolding crc_rounds
crc_rounds-IsU16 zero crc h = h
crc_rounds-IsU16 (suc n) crc h = crc_rounds-IsU16 n (crc_round crc) (crc_round-IsU16 crc)

xor_byte-IsU16 : (crc byte : ℕ) → IsU16 crc → IsByte byte → IsU16 (bit_xor crc (byte * 256))
xor_byte-IsU16 crc byte h k = bit_xor_bound 16 crc (byte * 256) h (omega arith)

crc_byte-IsU16 : (crc byte : ℕ) → IsU16 crc → IsByte byte → IsU16 (crc_byte crc byte)
unfolding crc_byte
crc_byte-IsU16 crc byte h k = crc_rounds-IsU16 8 _ (xor_byte-IsU16 crc byte h k)

pub crc_from-IsU16 :
    (crc : ℕ) (bytes : List ℕ) → IsU16 crc → All IsByte bytes → IsU16 (crc_from crc bytes)
unfolding crc_from
crc_from-IsU16 crc [] h k = h
crc_from-IsU16 crc (byte ∷ bytes) h (kb, ks) =
    crc_from-IsU16 (crc_byte crc byte) bytes (crc_byte-IsU16 crc byte h kb) ks

-- The CRC of bytes fits the 16 bits that the frame has for it.
pub crc16-IsU16 : (bytes : List ℕ) → All IsByte bytes → IsU16 (crc16_ccitt_false bytes)
unfolding crc16_ccitt_false
crc16-IsU16 bytes h = crc_from-IsU16 0xFFFF bytes (omega arith) h

crc_round_low : (crc : ℕ) → crc_round crc % 2 ≡ crc / 32768 % 2
unfolding crc_round
crc_round_low crc = ground (arith, bit_xor_step (crc * 2) 0x1021)

-- The polynomial is odd, so the lowest digit of the result is the digit that was shifted out.
xor_shift_injective :
    (a b : ℕ)
    → bit_xor (a * 2) 0x1021 % 65536 ≡ bit_xor (b * 2) 0x1021 % 65536
    → a * 2 % 65536 ≡ b * 2 % 65536
xor_shift_injective a b e =
    xor-injective (a * 2 % 65536) (b * 2 % 65536) 0x1021
      (sym (xor-mod 16 (a * 2) 0x1021) ∙ e ∙ xor-mod 16 (b * 2) 0x1021)

crc_round-injective : (a b : ℕ) → IsU16 a → IsU16 b → crc_round a ≡ crc_round b → a ≡ b
unfolding crc_round
crc_round-injective a b ha hb e =
    ground (arith, crc_round_low a, crc_round_low b, xor_shift_injective a b)

crc_rounds-injective : (n a b : ℕ) → IsU16 a → IsU16 b → crc_rounds n a ≡ crc_rounds n b → a ≡ b
unfolding crc_rounds
crc_rounds-injective zero a b ha hb e = e
crc_rounds-injective (suc n) a b ha hb e =
    crc_round-injective a b ha hb
      (crc_rounds-injective n _ _ (crc_round-IsU16 a) (crc_round-IsU16 b) e)

-- One byte into two registers, and two bytes into one register.
crc_byte-injective :
    (a b byte : ℕ) → IsU16 a → IsU16 b → IsByte byte → crc_byte a byte ≡ crc_byte b byte → a ≡ b
unfolding crc_byte
crc_byte-injective a b byte ha hb h e =
    xor-injective a b (byte * 256)
      (crc_rounds-injective 8 _ _ (xor_byte-IsU16 a byte ha h) (xor_byte-IsU16 b byte hb h) e)

crc_byte-injective_byte :
    (crc a b : ℕ) → IsU16 crc → IsByte a → IsByte b → crc_byte crc a ≡ crc_byte crc b → a ≡ b
unfolding crc_byte
crc_byte-injective_byte crc a b h ha hb e =
    let equal =
      crc_rounds-injective 8 _ _ (xor_byte-IsU16 crc a h ha) (xor_byte-IsU16 crc b h hb) e in
    let moved =
      xor-injective (a * 256) (b * 256) crc
        (xor_comm (a * 256) crc ∙ equal ∙ xor_comm crc (b * 256)) in
    omega (arith, moved)

crc_from-injective :
    (a b : ℕ) (bytes : List ℕ)
    → IsU16 a
    → IsU16 b
    → All IsByte bytes
    → crc_from a bytes ≡ crc_from b bytes
    → a ≡ b
unfolding crc_from
crc_from-injective a b [] ha hb h e = e
crc_from-injective a b (byte ∷ bytes) ha hb (hx, hs) e = crc_byte-injective a b byte ha hb hx (
    crc_from-injective (crc_byte a byte) (crc_byte b byte) bytes (crc_byte-IsU16 a byte ha hx)
      (crc_byte-IsU16 b byte hb hx) hs e)

crc_from-append :
    (crc : ℕ) (xs ys : List ℕ) → crc_from crc (xs ++ ys) ≡ crc_from (crc_from crc xs) ys
unfolding crc_from
crc_from-append crc [] ys = refl
crc_from-append crc (x ∷ xs) ys = crc_from-append (crc_byte crc x) xs ys

-- A frame body with one byte replaced by another never has the same CRC16, wherever that byte
-- stands and however long the body is; so every burst error within one byte is detected.
pub crc16_detects_byte :
    (before after : List ℕ) (a b : ℕ)
    → All IsByte before
    → All IsByte after
    → IsByte a
    → IsByte b
    → a ≢ b
    → crc16_ccitt_false (before ++ (a ∷ after)) ≢ crc16_ccitt_false (before ++ (b ∷ after))
unfolding crc16_ccitt_false
crc16_detects_byte before after a b h k ha hb differ e =
    let start = crc_from-IsU16 0xFFFF before (omega arith) h in
    let split =
      sym (crc_from-append 0xFFFF before (a ∷ after))
      ∙ e
      ∙ crc_from-append 0xFFFF before (b ∷ after) in
    differ (
      crc_byte-injective_byte _ a b start ha hb (
        crc_from-injective _ _ after (crc_byte-IsU16 _ a start ha) (crc_byte-IsU16 _ b start hb) k
          (unfold crc_from in split)))
