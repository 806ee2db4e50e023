-- ===== src/Tests/LocalMap.antt =====
-- The theorem on the cells of a map at a concrete image, and a run of the reader.
use navigation_robot.Base.{
  ℕ, ◌+◌, ◌-◌, ◌*◌, ◌≡◌, refl, arith, Option, none, some, List, [], ◌∷◌, get_or, ok, leb, ◌==◌,
  ◌&&◌, if◌then◌else◌,
}
use navigation_robot.Base.Int.{ℤ, pos, leb_ℤ}
use navigation_robot.LocalMap.{Thresholds, cell, convert, scan, pgm_token, raw_pixels, read_pgm}
use navigation_robot.LocalMap.Cells.{convert-cell}

-- Dark pixels are occupied, light ones are free.
abbrev shades : Thresholds
shades = record { occupied = λ p. leb_ℤ p (pos 80); free = λ p. leb_ℤ (pos 200) p }

-- Two rows of three pixels.
abbrev image : List ℤ
image = pos 0 ∷ pos 100 ∷ pos 255 ∷ pos 255 ∷ pos 0 ∷ pos 0 ∷ []

convert-cell_example :
    get_or (convert shades 3 2 image) (1 * 3 + 2) (cell shades (pos 0))
    ≡ cell shades (get_or image ((2 - 1 - 1) * 3 + 2) (pos 0))
convert-cell_example =
    convert-cell shades 3 2 1 2 image (pos 0) (omega arith) (omega arith) (omega arith)

-- `int` on tokens of one digit, and on "255".
abbrev digit_value : ℕ → List ℕ → Option ℤ
digit_value d [] = if leb 48 d then some (pos (d - 48)) else none
digit_value d (e ∷ rest) = if d == 50 && e == 53 then some (pos 255) else none

abbrev int : List ℕ → Option ℤ
int [] = none
int (d ∷ rest) = digit_value d rest

-- "P5", a comment, "2 1 255", and two bytes.
abbrev file : List ℕ
file = 80 ∷ 53 ∷ 10 ∷ 35 ∷ 32 ∷ 120 ∷ 10 ∷ 50 ∷ 32 ∷ 49 ∷ 10 ∷ 50 ∷ 53 ∷ 53 ∷ 10 ∷ 7 ∷ 200 ∷ []

read_file : read_pgm int file ≡ ok (2, 1, pos 7 ∷ pos 200 ∷ [])
unfolding read_pgm pgm_token scan raw_pixels
read_file = refl
