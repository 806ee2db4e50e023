-- ===== src/LocalMap.antt =====
-- navigation_robot_remote_control/local_map_publisher.py of navigation_robot_ros2: reading an 8-bit
-- PGM image, and its conversion to the cells of an occupancy grid.
pub mod Cells
use navigation_robot.Base.{
  ℕ, zero, suc, ◌+◌, ◌*◌, Bool, true, false, not, ◌&&◌, ◌||◌, Option, none, some, List, [], ◌∷◌,
  ◌++◌, length, take, drop, ltb, leb, ◌==◌, if◌then◌else◌, Result, ok, err, value_error, ◌>>=◌,
  guard, ◌>>◌,
}
use navigation_robot.Base.Int.{ℤ, pos, negsuc, leb_ℤ, pos_part, ◌*ℤ◌}
use navigation_robot.Base.Bytes.{starts_with}
use navigation_robot.Mapping.{round_div_ℤ}

-- `byte.isspace()`
abbrev pub is_space : ℕ → Bool
is_space byte = byte == 32 || (leb 9 byte && leb byte 13)

abbrev pub is_empty {ℓ} : {A : Type ℓ} → List A → Bool
is_empty [] = true
is_empty (_ ∷ _) = false

-- The loop of `_pgm_token`, with the token so far; `comment` tells that a line is skipped. What it
-- returns are the token and the rest of the stream.
unfoldable pub scan : Bool → List ℕ → List ℕ → List ℕ × List ℕ
scan comment token [] = (token, [])
scan true token (byte ∷ stream) =
    let ended = if is_empty token then scan false token stream else (token, stream) in
    if byte == 10 then ended else scan true token stream
scan false token (byte ∷ stream) =
    let spaced = if is_empty token then scan false token stream else (token, stream) in
    if byte == 35
    then scan true token stream
    else if is_space byte
    then spaced
    else scan false (token ++ (byte ∷ [])) stream

abbrev pub token_of : List ℕ × List ℕ → Result (List ℕ × List ℕ)
token_of ([], stream) = err value_error
token_of (byte ∷ token, stream) = ok (byte ∷ token, stream)

unfoldable pub pgm_token : List ℕ → Result (List ℕ × List ℕ)
unfolding scan
pgm_token stream = token_of (scan false [] stream)

-- `int` on the bytes of a token is a parameter: `none` where it raises its `ValueError`.
module _ (int : List ℕ → Option ℤ) where
  abbrev pub int_or : Option ℤ → Result ℤ
  int_or none = err value_error
  int_or (some n) = ok n

  abbrev pub int_token : List ℕ → Result (ℤ × List ℕ)
  int_token stream = do (token, rest) ← pgm_token stream; n ← int_or (int token); ok (n, rest)

  -- The pixels of a "P2" image.
  unfoldable pub plain_pixels : ℕ → List ℕ → Result (List ℤ)
  plain_pixels zero stream = ok []
  plain_pixels (suc count) stream = do
    (pixel, rest) ← int_token stream
    pixels ← plain_pixels count rest
    ok (pixel ∷ pixels)

  unfoldable pub raw_pixels : List ℕ → List ℤ
  raw_pixels [] = []
  raw_pixels (byte ∷ bytes) = pos byte ∷ raw_pixels bytes

  abbrev pub is_magic : ℕ → List ℕ → Bool
  is_magic digit magic = length magic == 2 && starts_with (80 ∷ digit ∷ []) magic

  abbrev pub read_pixels : List ℕ → ℕ → List ℕ → Result (List ℤ)
  read_pixels magic count stream =
      if is_magic 53 magic
      then ok (raw_pixels (take count stream))
      else if is_magic 50 magic
      then plain_pixels count stream
      else err value_error

  unfoldable pub scale : ℕ → List ℤ → List ℤ
  unfolding round_div_ℤ ◌*ℤ◌
  scale maximum [] = []
  scale maximum (pixel ∷ pixels) = round_div_ℤ (pixel *ℤ pos 255) maximum ∷ scale maximum pixels

  abbrev pub is_positive : ℤ → Bool
  is_positive n = leb_ℤ (pos 1) n

  -- `read_pgm`, from the bytes of the file: the width, the height and the pixels.
  unfoldable pub read_pgm : List ℕ → Result (ℕ × ℕ × List ℤ)
  unfolding pgm_token plain_pixels raw_pixels scale
  read_pgm stream = do
    (magic, s) ← pgm_token stream
    (width, t) ← int_token s
    (height, u) ← int_token t
    (maximum, v) ← int_token u
    guard
        (is_positive width
          && (is_positive height && (is_positive maximum && leb_ℤ maximum (pos 255))))
        value_error
    let count = pos_part width * pos_part height
    pixels ← read_pixels magic count v
    guard (length pixels == count) value_error
    let scaled = if pos_part maximum == 255 then pixels else scale (pos_part maximum) pixels
    ok (pos_part width, pos_part height, scaled)

-- The comparisons of the floats for a pixel, with the thresholds and `negate` of the map: whether
-- its occupancy is above the one, and below the other.
pub record Thresholds : Type 0 where
  pub occupied : ℤ → Bool
  pub free : ℤ → Bool

module _ (t : Thresholds) where
  abbrev pub cell : ℤ → ℤ
  cell pixel = if t.occupied pixel then pos 100 else if t.free pixel then pos 0 else negsuc 0

  unfoldable pub cells : List ℤ → List ℤ
  cells [] = []
  cells (pixel ∷ pixels) = cell pixel ∷ cells pixels

  -- The rows of the image from the given number of them downwards: the last row comes first.
  unfoldable pub convert : ℕ → ℕ → List ℤ → List ℤ
  unfolding cells
  convert width zero pixels = []
  convert width (suc image_y) pixels =
      cells (take width (drop (image_y * width) pixels)) ++ convert width image_y pixels
