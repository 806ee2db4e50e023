-- ===== src/Teleop/Keys.antt =====
-- keyboard_teleop.py of navigation_robot_ros2: keys as texts, the command of a key, and the key that
-- `read_key` takes from the terminal. A speed is a whole number of hundredths of the unit of the
-- maximum, as the factor of a gear is a whole percentage.
use navigation_robot.Base.{
  ℕ, ◌*◌, ◌-◌, Bool, ◌&&◌, Option, none, some, List, [], ◌∷◌, ◌++◌, length, get_or, ltb, leb,
  if◌then◌else◌,
}
use navigation_robot.Base.Int.{ℤ, pos, negsuc, ◌*ℤ◌}
use navigation_robot.Base.Texts.{codes, eq_text, lower}

abbrev pub gear_factors : List ℕ
gear_factors = 20 ∷ 40 ∷ 60 ∷ 80 ∷ 100 ∷ []

abbrev pub escape : ℕ
escape = 27

-- `ARROW_KEYS.get`
unfoldable pub arrow_key : List ℕ → Option (List ℕ)
arrow_key raw =
    if eq_text raw (escape ∷ codes "[A")
    then some (codes "w")
    else if eq_text raw (escape ∷ codes "[B")
    then some (codes "s")
    else if eq_text raw (escape ∷ codes "[D")
    then some (codes "a")
    else if eq_text raw (escape ∷ codes "[C")
    then some (codes "d")
    else none

abbrev pub lower_unless : Option (List ℕ) → List ℕ → List ℕ
lower_unless (some key) raw = key
lower_unless none raw = lower raw

unfoldable pub normalize_key : List ℕ → List ℕ
unfolding arrow_key
normalize_key raw = lower_unless (arrow_key raw) raw

-- `MOTION_KEYS.get`: the signs of the linear and of the angular speed.
unfoldable pub motion_key : List ℕ → Option (ℤ × ℤ)
motion_key key =
    if eq_text key (codes "w")
    then some (pos 1, pos 0)
    else if eq_text key (codes "s")
    then some (negsuc 0, pos 0)
    else if eq_text key (codes "a")
    then some (pos 0, pos 1)
    else if eq_text key (codes "d")
    then some (pos 0, negsuc 0)
    else none

abbrev pub is_gear : ℕ → Bool
is_gear gear = leb 1 gear && leb gear (length gear_factors)

abbrev pub scaled : ℤ × ℤ → ℕ → ℕ → ℕ → ℤ × ℤ
scaled (linear, angular) max_linear max_angular factor =
    (linear *ℤ pos (max_linear * factor), angular *ℤ pos (max_angular * factor))

abbrev pub command_of : Option (ℤ × ℤ) → ℕ → ℕ → ℕ → Option (ℤ × ℤ)
command_of none gear max_linear max_angular = none
command_of (some direction) gear max_linear max_angular =
    if is_gear gear
    then some (scaled direction max_linear max_angular (get_or gear_factors (gear - 1) 0))
    else none

unfoldable pub command_for_key : List ℕ → ℕ → ℕ → ℕ → Option (ℤ × ℤ)
unfolding normalize_key motion_key
command_for_key key gear max_linear_speed max_angular_speed =
    command_of (motion_key (normalize_key key)) gear max_linear_speed max_angular_speed

-- What `select` and `os.read` answer: nothing to read, the end of the input, or one byte.
pub data Answer : Type 0 where
  silent ended : Answer
  byte : ℕ → Answer

-- `os.read(file_descriptor, 1).decode(errors='ignore')`: a byte that is no ASCII is dropped.
abbrev pub decoded : ℕ → List ℕ
decoded c = if ltb c 128 then c ∷ [] else []

-- The loop that reads what follows an escape, on the answers that remain.
abbrev pub read_more : List ℕ → List Answer → List ℕ
read_more sequence [] = sequence
read_more sequence (silent ∷ answers) = sequence
read_more sequence (ended ∷ answers) = read_more sequence answers
read_more sequence (byte c ∷ answers) = read_more (sequence ++ decoded c) answers

abbrev pub read_first : List ℕ → List Answer → List ℕ
read_first first answers = if eq_text first (escape ∷ []) then read_more first answers else first

-- `read_key`, with the answers to its first question and to the two that may follow.
unfoldable pub read_key : Answer → Answer → Answer → List ℕ
read_key silent second third = []
read_key ended second third = []
read_key (byte c) second third = read_first (decoded c) (second ∷ third ∷ [])
