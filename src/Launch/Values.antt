-- ===== src/Launch/Values.antt =====
-- robot.launch.py of navigation_robot_ros2: the values of the configuration, the actions of a launch,
-- and the small functions of the file. What Python, the file system and the packages of ROS 2 answer
-- is a parameter.
use navigation_robot.Base.{
  ℕ, Bool, true, false, not, ◌&&◌, ◌||◌, Option, none, some, List, [], ◌∷◌, ◌++◌, leb, ◌==◌,
  if◌then◌else◌, Result, ok, err, value_error, type_error, key_error, ◌>>=◌,
}
use navigation_robot.Base.Int.{ℤ, pos, eq_ℤ}
use navigation_robot.Base.Texts.{codes, eq_text, lower}

-- A value of the configuration, as `yaml.safe_load` builds it.
mutual
  pub data Value : Type 0 where
    null : Value
    flag : Bool → Value
    whole real : ℤ → Value
    text : List ℕ → Value
    list : Values → Value

  pub data Values : Type 0 where
    no_value : Values
    with_value : Value → Values → Values

-- A dictionary of the configuration.
abbrev pub Section : Type 0
Section = List (List ℕ × Value)

pub record Config : Type 0 where
  pub system : Section
  pub geometry : Section
  pub base : Section
  pub lidar : Section
  pub camera : Section
  pub navigation : Section

abbrev find_value : List ℕ → Section → Option Value
find_value key [] = none
find_value key ((name, value) ∷ section') =
    if eq_text name key then some value else find_value key section'

-- `section[key]`
unfoldable pub item : Section → List ℕ → Result Value
item section' key = elim (find_value key section') [ none ↦ err key_error | some value ↦ ok value ]

-- `section.get(key, default)`
unfoldable pub get : Section → List ℕ → Value → Value
get section' key default' = elim (find_value key section') [ none ↦ default' | some value ↦ value ]

-- What the file needs of its surroundings: `float`, `int` and `str` on a value, `Path.expanduser`,
-- `Path.is_file`, `os.path.join`, `get_package_share_directory`, and the configuration in the file.
pub record Outside : Type 0 where
  pub float : Value → Result ℤ
  pub int : Value → Result ℤ
  pub str : Value → List ℕ
  pub expanduser : List ℕ → List ℕ
  pub is_file : List ℕ → Bool
  pub join : List ℕ → List ℕ → List ℕ
  pub share : List ℕ → Result (List ℕ)
  pub load : List ℕ → Result Config

-- Why a launch shuts down.
pub data Reason : Type 0 where
  missing_config invalid_mode motion_lock missing_map : Reason

pub data Kind : Type 0 where
  lidar_node ekf_node base_node : Kind

-- An action of the launch: a text for the log, a shutdown, a launch file that is included with its
-- arguments, a node with its parameters, and the transitions of the base driver.
pub data Action : Type 0 where
  log_info : Action
  shutdown : Reason → Action
  include : List ℕ → List (List ℕ × Value) → Action
  node : Kind → List (List ℕ × Value) → Action
  activate_base configure_base : Action

-- The white space that `str.strip` takes away.
abbrev pub is_blank : ℕ → Bool
is_blank c = c == 32 || (leb 9 c && leb c 13) || (leb 28 c && leb c 31)

abbrev pub strip_left : List ℕ → List ℕ
strip_left [] = []
strip_left (c ∷ s) = if is_blank c then strip_left s else c ∷ s

abbrev pub strip_right : List ℕ → List ℕ
strip_right [] = []
strip_right (c ∷ s) =
    let rest = strip_right s in if is_blank c && eq_text rest [] then [] else c ∷ rest

abbrev pub strip : List ℕ → List ℕ
strip s = strip_right (strip_left s)

abbrev pub is_one_of : List (List ℕ) → List ℕ → Bool
is_one_of [] s = false
is_one_of (name ∷ names) s = eq_text s name || is_one_of names s

abbrev pub says_yes : List ℕ → Bool
says_yes s = is_one_of (codes "1" ∷ codes "true" ∷ codes "yes" ∷ codes "on" ∷ []) (lower (strip s))

-- `_as_bool`
unfoldable pub as_bool : Outside → Value → Bool
as_bool o (flag b) = b
as_bool o null = says_yes (o.str null)
as_bool o (whole n) = says_yes (o.str (whole n))
as_bool o (real n) = says_yes (o.str (real n))
as_bool o (text s) = says_yes (o.str (text s))
as_bool o (list values) = says_yes (o.str (list values))

-- The truth of a value in a condition.
abbrev pub is_true : Value → Bool
is_true null = false
is_true (flag b) = b
is_true (whole n) = not (eq_ℤ n (pos 0))
is_true (real n) = not (eq_ℤ n (pos 0))
is_true (text []) = false
is_true (text (_ ∷ _)) = true
is_true (list no_value) = false
is_true (list (with_value _ _)) = true

-- `Path` takes texts only.
abbrev pub path : Value → Result (List ℕ)
path (text s) = ok s
path _ = err type_error

abbrev pub three : Value → Result (Value × Value × Value)
three (list (with_value x (with_value y (with_value z no_value)))) = ok (x, y, z)
three _ = err value_error

-- `_pose_arguments`
unfoldable pub pose_arguments : Outside → List ℕ → Value → Value → Result (List (List ℕ × Value))
pose_arguments o prefix xyz rpy = do
  at ← three xyz
  turned ← three rpy
  x ← o.float at.0
  y ← o.float at.1
  z ← o.float at.2
  roll ← o.float turned.0
  pitch ← o.float turned.1
  yaw ← o.float turned.2
  ok (
      (prefix ++ codes "_x", real x)
      ∷ (prefix ++ codes "_y", real y)
      ∷ (prefix ++ codes "_z", real z)
      ∷ (prefix ++ codes "_roll", real roll)
      ∷ (prefix ++ codes "_pitch", real pitch)
      ∷ (prefix ++ codes "_yaw", real yaw)
      ∷ [])

-- `_advanced_file`
unfoldable pub advanced_file : Outside → Value → List ℕ → Result (List ℕ)
advanced_file o configured default_name =
    if is_true configured
    then (path configured >>= λ name. ok (o.expanduser name))
    else (o.share (codes "navigation_robot_navigation") >>= λ share.
        ok (o.join (o.join share (codes "config")) default_name))
