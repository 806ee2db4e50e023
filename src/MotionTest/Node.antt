-- ===== src/MotionTest/Node.antt =====
-- test_real_base_motion.py of navigation_robot_ros2: the node `MotionTest` with its callbacks and its
-- loops. What the test meets is a list of passes, one for each reading of the clock or pass of a loop,
-- and a list of the answers of the brake service. The user interrupts the test where a pass is `none`,
-- and where either list ends, and while it asks for the brake.
use navigation_robot.Base.{
  ℕ, ◌+◌, ◌*◌, Bool, true, false, not, ◌&&◌, Option, none, some, List, [], ◌∷◌, ◌++◌, ltb, leb,
  if◌then◌else◌,
}
use navigation_robot.Base.Int.{ℤ, pos, negsuc, eq_ℤ}
use navigation_robot.Base.Texts.{codes, eq_text}
use navigation_robot.Teleop.Node.{Level, level_bytes, level_int}
use navigation_robot.MotionTest.Samples.{Sample}

-- The value of a status under a key: there is none, `int` makes a number of its text, or it refuses it.
pub data Count : Type 0 where
  absent refused : Count
  number : ℤ → Count

pub record Report : Type 0 where
  pub name : List ℕ
  pub level : Level
  pub message : List ℕ
  pub ack_errors : Count
  pub host_crc_errors : Count

-- What `spin_once` delivers.
pub data Delivery : Type 0 where
  nothing : Delivery
  joint_state : List ℤ → Delivery
  diagnostics : List Report → Delivery

-- A pass of a loop: the moment of its test, from which the loops that publish also read whether a
-- message is due, that of its callback, and that after it.
pub record Pass : Type 0 where
  pub now : ℕ
  pub delivery : Delivery
  pub heard : ℕ
  pub later : ℕ

-- The brake service: it is not found, or the user interrupts the search; or it does not answer in time,
-- or the user interrupts the wait, or it answers, after what the node heard in the meantime.
pub data Service : Type 0 where
  missing cancelled : Service
  silent aborted : List (Delivery × ℕ) → Service
  answers : List (Delivery × ℕ) → Bool → Service

-- What the test does to the base: it publishes a linear and an angular speed, it looks for the brake
-- service in vain, or it calls that service.
pub data Deed : Type 0 where
  published : ℤ × ℤ → Deed
  sought braked : Deed

pub record MotionTest : Type 0 where
  pub ready : Bool
  pub last_joint_time : ℕ
  pub last_velocity : ℤ × ℤ
  pub ack_errors : Option ℤ
  pub crc_errors : Option ℤ
  pub samples : List Sample
  pub deeds : List Deed
  pub passes : List (Option Pass)
  pub services : List Service

-- `__init__`, with what the test will meet.
unfoldable pub new_test : List (Option Pass) → List Service → MotionTest
new_test passes services = record {
  ready = false;
  last_joint_time = 0;
  last_velocity = (pos 0, pos 0);
  ack_errors = none;
  crc_errors = none;
  samples = [];
  deeds = [];
  passes = passes;
  services = services;
}

-- `int.from_bytes(value, byteorder="little")` on bytes.
abbrev pub from_bytes : List ℕ → ℕ
from_bytes [] = 0
from_bytes (b ∷ bytes) = b + 256 * from_bytes bytes

unfoldable pub diagnostic_level : Level → ℤ
diagnostic_level (level_bytes bytes) = pos (from_bytes bytes)
diagnostic_level (level_int n) = n

unfoldable pub on_joint_state : ℕ → List ℤ → MotionTest → MotionTest
on_joint_state now (left ∷ right ∷ _) t = record t {
  last_joint_time = now;
  last_velocity = (left, right);
  samples = t.samples ++ (record { time = now; left = left; right = right } ∷ []);
}
on_joint_state now _ t = t

-- How a part of the test ends: with a value, with a `RuntimeError`, with a `KeyboardInterrupt`, or with
-- the `ValueError` of `int`.
pub data Outcome (A : Type 0) : Type 0 where
  done : A → Outcome A
  failed : Outcome A
  interrupted : Outcome A
  crashed : Outcome A

abbrev pub Stage : Type 0 → Type 0
Stage A = MotionTest → Outcome A × MotionTest

infixl 5 ◌>>=◌ ◌>>◌
abbrev pub go_on : {A B : Type 0} → (A → Stage B) → Outcome A × MotionTest → Outcome B × MotionTest
go_on next (done x, t) = next x t
go_on next (failed, t) = (failed, t)
go_on next (interrupted, t) = (interrupted, t)
go_on next (crashed, t) = (crashed, t)

abbrev pub ◌>>=◌ : {A B : Type 0} → Stage A → (A → Stage B) → Stage B
◌>>=◌ stage next t = go_on next (stage t)

abbrev pub ◌>>◌ : {A B : Type 0} → Stage A → Stage B → Stage B
stage >> next = stage >>= λ _. next

abbrev pub pure : {A : Type 0} → A → Stage A
pure x t = (done x, t)

abbrev pub fail : {A : Type 0} → Stage A
fail t = (failed, t)

abbrev pub do_deed : Deed → MotionTest → MotionTest
do_deed deed t = record t { deeds = t.deeds ++ (deed ∷ []) }

-- `int(values.get(key, "-1"))`
abbrev pub count_of : Count → Option ℤ
count_of absent = some (negsuc 0)
count_of (number n) = some n
count_of refused = none

abbrev pub keep_count : (ℤ → MotionTest → MotionTest) → Option ℤ → Stage (Unit {0})
keep_count keep none t = (crashed, t)
keep_count keep (some n) t = (done tt, keep n t)

abbrev pub set_ack_errors : ℤ → MotionTest → MotionTest
set_ack_errors n t = record t { ack_errors = some n }

abbrev pub set_crc_errors : ℤ → MotionTest → MotionTest
set_crc_errors n t = record t { crc_errors = some n }

abbrev pub is_ready : Report → Bool
is_ready status =
    eq_ℤ (diagnostic_level status.level) (pos 0) && eq_text status.message (codes "ready")

unfoldable pub note : Report → Stage (Unit {0})
note status t =
    (keep_count set_ack_errors (count_of status.ack_errors)
        >> keep_count set_crc_errors (count_of status.host_crc_errors))
      (record t { ready = is_ready status })

abbrev pub is_own : Report → Bool
is_own status = eq_text status.name (codes "navigation_robot/base_driver")

-- Each status of the base driver is taken; the last one stays.
unfoldable pub on_diagnostics : List Report → Stage (Unit {0})
unfolding note
on_diagnostics [] t = (done tt, t)
on_diagnostics (status ∷ array) t =
    go_on (λ _. on_diagnostics array) (if is_own status then note status t else (done tt, t))

unfoldable pub deliver : Delivery → ℕ → Stage (Unit {0})
unfolding on_joint_state on_diagnostics
deliver nothing now t = (done tt, t)
deliver (joint_state velocity) now t = (done tt, on_joint_state now velocity t)
deliver (diagnostics array) now t = on_diagnostics array t

unfoldable pub deliver_all : List (Delivery × ℕ) → Stage (Unit {0})
unfolding deliver
deliver_all [] t = (done tt, t)
deliver_all ((delivery, now) ∷ heard) t = go_on (λ _. deliver_all heard) (deliver delivery now t)

-- `time.monotonic()` where a deadline is set.
abbrev pub clock_by : List (Option Pass) → Stage ℕ
clock_by [] t = (interrupted, t)
clock_by (none ∷ passes) t = (interrupted, record t { passes = passes })
clock_by (some pass ∷ passes) t = (done pass.now, record t { passes = passes })

unfoldable pub clock : Stage ℕ
clock t = clock_by t.passes t

-- A loop leaves where its test holds, and goes on where it does not.
abbrev pub unless_left : Bool → Stage Bool → Stage Bool
unless_left test rest t = let after = rest t in if test then (done true, t) else after

-- A loop that spins until its deadline, or until a test holds after a pass; it tells which.
unfoldable pub watch_by : ℕ → (ℕ → MotionTest → Bool) → List (Option Pass) → Stage Bool
unfolding deliver
watch_by deadline leave [] t = (interrupted, record t { passes = [] })
watch_by deadline leave (none ∷ passes) t = (interrupted, record t { passes = passes })
watch_by deadline leave (some pass ∷ passes) t =
    let here : MotionTest = record t { passes = passes } in
    let rest =
      go_on (λ _ u. unless_left (leave pass.later u) (watch_by deadline leave passes) u)
        (deliver pass.delivery pass.heard here) in
    if not (ltb pass.now deadline) then (done false, here) else rest

unfoldable pub watch : ℕ → (ℕ → MotionTest → Bool) → Stage Bool
unfolding watch_by
watch deadline leave t = watch_by deadline leave t.passes t

-- A loop that publishes a command every 50 ms until its deadline, and spins.
unfoldable pub drive_by : ℤ × ℤ → ℕ → ℕ → List (Option Pass) → Stage (Unit {0})
unfolding deliver
drive_by command deadline next_publish [] t = (interrupted, record t { passes = [] })
drive_by command deadline next_publish (none ∷ passes) t =
    (interrupted, record t { passes = passes })
drive_by command deadline next_publish (some pass ∷ passes) t =
    let here : MotionTest = record t { passes = passes } in
    let due = leb next_publish pass.now in
    let sent = if due then do_deed (published command) here else here in
    let next = if due then next_publish + 50000 else next_publish in
    let rest =
      go_on (λ _. drive_by command deadline next passes) (deliver pass.delivery pass.heard sent) in
    if not (ltb pass.now deadline) then (done tt, here) else rest

unfoldable pub drive : ℤ × ℤ → ℕ → ℕ → Stage (Unit {0})
unfolding drive_by
drive command deadline next_publish t = drive_by command deadline next_publish t.passes t
