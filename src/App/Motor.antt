-- ===== src/App/Motor.antt =====
-- The control of a single motor: queries, modes, targets, and the maintenance of its number.
use navigation_robot.Base.{
  ℕ, ◌*◌, Bool, true, false, not, ◌&&◌, ◌||◌, Option, none, some, List, [], ◌∷◌, ◌++◌, ◌==◌,
  if◌then◌else◌, Result, ok, err, value_error, struct_error, key_error,
}
use navigation_robot.Base.Int.{ℤ, pos, negsuc, eq_ℤ, leb_ℤ, neg, pos_part}
use navigation_robot.Base.Bytes.{pack_i16, pack_u16}
use navigation_robot.Config.{
  max_rpm, m0601_brake_off, m0601_brake_on, m0601_mode_speed, m0601_mode_current,
  m0601_mode_position, set_id_confirm,
}
use navigation_robot.Protocol.{
  msg_query_motor, msg_query_unique_id, msg_set_id, msg_set_mode, msg_set_current, msg_set_position,
  msg_set_single_rpm, msg_stop, msg_control_keepalive,
}
use navigation_robot.Mapping.{current_ma_to_raw, degrees_to_position_raw, round_div_ℤ, is_mode}
use navigation_robot.Motion.{MotionCommand}
use navigation_robot.App.State.{
  App, Request, no_context, late_send, Action, raise, lift, ◌>>=◌, ◌>>◌, Done, modify, skip, after,
  checked_id, pack_byte,
}
use navigation_robot.App.Session.{send, cancel_motion_flow, is_some}
use navigation_robot.App.Driving.{queue_motion, resume_gate}

abbrev pub is_id : ℤ → Option ℤ → Bool
is_id value none = false
is_id value (some id) = eq_ℤ value id

-- `target != self.confirmed_id`, where both may be `None`.
abbrev pub differs : Result ℤ → Option ℤ → Bool
differs (err _) none = false
differs (err _) (some id) = true
differs (ok value) id = not (is_id value id)

abbrev pub unconfirm : App → App
unconfirm a = record a { confirmed_id = none; current_mode = none }

-- `_target_id_changed`, which runs whenever the field of the motor's number is written.
unfoldable pub target_id_changed : App → App
unfolding checked_id cancel_motion_flow
target_id_changed a =
    if differs (checked_id a.motor_id_text) a.confirmed_id
    then cancel_motion_flow (unconfirm a)
    else a

-- A write of that field, by the user or by `motor_id_var.set`.
unfoldable pub set_motor_id_text : Option ℤ → App → App
unfolding target_id_changed
set_motor_id_text value a = target_id_changed (record a { motor_id_text = value })

abbrev pub query : Result ℤ → Action Done
query (err e) = skip
query (ok value) = do
  modify unconfirm
  payload ← lift (pack_byte value)
  send msg_query_motor payload true (some (record no_context { id = some value }))
  skip

unfoldable pub query_target_motor : Action Done
unfolding send checked_id
query_target_motor a = if not a.link_ready then (ok tt, a) else query (checked_id a.motor_id_text) a

-- `_mode_selection_changed`: the target that the field starts from in each mode.
unfoldable pub mode_selection_changed : App → App
mode_selection_changed a =
    if is_mode a.mode_text m0601_mode_current || is_mode a.mode_text m0601_mode_position
    then record a { target = some (pos 0) }
    else record a { target = some (pos 30000) }

abbrev pub stop_payload : Bool → ℤ → Result (List ℕ)
stop_payload emergency id = elim (pack_byte id) [
  | err e ↦ err e
  | ok bytes ↦ ok (bytes ++ ((if emergency then m0601_brake_on else m0601_brake_off) ∷ []))
]

abbrev pub stop_by : Bool → Option ℤ → Action Done
stop_by emergency none = skip
stop_by emergency (some id) = do
  modify cancel_motion_flow
  payload ← lift (stop_payload emergency id)
  send msg_stop payload true none
  skip

unfoldable pub send_single_stop : Bool → Action Done
unfolding cancel_motion_flow send
send_single_stop emergency a =
    if not a.link_ready then (ok tt, a) else stop_by emergency a.confirmed_id a

abbrev pub joined : Result (List ℕ) → Result (List ℕ) → Result (List ℕ)
joined (err e) _ = err e
joined (ok a) (err e) = err e
joined (ok a) (ok b) = ok (a ++ b)

-- `struct.pack` of a "B" for each value.
unfoldable pub pack_bytes : List ℤ → Result (List ℕ)
pack_bytes [] = ok []
pack_bytes (value ∷ values) = joined (pack_byte value) (pack_bytes values)

-- `set_motor_mode`: stop, and set the mode 150 ms later.
abbrev pub switch_mode : Result ℤ → Option ℕ → Action Done
switch_mode (err e) mode = skip
switch_mode (ok value) none = skip
switch_mode (ok value) (some mode) = do
  modify cancel_motion_flow
  send_single_stop false
  modify (
      after (
        late_send msg_set_mode (pack_bytes (value ∷ pos mode ∷ []))
          (record no_context { id = some value; mode = some mode })))

unfoldable pub set_motor_mode : Action Done
unfolding send_single_stop checked_id after pack_bytes
set_motor_mode a =
    if not a.link_ready || not (is_some a.confirmed_id)
    then (ok tt, a)
    else switch_mode (checked_id a.motor_id_text) a.mode_text a

abbrev pub pack_pair : Result (List ℕ) → Result (List ℕ) → Result (List ℕ)
pack_pair (ok a) (ok b) = ok (a ++ (b ++ (0 ∷ m0601_brake_off ∷ [])))
pack_pair (err e) _ = err e
pack_pair (ok _) (err e) = err e

-- `pack("<BHBB", …)` of a position, which is never negative.
abbrev pub pack_position : ℤ → Result (List ℕ)
pack_position (pos n) = pack_u16 n
pack_position (negsuc n) = err struct_error

abbrev pub single_command : ℕ → ℤ → ℕ → ℤ → List ℕ → MotionCommand
single_command msg_type id mode target payload = record {
  msg_type = msg_type;
  payload = payload;
  signature = pos msg_type ∷ id ∷ target ∷ [];
  motor_id = pos_part id;
  mode = mode;
  active = mode == m0601_mode_position || not (eq_ℤ target (pos 0));
  keepalive_type = msg_control_keepalive;
  keepalive_payload = [];
}

abbrev pub commanded : ℕ → ℤ → ℕ → ℤ → Result (List ℕ) → Result MotionCommand
commanded msg_type id mode target (err e) = err e
commanded msg_type id mode target (ok payload) = ok (single_command msg_type id mode target payload)

abbrev pub with_raw : ℕ → ℤ → ℕ → (ℤ → Result (List ℕ)) → Result ℤ → Result MotionCommand
with_raw msg_type id mode pack (err e) = err e
with_raw msg_type id mode pack (ok target) =
    commanded msg_type id mode target (pack_pair (pack_byte id) (pack target))

-- A speed in thousandths of an RPM.
abbrev pub rounded_speed : ℤ → Result ℤ
rounded_speed value =
    if not (leb_ℤ (neg (pos (max_rpm * 1000))) value && leb_ℤ value (pos (max_rpm * 1000)))
    then err value_error
    else ok (round_div_ℤ value 1000)

-- The `try` block of `send_target`, from the number and the mode in the fields on.
abbrev pub target_by : Result ℤ → Option ℕ → Option ℤ → Option ℤ → Option ℕ → Result MotionCommand
target_by (err e) mode value confirmed_id current_mode = err e
target_by (ok id) none value confirmed_id current_mode = err key_error
target_by (ok id) (some mode) none confirmed_id current_mode = err value_error
target_by (ok id) (some mode) (some value) confirmed_id current_mode =
    if not (is_id id confirmed_id) || not (is_mode current_mode mode)
    then err value_error
    else if mode == m0601_mode_speed
    then with_raw msg_set_single_rpm id mode pack_i16 (rounded_speed value)
    else if mode == m0601_mode_current
    then with_raw msg_set_current id mode pack_i16 (current_ma_to_raw value)
    else with_raw msg_set_position id mode pack_position (degrees_to_position_raw value)

unfoldable pub target_command : App → Result MotionCommand
unfolding checked_id current_ma_to_raw degrees_to_position_raw round_div_ℤ neg
target_command a =
    target_by (checked_id a.motor_id_text) a.mode_text a.target a.confirmed_id a.current_mode

-- Only a `ValueError` is caught.
abbrev pub queue_if : Result MotionCommand → ℕ → Action Done
queue_if (err value_error) now = skip
queue_if (err e) now = raise e
queue_if (ok command) now = modify resume_gate >> queue_motion command now

unfoldable pub send_target : ℕ → Action Done
unfolding target_command queue_motion
send_target now a =
    if not a.link_ready || not (is_some a.confirmed_id)
    then (ok tt, a)
    else queue_if (target_command a) now a

-- `_maintenance_changed`, with the answer of the user.
unfoldable pub maintenance_changed : Bool → App → App
maintenance_changed answer a =
    if a.maintenance && not answer then record a { maintenance = false } else a

unfoldable pub query_unique_id : Action Done
unfolding send
query_unique_id a =
    if a.link_ready && a.maintenance
    then (send msg_query_unique_id [] true (some (record no_context { maintenance = true }))
          >> skip)
        a
    else (ok tt, a)

-- `struct.pack("<BBH", old_id, new_id, SET_ID_CONFIRM)`
abbrev pub pack_change : ℤ → ℤ → Result (List ℕ)
pack_change old new = joined (pack_bytes (old ∷ new ∷ [])) (pack_u16 set_id_confirm)

-- The numbers of `set_motor_id` that pass its checks.
abbrev pub change_id : Bool → Result ℤ → Result ℤ → Action Done
change_id answer (ok old) (ok new) a =
    if not (is_id old a.confirmed_id) || not answer
    then (ok tt, a)
    else (do
      send_single_stop true
      modify (after (late_send msg_set_id (pack_change old new) no_context)))
        a
change_id answer _ _ a = (ok tt, a)

-- `set_motor_id`, with the answer of the user: stop, and write the number 350 ms later.
unfoldable pub set_motor_id : Bool → Action Done
unfolding send_single_stop checked_id after pack_bytes
set_motor_id answer a =
    if not a.link_ready || (not a.maintenance || not (is_some a.confirmed_id))
    then (ok tt, a)
    else change_id answer (checked_id a.motor_id_text) (checked_id a.new_id_text) a

-- The job that `set_motor_mode` and `set_motor_id` leave.
unfoldable pub run_late_send : ℕ → Result (List ℕ) → Request → Action Done
unfolding send
run_late_send msg_type packed context =
    lift packed >>= λ payload. send msg_type payload true (some context) >> skip
