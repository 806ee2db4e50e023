-- ===== src/App/Safety/Receiving.antt =====
-- Whatever frames arrive, handling them is safe.
use navigation_robot.Base.{
  not, Bool-cases, inl, inr, ℕ, ◌≡◌, refl, Bool, true, false, ◌&&◌, Option, none, some, List, [],
  ◌∷◌, arith, length, get_or, ok, if◌then◌else◌, ◌==◌,
}
use navigation_robot.Base.Int.{ℤ, pos}
use navigation_robot.Base.Dict.{lookup, erase}
use navigation_robot.Protocol.{
  HostFrame, msg_query_motor, msg_query_unique_id, msg_set_mode, msg_set_id,
}
use navigation_robot.Motion
use navigation_robot.Link
use navigation_robot.Telemetry.{Chassis}
use navigation_robot.Telemetry.Records.{
  chassis_at, decode_chassis_telemetry-total, decode_imu_telemetry-total,
}
use navigation_robot.App.State.{
  Worker, App, Request, Preparation, Action, pure, ◌>>=◌, ◌>>◌, Done, modify, when,
}
use navigation_robot.App.Session.{
  is_some, is_tcp, reset_session_state, schedule_handshake_tick, cancel_motion_flow,
}
use navigation_robot.App.Motor.{set_motor_id_text, mode_selection_changed, unconfirm}
use navigation_robot.App.Receive.{
  context_of, greet, acknowledge_motion, detect, set_mode, is_known_mode, answer, answer_prepared,
  dispatch, is_rejection, reject, handle_ack, handle_frame, handle_legacy, judge, are_valid,
  are_fresh, in_speed_mode, record_chassis, handle_chassis, handle_imu, Latest, no_latest,
  FrameKind, chassis_frame, imu_frame, legacy_frame, other_frame, kind_of, sort_frame, sort_frames,
  if_legacy, if_chassis, if_imu, watch_resets, parse, process_rx,
}
use navigation_robot.App.Safety.Gate.{
  Each, reset-IsSound, acknowledge-IsSound, reject_keepalive-IsSound,
}
use navigation_robot.App.Safety.Actions.{
  IsValid, IsReady, Any, Safe, Safe->>, Safe-modify, Safe-pure, Safe-when, if-Gives, Gives, Fair,
  Safe-Fair, Fair->>, Fair->>=, >>=-Gives,
}
use navigation_robot.App.Safety.Sending.{
  cancel_motion_flow-IsValid, transmit_if-Ensures, Safe-continue_prepare,
}

pub if-IsValid : (test : Bool) (a b : App) → IsValid a → IsValid b → IsValid (if test then a else b)
if-IsValid true a b h k = h
if-IsValid false a b h k = k

pub reset_session_state-IsValid : (a : App) → IsValid a → IsValid (reset_session_state a)
unfolding reset_session_state
reset_session_state-IsValid a v = (reset-IsSound a.motion_gate, v.1, v.2, tt, tt)

pub schedule_handshake_tick-IsValid : (a : App) → IsValid a → IsValid (schedule_handshake_tick a)
unfolding schedule_handshake_tick
schedule_handshake_tick-IsValid a v = if-IsValid a.handshake_job a _ v v

set_motor_id_text-IsValid :
    (text : Option ℤ) (a : App) → IsValid a → IsValid (set_motor_id_text text a)
unfolding set_motor_id_text
set_motor_id_text-IsValid text a v =
    let b = record a { motor_id_text = text } in
    if-IsValid _ (cancel_motion_flow (unconfirm b)) b (cancel_motion_flow-IsValid (unconfirm b) v) v

detect-IsValid : (id : ℕ) (a : App) → IsValid a → IsValid (detect id a)
detect-IsValid id a v = set_motor_id_text-IsValid (some (pos id)) a v

mode_selection_changed-IsValid : (a : App) → IsValid a → IsValid (mode_selection_changed a)
unfolding mode_selection_changed
mode_selection_changed-IsValid a v = if-IsValid _ _ _ v v

set_mode-IsValid : (mode : Option ℕ) (a : App) → IsValid a → IsValid (set_mode mode a)
set_mode-IsValid none a v = v
set_mode-IsValid (some mode) a v =
    let b = record a { current_mode = some mode; mode_text = some mode } in
    if-IsValid (is_known_mode mode) (mode_selection_changed b) a
      (mode_selection_changed-IsValid b v) v

answer-IsValid :
    (request_type status low : ℕ) (context : Request) (a : App)
    → IsValid a
    → IsValid (answer request_type status low context a)
answer-IsValid request_type status low context a v =
    if-IsValid (request_type == msg_query_motor) _ _ (if-IsValid (status == 0) _ _ v v) (
      if-IsValid (request_type == msg_query_unique_id && context.maintenance) _ _
        (if-IsValid (status == 0) (detect low a) a (detect-IsValid low a v) v)
        (if-IsValid (request_type == msg_set_mode && status == 0) (set_mode context.mode a) _
          (set_mode-IsValid context.mode a v)
          (if-IsValid (request_type == msg_set_id && status == 0) (detect low a) a
            (detect-IsValid low a v) v)))

Safe-answer_prepared :
    (step : Option Preparation) (request_type status low : ℕ) (context : Request)
    → Safe (answer_prepared step request_type status low context)
Safe-answer_prepared (some step) request_type status low context = Safe-continue_prepare step status
Safe-answer_prepared none request_type status low context =
    Safe-modify (answer request_type status low context)
      (answer-IsValid request_type status low context)

Safe-acknowledge_motion :
    (sequence : ℕ) (success : Bool) (now : ℕ) → Safe (acknowledge_motion sequence success now)
Safe-acknowledge_motion sequence success now a v =
    let (sound, ready) = acknowledge-IsSound a.motion_gate sequence success now v.0 in
    transmit_if-Ensures (Motion.acknowledge a.motion_gate sequence success now).1 now
      (record a { motion_gate = (Motion.acknowledge a.motion_gate sequence success now).0 }) ready
      (sound, v.1, v.2, v.3, v.4)

unreadable :
    (w : Option Worker) (port : Option ℕ)
    → (is_tcp w && not (is_some port)) ≡ true
    → (is_tcp w ≡ true) × (port ≡ none)
unreadable w none h = (ground arith, refl)
unreadable w (some n) h = absurd (ground arith)

Fair-greet : Fair greet
Fair-greet a v = elim (Bool-cases (is_tcp a.worker && not (is_some a.tcp_port))) [
  | inl e ↦ rw e (refl, unreadable a.worker a.tcp_port e, v)
  | inr e ↦ rw e (tt, v)
]

Fair-dispatch :
    (sequence request_type status low : ℕ) (context : Request) (now : ℕ)
    → Fair (dispatch sequence request_type status low context now)
unfolding dispatch
Fair-dispatch sequence request_type status low context now a v =
    if-Gives _ (greet a) _ (Fair-greet a v) (
      if-Gives context.motion (acknowledge_motion sequence (status == 0) now a) _
        (Safe-Fair (acknowledge_motion sequence (status == 0) now)
          (Safe-acknowledge_motion sequence (status == 0) now) a v)
        (Safe-Fair (answer_prepared context.prepare request_type status low context)
          (Safe-answer_prepared context.prepare request_type status low context) a v))

Fair-handle_ack :
    (sequence : ℕ) (payload : List ℕ) (now : ℕ) → Fair (handle_ack sequence payload now)
unfolding handle_ack
Fair-handle_ack sequence payload now a v =
    let request_type = get_or payload 0 0 in
    let status = get_or payload 1 0 in
    let context = context_of (lookup sequence a.pending_requests) in
    Fair->> (dispatch sequence request_type status (get_or payload 2 0) context now)
      (when (is_rejection request_type status) (modify reject))
      (Fair-dispatch sequence request_type status (get_or payload 2 0) context now)
      (Safe-Fair (when (is_rejection request_type status) (modify reject)) (
        Safe-when (is_rejection request_type status) (modify reject) (
          Safe-modify reject
            (λ b w. (reject_keepalive-IsSound b.motion_gate w.0, w.1, w.2, w.3, w.4)))))
      (record a { pending_requests = erase sequence a.pending_requests }) v

Fair-handle_frame : (frame : HostFrame) (now : ℕ) → Fair (handle_frame frame now)
unfolding handle_frame
Fair-handle_frame frame now a v =
    if-Gives _ (ok tt, a) (handle_ack frame.sequence frame.payload now a) (tt, v)
      (Fair-handle_ack frame.sequence frame.payload now a v)

handle_legacy-IsValid : (payload : List ℕ) (a : App) → IsValid a → IsValid (handle_legacy payload a)
unfolding handle_legacy
handle_legacy-IsValid payload a v = if-IsValid _ _ a v v

both-IsReady : (dual_prepared other : Bool) → IsReady (dual_prepared && other) dual_prepared
both-IsReady true true = refl
both-IsReady true false = tt
both-IsReady false other = tt

-- Telemetry that is not usable lets nobody drive.
unusable-IsReady :
    (dual_prepared valid speed fresh : Bool)
    → (valid && fresh) ≡ false
    → IsReady (dual_prepared && (valid && (speed && fresh))) false
unusable-IsReady true true true true h = absurd (cc h)
unusable-IsReady true true true false h = tt
unusable-IsReady true true false fresh h = tt
unusable-IsReady true false speed fresh h = tt
unusable-IsReady false valid speed fresh h = tt

judge-IsValid : (c : Chassis) (a : App) → IsValid a → IsValid (judge c a)
unfolding judge
judge-IsValid c a v =
    let b = record a {
      dual_ready = a.dual_prepared && (are_valid c.flags && (in_speed_mode c && are_fresh c));
    } in
    let d = record b { dual_prepared = false } in
    by_usable b d (are_valid c.flags && are_fresh c)
      (
        v.0,
        v.1,
        v.2,
        v.3,
        both-IsReady a.dual_prepared (are_valid c.flags && (in_speed_mode c && are_fresh c)),
      )
      (λ e. (
        v.0,
        v.1,
        v.2,
        v.3,
        unusable-IsReady a.dual_prepared (are_valid c.flags) (in_speed_mode c) (are_fresh c) e,
      ))
  where
    by_usable :
        (b d : App) (usable : Bool)
        → IsValid b
        → (usable ≡ false → IsValid d)
        → IsValid (if usable then b else cancel_motion_flow d)
    by_usable b d true w k = w
    by_usable b d false w k = cancel_motion_flow-IsValid d (k refl)

record_chassis-IsValid :
    (c : Chassis) (sequence now : ℕ) (a : App)
    → IsValid a
    → IsValid (record_chassis c sequence now a)
unfolding record_chassis
record_chassis-IsValid c sequence now a v = v

-- A payload of 56 bytes is decoded.
Safe-handle_chassis :
    (payload : List ℕ) (sequence now : ℕ)
    → length payload ≡ 56
    → Safe (handle_chassis payload sequence now)
unfolding handle_chassis
Safe-handle_chassis payload sequence now e a v =
    rw ((decode_chassis_telemetry-total payload).0 (omega (arith, e))) (
      tt,
      judge-IsValid (chassis_at payload) (record_chassis (chassis_at payload) sequence now a)
          (record_chassis-IsValid (chassis_at payload) sequence now a v),
    )

-- A payload of 44 bytes is decoded.
Safe-handle_imu :
    (payload : List ℕ) (sequence now : ℕ)
    → length payload ≡ 44
    → Safe (handle_imu payload sequence now)
unfolding handle_imu
Safe-handle_imu payload sequence now e a v =
    rw ((decode_imu_telemetry-total payload).0 (omega (arith, e))) (tt, v)

-- The frames that are kept for later have the length of their kind.
abbrev IsSorted : Latest → Type 0
IsSorted l = Each (λ f. length f.payload ≡ 56) l.chassis × Each (λ f. length f.payload ≡ 44) l.imu

kind_of-lengths :
    (f : HostFrame)
    → (kind_of f ≡ chassis_frame → length f.payload ≡ 56)
      × (kind_of f ≡ imu_frame → length f.payload ≡ 44)
unfolding kind_of
kind_of-lengths f = ground arith

sort_frame-Gives :
    (kind : FrameKind) (f : HostFrame) (now : ℕ) (l : Latest)
    → kind_of f ≡ kind
    → IsSorted l
    → (a : App) → IsValid a
    → Gives (λ x _. IsSorted x) (sort_frame kind f now l a)
sort_frame-Gives chassis_frame f now l e s a v = (((kind_of-lengths f).0 e, s.1), v)
sort_frame-Gives imu_frame f now l e s a v = ((s.0, (kind_of-lengths f).1 e), v)
sort_frame-Gives legacy_frame f now l e s a v = (s, v)
sort_frame-Gives other_frame f now l e s a v =
    >>=-Gives (λ _. pure l) Any (λ x _. IsSorted x) (handle_frame f now) a
      (Fair-handle_frame f now a v) (λ _ b _ w. (s, w))

sort_frames-Gives :
    (fs : List HostFrame) (now : ℕ) (l : Latest)
    → IsSorted l
    → (a : App) → IsValid a
    → Gives (λ x _. IsSorted x) (sort_frames fs now l a)
unfolding sort_frames
sort_frames-Gives [] now l s a v = (s, v)
sort_frames-Gives (f ∷ fs) now l s a v =
    >>=-Gives (sort_frames fs now) (λ x _. IsSorted x) (λ x _. IsSorted x)
      (sort_frame (kind_of f) f now l) a (sort_frame-Gives (kind_of f) f now l refl s a v)
      (λ x b t w. sort_frames-Gives fs now x t b w)

watch_resets-IsValid :
    (bytes : List ℕ) (now : ℕ) (a : App) → IsValid a → IsValid (watch_resets bytes now a)
unfolding watch_resets
watch_resets-IsValid bytes now a v =
    let (detector, resets) = Link.feed a.reset_detector bytes now in
    let b = record a { reset_detector = detector } in
    let c = reset_session_state b in
    let d = record c { handshake = Link.start c.handshake now } in
    if-IsValid (resets == 0) b (schedule_handshake_tick d) v
      (schedule_handshake_tick-IsValid d (reset_session_state-IsValid b v))

Safe-if_legacy : (f : Option HostFrame) → Safe (if_legacy f)
Safe-if_legacy none = Safe-pure tt
Safe-if_legacy (some f) = Safe-modify (handle_legacy f.payload) (handle_legacy-IsValid f.payload)

Safe-if_chassis :
    (f : Option HostFrame) (now : ℕ) → Each (λ g. length g.payload ≡ 56) f → Safe (if_chassis f now)
Safe-if_chassis none now e = Safe-pure tt
Safe-if_chassis (some f) now e = Safe-handle_chassis f.payload f.sequence now e

Safe-if_imu :
    (f : Option HostFrame) (now : ℕ) → Each (λ g. length g.payload ≡ 44) f → Safe (if_imu f now)
Safe-if_imu none now e = Safe-pure tt
Safe-if_imu (some f) now e = Safe-handle_imu f.payload f.sequence now e

abbrev handle_latest : Latest → ℕ → Action Done
handle_latest latest now =
    if_legacy latest.legacy >> (if_chassis latest.chassis now >> if_imu latest.imu now)

Safe-handle_latest : (latest : Latest) (now : ℕ) → IsSorted latest → Safe (handle_latest latest now)
Safe-handle_latest latest now s =
    Safe->> (if_legacy latest.legacy) (if_chassis latest.chassis now >> if_imu latest.imu now)
      (Safe-if_legacy latest.legacy)
      (Safe->> (if_chassis latest.chassis now) (if_imu latest.imu now)
        (Safe-if_chassis latest.chassis now s.0) (Safe-if_imu latest.imu now s.1))

Safe-parse : (bytes : List ℕ) → Safe (parse bytes)
unfolding parse
Safe-parse bytes a v = (tt, v)

abbrev handle_frames : List HostFrame → ℕ → Action Done
handle_frames frames now = sort_frames frames now no_latest >>= λ latest. handle_latest latest now

Fair-handle_frames : (frames : List HostFrame) (now : ℕ) → Fair (handle_frames frames now)
Fair-handle_frames frames now a v =
    >>=-Gives (λ latest. handle_latest latest now) (λ x _. IsSorted x) Any
      (sort_frames frames now no_latest) a (sort_frames-Gives frames now no_latest (tt, tt) a v)
      (λ latest b s w. Safe-Fair (handle_latest latest now) (Safe-handle_latest latest now s) b w)

-- Whatever bytes arrive, handling them leaves a valid state, and raises nothing but the `TclError` of
-- the port.
pub Fair-process_rx : (bytes : List ℕ) (now : ℕ) → Fair (process_rx bytes now)
unfolding process_rx
Fair-process_rx bytes now =
    Fair->> (modify (watch_resets bytes now)) (parse bytes >>= λ frames. handle_frames frames now)
      (Safe-Fair (modify (watch_resets bytes now))
        (Safe-modify (watch_resets bytes now) (watch_resets-IsValid bytes now)))
      (Fair->>= (parse bytes) (λ frames. handle_frames frames now)
        (Safe-Fair (parse bytes) (Safe-parse bytes)) (λ frames. Fair-handle_frames frames now))
