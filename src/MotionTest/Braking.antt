-- ===== src/MotionTest/Braking.antt =====
-- test_real_base_motion.py of navigation_robot_ros2: the base is not left moving by the test.
use navigation_robot.Base.{
  ◌≡◌, refl, ◌⊎◌, ◌∙◌, ℕ, Bool, true, false, not, ◌&&◌, Option, none, some, List, [], ◌∷◌, ◌++◌,
  ltb, if◌then◌else◌,
}
use navigation_robot.Base.Int.{ℤ, pos, eq_ℤ}
use navigation_robot.MotionTest.Node.{
  Delivery, nothing, joint_state, diagnostics, Pass, MotionTest, Report, Deed, published, sought,
  braked, Outcome, done, failed, interrupted, crashed, Stage, go_on, ◌>>◌, keep_count,
  set_ack_errors, set_crc_errors, count_of, is_ready, is_own, unless_left, ◌>>=◌, do_deed,
  on_joint_state, on_diagnostics, note, deliver, deliver_all, clock, clock_by, watch, watch_by,
}
use navigation_robot.MotionTest.Stages.{require}

-- Whether a command that moves the base is the last to take effect: an attempt to brake follows no
-- such command, or it comes after it.
unfoldable pub moves_after : Bool → List Deed → Bool
moves_after moving [] = moving
moves_after moving (published (linear, angular) ∷ deeds) =
    moves_after (if eq_ℤ linear (pos 0) && eq_ℤ angular (pos 0) then moving else true) deeds
moves_after moving (sought ∷ deeds) = moves_after false deeds
moves_after moving (braked ∷ deeds) = moves_after false deeds

unfoldable pub is_moving : MotionTest → Bool
unfolding moves_after
is_moving t = moves_after false t.deeds

-- A part has left the base braked, or it was interrupted with no brake service left to ask.
unfoldable pub IsBraked : {A : Type 0} → Outcome A × MotionTest → Type 0
unfolding is_moving
IsBraked (done _, t) = is_moving t ≡ false
IsBraked (failed, t) = is_moving t ≡ false
IsBraked (crashed, t) = is_moving t ≡ false
IsBraked (interrupted, t) = (is_moving t ≡ false) ⊎ (t.services ≡ [])

-- A part that ended with a value has left the base braked.
unfoldable pub IsSettled : {A : Type 0} → Outcome A × MotionTest → Type 0
unfolding is_moving
IsSettled (done _, t) = is_moving t ≡ false
IsSettled (failed, t) = Unit
IsSettled (interrupted, t) = Unit
IsSettled (crashed, t) = Unit

moves_after-brake :
    (moving : Bool) (deeds : List Deed) (deed : Deed)
    → ((before : Bool) → moves_after before (deed ∷ []) ≡ false)
    → moves_after moving (deeds ++ (deed ∷ [])) ≡ false
unfolding moves_after
moves_after-brake moving [] deed h = h moving
moves_after-brake moving (published (linear, angular) ∷ deeds) deed h =
    moves_after-brake (if eq_ℤ linear (pos 0) && eq_ℤ angular (pos 0) then moving else true) deeds
      deed h
moves_after-brake moving (sought ∷ deeds) deed h = moves_after-brake false deeds deed h
moves_after-brake moving (braked ∷ deeds) deed h = moves_after-brake false deeds deed h

pub sought-halts : (t : MotionTest) → is_moving (do_deed sought t) ≡ false
unfolding is_moving moves_after
sought-halts t = moves_after-brake false t.deeds sought (λ before. refl)

pub braked-halts : (t : MotionTest) → is_moving (do_deed braked t) ≡ false
unfolding is_moving moves_after
braked-halts t = moves_after-brake false t.deeds braked (λ before. refl)

-- A part that does nothing to the base.
unfoldable pub Keeps : {A : Type 0} → Stage A → Type 0
Keeps stage = (t : MotionTest) → (stage t).1.deeds ≡ t.deeds

pub bind-Keeps :
    {A B : Type 0} (stage : Stage A) (next : A → Stage B)
    → Keeps stage
    → ((a : A) → Keeps (next a))
    → Keeps (stage >>= next)
unfolding Keeps
bind-Keeps stage next h k t = goes_on next (stage t) t.deeds (h t) k
  where
    goes_on :
        {A B : Type 0} (next : A → Stage B) (x : Outcome A × MotionTest) (deeds : List Deed)
        → x.1.deeds ≡ deeds
        → ((a : A) (t : MotionTest) → (next a t).1.deeds ≡ t.deeds)
        → (go_on next x).1.deeds ≡ deeds
    goes_on next (done a, t) deeds h k = k a t ∙ h
    goes_on next (failed, t) deeds h k = h
    goes_on next (interrupted, t) deeds h k = h
    goes_on next (crashed, t) deeds h k = h

pub clock-Keeps : Keeps clock
unfolding Keeps clock
clock-Keeps t = reads t.passes t
  where
    reads : (passes : List (Option Pass)) (t : MotionTest) → (clock_by passes t).1.deeds ≡ t.deeds
    reads [] t = refl
    reads (none ∷ _) t = refl
    reads (some _ ∷ _) t = refl

if-kept :
    {A : Type 0} {deeds : List Deed} (test : Bool) (x y : Outcome A × MotionTest)
    → x.1.deeds ≡ deeds
    → y.1.deeds ≡ deeds
    → (if test then x else y).1.deeds ≡ deeds
if-kept true x y h k = h
if-kept false x y h k = k

-- What the node hears publishes nothing.
on_joint_state-deeds :
    (now : ℕ) (velocity : List ℤ) (t : MotionTest) → (on_joint_state now velocity t).deeds ≡ t.deeds
unfolding on_joint_state
on_joint_state-deeds now [] t = refl
on_joint_state-deeds now (_ ∷ []) t = refl
on_joint_state-deeds now (_ ∷ _ ∷ _) t = refl

note-Keeps : (status : Report) → Keeps (note status)
unfolding note Keeps
note-Keeps status t =
    noted (count_of status.ack_errors) (count_of status.host_crc_errors)
      (record t { ready = is_ready status })
  where
    noted :
        (ack crc : Option ℤ) (t : MotionTest)
        → ((keep_count set_ack_errors ack >> keep_count set_crc_errors crc) t).1.deeds ≡ t.deeds
    noted none crc t = refl
    noted (some n) none t = refl
    noted (some n) (some m) t = refl

on_diagnostics-Keeps : (array : List Report) → Keeps (on_diagnostics array)
unfolding on_diagnostics Keeps
on_diagnostics-Keeps [] t = refl
on_diagnostics-Keeps (status ∷ array) t =
    bind-Keeps (λ t. if is_own status then note status t else (done tt, t))
      (λ _. on_diagnostics array)
      (λ t. if-kept (is_own status) (note status t) (done tt, t) (note-Keeps status t) refl)
      (λ _. on_diagnostics-Keeps array) t

deliver-Keeps : (delivery : Delivery) (now : ℕ) → Keeps (deliver delivery now)
unfolding deliver Keeps
deliver-Keeps nothing now t = refl
deliver-Keeps (joint_state velocity) now t = on_joint_state-deeds now velocity t
deliver-Keeps (diagnostics array) now t = on_diagnostics-Keeps array t

pub deliver_all-Keeps : (heard : List (Delivery × ℕ)) → Keeps (deliver_all heard)
unfolding deliver_all Keeps
deliver_all-Keeps [] t = refl
deliver_all-Keeps ((delivery, now) ∷ heard) t =
    bind-Keeps (deliver delivery now) (λ _. deliver_all heard) (deliver-Keeps delivery now)
      (λ _. deliver_all-Keeps heard) t

watch_by-Keeps :
    (deadline : ℕ) (leave : ℕ → MotionTest → Bool) (passes : List (Option Pass))
    → Keeps (watch_by deadline leave passes)
unfolding watch_by Keeps
watch_by-Keeps deadline leave [] t = refl
watch_by-Keeps deadline leave (none ∷ passes) t = refl
watch_by-Keeps deadline leave (some pass ∷ passes) t =
    let here : MotionTest = record t { passes = passes } in
    let next : Unit {0} → Stage Bool =
      λ _ u. unless_left (leave pass.later u) (watch_by deadline leave passes) u in
    if-kept (not (ltb pass.now deadline)) (done false, here) _ refl
      (bind-Keeps (deliver pass.delivery pass.heard) next (deliver-Keeps pass.delivery pass.heard)
        (λ _ u.
          if-kept (leave pass.later u) (done true, u) (watch_by deadline leave passes u) refl
            (watch_by-Keeps deadline leave passes u))
        here)

pub watch-Keeps : (deadline : ℕ) (leave : ℕ → MotionTest → Bool) → Keeps (watch deadline leave)
unfolding watch Keeps
watch-Keeps deadline leave t = watch_by-Keeps deadline leave t.passes t

pub require-Keeps : (test : Bool) → Keeps (require test)
unfolding Keeps
require-Keeps true t = refl
require-Keeps false t = refl
