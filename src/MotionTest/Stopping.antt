-- ===== src/MotionTest/Stopping.antt =====
-- test_real_base_motion.py of navigation_robot_ros2: every run of the test ends with an attempt to brake.
use navigation_robot.Base.{
  ◌&&◌, ◌≡◌, refl, ◌⊎◌, inl, inr, ◌∙◌, ap, ℕ, ◌+◌, Option, Bool, true, false, List, [], ◌∷◌,
}
use navigation_robot.Base.Int.{ℤ}
use navigation_robot.MotionTest.Node.{
  Delivery, Pass, Service, missing, cancelled, silent, aborted, answers, MotionTest, Deed, braked,
  Outcome, done, failed, interrupted, crashed, Stage, go_on, ◌>>◌, pure, fail, do_deed, deliver_all,
  clock, watch, new_test,
}
use navigation_robot.MotionTest.Stages.{
  require, is_stopped, wait_until_stopped, interrupt, ask, brake_by, brake_stop, idle, eq_count,
  conclude, drive_phases, attempt, give_up, settle, main,
}
use navigation_robot.MotionTest.Reading.{clear_passes, clear_services}
use navigation_robot.MotionTest.Legible.{settle-attempt}
use navigation_robot.MotionTest.Braking.{
  moves_after, is_moving, IsBraked, IsSettled, sought-halts, braked-halts, deliver_all-Keeps, Keeps,
  bind-Keeps, clock-Keeps, watch-Keeps, require-Keeps,
}

wait_until_stopped-Keeps : Keeps wait_until_stopped
unfolding wait_until_stopped
wait_until_stopped-Keeps = bind-Keeps clock _ clock-Keeps (λ now.
    bind-Keeps (watch (now + 800000) (λ _ t. is_stopped t)) require
      (watch-Keeps (now + 800000) (λ _ t. is_stopped t)) require-Keeps)

idle-Keeps : (span : ℕ) → Keeps (idle span)
unfolding idle Keeps
idle-Keeps span = bind-Keeps clock _ clock-Keeps (λ now.
    bind-Keeps (watch (now + span) (λ _ _. false)) (λ _. pure tt)
      (watch-Keeps (now + span) (λ _ _. false)) (λ _ t. refl))

conclude-Keeps : (ack crc : ℤ) (failures : List ℕ) → Keeps (conclude ((ack, crc), failures))
unfolding conclude Keeps
conclude-Keeps ack crc failures =
    bind-Keeps
      (idle 1300000
        >> (λ t. require (eq_count t.ack_errors ack) t)
        >> (λ t. require (eq_count t.crc_errors crc) t))
      (λ _. pure failures)
      (bind-Keeps (idle 1300000 >> (λ t. require (eq_count t.ack_errors ack) t))
        (λ _ t. require (eq_count t.crc_errors crc) t)
        (bind-Keeps (idle 1300000) (λ _ t. require (eq_count t.ack_errors ack) t)
          (idle-Keeps 1300000) (λ _ t. require-Keeps (eq_count t.ack_errors ack) t))
        (λ _ t. require-Keeps (eq_count t.crc_errors crc) t))
      (λ _ t. refl)

kept-IsBraked :
    {A : Type 0} (deeds : List Deed) (x : Outcome A × MotionTest)
    → x.1.deeds ≡ deeds
    → moves_after false deeds ≡ false
    → IsBraked x
unfolding IsBraked is_moving
kept-IsBraked deeds (done _, t) h k = ap (moves_after false) h ∙ k
kept-IsBraked deeds (failed, t) h k = ap (moves_after false) h ∙ k
kept-IsBraked deeds (crashed, t) h k = ap (moves_after false) h ∙ k
kept-IsBraked deeds (interrupted, t) h k = inl (ap (moves_after false) h ∙ k)

-- What a stage that does nothing to the base makes of a state with the brake on.
halted-IsBraked :
    {A : Type 0} (stage : Stage A) (t : MotionTest)
    → Keeps stage
    → is_moving t ≡ false
    → IsBraked (stage t)
unfolding Keeps is_moving
halted-IsBraked stage t h k = kept-IsBraked t.deeds (stage t) (h t) k

heard-IsBraked :
    {A : Type 0} (heard : List (Delivery × ℕ)) (next : Stage A) (t : MotionTest)
    → Keeps next
    → IsBraked ((deliver_all heard >> next) (do_deed braked t))
heard-IsBraked heard next t h =
    halted-IsBraked (deliver_all heard >> next) (do_deed braked t)
      (bind-Keeps (deliver_all heard) (λ _. next) (deliver_all-Keeps heard) (λ _. h))
      (braked-halts t)

ask-IsBraked : (service : Service) (t : MotionTest) → IsBraked (ask service t)
unfolding ask IsBraked Keeps
ask-IsBraked missing t = sought-halts t
ask-IsBraked cancelled t = inl (sought-halts t)
ask-IsBraked (aborted heard) t = heard-IsBraked heard interrupt t (λ t. refl)
ask-IsBraked (silent heard) t = heard-IsBraked heard fail t (λ t. refl)
ask-IsBraked (answers heard false) t = heard-IsBraked heard fail t (λ t. refl)
ask-IsBraked (answers heard true) t =
    heard-IsBraked heard wait_until_stopped t wait_until_stopped-Keeps

brake_stop-IsBraked : (t : MotionTest) → IsBraked (brake_stop t)
unfolding brake_stop brake_by IsBraked
brake_stop-IsBraked t = brakes t.services t refl
  where
    brakes :
        (services : List Service) (t : MotionTest)
        → t.services ≡ services
        → IsBraked (brake_by services t)
    brakes [] t h = inr h
    brakes (service ∷ services) t h = ask-IsBraked service (record t { services = services })

-- What follows a brake that succeeded, and does nothing to the base, ends braked.
go_on-IsBraked :
    {A B : Type 0} (next : A → Stage B) (x : Outcome A × MotionTest)
    → IsBraked x
    → ((a : A) → Keeps (next a))
    → IsBraked (go_on next x)
unfolding IsBraked is_moving Keeps
go_on-IsBraked next (done a, t) h k = kept-IsBraked t.deeds (next a t) (k a t) h
go_on-IsBraked next (failed, t) h k = h
go_on-IsBraked next (interrupted, t) h k = h
go_on-IsBraked next (crashed, t) h k = h

go_on-IsSettled :
    {A B : Type 0} (next : A → Stage B) (x : Outcome A × MotionTest)
    → ((a : A) (t : MotionTest) → IsBraked (next a t))
    → IsSettled (go_on next x)
unfolding IsSettled IsBraked
go_on-IsSettled next (done a, t) h = settled (next a t) (h a t)
  where
    settled : {B : Type 0} (x : Outcome B × MotionTest) → IsBraked x → IsSettled x
    settled (done _, t) h = h
    settled (failed, t) h = tt
    settled (interrupted, t) h = tt
    settled (crashed, t) h = tt
go_on-IsSettled next (failed, t) h = tt
go_on-IsSettled next (interrupted, t) h = tt
go_on-IsSettled next (crashed, t) h = tt

attempt-IsSettled : (t : MotionTest) → IsSettled (attempt t)
unfolding attempt
attempt-IsSettled t = go_on-IsSettled _ (drive_phases t) (λ found u.
    go_on-IsBraked (λ _. conclude found) (brake_stop u) (brake_stop-IsBraked u)
      (λ _. conclude-Keeps (found.0.0) (found.0.1) (found.1)))

give_up-IsBraked : (t : MotionTest) → IsBraked (give_up (brake_stop t))
unfolding IsBraked
give_up-IsBraked t = gives (brake_stop t) (brake_stop-IsBraked t)
  where
    gives : (x : Outcome (Unit {0}) × MotionTest) → IsBraked x → IsBraked (give_up x)
    gives (done _, t) h = h
    gives (failed, t) h = h
    gives (interrupted, t) h = h
    gives (crashed, t) h = h

-- How `main` can end.
abbrev Ended : Outcome ℕ × MotionTest → Type 0
Ended x =
    (moves_after false x.1.deeds ≡ false)
    ⊎ ((x.0 ≡ interrupted) × (x.1.services ≡ []))
    ⊎ (x.0 ≡ crashed)

braked-Ended : (x : Outcome ℕ × MotionTest) → IsBraked x → Ended x
unfolding IsBraked is_moving
braked-Ended (done _, t) h = inl h
braked-Ended (failed, t) h = inl h
braked-Ended (crashed, t) h = inl h
braked-Ended (interrupted, t) (inl h) = inl h
braked-Ended (interrupted, t) (inr h) = inr (inl (refl, h))

settle-Ended : (x : Outcome (List ℕ) × MotionTest) → IsSettled x → Ended (settle x)
unfolding IsSettled is_moving settle
settle-Ended (done [], t) h = inl h
settle-Ended (done (_ ∷ _), t) h = inl h
settle-Ended (failed, t) h = braked-Ended (give_up (brake_stop t)) (give_up-IsBraked t)
settle-Ended (interrupted, t) h = braked-Ended (give_up (brake_stop t)) (give_up-IsBraked t)
settle-Ended (crashed, t) h = inr (inr refl)

-- An end with a `ValueError` is one of a test with a counter that cannot be read.
refused-Ended :
    (t : MotionTest)
    → Ended (settle (attempt t))
    → (clear : Bool) → (clear_passes t.passes && clear_services t.services) ≡ clear
    → (moves_after false (settle (attempt t)).1.deeds ≡ false)
      ⊎ (((settle (attempt t)).0 ≡ interrupted) × ((settle (attempt t)).1.services ≡ []))
      ⊎ (((settle (attempt t)).0 ≡ crashed) × (clear ≡ false))
refused-Ended t (inl h) clear e = inl h
refused-Ended t (inr (inl h)) clear e = inr (inl h)
refused-Ended t (inr (inr h)) false e = inr (inr (h, refl))
refused-Ended t (inr (inr h)) true e = absurd (settle-attempt t e h)

-- However the passes of the loops, the interrupts of the user, the measured speeds and the answers of
-- the brake service go: when `main` ends, no command that moves the base was published after the last
-- attempt to brake it, by a search for the brake service or a call of it; or `main` ends with a further
-- interrupt of the user, in the search for a brake service after the answers have run out; or it ends
-- with a `ValueError`, which its handler does not catch, and in what it may hear there is a status of
-- the base driver with a counter whose text `int` refuses.
pub main-braked :
    (wheels_raised : Bool) (passes : List (Option Pass)) (services : List Service)
    → let finish = main wheels_raised (new_test passes services) in
      (moves_after false finish.1.deeds ≡ false)
      ⊎ ((finish.0 ≡ interrupted) × (finish.1.services ≡ []))
      ⊎ ((finish.0 ≡ crashed) × ((clear_passes passes && clear_services services) ≡ false))
unfolding main new_test moves_after
main-braked false passes services = inl refl
main-braked true passes services =
    let first = new_test passes services in
    refused-Ended first (settle-Ended (attempt first) (attempt-IsSettled first))
      (clear_passes passes && clear_services services) refl
