-- ===== src/MotionTest/Reading.antt =====
-- test_real_base_motion.py of navigation_robot_ros2: where `int` reads the counters of every status of
-- the base driver, no `ValueError` is raised.
use navigation_robot.Base.{
  ℕ, ◌+◌, ◌≡◌, refl, Bool, true, false, not, ◌&&◌, Option, none, some, List, [], ◌∷◌, ltb, leb,
  if◌then◌else◌,
}
use navigation_robot.Base.Int.{ℤ}
use navigation_robot.MotionTest.Node.{
  Delivery, nothing, joint_state, diagnostics, Pass, Service, silent, aborted, answers, MotionTest,
  Report, published, Outcome, done, failed, interrupted, crashed, Stage, go_on, ◌>>=◌, ◌>>◌,
  do_deed, keep_count, set_ack_errors, set_crc_errors, count_of, is_ready, is_own, note,
  on_joint_state, on_diagnostics, deliver, deliver_all, clock, clock_by, watch, watch_by,
  unless_left, drive, drive_by,
}

-- Both counters of a status of the base driver are numbers; those of another status are not read.
abbrev pub clear_by : Bool → Option ℤ → Option ℤ → Bool
clear_by false _ _ = true
clear_by true (some _) (some _) = true
clear_by true _ _ = false

abbrev pub is_clear : Report → Bool
is_clear status =
    clear_by (is_own status) (count_of status.ack_errors) (count_of status.host_crc_errors)

abbrev pub are_clear : List Report → Bool
are_clear [] = true
are_clear (status ∷ array) = is_clear status && are_clear array

abbrev pub is_clear_delivery : Delivery → Bool
is_clear_delivery (diagnostics array) = are_clear array
is_clear_delivery _ = true

abbrev pub clear_heard : List (Delivery × ℕ) → Bool
clear_heard [] = true
clear_heard ((delivery, _) ∷ heard) = is_clear_delivery delivery && clear_heard heard

abbrev pub clear_passes : List (Option Pass) → Bool
clear_passes [] = true
clear_passes (none ∷ passes) = clear_passes passes
clear_passes (some pass ∷ passes) = is_clear_delivery pass.delivery && clear_passes passes

abbrev pub heard_of : Service → List (Delivery × ℕ)
heard_of (silent heard) = heard
heard_of (aborted heard) = heard
heard_of (answers heard _) = heard
heard_of _ = []

abbrev pub clear_services : List Service → Bool
clear_services [] = true
clear_services (service ∷ services) = clear_heard (heard_of service) && clear_services services

-- What is still to come is clear.
abbrev pub IsClear : MotionTest → Type 0
IsClear t = (clear_passes t.passes ≡ true) × (clear_services t.services ≡ true)

abbrev pub Fine : {A : Type 0} → Outcome A × MotionTest → Type 0
Fine (done _, t) = IsClear t
Fine (failed, t) = IsClear t
Fine (interrupted, t) = IsClear t
Fine (crashed, t) = ⊥

abbrev pub Reads : {A : Type 0} → Stage A → Type 0
Reads stage = (t : MotionTest) → IsClear t → Fine (stage t)

pub both : (a b : Bool) → (a && b) ≡ true → (a ≡ true) × (b ≡ true)
both true b h = (refl, h)
both false b h = absurd (cc h)

pub go_on-Fine :
    {A B : Type 0} (next : A → Stage B) (x : Outcome A × MotionTest)
    → Fine x
    → ((a : A) → Reads (next a))
    → Fine (go_on next x)
go_on-Fine next (done a, t) h k = k a t h
go_on-Fine next (failed, t) h k = h
go_on-Fine next (interrupted, t) h k = h
go_on-Fine next (crashed, t) h k = absurd h

pub bind-Reads :
    {A B : Type 0} (stage : Stage A) (next : A → Stage B)
    → Reads stage
    → ((a : A) → Reads (next a))
    → Reads (stage >>= next)
bind-Reads stage next h k t c = go_on-Fine next (stage t) (h t c) k

pub if-Fine :
    {A : Type 0} (test : Bool) (x y : Outcome A × MotionTest)
    → Fine x
    → Fine y
    → Fine (if test then x else y)
if-Fine true x y h k = h
if-Fine false x y h k = k

on_joint_state-IsClear :
    (now : ℕ) (velocity : List ℤ) (t : MotionTest)
    → IsClear t
    → IsClear (on_joint_state now velocity t)
unfolding on_joint_state
on_joint_state-IsClear now [] t c = c
on_joint_state-IsClear now (_ ∷ []) t c = c
on_joint_state-IsClear now (_ ∷ _ ∷ _) t c = c

noted :
    (own : Bool) (ack crc : Option ℤ) (t u : MotionTest)
    → clear_by own ack crc ≡ true
    → IsClear t
    → IsClear u
    → Fine (
        if own
        then (keep_count set_ack_errors ack >> keep_count set_crc_errors crc) u
        else (done tt, t))
noted false ack crc t u h c d = c
noted true (some _) (some _) t u h c d = d
noted true (some _) none t u h c d = absurd (cc h)
noted true none crc t u h c d = absurd (cc h)

on_diagnostics-Reads : (array : List Report) → are_clear array ≡ true → Reads (on_diagnostics array)
unfolding on_diagnostics note
on_diagnostics-Reads [] h t c = c
on_diagnostics-Reads (status ∷ array) h t c =
    let (first, rest) = both (is_clear status) (are_clear array) h in
    go_on-Fine (λ _. on_diagnostics array) (if is_own status then note status t else (done tt, t))
      (noted (is_own status) (count_of status.ack_errors) (count_of status.host_crc_errors) t
        (record t { ready = is_ready status }) first c c)
      (λ _. on_diagnostics-Reads array rest)

deliver-Reads :
    (delivery : Delivery) (now : ℕ)
    → is_clear_delivery delivery ≡ true
    → Reads (deliver delivery now)
unfolding deliver
deliver-Reads nothing now h t c = c
deliver-Reads (joint_state velocity) now h t c = on_joint_state-IsClear now velocity t c
deliver-Reads (diagnostics array) now h t c = on_diagnostics-Reads array h t c

pub deliver_all-Reads :
    (heard : List (Delivery × ℕ)) → clear_heard heard ≡ true → Reads (deliver_all heard)
unfolding deliver_all
deliver_all-Reads [] h t c = c
deliver_all-Reads ((delivery, now) ∷ heard) h t c =
    let (first, rest) = both (is_clear_delivery delivery) (clear_heard heard) h in
    go_on-Fine (λ _. deliver_all heard) (deliver delivery now t)
      (deliver-Reads delivery now first t c) (λ _. deliver_all-Reads heard rest)

pub clock-Reads : Reads clock
unfolding clock
clock-Reads t c = reads t.passes t c.0 c
  where
    reads :
        (passes : List (Option Pass)) (t : MotionTest)
        → clear_passes passes ≡ true
        → IsClear t
        → Fine (clock_by passes t)
    reads [] t h c = c
    reads (none ∷ passes) t h c = (h, c.1)
    reads (some pass ∷ passes) t h c =
        ((both (is_clear_delivery pass.delivery) (clear_passes passes) h).1, c.1)

watch_by-Fine :
    (deadline : ℕ) (leave : ℕ → MotionTest → Bool) (passes : List (Option Pass)) (t : MotionTest)
    → clear_passes passes ≡ true
    → clear_services t.services ≡ true
    → Fine (watch_by deadline leave passes t)
unfolding watch_by
watch_by-Fine deadline leave [] t h k = (refl, k)
watch_by-Fine deadline leave (none ∷ passes) t h k = (h, k)
watch_by-Fine deadline leave (some pass ∷ passes) t h k =
    let here : MotionTest = record t { passes = passes } in
    let (first, rest) = both (is_clear_delivery pass.delivery) (clear_passes passes) h in
    let next : Unit {0} → Stage Bool =
      λ _ u. unless_left (leave pass.later u) (watch_by deadline leave passes) u in
    if-Fine (not (ltb pass.now deadline)) (done false, here) _ (rest, k)
      (go_on-Fine next (deliver pass.delivery pass.heard here)
        (deliver-Reads pass.delivery pass.heard first here (rest, k))
        (λ _ u c.
          if-Fine (leave pass.later u) (done true, u) (watch_by deadline leave passes u) c
            (watch_by-Fine deadline leave passes u rest c.1)))

pub watch-Reads : (deadline : ℕ) (leave : ℕ → MotionTest → Bool) → Reads (watch deadline leave)
unfolding watch
watch-Reads deadline leave t c = watch_by-Fine deadline leave t.passes t c.0 c.1

if-IsClear :
    (test : Bool) (t u : MotionTest) → IsClear t → IsClear u → IsClear (if test then t else u)
if-IsClear true t u h k = h
if-IsClear false t u h k = k

drive_by-Fine :
    (command : ℤ × ℤ) (deadline next_publish : ℕ) (passes : List (Option Pass)) (t : MotionTest)
    → clear_passes passes ≡ true
    → clear_services t.services ≡ true
    → Fine (drive_by command deadline next_publish passes t)
unfolding drive_by
drive_by-Fine command deadline next_publish [] t h k = (refl, k)
drive_by-Fine command deadline next_publish (none ∷ passes) t h k = (h, k)
drive_by-Fine command deadline next_publish (some pass ∷ passes) t h k =
    let here : MotionTest = record t { passes = passes } in
    let (first, rest) = both (is_clear_delivery pass.delivery) (clear_passes passes) h in
    let due = leb next_publish pass.now in
    let sent = if due then do_deed (published command) here else here in
    let next = if due then next_publish + 50000 else next_publish in
    if-Fine (not (ltb pass.now deadline)) (done tt, here) _ (rest, k)
      (go_on-Fine (λ _. drive_by command deadline next passes)
        (deliver pass.delivery pass.heard sent)
        (deliver-Reads pass.delivery pass.heard first sent
          (if-IsClear due (do_deed (published command) here) here (rest, k) (rest, k)))
        (λ _ u c. drive_by-Fine command deadline next passes u rest c.1))

pub drive-Reads :
    (command : ℤ × ℤ) (deadline next_publish : ℕ) → Reads (drive command deadline next_publish)
unfolding drive
drive-Reads command deadline next_publish t c =
    drive_by-Fine command deadline next_publish t.passes t c.0 c.1
