-- ===== src/Teleop/Runs.antt =====
-- What holds of the node between two events, and that no round of its loop raises.
use navigation_robot.Base.{
  ℕ, ◌+◌, ◌-◌, ◌≡◌, inl, inr, ap, sym, ◌∙◌, arith, Bool, true, false, not, ◌&&◌, Option, none, some,
  List, [], ◌∷◌, ◌++◌, All, All-append, Result, ok, err, leb, if◌then◌else◌, Bool-cases,
}
use navigation_robot.Base.Texts.{codes, eq_text, is_part}
use navigation_robot.Teleop.Keys.{read_key, normalize_key, command_for_key}
use navigation_robot.Teleop.Node.{
  Twist, halt, Teleop, stop, handle_key, tick, diagnostics_callback, ready, command_must_stop,
  Status, publish, take_status, take_command, set_gear, handle_normalized, warn, publish_due,
  is_healthy, is_base_driver,
}
use navigation_robot.Teleop.Loop.{
  Round, round, loop, go_on, spin_once, told_by, handle_raw, then_tick,
}
use navigation_robot.Teleop.Bounds.{
  IsAllowed, IsAllowedIf, halt-IsAllowed, command_for_key-IsAllowed,
}
use navigation_robot.Teleop.Pressed.{IsPlain, IsReadOrNone, normalize_key-IsPlain, read_key-IsRead}

-- The node keeps its maxima, and wants and has published no more than they allow.
pub record IsValid (m n : ℕ) (t : Teleop) : Type 0 where
  pub linear : t.max_linear_speed ≡ m
  pub angular : t.max_angular_speed ≡ n
  pub wanted : IsAllowed m n t.desired
  pub sent : All (IsAllowed m n) t.published

module _ (m n : ℕ) where
  publish-sent :
      (twist : Twist) (published : List Twist)
      → IsAllowed m n twist
      → All (IsAllowed m n) published
      → All (IsAllowed m n) (published ++ (twist ∷ []))
  publish-sent twist published h k = All-append (IsAllowed m n) published (twist ∷ []) k (h, tt)

  stop-IsValid : (t : Teleop) → IsValid m n t → IsValid m n (stop t)
  unfolding stop
  stop-IsValid t v = elim (Bool-cases t.command_active) [
    | inl e ↦ rw e (record {
      linear = v.linear;
      angular = v.angular;
      wanted = halt-IsAllowed m n;
      sent = publish-sent halt t.published (halt-IsAllowed m n) v.sent;
    })
    | inr e ↦ rw e (record {
      linear = v.linear;
      angular = v.angular;
      wanted = halt-IsAllowed m n;
      sent = v.sent;
    })
  ]

  if-IsValid :
      (test : Bool) (t u : Teleop)
      → IsValid m n t
      → IsValid m n u
      → IsValid m n (if test then t else u)
  if-IsValid true t u h k = h
  if-IsValid false t u h k = k

  warn-IsValid : (now : ℕ) (t : Teleop) → IsValid m n t → IsValid m n (warn now t)
  warn-IsValid now t v =
      if-IsValid (leb (t.last_lock_warning + 2000000) now) (record t { last_lock_warning = now }) t
        (record { linear = v.linear; angular = v.angular; wanted = v.wanted; sent = v.sent }) v

  take_status-IsValid :
      (status : Status) (now : ℕ) (t : Teleop)
      → IsValid m n t
      → IsValid m n (take_status status now t)
  unfolding take_status
  take_status-IsValid status now t v =
      let told : Teleop = record t { base_ready = is_healthy status; last_diagnostic_time = now } in
      let kept : IsValid m n told = record {
        linear = v.linear;
        angular = v.angular;
        wanted = v.wanted;
        sent = v.sent;
      } in
      if-IsValid (t.require_base_ready && not (is_healthy status) && t.command_active) (stop told)
        told (stop-IsValid told kept) kept

  diagnostics_callback-IsValid :
      (array : List Status) (now : ℕ) (t : Teleop)
      → IsValid m n t
      → IsValid m n (diagnostics_callback array now t)
  unfolding diagnostics_callback
  diagnostics_callback-IsValid [] now t v = v
  diagnostics_callback-IsValid (status ∷ array) now t v =
      if-IsValid (is_base_driver status) (take_status status now t)
        (diagnostics_callback array now t) (take_status-IsValid status now t v)
        (diagnostics_callback-IsValid array now t v)

  spin_once-IsValid :
      (message : Option (List Status × ℕ)) (t : Teleop)
      → IsValid m n t
      → IsValid m n (spin_once message t)
  unfolding spin_once told_by
  spin_once-IsValid message t v = told t.require_base_ready message
    where
      told :
          (required : Bool) (message : Option (List Status × ℕ))
          → IsValid m n (told_by required message t)
      told true (some (array, now)) = diagnostics_callback-IsValid array now t v
      told true none = v
      told false message = v

  take_command-IsValid :
      (command : Option Twist) (now : ℕ) (t : Teleop)
      → IsAllowedIf m n command
      → IsValid m n t
      → IsValid m n (take_command command now t)
  unfolding take_command
  take_command-IsValid none now t h v = v
  take_command-IsValid (some command) now t h v =
      if-IsValid (ready t now)
        (record t {
          desired = command;
          last_key_time = now;
          next_publish_time = now;
          command_active = true;
        })
        (stop (warn now t))
        (record { linear = v.linear; angular = v.angular; wanted = h; sent = v.sent })
        (stop-IsValid (warn now t) (warn-IsValid now t v))

  publish_due-IsValid : (now : ℕ) (t : Teleop) → IsValid m n t → IsValid m n (publish_due now t)
  publish_due-IsValid now t v =
      if-IsValid (leb t.next_publish_time now)
        (record (publish t.desired t) { next_publish_time = now + t.publish_period }) t
        (record {
          linear = v.linear;
          angular = v.angular;
          wanted = v.wanted;
          sent = publish-sent t.desired t.published v.wanted v.sent;
        })
        v

  tick-IsValid : (now : ℕ) (t : Teleop) → IsValid m n t → IsValid m n (tick now t)
  unfolding tick
  tick-IsValid now t v =
      let must =
        command_must_stop t.command_active (ready t now) t.last_key_time now t.key_timeout in
      if-IsValid (not t.command_active) t (if must then stop t else publish_due now t) v (
        if-IsValid must (stop t) (publish_due now t) (stop-IsValid t v)
          (publish_due-IsValid now t v))

  -- No exception, and a valid node.
  abbrev Fine : Result Bool × Teleop → Type 0
  Fine (ok keep_running, t) = IsValid m n t
  Fine (err raised, t) = ⊥

  allowed :
      (key : List ℕ) (t : Teleop)
      → IsValid m n t
      → IsAllowedIf m n (command_for_key key t.gear t.max_linear_speed t.max_angular_speed)
  allowed key t v = rw (v.linear, v.angular) (command_for_key-IsAllowed key t.gear m n)

  set_gear-Fine :
      (c : ℕ) (t : Teleop)
      → is_part (c ∷ []) (codes "12345") ≡ true
      → IsValid m n t
      → Fine (set_gear (c ∷ []) t)
  set_gear-Fine c t h v = elim (Bool-cases (leb (0 + (c - 48)) 5)) [
    | inl e ↦
        rw e (record { linear = v.linear; angular = v.angular; wanted = v.wanted; sent = v.sent })
    | inr e ↦ absurd (ground arith)
  ]

  if-Fine :
      (test : Bool) (x y : Result Bool × Teleop) → Fine x → Fine y → Fine (if test then x else y)
  if-Fine true x y h k = h
  if-Fine false x y h k = k

  digit-Fine :
      (key : List ℕ) (t : Teleop)
      → IsPlain key
      → is_part key (codes "12345") ≡ true
      → IsValid m n t
      → Fine (set_gear key t)
  digit-Fine key t (inl (c, q)) e v =
      rw q (set_gear-Fine c t (ap (λ k. is_part k (codes "12345")) (sym q) ∙ e) v)
  digit-Fine key t (inr f) e v = absurd (cc (e, f))

  handle_digit :
      (key : List ℕ) (now : ℕ) (t : Teleop)
      → IsPlain key
      → IsValid m n t
      → Fine (
          if is_part key (codes "12345") then set_gear key t else (
            ok true,
            take_command (command_for_key key t.gear t.max_linear_speed t.max_angular_speed) now t,
          ))
  handle_digit key now t h v =
      let command = command_for_key key t.gear t.max_linear_speed t.max_angular_speed in
      let driven : IsValid m n (take_command command now t) =
        take_command-IsValid command now t (allowed key t v) v in
      elim (Bool-cases (is_part key (codes "12345"))) [
        | inl e ↦ rw e (digit-Fine key t h e v)
        | inr e ↦ rw e driven
      ]

  handle_normalized-Fine :
      (key : List ℕ) (now : ℕ) (t : Teleop)
      → IsPlain key
      → IsValid m n t
      → Fine (handle_normalized key now t)
  unfolding handle_normalized
  handle_normalized-Fine key now t h v =
      let command = command_for_key key t.gear t.max_linear_speed t.max_angular_speed in
      let driven : Result Bool × Teleop = (ok true, take_command command now t) in
      let part = is_part key (codes "12345") in
      let geared : Result Bool × Teleop = if part then set_gear key t else driven in
      if-Fine (eq_text key (codes "q")) (ok false, stop t) _ (stop-IsValid t v)
        (if-Fine (eq_text key (codes " ")) (ok true, stop t) geared (stop-IsValid t v)
          (handle_digit key now t h v))

  handle_raw-Fine :
      (raw : List ℕ) (now : ℕ) (t : Teleop)
      → IsReadOrNone raw
      → IsValid m n t
      → Fine (handle_raw raw now t)
  unfolding handle_raw handle_key
  handle_raw-Fine [] now t h v = v
  handle_raw-Fine (c ∷ raw) now t h v =
      handle_normalized-Fine (normalize_key (c ∷ raw)) now t (normalize_key-IsPlain (c ∷ raw) h) v

  then_tick-Fine : (now : ℕ) (x : Result Bool × Teleop) → Fine x → Fine (then_tick now x)
  unfolding then_tick
  then_tick-Fine now (ok keep_running, t) v = tick-IsValid now t v
  then_tick-Fine now (err raised, t) h = h

  round-Fine : (r : Round) (t : Teleop) → IsValid m n t → Fine (round r t)
  unfolding round
  round-Fine r t v =
      let raw = read_key r.first r.second r.third in
      let told = spin_once r.diagnostics t in
      then_tick-Fine r.tick_time (handle_raw raw r.key_time told) (
        handle_raw-Fine raw r.key_time told (read_key-IsRead r.first r.second r.third)
          (spin_once-IsValid r.diagnostics t v))

  -- The loop returns, with a valid node.
  abbrev pub Returns : Result (Unit {0}) × Teleop → Type 0
  Returns (ok x, t) = IsValid m n t
  Returns (err raised, t) = ⊥

  go_on-Returns :
      (again : Teleop → Result (Unit {0}) × Teleop) (x : Result Bool × Teleop)
      → ((t : Teleop) → IsValid m n t → Returns (again t))
      → Fine x
      → Returns (go_on again x)
  go_on-Returns again (ok true, t) h v = h t v
  go_on-Returns again (ok false, t) h v = v
  go_on-Returns again (err raised, t) h v = v

  pub loop-Returns : (rounds : List Round) (t : Teleop) → IsValid m n t → Returns (loop rounds t)
  unfolding loop
  loop-Returns [] t v = v
  loop-Returns (r ∷ rounds) t v =
      go_on-Returns (loop rounds) (round r t) (loop-Returns rounds) (round-Fine r t v)
