-- ===== src/Teleop/Locked.antt =====
-- A node that must see a ready base: it publishes no motion before, and stops once it hears no more.
use navigation_robot.Base.{
  ℕ, ◌+◌, ◌<◌, ◌≡◌, inl, inr, refl, sym, ◌∙◌, arith, Bool, true, false, ◌&&◌, ◌||◌, Option, none,
  some, List, [], ◌∷◌, ◌++◌, All, Result, ok, err, leb, if◌then◌else◌, Bool-cases, append-nil,
}
use navigation_robot.Base.Int.{pos}
use navigation_robot.Base.Texts.{codes, eq_text, is_part}
use navigation_robot.Teleop.Keys.{read_key, normalize_key, command_for_key}
use navigation_robot.Teleop.Node.{
  Twist, halt, Teleop, Parameters, new_teleop, stop, handle_key, tick, diagnostics_callback, ready,
  command_must_stop, Status, take_status, take_command, set_gear, handle_normalized, warn,
  is_healthy, is_base_driver, base_status_ready,
}
use navigation_robot.Teleop.Loop.{
  Round, round, loop, go_on, main, spin_once, told_by, handle_raw, then_tick,
}
use navigation_robot.Teleop.Shutdown.{new_teleop-initial, shutdown_stop-published}

-- The node waits for the base, and has published this.
pub record IsLocked (published : List Twist) (t : Teleop) : Type 0 where
  pub required : t.require_base_ready ≡ true
  pub unready : t.base_ready ≡ false
  pub inactive : t.command_active ≡ false
  pub same : t.published ≡ published

or-false : (a b : Bool) → (a || b) ≡ false → (a ≡ false) × (b ≡ false)
or-false true b h = absurd (cc h)
or-false false b h = (refl, h)

true-and : (a b : Bool) → a ≡ true → (a && b) ≡ false → b ≡ false
true-and true b e h = h
true-and false b e h = absurd (cc e)

-- No status in the message, if there is one, tells of a ready base.
abbrev pub IsUnready : Option (List Status × ℕ) → Type 0
IsUnready none = Unit
IsUnready (some (array, now)) = base_status_ready array ≡ false

abbrev pub IsUnreadyRound : Round → Type 0
IsUnreadyRound r = IsUnready r.diagnostics

module _ (sent : List Twist) where
  stop-IsLocked : (t : Teleop) → IsLocked sent t → IsLocked sent (stop t)
  unfolding stop
  stop-IsLocked t l =
      rw l.inactive
        (record { required = l.required; unready = l.unready; inactive = refl; same = l.same })

  if-IsLocked :
      (test : Bool) (t u : Teleop)
      → IsLocked sent t
      → IsLocked sent u
      → IsLocked sent (if test then t else u)
  if-IsLocked true t u h k = h
  if-IsLocked false t u h k = k

  warn-IsLocked : (now : ℕ) (t : Teleop) → IsLocked sent t → IsLocked sent (warn now t)
  warn-IsLocked now t l =
      if-IsLocked (leb (t.last_lock_warning + 2000000) now) (record t { last_lock_warning = now }) t
        (record {
          required = l.required;
          unready = l.unready;
          inactive = l.inactive;
          same = l.same;
        })
        l

  ready-IsLocked : (now : ℕ) (t : Teleop) → IsLocked sent t → ready t now ≡ false
  unfolding ready
  ready-IsLocked now t l = rw (l.required, l.unready) refl

  take_command-IsLocked :
      (command : Option Twist) (now : ℕ) (t : Teleop)
      → IsLocked sent t
      → IsLocked sent (take_command command now t)
  unfolding take_command
  take_command-IsLocked none now t l = l
  take_command-IsLocked (some command) now t l =
      rw (ready-IsLocked now t l) (stop-IsLocked (warn now t) (warn-IsLocked now t l))

  tick-IsLocked : (now : ℕ) (t : Teleop) → IsLocked sent t → IsLocked sent (tick now t)
  unfolding tick
  tick-IsLocked now t l =
      rw l.inactive
        (record { required = l.required; unready = l.unready; inactive = refl; same = l.same })

  take_status-IsLocked :
      (status : Status) (now : ℕ) (t : Teleop)
      → is_healthy status ≡ false
      → IsLocked sent t
      → IsLocked sent (take_status status now t)
  unfolding take_status
  take_status-IsLocked status now t h l =
      rw (l.required, l.inactive, h)
        (record { required = refl; unready = refl; inactive = refl; same = l.same })

  diagnostics_callback-IsLocked :
      (array : List Status) (now : ℕ) (t : Teleop)
      → base_status_ready array ≡ false
      → IsLocked sent t
      → IsLocked sent (diagnostics_callback array now t)
  unfolding diagnostics_callback base_status_ready
  diagnostics_callback-IsLocked [] now t h l = l
  diagnostics_callback-IsLocked (status ∷ array) now t h l =
      let (first, rest) =
        or-false (is_base_driver status && is_healthy status) (base_status_ready array) h in
      elim (Bool-cases (is_base_driver status)) [
        | inl e ↦ rw e (
            take_status-IsLocked status now t
              (true-and (is_base_driver status) (is_healthy status) e first) l)
        | inr e ↦ rw e (diagnostics_callback-IsLocked array now t rest l)
      ]

  spin_once-IsLocked :
      (message : Option (List Status × ℕ)) (t : Teleop)
      → IsUnready message
      → IsLocked sent t
      → IsLocked sent (spin_once message t)
  unfolding spin_once told_by
  spin_once-IsLocked message t h l = told t.require_base_ready message h
    where
      told :
          (required : Bool) (message : Option (List Status × ℕ))
          → IsUnready message
          → IsLocked sent (told_by required message t)
      told true (some (array, now)) h = diagnostics_callback-IsLocked array now t h l
      told true none h = l
      told false message h = l

  -- No exception changes what the node has published either.
  abbrev Silent : {A : Type 0} → Result A × Teleop → Type 0
  Silent (x, t) = IsLocked sent t

  set_gear-IsLocked : (key : List ℕ) (t : Teleop) → IsLocked sent t → Silent (set_gear key t)
  set_gear-IsLocked [] t l = l
  set_gear-IsLocked (c ∷ key) t l = record {
    required = l.required;
    unready = l.unready;
    inactive = l.inactive;
    same = l.same;
  }

  if-Silent :
      (test : Bool) (x y : Result Bool × Teleop)
      → Silent x
      → Silent y
      → Silent (if test then x else y)
  if-Silent true x y h k = h
  if-Silent false x y h k = k

  handle_key-IsLocked :
      (raw : List ℕ) (now : ℕ) (t : Teleop) → IsLocked sent t → Silent (handle_key raw now t)
  unfolding handle_key handle_normalized
  handle_key-IsLocked raw now t l =
      let key = normalize_key raw in
      let command = command_for_key key t.gear t.max_linear_speed t.max_angular_speed in
      let driven : Result Bool × Teleop = (ok true, take_command command now t) in
      let geared : Result Bool × Teleop =
        if is_part key (codes "12345") then set_gear key t else driven in
      if-Silent (eq_text key (codes "q")) (ok false, stop t)
        (if eq_text key (codes " ") then (ok true, stop t) else geared) (stop-IsLocked t l)
        (if-Silent (eq_text key (codes " ")) (ok true, stop t) geared (stop-IsLocked t l)
          (if-Silent (is_part key (codes "12345")) (set_gear key t) driven
            (set_gear-IsLocked key t l) (take_command-IsLocked command now t l)))

  handle_raw-IsLocked :
      (raw : List ℕ) (now : ℕ) (t : Teleop) → IsLocked sent t → Silent (handle_raw raw now t)
  unfolding handle_raw
  handle_raw-IsLocked [] now t l = l
  handle_raw-IsLocked (c ∷ raw) now t l = handle_key-IsLocked (c ∷ raw) now t l

  then_tick-IsLocked : (now : ℕ) (x : Result Bool × Teleop) → Silent x → Silent (then_tick now x)
  unfolding then_tick
  then_tick-IsLocked now (ok keep_running, t) l = tick-IsLocked now t l
  then_tick-IsLocked now (err raised, t) l = l

  go_on-IsLocked :
      (again : Teleop → Result (Unit {0}) × Teleop) (x : Result Bool × Teleop)
      → ((t : Teleop) → IsLocked sent t → Silent (again t))
      → Silent x
      → Silent (go_on again x)
  go_on-IsLocked again (ok true, t) h l = h t l
  go_on-IsLocked again (ok false, t) h l = l
  go_on-IsLocked again (err raised, t) h l = l

  loop-IsLocked :
      (rounds : List Round) (t : Teleop)
      → All IsUnreadyRound rounds
      → IsLocked sent t
      → Silent (loop rounds t)
  unfolding loop round
  loop-IsLocked [] t h l = l
  loop-IsLocked (r ∷ rounds) t h l =
      let told = spin_once r.diagnostics t in
      let raw = read_key r.first r.second r.third in
      go_on-IsLocked (loop rounds) (round r t) (λ u k. loop-IsLocked rounds u h.1 k)
        (then_tick-IsLocked r.tick_time (handle_raw raw r.key_time told)
          (handle_raw-IsLocked raw r.key_time told (spin_once-IsLocked r.diagnostics t h.0 l)))

-- Where the node must see a ready base, and no message in any of the rounds tells of one, `main`
-- publishes three commands to halt and nothing else, whatever keys are pressed.
pub main-locked :
    (p : Parameters) (t : Teleop) (rounds : List Round)
    → new_teleop p ≡ ok t
    → p.require_base_ready ≡ true
    → All IsUnreadyRound rounds
    → (main rounds t).1.published ≡ halt ∷ halt ∷ halt ∷ []
unfolding main
main-locked p t rounds h required unready =
    let start : IsLocked [] t =
      rw (new_teleop-initial p t h)
        (record { required = required; unready = refl; inactive = refl; same = refl }) in
    let ended = loop-IsLocked [] rounds t unready start in
    shutdown_stop-published (loop rounds t).1 ∙ rw ended.same refl

late-ready :
    (t : Teleop) (limit now : ℕ)
    → t.require_base_ready ≡ true
    → t.diagnostic_timeout ≡ pos limit
    → t.last_diagnostic_time + limit < now
    → ready t now ≡ false
unfolding ready
late-ready t limit now required timeout late = rw (required, timeout) (ground arith)

-- When a node that must see a ready base has heard no diagnostics for longer than their timeout, a
-- tick stops the node: it publishes one command to halt if a command was active and nothing if none
-- was, and no later tick publishes or changes anything.
pub tick-silence :
    (t : Teleop) (limit now later : ℕ)
    → t.require_base_ready ≡ true
    → t.diagnostic_timeout ≡ pos limit
    → t.last_diagnostic_time + limit < now
    → ((tick now t).command_active ≡ false)
      × ((tick now t).published ≡ t.published ++ (if t.command_active then halt ∷ [] else []))
      × (tick later (tick now t) ≡ tick now t)
unfolding tick stop command_must_stop
tick-silence t limit now later required timeout late =
    rw (late-ready t limit now required timeout late) (elim (Bool-cases t.command_active) [
      | inl e ↦ rw e (refl, refl, refl)
      | inr e ↦ rw e (refl, sym (append-nil t.published), refl)
    ])
