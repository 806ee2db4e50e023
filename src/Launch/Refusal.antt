-- ===== src/Launch/Refusal.antt =====
-- The motion safety lock: when the base driver may move, and that a refused launch starts nothing.
use navigation_robot.Base.{
  ℕ, Bool, true, false, List, [], ◌∷◌, All, ◌≡◌, ap, ◌∙◌, refl, ◌⊎◌, inl, inr, if◌then◌else◌,
  Result, ok, err, ◌>>=◌,
}
use navigation_robot.Base.Texts.{codes}
use navigation_robot.Launch.Values.{
  Value, Section, Config, Outside, Action, log_info, shutdown, missing_config, invalid_mode,
  motion_lock, missing_map, strip, Reason,
}
use navigation_robot.Launch.Setup.{
  Arguments, is_text, mode_sensors, mode_by, is_mode, switch, measured_keys, is_measured,
  all_measured, start_all, refuse, is_enabled, unless_sensors, locked_by, may_move, is_locked,
  lacks_map, unless_lacking, unless_locked, setup_mode, setup_known, setup_found, setup_config,
  launch_setup,
}
use navigation_robot.Launch.Actions.{Yields, Yields->>=, Yields-ok, moves, shuts, Starts}
use navigation_robot.Launch.Lock.{start_all-Starts}

-- What the launch arguments and a configuration say of the mode.
abbrev pub chosen : Arguments → Config → Value
unfolding mode_by
chosen arguments config = mode_by (strip arguments.operation_mode) config.system

-- The configuration permits to move: its mode is not that of the sensors alone, the measures of the
-- chassis are all positive, and `motion_enabled` is true.
pub record IsPermitted (o : Outside) (config : Config) (mode : Value) : Type 0 where
  pub not_sensors : is_text mode mode_sensors ≡ false
  pub measured : All (λ key. is_measured o config.geometry key ≡ ok true) measured_keys
  pub enabled : is_enabled o config ≡ ok true

measured_then :
    (o : Outside) (geometry : Section) (r rest : Result Bool)
    → (r >>= λ ready. if ready then rest else ok false) ≡ ok true
    → (r ≡ ok true) × (rest ≡ ok true)
measured_then o geometry (ok true) rest h = (refl, h)
measured_then o geometry (ok false) rest h = absurd (cc h)
measured_then o geometry (err raised) rest h = absurd (cc h)

all_measured-All :
    (o : Outside) (geometry : Section) (keys : List (List ℕ))
    → all_measured o geometry keys ≡ ok true
    → All (λ key. is_measured o geometry key ≡ ok true) keys
unfolding all_measured
all_measured-All o geometry [] h = tt
all_measured-All o geometry (key ∷ keys) h =
    let (first, rest) =
      measured_then o geometry (is_measured o geometry key) (all_measured o geometry keys) h in
    (first, all_measured-All o geometry keys rest)

-- What the two tests have in common.
let_through :
    (sensors ready : Bool) (enabled : Result Bool)
    → locked_by sensors ready enabled ≡ ok false
    → unless_sensors sensors enabled ≡ ok true
    → (sensors ≡ false) × (ready ≡ true) × (enabled ≡ ok true)
let_through true ready enabled f g = absurd (cc g)
let_through false true enabled f g = (refl, refl, g)
let_through false false enabled f g = absurd (cc f)

-- A mode that the lock has let through, and that may move.
unlocked :
    (o : Outside) (config : Config) (mode : Value) (ready : Bool)
    → all_measured o config.geometry measured_keys ≡ ok ready
    → is_locked o config mode ready ≡ ok false
    → may_move o config mode ≡ ok true
    → IsPermitted o config mode
unfolding is_locked may_move
unlocked o config mode ready e f g =
    let (not_sensors, all_ready, enabled) =
      let_through (is_text mode mode_sensors) ready (is_enabled o config) f g in
    record {
      not_sensors = not_sensors;
      measured = all_measured-All o config.geometry measured_keys (e ∙ ap ok all_ready);
      enabled = enabled;
    }

-- A launch that is refused does nothing but say so and shut down, and one that is not shuts nothing
-- down; and if a base driver may move, the configuration permits it.
Sound : (permitted : Type 0) → List Action → Type 0
Sound permitted actions =
    ((moves actions ≡ false) ⊎ permitted)
    × (((reason : Reason) × (actions ≡ log_info ∷ shutdown reason ∷ [])) ⊎ (shuts actions ≡ false))

refuse-Sound : (permitted : Type 0) (reason : Reason) → Yields (Sound permitted) (refuse reason)
unfolding Sound moves
refuse-Sound permitted reason = (inl refl, inl (reason, refl))

started-Sound :
    (permitted : Type 0) (motion : Bool) (actions : List Action)
    → (motion ≡ true → permitted)
    → Starts motion actions
    → Sound permitted actions
unfolding Sound
started-Sound permitted true actions h s = (inr (h refl), inr s.going_on)
started-Sound permitted false actions h s = (inl s.moving, inr s.going_on)

module _ (o : Outside) (config : Config) (mode : Value) (use_camera use_rviz : Bool) where
  abbrev Permitted : List Action → Type 0
  Permitted = Sound (IsPermitted o config mode)

  started-Permitted :
      (motion : Bool) (r : Result (List Action))
      → (motion ≡ true → IsPermitted o config mode)
      → Yields (Starts motion) r
      → Yields Permitted r
  started-Permitted motion (ok actions) h s =
      started-Sound (IsPermitted o config mode) motion actions h s
  started-Permitted motion (err raised) h s = tt

  unless_lacking-Permitted :
      (lacking : Bool)
      → (may_move o config mode ≡ ok true → IsPermitted o config mode)
      → Yields Permitted (unless_lacking o config mode use_camera use_rviz lacking)
  unfolding unless_lacking
  unless_lacking-Permitted true h = refuse-Sound (IsPermitted o config mode) missing_map
  unless_lacking-Permitted false h = Yields->>= Permitted (may_move o config mode) _ (λ motion e.
      started-Permitted motion (start_all o config mode use_camera use_rviz motion)
        (λ f. h (e ∙ ap ok f)) (start_all-Starts o config mode use_camera use_rviz motion))

  unless_locked-Permitted :
      (locked ready : Bool)
      → all_measured o config.geometry measured_keys ≡ ok ready
      → is_locked o config mode ready ≡ ok locked
      → Yields Permitted (unless_locked o config mode use_camera use_rviz locked)
  unfolding unless_locked
  unless_locked-Permitted true ready e f = refuse-Sound (IsPermitted o config mode) motion_lock
  unless_locked-Permitted false ready e f =
      Yields->>= Permitted (lacks_map o config.navigation mode) _
        (λ lacking _. unless_lacking-Permitted lacking (unlocked o config mode ready e f))

  setup_mode-Permitted : Yields Permitted (setup_mode o config mode use_camera use_rviz)
  unfolding setup_mode
  setup_mode-Permitted =
      Yields->>= Permitted (all_measured o config.geometry measured_keys) _ (λ ready e.
        Yields->>= Permitted (is_locked o config mode ready) _
          (λ locked f. unless_locked-Permitted locked ready e f))

-- The configuration that was read permits to move.
abbrev pub AnyPermitted : Outside → Arguments → Type 0
AnyPermitted o arguments =
    (config : Config) × ((o.load (o.expanduser arguments.config_file) ≡ ok config)
      × IsPermitted o config (chosen arguments config))

weaken :
    (P Q : Type 0) (r : Result (List Action)) → (P → Q) → Yields (Sound P) r → Yields (Sound Q) r
unfolding Sound
weaken P Q (ok actions) h (inl still, rest) = (inl still, rest)
weaken P Q (ok actions) h (inr p, rest) = (inr (h p), rest)
weaken P Q (err raised) h y = tt

setup_known-Permitted :
    (o : Outside) (arguments : Arguments) (config : Config) (mode : Value) (known : Bool)
    → Yields (Sound (IsPermitted o config mode)) (setup_known o arguments config mode known)
unfolding setup_known
setup_known-Permitted o arguments config mode false =
    refuse-Sound (IsPermitted o config mode) invalid_mode
setup_known-Permitted o arguments config mode true =
    let P = Sound (IsPermitted o config mode) in
    Yields->>= P (switch o (strip arguments.use_camera) config.system (codes "use_camera")) _
      (λ use_camera _.
        Yields->>= P (switch o (strip arguments.use_rviz) config.system (codes "use_rviz")) _
          (λ use_rviz _. setup_mode-Permitted o config mode use_camera use_rviz))

setup_found-Permitted :
    (o : Outside) (arguments : Arguments) (found : Bool)
    → Yields
        (Sound (AnyPermitted o arguments))
        (setup_found o arguments (o.expanduser arguments.config_file) found)
unfolding setup_found setup_config chosen
setup_found-Permitted o arguments false = refuse-Sound (AnyPermitted o arguments) missing_config
setup_found-Permitted o arguments true =
    let P = Sound (AnyPermitted o arguments) in
    Yields->>= P (o.load (o.expanduser arguments.config_file)) _ (λ config e.
      let mode = mode_by (strip arguments.operation_mode) config.system in
      weaken (IsPermitted o config mode) (AnyPermitted o arguments)
        (setup_known o arguments config mode (is_mode mode)) (λ p. (config, (e, p)))
        (setup_known-Permitted o arguments config mode (is_mode mode)))

launch_setup-Sound :
    (o : Outside) (arguments : Arguments) (actions : List Action)
    → launch_setup o arguments ≡ ok actions
    → Sound (AnyPermitted o arguments) actions
unfolding launch_setup
launch_setup-Sound o arguments actions h =
    Yields-ok (Sound (AnyPermitted o arguments)) _ actions h
      (setup_found-Permitted o arguments (o.is_file (o.expanduser arguments.config_file)))

-- If a launch starts a base driver that may move, then the configuration that was read permits it: the
-- mode that was chosen is not `sensors`, the six measures of the chassis are positive numbers, and
-- `motion_enabled` is true.
pub launch_setup-IsPermitted :
    (o : Outside) (arguments : Arguments) (actions : List Action)
    → launch_setup o arguments ≡ ok actions
    → moves actions ≡ true
    → AnyPermitted o arguments
unfolding Sound
launch_setup-IsPermitted o arguments actions h moving =
    elim (launch_setup-Sound o arguments actions h).0 [
      | inl still ↦ absurd (cc (moving, still))
      | inr p ↦ p
    ]

-- If a launch shuts down, it does nothing else but write to the log before: no node is started and no
-- launch file is included.
pub launch_setup-refused :
    (o : Outside) (arguments : Arguments) (actions : List Action)
    → launch_setup o arguments ≡ ok actions
    → shuts actions ≡ true
    → (reason : Reason) × (actions ≡ log_info ∷ shutdown reason ∷ [])
unfolding Sound
launch_setup-refused o arguments actions h shutting =
    elim (launch_setup-Sound o arguments actions h).1 [
      | inl refused ↦ refused
      | inr on ↦ absurd (cc (shutting, on))
    ]
