-- ===== src/Launch/Actions.antt =====
-- Which actions let the base driver move or shut the launch down.
use navigation_robot.Base.{
  ℕ, Bool, true, false, not, ◌||◌, List, [], ◌∷◌, ◌++◌, ◌≡◌, sym, ◌∙◌, refl, inl, inr, Bool-cases,
  if◌then◌else◌, Result, ok, err, ◌>>=◌,
}
use navigation_robot.Base.Texts.{codes}
use navigation_robot.Launch.Values.{
  Value, null, flag, text, Section, item, get, Outside, Action, log_info, shutdown, include, node,
  base_node, is_true, path, advanced_file,
}
use navigation_robot.Launch.Setup.{
  is_text, camera_by, camera_actions, camera_arguments, mode_actions,
}

-- If the computation returns, its value has the property.
abbrev pub Yields : {A : Type 0} → (A → Type 0) → Result A → Type 0
Yields P (ok x) = P x
Yields P (err raised) = Unit

pub Yields->>= :
    {A B : Type 0} (P : B → Type 0) (step : Result A) (next : A → Result B)
    → ((x : A) → step ≡ ok x → Yields P (next x))
    → Yields P (step >>= next)
Yields->>= P (ok x) next h = h x refl
Yields->>= P (err raised) next h = tt

pub Yields-if :
    {A : Type 0} (P : A → Type 0) (test : Bool) (x y : Result A)
    → (test ≡ true → Yields P x)
    → (test ≡ false → Yields P y)
    → Yields P (if test then x else y)
Yields-if P true x y h k = h refl
Yields-if P false x y h k = k refl

ok-injective : {A : Type 0} (x y : A) → Path (Result A) (ok y) (ok x) → y ≡ x
ok-injective x y e = cc e

-- What a computation yields, at the value that it has returned.
pub Yields-ok : {A : Type 0} (P : A → Type 0) (r : Result A) (x : A) → r ≡ ok x → Yields P r → P x
Yields-ok P (ok y) x e h = rw (sym (ok-injective x y e)) h
Yields-ok P (err raised) x e h = absurd (cc e)

abbrev pub permitted : Value → Bool
permitted (flag b) = b
permitted _ = false

-- A base driver whose parameters permit it to move.
abbrev pub moves_by : Action → Bool
moves_by (node base_node parameters) = permitted (get parameters (codes "motion_enabled") null)
moves_by _ = false

abbrev pub shuts_by : Action → Bool
shuts_by (shutdown reason) = true
shuts_by _ = false

abbrev pub some_of : (Action → Bool) → List Action → Bool
some_of test [] = false
some_of test (action ∷ actions) = test action || some_of test actions

-- Some base driver among the actions may move, and one of the actions is a shutdown.
unfoldable pub moves : List Action → Bool
unfolding get
moves actions = some_of moves_by actions

abbrev pub shuts : List Action → Bool
shuts actions = some_of shuts_by actions

some_of-append :
    (test : Action → Bool) (xs ys : List Action)
    → some_of test (xs ++ ys) ≡ (some_of test xs || some_of test ys)
some_of-append test [] ys = refl
some_of-append test (x ∷ xs) ys =
    rw (some_of-append test xs ys) (or_assoc (test x) (some_of test xs) (some_of test ys))
  where
    or_assoc : (a b c : Bool) → (a || (b || c)) ≡ ((a || b) || c)
    or_assoc true b c = refl
    or_assoc false b c = refl

-- The actions shut nothing down, and a base driver among them may move if this says so.
pub record Starts (motion : Bool) (actions : List Action) : Type 0 where
  pub moving : moves actions ≡ motion
  pub going_on : shuts actions ≡ false

pub or-false : (b : Bool) → (b || false) ≡ b
or-false true = refl
or-false false = refl

pub Starts-append :
    (motion : Bool) (xs ys : List Action)
    → Starts motion xs
    → Starts false ys
    → Starts motion (xs ++ ys)
unfolding moves get
Starts-append motion xs ys h k = record {
  moving = some_of-append moves_by xs ys ∙ rw (h.moving, k.moving) (or-false motion);
  going_on = some_of-append shuts_by xs ys ∙ rw (h.going_on, k.going_on) refl;
}

pub one_include :
    (name : List ℕ) (arguments : List (List ℕ × Value)) → Starts false (include name arguments ∷ [])
unfolding moves get
one_include name arguments = record { moving = refl; going_on = refl }

pub one_log : Starts false (log_info ∷ [])
unfolding moves get
one_log = record { moving = refl; going_on = refl }

pub nothing_more : Starts false []
unfolding moves get
nothing_more = record { moving = refl; going_on = refl }

camera_by-Starts :
    (o : Outside) (share : Result (List ℕ)) (launch_file : Value)
    (arguments : List (List ℕ × Value))
    → Yields (Starts false) (camera_by o share launch_file arguments)
camera_by-Starts o (err missing) launch_file arguments = one_log
camera_by-Starts o (ok share) launch_file arguments =
    Yields->>= (Starts false) (path launch_file) _ (λ name _. one_include _ arguments)

pub camera_actions-Starts :
    (o : Outside) (camera : Section) → Yields (Starts false) (camera_actions o camera)
unfolding camera_actions
camera_actions-Starts o camera =
    let driver = get camera (codes "driver") (text (codes "pending")) in
    let launch_file = get camera (codes "launch_file") (text []) in
    let orbbec = camera_by o (o.share (codes "orbbec_camera")) launch_file (
      camera_arguments o camera
      ++ ((codes "enable_colored_point_cloud", text (codes "false")) ∷ [])) in
    let astra =
      camera_by o (o.share (codes "astra_camera")) launch_file (camera_arguments o camera) in
    let other = if is_text driver (codes "astra") then astra else ok (log_info ∷ []) in
    Yields-if (Starts false) (is_text driver (codes "pending") || not (is_true launch_file))
      (ok (log_info ∷ [])) (if is_text driver (codes "orbbec") then orbbec else other)
      (λ _. one_log)
      (λ _.
        Yields-if (Starts false) (is_text driver (codes "orbbec")) orbbec other
          (λ _. camera_by-Starts o (o.share (codes "orbbec_camera")) launch_file _)
          (λ _.
            Yields-if (Starts false) (is_text driver (codes "astra")) astra (ok (log_info ∷ []))
              (λ _. camera_by-Starts o (o.share (codes "astra_camera")) launch_file _)
              (λ _. one_log)))

pub mode_actions-Starts :
    (o : Outside) (navigation : Section) (mode : Value) (directory : List ℕ)
    → Yields (Starts false) (mode_actions o navigation mode directory)
unfolding mode_actions
mode_actions-Starts o navigation mode directory =
    elim (Bool-cases (is_text mode (codes "mapping"))) [
      | inl e ↦ rw e (
          Yields->>= (Starts false)
            (advanced_file o (get navigation (codes "slam_params_file") null)
              (codes "slam_toolbox.yaml"))
            _ (λ slam _. one_include _ _))
      | inr e ↦ rw e (elim (Bool-cases (is_text mode (codes "navigation"))) [
        | inl f ↦ rw f (
            Yields->>= (Starts false) (item navigation (codes "map")) _ (λ value _.
              Yields->>= (Starts false) (path value) _ (λ name _.
                Yields->>= (Starts false)
                  (advanced_file o (get navigation (codes "nav2_params_file") null)
                    (codes "nav2_params.yaml"))
                  _ (λ nav2 _. one_include _ _))))
        | inr f ↦ rw f nothing_more
      ])
    ]
