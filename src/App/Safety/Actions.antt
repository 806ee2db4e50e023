-- ===== src/App/Safety/Actions.antt =====
-- What holds of the application between two events, and actions that never raise and keep it.
use navigation_robot.Base.{
  ℕ, ◌≡◌, ap, ◌≢◌, refl, ◌∙◌, Bool, true, false, Option, none, some, List, arith, length, All,
  Result, ok, err, tcl_error, if◌then◌else◌, ge→ltb,
}
use navigation_robot.Base.Bytes.{IsByte}
use navigation_robot.Config.{speed_gears}
use navigation_robot.Mapping.{Direction, other, is_gear}
use navigation_robot.Protocol.{encode_frame, flag_ack_required, max_payload}
use navigation_robot.Protocol.Encoding.{wire, cut, encode_frame-wire}
use navigation_robot.App.State.{
  App, Worker, Request, Action, pure, ◌>>=◌, ◌>>◌, Done, modify, when, start,
}
use navigation_robot.App.Session.{send, send_by, is_tcp}
use navigation_robot.App.Safety.Gate.{IsSound, IsPayload, new_gate-IsSound}

abbrev pub IsNamed : Direction → Type 0
IsNamed key = key ≢ other

-- Both wheels are driven only after both motors have been prepared.
abbrev pub IsReady : Bool → Bool → Type 0
IsReady true dual_prepared = dual_prepared ≡ true
IsReady false dual_prepared = Unit

-- The gate holds commands that can be sent, the gear is one of the five, the sequence number is a
-- byte, only arrow keys are held, and both wheels are not driven before they are prepared.
abbrev pub IsValid : App → Type 0
IsValid a =
    IsSound a.motion_gate
    × (is_gear a.gear speed_gears ≡ true)
    × IsByte a.sequence
    × All IsNamed a.pressed_directions
    × IsReady a.dual_ready a.dual_prepared

pub start-IsValid : (port : List ℕ) → IsValid (start port)
unfolding start is_gear
start-IsValid port = (new_gate-IsSound, refl, omega arith, tt, tt)

-- The action has returned a value with a property and left a valid state: it has not raised.
module _ {A : Type 0} where
  abbrev pub Ensures : (A → App → Type 0) → Result A × App → Type 0
  Ensures Q (ok x, a) = Q x a × IsValid a
  Ensures Q (err e, a) = ⊥

  abbrev pub Any : A → App → Type 0
  Any x a = Unit {0}

module _ {A : Type 0} where
  abbrev pub Safe : Action A → Type 0
  Safe m = (a : App) → IsValid a → Ensures Any (m a)

-- A TCP session whose field of the port holds no number.
abbrev pub IsUnreadable : App → Type 0
IsUnreadable a = (is_tcp a.worker ≡ true) × (a.tcp_port ≡ none)

-- The same, but the action may have raised the `TclError` of a port that is no number, and left a
-- valid state then too.
module _ {A : Type 0} where
  abbrev pub Gives : (A → App → Type 0) → Result A × App → Type 0
  Gives Q (ok x, a) = Q x a × IsValid a
  Gives Q (err e, a) = (e ≡ tcl_error) × IsUnreadable a × IsValid a

  abbrev pub Fair : Action A → Type 0
  Fair m = (a : App) → IsValid a → Gives Any (m a)

  pub Ensures-Gives : (Q : A → App → Type 0) (r : Result A × App) → Ensures Q r → Gives Q r
  Ensures-Gives Q (ok x, a) h = h
  Ensures-Gives Q (err e, a) h = absurd h

  pub Safe-Fair : (m : Action A) → Safe m → Fair m
  Safe-Fair m h a v = Ensures-Gives Any (m a) (h a v)

  pub if-Gives :
      (test : Bool) (x y : Result A × App)
      → Gives Any x
      → Gives Any y
      → Gives Any (if test then x else y)
  if-Gives true x y h k = h
  if-Gives false x y h k = k

module _ {A B : Type 0} (f : A → Action B) (Q : A → App → Type 0) (R : B → App → Type 0) where
  pub >>=-Gives :
      (m : Action A) (a : App)
      → Gives Q (m a)
      → ((x : A) (b : App) → Q x b → IsValid b → Gives R (f x b))
      → Gives R ((m >>= f) a)
  >>=-Gives m a h k = go (m a) h
    where
      go :
          (r : Result A × App)
          → Gives Q r
          → Gives R (elim r.0 [ ok x ↦ f x r.1 | err e ↦ (err e, r.1) ])
      go (ok x, b) h = k x b h.0 h.1
      go (err e, b) h = h

pub Fair->>= :
    {A B : Type 0} (m : Action A) (f : A → Action B)
    → Fair m
    → ((x : A) → Fair (f x))
    → Fair (m >>= f)
Fair->>= m f h k a v = >>=-Gives f Any Any m a (h a v) (λ x b _ w. k x b w)

pub Fair->> : {A B : Type 0} (m : Action A) (k : Action B) → Fair m → Fair k → Fair (m >> k)
Fair->> m k h l = Fair->>= m (λ _. k) h (λ _. l)

module _ {A B : Type 0} (f : A → Action B) (Q : A → App → Type 0) (R : B → App → Type 0) where
  pub >>=-Ensures :
      (m : Action A) (a : App)
      → Ensures Q (m a)
      → ((x : A) (b : App) → Q x b → IsValid b → Ensures R (f x b))
      → Ensures R ((m >>= f) a)
  >>=-Ensures m a h k = go (m a) h
    where
      go :
          (r : Result A × App)
          → Ensures Q r
          → Ensures R (elim r.0 [ ok x ↦ f x r.1 | err e ↦ (err e, r.1) ])
      go (ok x, b) h = k x b h.0 h.1
      go (err e, b) h = absurd h

pub >>-after :
    {A B : Type 0} (m : Action A) (k : Action B) (a b : App) {x : A}
    → m a ≡ (ok x, b)
    → (m >> k) a ≡ k b
>>-after {A} {B} m k a b e =
    ap
      (λ (r : Result A × App). elim r.0 as (λ _. Result B × App) [
        | ok x ↦ k r.1
        | err e ↦ (err e, r.1)
      ])
      e

pub Safe->>= :
    {A B : Type 0} (m : Action A) (f : A → Action B)
    → Safe m
    → ((x : A) → Safe (f x))
    → Safe (m >>= f)
Safe->>= m f h k a v = >>=-Ensures f Any Any m a (h a v) (λ x b _ w. k x b w)

pub Safe->> : {A B : Type 0} (m : Action A) (k : Action B) → Safe m → Safe k → Safe (m >> k)
Safe->> m k h l = Safe->>= m (λ _. k) h (λ _. l)

pub Safe-modify : (f : App → App) → ((a : App) → IsValid a → IsValid (f a)) → Safe (modify f)
Safe-modify f h a v = (tt, h a v)

pub Safe-pure : {A : Type 0} (x : A) → Safe (pure x)
Safe-pure x a v = (tt, v)

pub if-Ensures :
    {A : Type 0} (test : Bool) (x y : Result A × App)
    → Ensures Any x
    → Ensures Any y
    → Ensures Any (if test then x else y)
if-Ensures true x y h k = h
if-Ensures false x y h k = k

pub Safe-when : (test : Bool) (m : Action Done) → Safe m → Safe (when test m)
Safe-when true m h a v = h a v
Safe-when false m h a v = (tt, v)

-- `send` gives the number of a frame that fits, changes no more than the sequence number, the
-- waiting requests and the worker, and never raises.
abbrev pub SameGate : App → Option ℕ → App → Type 0
SameGate a x b = b.motion_gate ≡ a.motion_gate

pub encode_frame-IsPayload :
    (msg_type sequence flags : ℕ) (payload : List ℕ)
    → IsPayload payload
    → encode_frame msg_type sequence flags payload ≡ ok (wire (cut msg_type sequence flags payload))
encode_frame-IsPayload msg_type sequence flags payload p =
    encode_frame-wire msg_type sequence flags payload p.bytes
    ∙ rw (ge→ltb max_payload (length payload) p.fits)

send_by-Ensures :
    (w : Option Worker) (a : App) (msg_type : ℕ) (payload : List ℕ) (ack : Bool)
    (context : Option Request)
    → IsPayload payload
    → IsValid a
    → Ensures (SameGate a) (send_by w msg_type payload ack context a)
send_by-Ensures none a msg_type payload ack context p v = (refl, v)
send_by-Ensures (some w) a msg_type payload ack context p v =
    rw (encode_frame-IsPayload msg_type a.sequence (if ack then flag_ack_required else 0) payload p)
      (refl, (v.0, v.1, omega arith, v.3, v.4))

pub send-Ensures :
    (a : App) (msg_type : ℕ) (payload : List ℕ) (ack : Bool) (context : Option Request)
    → IsPayload payload
    → IsValid a
    → Ensures (SameGate a) (send msg_type payload ack context a)
unfolding send
send-Ensures a msg_type payload ack context p v =
    send_by-Ensures a.worker a msg_type payload ack context p v

pub Safe-send :
    (msg_type : ℕ) (payload : List ℕ) (ack : Bool) (context : Option Request)
    → IsPayload payload
    → Safe (send msg_type payload ack context)
Safe-send msg_type payload ack context p a v =
    weaken (send msg_type payload ack context a) (send-Ensures a msg_type payload ack context p v)
  where
    weaken : (r : Result (Option ℕ) × App) → Ensures (SameGate a) r → Ensures Any r
    weaken (ok x, b) h = (tt, h.1)
    weaken (err e, b) h = h
