-- ===== src/Transport/Life.antt =====
-- The order of the events that a worker reports, for the loop of the application that handles them.
use navigation_robot.Base.{
  ◌≡◌, refl, ◌∙◌, Bool, true, false, Option, none, some, List, [], ◌∷◌, ◌++◌,
}
use navigation_robot.App.Ticks.{Event, opened, retrying, error, closed, rx, tx}

-- What the events so far tell of a worker: it has no connection yet, it has one, it has met an error,
-- or its thread has ended.
pub data Life : Type 0 where
  starting connected broken gone : Life

-- The events that a serial worker may report next: `opened` first and once, `tx` and `rx` between it
-- and the end, one `error` at most, and `closed` last.
abbrev pub serial_next : Life → Event → Option Life
serial_next starting opened = some connected
serial_next starting error = some broken
serial_next starting closed = some gone
serial_next connected (rx bytes) = some connected
serial_next connected (tx bytes) = some connected
serial_next connected error = some broken
serial_next connected closed = some gone
serial_next broken closed = some gone
serial_next _ _ = none

-- The events that a TCP worker may report next: `tx` and `rx` only between an `opened` and the next
-- `retrying`, no `opened` twice without a `retrying` between, no `error`, and `closed` last.
abbrev pub tcp_next : Life → Event → Option Life
tcp_next starting opened = some connected
tcp_next starting retrying = some starting
tcp_next starting closed = some gone
tcp_next connected (rx bytes) = some connected
tcp_next connected (tx bytes) = some connected
tcp_next connected retrying = some starting
tcp_next connected closed = some gone
tcp_next _ _ = none

abbrev pub then_next : (Life → Event → Option Life) → Event → Option Life → Option Life
then_next next event none = none
then_next next event (some life) = next life event

-- The life after some events; `none` if they are not in order.
abbrev pub follow : (Life → Event → Option Life) → Option Life → List Event → Option Life
follow next life [] = life
follow next life (event ∷ events) = follow next (then_next next event life) events

follow-append :
    (next : Life → Event → Option Life) (life : Option Life) (events more : List Event)
    → follow next life (events ++ more) ≡ follow next (follow next life events) more
follow-append next life [] more = refl
follow-append next life (event ∷ events) more =
    follow-append next (then_next next event life) events more

-- The events are in order, and after them the worker may be where it stands.
abbrev pub InOrder : (Life → Event → Option Life) → (Life → Type 0) → List Event → Type 0
InOrder next Fits events =
    (life : Life) × ((follow next (some starting) events ≡ some life) × Fits life)

pub emitted :
    (next : Life → Event → Option Life) (Fits : Life → Type 0) (events : List Event) (event : Event)
    (life after' : Life)
    → follow next (some starting) events ≡ some life
    → next life event ≡ some after'
    → Fits after'
    → InOrder next Fits (events ++ (event ∷ []))
emitted next Fits events event life after' h e k =
    (after', (follow-append next (some starting) events (event ∷ []) ∙ rw h e, k))

abbrev pub IsAlive : Life → Type 0
IsAlive gone = ⊥
IsAlive _ = Unit

-- The events tell that the thread has ended where it has, and only there.
abbrev pub Tells : Bool → Option Life → Type 0
Tells ended none = ⊥
Tells ended (some gone) = ended ≡ true
Tells ended (some _) = ended ≡ false
