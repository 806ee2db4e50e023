-- ===== src/Emulator/Targets.antt =====
-- The speeds that the emulator takes over, and what it answers to a host that prepares both wheels.
use navigation_robot.Base.{
  ℕ, ◌≡◌, refl, sym, Bool, true, false, not, ◌||◌, ◌⊎◌, inl, inr, List, [], ◌∷◌, arith, length,
  get_or, ◌==◌, if◌then◌else◌,
}
use navigation_robot.Base.Int.{ℤ, pos, negsuc, neg, eq_ℤ, ◌≤ℤ◌}
use navigation_robot.Base.Bytes.{i16_at}
use navigation_robot.Base.Dict.{insert}
use mathlib.Core.Path.{subst}
use navigation_robot.Protocol.{HostFrame}
use navigation_robot.Emulator.{
  Emulator, new_emulator, is_confirmed, query, set_mode, drive, keep_alive, stop, request, watch,
  halt, is_ready, is_speed_limit, is_pair,
}

-- Both targets are within ±125 RPM, and 0 unless the emulator is active.
abbrev pub IsWithin : Bool → ℤ → Type 0
IsWithin true target = (neg (pos 125) ≤ℤ target) × (target ≤ℤ pos 125)
IsWithin false target = target ≡ pos 0

abbrev pub IsValid : Emulator → Type 0
IsValid s = IsWithin s.active s.target_left × IsWithin s.active s.target_right

-- A request, or a check of the watchdog, at a moment.
pub data Step : Type 0 where
  requested : HostFrame → ℕ → Step
  watched : ℕ → Step

unfoldable pub step : Step → Emulator → Emulator
unfolding request watch
step (requested f now) s = (request f now s).1
step (watched now) s = watch now s

unfoldable pub steps : List Step → Emulator → Emulator
steps [] s = s
steps (i ∷ is) s = steps is (step i s)

IsWithin-limit :
    (l : ℤ) (moves : Bool)
    → is_speed_limit l ≡ true
    → (moves ≡ false → l ≡ pos 0)
    → IsWithin moves l
IsWithin-limit l true h k = ground arith
IsWithin-limit l false h k = k refl

stands :
    (l r : ℤ) → (not (eq_ℤ l (pos 0)) || not (eq_ℤ r (pos 0))) ≡ false → (l ≡ pos 0) × (r ≡ pos 0)
stands (pos l) (pos r) h = ground arith
stands (pos l) (negsuc r) h = ground arith
stands (negsuc l) r h = ground arith

-- A command for both wheels passes all its checks, or changes nothing.
checked :
    {A : Type 0} (long one two l r ready : Bool) (s t : A)
    → let result : ℕ × A =
        if not long
        then (2, s)
        else if not one || (not two || (not l || not r))
        then (3, s)
        else if not ready
        then (7, s)
        else (0, t) in
      (result.1 ≡ s) ⊎ ((l ≡ true) × (r ≡ true) × (result.1 ≡ t))
checked false one two l r ready s t = inl refl
checked true false two l r ready s t = inl refl
checked true true false l r ready s t = inl refl
checked true true true false r ready s t = inl refl
checked true true true true false ready s t = inl refl
checked true true true true true false s t = inl refl
checked true true true true true true s t = inr (refl, refl, refl)

-- What a command that passes its checks makes of the state.
abbrev driven : ℤ → ℤ → ℕ → Emulator → Emulator
driven l r now s = record s {
  target_left = l;
  target_right = r;
  active = not (eq_ℤ l (pos 0)) || not (eq_ℤ r (pos 0));
  last_keepalive = now;
}

driven-IsValid :
    (l r : ℤ) (now : ℕ) (s : Emulator)
    → is_speed_limit l ≡ true
    → is_speed_limit r ≡ true
    → IsValid (driven l r now s)
driven-IsValid l r now s h k =
    let moves = not (eq_ℤ l (pos 0)) || not (eq_ℤ r (pos 0)) in
    (
      IsWithin-limit l moves h (λ e. (stands l r e).0),
      IsWithin-limit r moves k (λ e. (stands l r e).1),
    )

drive-IsValid :
    (payload : List ℕ) (now : ℕ) (s : Emulator) → IsValid s → IsValid (drive payload now s).1
drive-IsValid payload now s v =
    let l = i16_at payload 2 in
    let r = i16_at payload 4 in
    elim (checked (length payload == 8) (get_or payload 0 0 == 1) (get_or payload 1 0 == 2)
      (is_speed_limit l) (is_speed_limit r) (is_ready s) s (driven l r now s)) [
        | inl e ↦ subst IsValid (sym e) v
        | inr (h, k, e) ↦ subst IsValid (sym e) (driven-IsValid l r now s h k)
      ]

either :
    (test : Bool) (x y : ℕ × Emulator)
    → IsValid x.1
    → IsValid y.1
    → IsValid (if test then x else y).1
either true x y h k = h
either false x y h k = k

halt-IsValid : (s : Emulator) → IsValid (halt s)
halt-IsValid s = (refl, refl)

stop-IsValid : (payload : List ℕ) (s : Emulator) → IsValid s → IsValid (stop payload s).1
stop-IsValid payload s v =
    let wrong = not (get_or payload 0 0 == 1) || not (get_or payload 1 0 == 2) in
    either (not (length payload == 3)) (2, s) (if wrong then (3, s) else (0, halt s)) v
      (either wrong (3, s) (0, halt s) v (halt-IsValid s))

keep_alive-IsValid :
    (payload : List ℕ) (now : ℕ) (s : Emulator) → IsValid s → IsValid (keep_alive payload now s).1
keep_alive-IsValid payload now s v =
    let kept = record s { last_keepalive = now } in
    either (not (is_pair payload)) (2, s) (if not s.active then (7, s) else (0, kept)) v
      (either (not s.active) (7, s) (0, kept) v v)

query-IsValid : (payload : List ℕ) (s : Emulator) → IsValid s → IsValid (query payload s).1
query-IsValid payload s v =
    let id = get_or payload 0 0 in
    let t = record s { selected_id = id; confirmed = id ∷ s.confirmed } in
    either (not (length payload == 1)) (2, s) (if id == 0xC8 then (3, s) else (0, t)) v
      (either (id == 0xC8) (3, s) (0, t) v v)

set_mode-IsValid : (payload : List ℕ) (s : Emulator) → IsValid s → IsValid (set_mode payload s).1
set_mode-IsValid payload s v =
    let id = get_or payload 0 0 in
    let mode = get_or payload 1 0 in
    let t = record s { modes = insert id mode s.modes } in
    let refused = id == 0xC8 || not (mode == 1 || (mode == 2 || mode == 3)) in
    let early = not (is_confirmed id s.confirmed) || not (s.selected_id == id) in
    either (not (length payload == 2)) (2, s)
      (if refused then (3, s) else if early then (7, s) else (0, t)) v
      (either refused (3, s) (if early then (7, s) else (0, t)) v (either early (7, s) (0, t) v v))

request-IsValid : (f : HostFrame) (now : ℕ) (s : Emulator) → IsValid s → IsValid (request f now s).1
unfolding request
request-IsValid f now s v =
    let p = f.payload in
    let last : ℕ × Emulator = if f.msg_type == 0x1C then stop p s else (8, s) in
    let alive : ℕ × Emulator = if f.msg_type == 0x1B then keep_alive p now s else last in
    let driving : ℕ × Emulator = if f.msg_type == 0x1A then drive p now s else alive in
    let mode : ℕ × Emulator = if f.msg_type == 0x16 then set_mode p s else driving in
    let asked : ℕ × Emulator = if f.msg_type == 0x13 then query p s else mode in
    either (f.msg_type == 0x01) (if length p == 0 then 0 else 2, s) asked v
      (either (f.msg_type == 0x13) (query p s) mode (query-IsValid p s v) (
        either (f.msg_type == 0x16) (set_mode p s) driving (set_mode-IsValid p s v) (
          either (f.msg_type == 0x1A) (drive p now s) alive (drive-IsValid p now s v) (
            either (f.msg_type == 0x1B) (keep_alive p now s) last (keep_alive-IsValid p now s v)
              (either (f.msg_type == 0x1C) (stop p s) (8, s) (stop-IsValid p s v) v)))))

watch-IsValid : (now : ℕ) (s : Emulator) → IsValid s → IsValid (watch now s)
unfolding watch
watch-IsValid now s v = ground arith

step-IsValid : (i : Step) (s : Emulator) → IsValid s → IsValid (step i s)
unfolding step
step-IsValid (requested f now) s v = request-IsValid f now s v
step-IsValid (watched now) s v = watch-IsValid now s v

steps-IsValid : (is : List Step) (s : Emulator) → IsValid s → IsValid (steps is s)
unfolding steps
steps-IsValid [] s v = v
steps-IsValid (i ∷ is) s v = steps-IsValid is (step i s) (step-IsValid i s v)

-- Whatever requests arrive, well formed or not, and whenever the watchdog is checked, from its start
-- on the emulator drives each wheel at no more than 125 RPM, and at 0 whenever it is not active.
pub steps-IsWithin :
    (started : ℕ) (is : List Step)
    → let s = steps is (new_emulator started) in
      IsWithin s.active s.target_left × IsWithin s.active s.target_right
unfolding new_emulator
steps-IsWithin started is = steps-IsValid is (new_emulator started) (refl, refl)
