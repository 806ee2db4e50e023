-- ===== src/Motion/Coalescing.antt =====
-- Behind a command in flight only the latest offer counts, and after a failure nothing is offered
-- or kept alive until the gate is resumed.
use navigation_robot.Base.{
  ℕ, ◌≡◌, refl, ◌∙◌, ap, true, false, Option, none, some, List, [], ◌∷◌, ◌++◌, arith, if◌then◌else◌,
  if◌then◌else◌,
}
use navigation_robot.Base.Int.{eq_tuple, ℤ}
use navigation_robot.Motion.{
  MotionCommand, MotionCommandGate, offer, mark_sent, acknowledge, check_timeout, keepalive_due,
  reject_keepalive,
}
use navigation_robot.Motion.Invariant.{
  Operation, resets, resumes, rejects, offers, sends, acknowledges, times_out, keeps_alive, operate,
  operate_all,
}

pub offer_all : MotionCommandGate → List MotionCommand → MotionCommandGate
offer_all g [] = g
offer_all g (c ∷ cs) = offer_all (offer g c).0 cs

-- What waits after offers behind a command with this signature.
abbrev pub latest : List ℤ → Option MotionCommand → List MotionCommand → Option MotionCommand
latest s pending [] = pending
latest s pending (c ∷ cs) = latest s (if eq_tuple c.signature s then none else some c) cs

module _ (c : MotionCommand) where
  offer_behind-pending :
      (g : MotionCommandGate) (d : MotionCommand)
      → g.blocked ≡ false
      → g.inflight_command ≡ some c
      → offer g d ≡ (
        record g { pending_command = if eq_tuple d.signature c.signature then none else some d },
        none,
      )
  unfolding offer
  offer_behind-pending g d free e = ground arith

  offer_all-latest :
      (g : MotionCommandGate) (cs : List MotionCommand)
      → g.blocked ≡ false
      → g.inflight_command ≡ some c
      → offer_all g cs ≡ record g { pending_command = latest c.signature g.pending_command cs }
  unfolding offer_all
  offer_all-latest g [] free e = refl
  offer_all-latest g (d ∷ ds) free e =
      let h : MotionCommandGate = record g {
        pending_command = if eq_tuple d.signature c.signature then none else some d;
      } in
      ap (λ (r : MotionCommandGate × Option MotionCommand). offer_all r.0 ds)
        (offer_behind-pending g d free e)
      ∙ offer_all-latest h ds free e

latest-append :
    (s : List ℤ) (pending : Option MotionCommand) (cs : List MotionCommand) (d : MotionCommand)
    → latest s pending (cs ++ (d ∷ [])) ≡ (if eq_tuple d.signature s then none else some d)
latest-append s pending [] d = refl
latest-append s pending (c ∷ cs) d =
    latest-append s (if eq_tuple c.signature s then none else some c) cs d

acknowledge-pending :
    (g : MotionCommandGate) (c d : MotionCommand) (sequence now : ℕ)
    → g.inflight_command ≡ some c
    → g.inflight_sequence ≡ some sequence
    → g.pending_command ≡ (if eq_tuple d.signature c.signature then none else some d)
    → (acknowledge g sequence true now).1
      ≡ (if eq_tuple d.signature c.signature then none else some d)
unfolding acknowledge
acknowledge-pending g c d sequence now e es ep = ground arith

-- While a command waits for its ACK and the gate is not blocked, any number of commands may be
-- offered: the success of the one in flight returns the last one offered, or nothing if that has
-- the signature that was just acknowledged. All between are dropped.
pub offers_coalesce :
    (g : MotionCommandGate) (c d : MotionCommand) (cs : List MotionCommand) (sequence now : ℕ)
    → g.blocked ≡ false
    → g.inflight_command ≡ some c
    → g.inflight_sequence ≡ some sequence
    → (acknowledge (offer_all g (cs ++ (d ∷ []))) sequence true now).1
      ≡ (if eq_tuple d.signature c.signature then none else some d)
offers_coalesce g c d cs sequence now free e es =
    let after = offer_all-latest c g (cs ++ (d ∷ [])) free e in
    rw after (
      acknowledge-pending _ c d sequence now e es
        (latest-append c.signature g.pending_command cs d))

-- Every operation but the two that clear `blocked`.
abbrev pub IsBlocking : Operation → Type 0
IsBlocking resets = ⊥
IsBlocking resumes = ⊥
IsBlocking _ = Unit

abbrev pub NoneUnblocks : List Operation → Type 0
NoneUnblocks [] = Unit
NoneUnblocks (o ∷ os) = IsBlocking o × NoneUnblocks os

operate-blocked :
    (g : MotionCommandGate) (o : Operation)
    → IsBlocking o
    → g.blocked ≡ true
    → (operate g o).blocked ≡ true
unfolding operate reject_keepalive offer mark_sent acknowledge check_timeout keepalive_due
operate-blocked g resets h b = absurd h
operate-blocked g resumes h b = absurd h
operate-blocked g rejects h b = ground arith
operate-blocked g (offers command) h b = ground arith
operate-blocked g (sends sequence command now) h b = ground arith
operate-blocked g (acknowledges sequence success now) h b = ground arith
operate-blocked g (times_out now) h b = ground arith
operate-blocked g (keeps_alive now) h b = ground arith

operate_all-blocked :
    (g : MotionCommandGate) (os : List Operation)
    → NoneUnblocks os
    → g.blocked ≡ true
    → (operate_all g os).blocked ≡ true
unfolding operate_all
operate_all-blocked g [] h b = b
operate_all-blocked g (o ∷ os) h b =
    operate_all-blocked (operate g o) os h.1 (operate-blocked g o h.0 b)

blocked_silent :
    (g : MotionCommandGate) (command : MotionCommand) (now : ℕ)
    → g.blocked ≡ true
    → ((offer g command).1 ≡ none) × ((keepalive_due g now).1 ≡ none)
unfolding offer keepalive_due
blocked_silent g command now b = ground arith

-- An ACK with an error for the command in flight stops the motion: whatever happens next, until
-- `reset` or `resume` no offered command is returned and no keepalive is due.
pub failure_stops :
    (g : MotionCommandGate) (c command : MotionCommand) (sequence now later : ℕ)
    (os : List Operation)
    → g.inflight_command ≡ some c
    → g.inflight_sequence ≡ some sequence
    → NoneUnblocks os
    → let h = operate_all (acknowledge g sequence false now).0 os in
      ((offer h command).1 ≡ none) × ((keepalive_due h later).1 ≡ none)
failure_stops g c command sequence now later os e es none_unblocks =
    blocked_silent _ command later
      (operate_all-blocked _ os none_unblocks (failed g c sequence now e es))
  where
    failed :
        (g : MotionCommandGate) (c : MotionCommand) (sequence now : ℕ)
        → g.inflight_command ≡ some c
        → g.inflight_sequence ≡ some sequence
        → (acknowledge g sequence false now).0.blocked ≡ true
    failed g c sequence now e es = unfold acknowledge in ground arith

times_out-blocked :
    (g : MotionCommandGate) (now : ℕ)
    → (check_timeout g now).1 ≡ true
    → (check_timeout g now).0.blocked ≡ true
unfolding check_timeout
times_out-blocked g now h = ground arith

-- A missing ACK stops the motion too: after a time-out, whatever happens next, until `reset` or
-- `resume` no offered command is returned and no keepalive is due.
pub timeout_stops :
    (g : MotionCommandGate) (command : MotionCommand) (now later : ℕ) (os : List Operation)
    → (check_timeout g now).1 ≡ true
    → NoneUnblocks os
    → let h = operate_all (check_timeout g now).0 os in
      ((offer h command).1 ≡ none) × ((keepalive_due h later).1 ≡ none)
timeout_stops g command now later os fired none_unblocks =
    blocked_silent _ command later
      (operate_all-blocked _ os none_unblocks (times_out-blocked g now fired))
