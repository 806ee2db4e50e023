-- ===== src/Telemetry/Rates.antt =====
-- What the rate meter counts, over a wrapping sequence number and a window of samples.
use navigation_robot.Base.{
  ℕ, ◌+◌, ◌%◌, ◌≤◌, ◌<◌, ◌≡◌, refl, ◌∙◌, Option, none, some, List, [], ◌∷◌, ◌++◌, arith, All,
  All-append, ge→ltb, lt→ltb, ltb→lt, ltb→ge, Bool-cases, inl, inr, leb, ltb, if◌then◌else◌, length,
}
use mathlib.Core.Path.{subst}
use navigation_robot.Telemetry.{
  Sample, TelemetryRateMeter, new_meter, reset, steps_since, trim, rates, restarted, update,
}

-- A sample that the totals have reached.
pub record IsPast (total feedback : ℕ) (s : Sample) : Type 0 where
  pub frames_past : s.frames ≤ total
  pub feedback_past : s.feedback ≤ feedback

abbrev pub PastOf : ℕ → Option ℕ → List Sample → Type 0
PastOf total none samples = samples ≡ []
PastOf total (some feedback) samples = All (IsPast total feedback) samples

abbrev pub IsValid : TelemetryRateMeter → Type 0
IsValid m = PastOf m.heartbeat_total m.last_feedback m.samples

IsPast-mono : (t u f g : ℕ) (s : Sample) → t ≤ u → f ≤ g → IsPast t f s → IsPast u g s
IsPast-mono t u f g s h k p = ground arith

All-IsPast_mono :
    (t u f g : ℕ) (samples : List Sample)
    → t ≤ u
    → f ≤ g
    → All (IsPast t f) samples
    → All (IsPast u g) samples
All-IsPast_mono t u f g [] h k p = tt
All-IsPast_mono t u f g (s ∷ samples) h k (p, ps) =
    (IsPast-mono t u f g s h k p, All-IsPast_mono t u f g samples h k ps)

trim-suc :
    (window now : ℕ) (a b c : Sample) (rest : List Sample)
    → trim window now (a ∷ b ∷ c ∷ rest)
      ≡ (if leb (b.time + window) now then trim window now (b ∷ c ∷ rest) else a ∷ b ∷ c ∷ rest)
unfolding trim
trim-suc window now a b c rest = refl

All-trim :
    (P : Sample → Type 0) (window now : ℕ) (samples : List Sample)
    → All P samples
    → All P (trim window now samples)
unfolding trim
All-trim P window now [] h = h
All-trim P window now (a ∷ []) h = h
All-trim P window now (a ∷ b ∷ []) h = h
All-trim P window now (a ∷ b ∷ c ∷ rest) h = elim (Bool-cases (leb (b.time + window) now)) [
  | inl e ↦ rw e (All-trim P window now (b ∷ c ∷ rest) h.1)
  | inr e ↦ rw e h
]

-- What `restarted` gives, on each of its branches.
restarted-none :
    (m : TelemetryRateMeter) (feedback : ℕ) → m.last_feedback ≡ none → restarted m feedback ≡ m
unfolding restarted
restarted-none m feedback e = rw e

restarted_kept :
    (m : TelemetryRateMeter) (feedback last : ℕ)
    → m.last_feedback ≡ some last
    → last ≤ feedback
    → restarted m feedback ≡ m
unfolding restarted
restarted_kept m feedback last e h = rw (e, ge→ltb feedback last h)

restarted_fallen :
    (m : TelemetryRateMeter) (feedback last : ℕ)
    → m.last_feedback ≡ some last
    → feedback < last
    → restarted m feedback ≡ reset m
unfolding restarted
restarted_fallen m feedback last e h = rw (e, lt→ltb feedback last h)

-- The samples are past what the meter has reached.
abbrev ArePast : ℕ → TelemetryRateMeter → Type 0
ArePast feedback m = All (IsPast m.heartbeat_total feedback) m.samples

restarted-ArePast :
    (m : TelemetryRateMeter) (feedback : ℕ) → IsValid m → ArePast feedback (restarted m feedback)
restarted-ArePast m feedback v = go m.last_feedback refl v
  where
    go :
        (last : Option ℕ)
        → m.last_feedback ≡ last
        → PastOf m.heartbeat_total last m.samples
        → ArePast feedback (restarted m feedback)
    go none e h = rw (restarted-none m feedback e, h) tt
    go (some last) e h = elim (Bool-cases (ltb feedback last)) [
      | inl fallen ↦
          rw (restarted_fallen m feedback last e (ltb→lt feedback last fallen)) (unfold reset in tt)
      | inr kept ↦ rw (restarted_kept m feedback last e (ltb→ge feedback last kept)) (
          All-IsPast_mono m.heartbeat_total m.heartbeat_total last feedback m.samples (omega arith)
            (ltb→ge feedback last kept) h)
    ]

update-IsPast :
    (m : TelemetryRateMeter) (now sequence feedback : ℕ)
    → IsValid m
    → let n = (update m now sequence feedback).0 in
      All (IsPast n.heartbeat_total feedback) n.samples
unfolding update
update-IsPast m now sequence feedback v =
    let r = restarted m feedback in
    let total = r.heartbeat_total + steps_since sequence r.last_sequence in
    let old : All (IsPast total feedback) r.samples =
      All-IsPast_mono r.heartbeat_total total feedback feedback r.samples (omega arith)
        (omega arith) (restarted-ArePast m feedback v) in
    All-trim (IsPast total feedback) r.window now
      (r.samples ++ (record { time = now; frames = total; feedback = feedback } ∷ []))
      (All-append (IsPast total feedback) r.samples _ old (omega arith, tt))

-- Every update keeps the meter valid: no sample is ahead of the totals.
pub update-IsValid :
    (m : TelemetryRateMeter) (now sequence feedback : ℕ)
    → IsValid m
    → IsValid (update m now sequence feedback).0
unfolding update
update-IsValid m now sequence feedback v = update-IsPast m now sequence feedback v

rates-exact :
    (a b : Sample) (rest : List Sample) (now total feedback : ℕ)
    → IsPast total feedback a
    → a.time < now
    → let (telemetry, fed) = rates (a ∷ b ∷ rest) now total feedback in
      (telemetry.count + a.frames ≡ total)
      × (fed.count + a.feedback ≡ feedback)
      × (telemetry.duration + a.time ≡ now)
      × (fed.duration + a.time ≡ now)
unfolding rates
rates-exact a b rest now total feedback p h = ground arith

-- The rates of a valid meter are exact differences to its oldest sample: the subtractions never fall
-- below 0, so the `max` of the code is never needed.
pub update-exact :
    (m : TelemetryRateMeter) (now sequence feedback : ℕ) (a b : Sample) (rest : List Sample)
    → IsValid m
    → (update m now sequence feedback).0.samples ≡ a ∷ b ∷ rest
    → a.time < now
    → let (n, (telemetry, fed)) = update m now sequence feedback in
      (telemetry.count + a.frames ≡ n.heartbeat_total)
      × (fed.count + a.feedback ≡ feedback)
      × (telemetry.duration + a.time ≡ now)
      × (fed.duration + a.time ≡ now)
unfolding update
update-exact m now sequence feedback a b rest v e h =
    let past = subst (All (IsPast _ feedback)) e (update-IsPast m now sequence feedback v) in
    rw e (rates-exact a b rest now _ feedback past.0 h)

-- Only the oldest sample may lie outside the window, and at least two samples are kept if there are
-- two.
abbrev pub FitsWindow : ℕ → ℕ → List Sample → Type 0
FitsWindow window now (a ∷ b ∷ c ∷ rest) = now < b.time + window
FitsWindow window now _ = Unit

trim-FitsWindow :
    (window now : ℕ) (samples : List Sample)
    → FitsWindow window now (trim window now samples)
      × (2 ≤ length samples → 2 ≤ length (trim window now samples))
unfolding trim
trim-FitsWindow window now [] = (tt, λ h. h)
trim-FitsWindow window now (a ∷ []) = (tt, λ h. h)
trim-FitsWindow window now (a ∷ b ∷ []) = (tt, λ h. h)
trim-FitsWindow window now (a ∷ b ∷ c ∷ rest) = elim (Bool-cases (leb (b.time + window) now)) [
  | inl e ↦
      let (fits, kept) = trim-FitsWindow window now (b ∷ c ∷ rest) in
      rw e (fits, λ h. kept (omega arith))
  | inr e ↦ rw e (ground arith, λ h. omega arith)
]

-- After every update all samples but the oldest lie within the window, unless only two are kept.
pub update-FitsWindow :
    (m : TelemetryRateMeter) (now sequence feedback : ℕ)
    → FitsWindow (restarted m feedback).window now (update m now sequence feedback).0.samples
unfolding update
update-FitsWindow m now sequence feedback = (trim-FitsWindow _ now _).0

-- A report as the sender sees it: its sequence number is the low byte of a counter.
pub record Report : Type 0 where
  pub time : ℕ
  pub counter : ℕ
  pub feedback : ℕ

pub update_all : TelemetryRateMeter → List Report → TelemetryRateMeter
update_all m [] = m
update_all m (r ∷ rs) = update_all (update m r.time (r.counter % 256) r.feedback).0 rs

-- The counter moves on by less than 256 from report to report, and the feedback does not fall.
abbrev pub IsSteady : ℕ → ℕ → List Report → Type 0
IsSteady counter feedback [] = Unit
IsSteady counter feedback (r ∷ rs) =
    (counter ≤ r.counter)
    × (r.counter < counter + 256)
    × (feedback ≤ r.feedback)
    × IsSteady r.counter r.feedback rs

abbrev pub last_counter : ℕ → List Report → ℕ
last_counter counter [] = counter
last_counter counter (r ∷ rs) = last_counter r.counter rs

update-total :
    (m : TelemetryRateMeter) (now counter next feedback fed : ℕ)
    → m.last_sequence ≡ some (counter % 256)
    → m.last_feedback ≡ some feedback
    → counter ≤ next
    → next < counter + 256
    → feedback ≤ fed
    → let n = (update m now (next % 256) fed).0 in
      (n.heartbeat_total + counter ≡ m.heartbeat_total + next)
      × (n.last_sequence ≡ some (next % 256))
      × (n.last_feedback ≡ some fed)
unfolding update
update-total m now counter next feedback fed es ef up near kept =
    rw (restarted_kept m fed feedback ef kept, es) (omega arith, refl, refl)

update_all-total_from :
    (m : TelemetryRateMeter) (counter feedback : ℕ) (rs : List Report)
    → m.last_sequence ≡ some (counter % 256)
    → m.last_feedback ≡ some feedback
    → IsSteady counter feedback rs
    → (update_all m rs).heartbeat_total + counter ≡ m.heartbeat_total + last_counter counter rs
unfolding update_all
update_all-total_from m counter feedback [] es ef steady = refl
update_all-total_from m counter feedback (r ∷ rs) es ef (up, near, kept, steady) =
    let (moved, es', ef') =
      update-total m r.time counter r.counter feedback r.feedback es ef up near kept in
    omega (
      arith,
      moved,
      update_all-total_from (update m r.time (r.counter % 256) r.feedback).0 r.counter r.feedback rs
          es' ef' steady,
    )

-- From the first report on, as long as the feedback does not fall and the sender's counter moves on by
-- less than 256 from each report to the next, a new meter counts every frame that the sender counted,
-- although it sees only the low byte of the counter.
pub update_all-total :
    (r : Report) (rs : List Report)
    → IsSteady r.counter r.feedback rs
    → (update_all new_meter (r ∷ rs)).heartbeat_total + r.counter ≡ last_counter r.counter rs
unfolding update_all update restarted
update_all-total r rs steady =
    update_all-total_from _ r.counter r.feedback rs refl refl steady ∙ omega arith
