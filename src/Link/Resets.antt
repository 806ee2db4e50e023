-- ===== src/Link/Resets.antt =====
-- The boot banner is found however the bytes are cut into reads.
use navigation_robot.Base.{
  ℕ, zero, suc, ◌+◌, ◌<◌, ◌≡◌, refl, sym, ap, ◌∙◌, Bool, true, false, ◌||◌, none, some, List, [],
  ◌∷◌, ◌++◌, append-nil, append_assoc, arith, ◌↔◌, lt→ltb, length-append, length, drop, drop-append,
  drop-drop, length-drop, replicate, replicate-append, Option-cases, inl, inr, ltb, if◌then◌else◌,
}
use native.Mathlib.Nat.{zero-add, suc-add}
use mathlib.Core.Path.{subst}
use navigation_robot.Base.Bytes.{
  find, find-append, find_bound, last, after, after-append_last, after-found, after-none,
  last-append_last,
}
use navigation_robot.Config.{reset_marker}
use navigation_robot.Link.{ResetDetector, marker_keep, scan, recent, feed}

-- The markers in some bytes, one after the other, and what is kept at the end.
data Scans : List ℕ → ℕ → List ℕ → Type 0 where
  ends : {b rest : List ℕ} → find reset_marker b ≡ none → rest ≡ last marker_keep b → Scans b 0 rest
  hits :
      {b rest : List ℕ} {n : ℕ} (i : ℕ)
      → find reset_marker b ≡ some i
      → Scans (drop (i + 8) b) n rest
      → Scans b (suc n) rest

after-none-find : (p b : List ℕ) → after p b ≡ none → find p b ≡ none
after-none-find p b e = elim (Option-cases (find p b)) [
  | inl o ↦ o
  | inr (i, o) ↦ cc (after-found p b i o)
]

after-some-find :
    (p b l : List ℕ) → after p b ≡ some l → (i : ℕ) × (find p b ≡ some i) × (drop i b ≡ l)
after-some-find p b l e = elim (Option-cases (find p b)) [
  | inl o ↦ cc (after-none p b o)
  | inr (i, o) ↦ (i, o, cc (after-found p b i o))
]

-- Bytes without a marker can be forgotten up to the last seven.
Scans-forget :
    (b c : List ℕ) {rest : List ℕ} {n : ℕ}
    → find reset_marker b ≡ none
    → Scans (last marker_keep b ++ c) n rest
    → Scans (b ++ c) n rest
Scans-forget b c h (ends none_here kept) =
    ends
      (after-none-find reset_marker (b ++ c)
        (after-append_last _ _ b c h ∙ after-none reset_marker (last marker_keep b ++ c) none_here))
      (kept ∙ last-append_last marker_keep b c)
Scans-forget b c {rest} h (hits {n = n} i here later) =
    let (j, found, same) =
      after-some-find reset_marker (b ++ c) (drop i (last marker_keep b ++ c))
        (after-append_last _ _ b c h ∙ after-found reset_marker (last marker_keep b ++ c) i here) in
    hits j found (
      subst (λ t. Scans t n rest)
        (sym (drop-drop 8 i (last marker_keep b ++ c))
          ∙ ap (drop 8) (sym same)
          ∙ drop-drop 8 j (b ++ c))
        later)

Scans-append :
    (c : List ℕ) {b rest end : List ℕ} {n m : ℕ}
    → Scans b n rest
    → Scans (rest ++ c) m end
    → Scans (b ++ c) (n + m) end
Scans-append c {b} {end = end} {m = m} (ends h kept) more =
    rw zero-add (Scans-forget b c h (subst (λ t. Scans (t ++ c) m end) kept more))
Scans-append c {b} {end = end} {m = m} (hits {n = n} i here later) more = rw suc-add (
    hits i (find-append reset_marker b c i here)
      (rw (drop-append (i + 8) b c (find_bound reset_marker b i here)) (Scans-append c later more)))

-- The detector after the markers.
abbrev marked : ℕ → ResetDetector → Bool → ℕ → List ℕ → ResetDetector × Bool
marked now d found n rest =
    (record { buffer = rest; reset_times = d.reset_times ++ replicate n now }, found || ltb 0 n)

scan_idle :
    (fuel now : ℕ) (d : ResetDetector) (found : Bool)
    → find reset_marker d.buffer ≡ none
    → scan (suc fuel) now d found ≡ (record d { buffer = last marker_keep d.buffer }, found)
unfolding scan
scan_idle fuel now d found h = rw (h, scan)

-- The detector past a marker.
abbrev past : ℕ → ResetDetector → ℕ → ResetDetector
past now d i = record d {
  buffer = drop (i + 8) d.buffer;
  reset_times = d.reset_times ++ (now ∷ []);
}

scan-found :
    (fuel now : ℕ) (d : ResetDetector) (found : Bool) (i : ℕ)
    → find reset_marker d.buffer ≡ some i
    → scan (suc fuel) now d found ≡ scan fuel now (past now d i) true
unfolding scan
scan-found fuel now d found i h = rw (h, scan)

marked_zero :
    (now : ℕ) (d : ResetDetector) (found : Bool) (rest : List ℕ)
    → marked now d found 0 rest ≡ (record d { buffer = rest }, found)
marked_zero now d true rest = rw append-nil
marked_zero now d false rest = rw append-nil

marked-suc :
    (now : ℕ) (d : ResetDetector) (found : Bool) (i n : ℕ) (rest : List ℕ)
    → marked now (past now d i) true n rest ≡ marked now d found (suc n) rest
marked-suc now d true i n rest = rw append_assoc
marked-suc now d false i n rest = rw (append_assoc, lt→ltb 0 (suc n) (omega arith))

-- The loop ends, with the markers that the bytes hold.
scan-Scans :
    (fuel now : ℕ) (d : ResetDetector) (found : Bool)
    → length d.buffer < fuel
    → (n : ℕ) × (rest : List ℕ) × Scans d.buffer n rest
      × (scan fuel now d found ≡ marked now d found n rest)
scan-Scans zero now d found h = elim h [ ]
scan-Scans (suc fuel) now d found h = elim (Option-cases (find reset_marker d.buffer)) [
  | inl o ↦
      let rest = last marker_keep d.buffer in
      (0, rest, ends o refl, scan_idle fuel now d found o ∙ sym (marked_zero now d found rest))
  | inr (i, o) ↦
      let room = find_bound reset_marker d.buffer i o in
      let (n, rest, later, e) =
        scan-Scans fuel now (past now d i) true (omega (arith, length-drop {0} (i + 8) d.buffer)) in
      (
        suc n,
        rest,
        hits i o later,
        scan-found fuel now d found i o ∙ e ∙ marked-suc now d found i n rest,
      )
]

-- The markers determine the result of the loop.
Scans-scan :
    (fuel now : ℕ) (d : ResetDetector) (found : Bool) {n : ℕ} {rest : List ℕ}
    → length d.buffer < fuel
    → Scans d.buffer n rest
    → scan fuel now d found ≡ marked now d found n rest
Scans-scan zero now d found h scans = elim h [ ]
Scans-scan (suc fuel) now d found {rest = rest} h (ends o kept) =
    scan_idle fuel now d found o
    ∙ ap (λ (b : List ℕ). (record d { buffer = b }, found)) (sym kept)
    ∙ sym (marked_zero now d found rest)
Scans-scan (suc fuel) now d found {rest = rest} h (hits {n = n} i o later) =
    let room = find_bound reset_marker d.buffer i o in
    scan-found fuel now d found i o
    ∙ Scans-scan fuel now (past now d i) true (omega (arith, length-drop {0} (i + 8) d.buffer))
        later
    ∙ marked-suc now d found i n rest

recent-append : (now : ℕ) (xs ys : List ℕ) → recent now (xs ++ ys) ≡ recent now xs ++ recent now ys
unfolding recent
recent-append now [] ys = refl
recent-append now (x ∷ xs) ys = ground (arith, recent-append now xs ys)

recent-recent : (now : ℕ) (xs : List ℕ) → recent now (recent now xs) ≡ recent now xs
unfolding recent
recent-recent now [] = refl
recent-recent now (x ∷ xs) = ground (arith, recent-recent now xs)

-- A detector after its bytes were scanned.
abbrev scanned : ℕ → ResetDetector → ℕ → List ℕ → ResetDetector
scanned now d n rest = record {
  buffer = rest;
  reset_times = recent now (d.reset_times ++ replicate n now);
}

feed-Scans :
    (d : ResetDetector) (bytes : List ℕ) (now : ℕ)
    → (n : ℕ) × (rest : List ℕ) × Scans (d.buffer ++ bytes) n rest
      × ((feed d bytes now).0 ≡ scanned now d n rest)
unfolding feed
feed-Scans d bytes now =
    let (n, rest, scans, e) =
      scan-Scans (length (d.buffer ++ bytes) + 1) now (record d { buffer = d.buffer ++ bytes })
        false (omega arith) in
    (n, rest, scans, rw e)

module _ (d : ResetDetector) (bytes : List ℕ) (now : ℕ) {n : ℕ} {rest : List ℕ} where
  Scans-feed :
      Scans (d.buffer ++ bytes) n rest
      → feed d bytes now ≡ (
        scanned now d n rest,
        if ltb 0 n then length (recent now (d.reset_times ++ replicate n now)) else 0,
      )
  unfolding feed
  Scans-feed scans = rw (
      Scans-scan (length (d.buffer ++ bytes) + 1) now (record d { buffer = d.buffer ++ bytes })
        false (omega arith) scans)

recent_times :
    (now n m : ℕ) (times : List ℕ)
    → recent now (recent now (times ++ replicate n now) ++ replicate m now)
      ≡ recent now (times ++ replicate (n + m) now)
recent_times now n m times =
    recent-append now (recent now (times ++ replicate n now)) (replicate m now)
    ∙ ap (λ t. t ++ recent now (replicate m now)) (recent-recent now (times ++ replicate n now))
    ∙ sym (recent-append now (times ++ replicate n now) (replicate m now))
    ∙ ap (recent now) (
        append_assoc times (replicate n now) (replicate m now)
        ∙ ap (λ t. times ++ t) (replicate-append n m now))

-- Two reads that arrive at one moment leave the detector as one read of all their bytes does: no
-- banner is missed or counted twice, wherever the cut is.
pub feed-twice :
    (d : ResetDetector) (a b : List ℕ) (now : ℕ)
    → (feed (feed d a now).0 b now).0 ≡ (feed d (a ++ b) now).0
feed-twice d a b now =
    let (n, rest, first, e) = feed-Scans d a now in
    let (m, end, second, f) = feed-Scans (scanned now d n rest) b now in
    let both : Scans (d.buffer ++ (a ++ b)) (n + m) end =
      subst (λ t. Scans t (n + m) end) (append_assoc d.buffer a b) (Scans-append b first second) in
    ap (λ (r : ResetDetector). (feed r b now).0) e
    ∙ f
    ∙ ap (λ (times : List ℕ). record { buffer = end; reset_times = times })
        (recent_times now n m d.reset_times)
    ∙ sym (ap (λ (r : ResetDetector × ℕ). r.0) (Scans-feed d (a ++ b) now both))

recent-replicate : (now n : ℕ) → 0 < n → 0 < length (recent now (replicate n now))
unfolding recent
recent-replicate now zero h = elim h [ ]
recent-replicate now (suc n) h = ground arith

counted : (now n : ℕ) (times : List ℕ) → 0 < n → 0 < length (recent now (times ++ replicate n now))
counted now n times h = rw (recent-append now times (replicate n now)) (
    omega (
      arith,
      length-append {0} (recent now times) (recent now (replicate n now)),
      recent-replicate now n h,
    ))

-- A read reports resets exactly when the bytes that were kept and those that came hold a banner.
pub feed-found :
    (d : ResetDetector) (bytes : List ℕ) (now : ℕ)
    → ((feed d bytes now).1 ≡ 0) ↔ (find reset_marker (d.buffer ++ bytes) ≡ none)
feed-found d bytes now = let (n, rest, scans, _) = feed-Scans d bytes now in go n rest scans
  where
    go :
        (n : ℕ) (rest : List ℕ)
        → Scans (d.buffer ++ bytes) n rest
        → ((feed d bytes now).1 ≡ 0) ↔ (find reset_marker (d.buffer ++ bytes) ≡ none)
    go n rest (ends o kept) =
        (λ _. o, λ _. ap (λ (r : ResetDetector × ℕ). r.1) (Scans-feed d bytes now (ends o kept)))
    go n rest (hits {n = m} i o later) = (
      λ zero_count. absurd (
          ground (
            arith,
            counted now (suc m) d.reset_times,
            ap (λ (r : ResetDetector × ℕ). r.1) (Scans-feed d bytes now (hits i o later)),
          )),
      λ no_marker. cc,
    )
