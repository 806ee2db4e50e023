-- ===== src/Base/Bytes.antt =====
-- Bytes as numbers, `struct.pack` and `struct.unpack` for little-endian words, and `bytes.find`.
use Prim.Native.Nat.{ℕ, suc, ◌+◌, ◌-◌, ◌*◌, ◌/◌, ◌%◌, ◌≤◌, ◌<◌}
use mathlib.Core.Path.{◌≡◌, refl, sym, ◌∙◌}
use mathlib.Core.Logic.{inl, inr}
use mathlib.Core.Bool.{Bool, true, false, ◌&&◌}
use mathlib.Core.Option.{Option, none, some}
use mathlib.Core.List.{List, [], ◌∷◌, ◌++◌}
use native.Mathlib.Omega.{arith}
use package.navigation_robot.Base.Tests.{ltb, leb, ◌==◌, if◌then◌else◌, Bool-cases, Option-cases}
use package.navigation_robot.Base.Lists.{length, get_or, drop, length-append}
use package.navigation_robot.Base.Results.{Result, ok, err, struct_error}
use package.navigation_robot.Base.Int.{ℤ, pos, negsuc}

abbrev pub IsByte : ℕ → Type 0
IsByte b = b < 256

-- `n & 0xFF`.
abbrev pub low8 : ℕ → ℕ
low8 n = n % 256

-- The formats `B`, `H` and `h` of `struct.pack`, which raises an error for a value out of range.
abbrev pub pack_u8 : ℕ → Result (List ℕ)
pack_u8 n = if ltb n 256 then ok (n ∷ []) else err struct_error

abbrev pub le16 : ℕ → List ℕ
le16 n = (n % 256) ∷ (n / 256) ∷ []

abbrev pub pack_u16 : ℕ → Result (List ℕ)
pack_u16 n = if ltb n 65536 then ok (le16 n) else err struct_error

abbrev pub pack_i16 : ℤ → Result (List ℕ)
pack_i16 (pos n) = if ltb n 32768 then ok (le16 n) else err struct_error
pack_i16 (negsuc n) = if ltb n 32768 then ok (le16 (65535 - n)) else err struct_error

abbrev pub le32 : ℕ → List ℕ
le32 n = (n % 256) ∷ (n / 256 % 256) ∷ (n / 65536 % 256) ∷ (n / 16777216) ∷ []

abbrev pub pack_u32 : ℕ → Result (List ℕ)
pack_u32 n = if ltb n 4294967296 then ok (le32 n) else err struct_error

-- The formats `H`, `h` and `I` of `struct.unpack_from` at an offset within the bytes.
abbrev pub u16_at : List ℕ → ℕ → ℕ
u16_at b i = get_or b i 0 + 256 * get_or b (i + 1) 0

abbrev pub i16_of : ℕ → ℤ
i16_of n = if ltb n 32768 then pos n else negsuc (65535 - n)

abbrev pub i16_at : List ℕ → ℕ → ℤ
i16_at b i = i16_of (u16_at b i)

abbrev pub u32_at : List ℕ → ℕ → ℕ
u32_at b i = u16_at b i + 65536 * u16_at b (i + 2)

abbrev pub starts_with : List ℕ → List ℕ → Bool
starts_with [] b = true
starts_with (x ∷ p) [] = false
starts_with (x ∷ p) (y ∷ b) = x == y && starts_with p b

abbrev next : Option ℕ → Option ℕ
next none = none
next (some i) = some (suc i)

-- `b.find(p)`: the first position at which `p` stands in `b`; `none` for the -1 of Python.
unfoldable pub find : List ℕ → List ℕ → Option ℕ
find p [] = if starts_with p [] then some 0 else none
find p (y ∷ b) = if starts_with p (y ∷ b) then some 0 else next (find p b)

-- `b[-k:]` for a positive `k`: the last `k` bytes, or all if there are fewer.
abbrev pub last : ℕ → List ℕ → List ℕ
last k b = drop (length b - k) b

-- A match in the first bytes stays one whatever follows.
pub starts_with-append : (p b c : List ℕ) → starts_with p b ≡ true → starts_with p (b ++ c) ≡ true
starts_with-append [] b c h = refl
starts_with-append (x ∷ p) [] c h = ground arith
starts_with-append (x ∷ p) (y ∷ b) c h = ground (arith, starts_with-append p b c)

-- Where the bytes are as many as the pattern, what follows cannot make a match.
pub starts_with-append_false :
    (p b c : List ℕ)
    → length p ≤ length b
    → starts_with p b ≡ false
    → starts_with p (b ++ c) ≡ false
starts_with-append_false [] b c h k = k
starts_with-append_false (x ∷ p) [] c h k = absurd (omega arith)
starts_with-append_false (x ∷ p) (y ∷ b) c h k = ground (arith, starts_with-append_false p b c)

find-nil : (b : List ℕ) → find [] b ≡ some 0
unfolding find
find-nil [] = refl
find-nil (y ∷ b) = refl

starts_with_bound : (p b : List ℕ) → starts_with p b ≡ true → length p ≤ length b
starts_with_bound [] b h = omega arith
starts_with_bound (x ∷ p) [] h = ground arith
starts_with_bound (x ∷ p) (y ∷ b) h = ground (arith, starts_with_bound p b)

-- A found position leaves room for the pattern.
pub find_bound : (p b : List ℕ) (i : ℕ) → find p b ≡ some i → i + length p ≤ length b
unfolding find
find_bound [] [] i h = ground arith
find_bound (x ∷ p) [] i h = ground arith
find_bound p (y ∷ b) i h = elim (Option-cases (find p b)) [
  | inl o ↦ ground (arith, starts_with_bound p (y ∷ b))
  | inr (j, o) ↦ ground (arith, starts_with_bound p (y ∷ b), find_bound p b j)
]

-- A found position stays the first one whatever follows.
pub find-append : (p b c : List ℕ) (i : ℕ) → find p b ≡ some i → find p (b ++ c) ≡ some i
unfolding find
find-append [] [] c i h = find-nil c ∙ h
find-append (x ∷ p) [] c i h = ground arith
find-append p (y ∷ b) c i h = elim (Bool-cases (starts_with p (y ∷ b))) [
  | inl e ↦ rw (starts_with-append p (y ∷ b) c e) (rw e at h)
  | inr e ↦ elim (Option-cases (find p b)) [
    | inl o ↦ ground arith
    | inr (j, o) ↦
        rw (starts_with-append_false p (y ∷ b) c (omega (arith, find_bound p b j o)) e)
          (ground (arith, find-append p b c j))
  ]
]

pub last-nil : (k : ℕ) → last k [] ≡ []
last-nil k = let e : 0 - k ≡ 0 = omega arith in rw e

last-all : (k : ℕ) (b : List ℕ) → length b ≤ k → last k b ≡ b
last-all k b h = let e : length b - k ≡ 0 = omega arith in rw e

pub last-cons : (k y : ℕ) (b : List ℕ) → k ≤ length b → last k (y ∷ b) ≡ last k b
last-cons k y b h = let e : suc (length b) - k ≡ suc (length b - k) = omega arith in rw e

-- The bytes from the first match on.
unfoldable pub after : List ℕ → List ℕ → Option (List ℕ)
after p b = elim (find p b) [ none ↦ none | some i ↦ some (drop i b) ]

pub after-cons :
    (p : List ℕ) (y : ℕ) (b : List ℕ) → starts_with p (y ∷ b) ≡ false → after p (y ∷ b) ≡ after p b
unfolding after find
after-cons p y b h = ground arith

find-cons_none :
    (p : List ℕ) (y : ℕ) (b : List ℕ)
    → find p (y ∷ b) ≡ none
    → (starts_with p (y ∷ b) ≡ false) × (find p b ≡ none)
unfolding find
find-cons_none p y b h = ground arith

-- Where there is no match, all but the last bytes, one fewer than the pattern has, can be forgotten.
pub after-append_last :
    (x : ℕ) (p b c : List ℕ)
    → find (x ∷ p) b ≡ none
    → after (x ∷ p) (b ++ c) ≡ after (x ∷ p) (last (length p) b ++ c)
unfolding find
after-append_last x p [] c h = rw (last-nil (length p))
after-append_last x p (y ∷ b) c h = elim (Bool-cases (leb (length b + 1) (length p))) [
  | inl e ↦ rw (last-all (length p) (y ∷ b) (ground arith))
  | inr e ↦
      let (differs, none_left) = find-cons_none (x ∷ p) y b h in
      after-cons (x ∷ p) y (b ++ c)
        (starts_with-append_false (x ∷ p) (y ∷ b) c (ground arith) differs)
      ∙ rw (last-cons (length p) y b (ground arith)) (after-append_last x p b c none_left)
]

pub last-append_last : (k : ℕ) (b c : List ℕ) → last k (last k b ++ c) ≡ last k (b ++ c)
last-append_last k [] c = rw (last-nil k)
last-append_last k (y ∷ b) c = elim (Bool-cases (leb (length b + 1) k)) [
  | inl e ↦ rw (last-all k (y ∷ b) (ground arith))
  | inr e ↦
      rw (last-cons k y b (ground arith))
        (last-append_last k b c ∙ sym (last-cons k y (b ++ c) (ground (arith, length-append b c))))
]

-- There the pattern is found at once.
pub find-drop : (p b : List ℕ) (i : ℕ) → find p b ≡ some i → starts_with p (drop i b) ≡ true
unfolding find
find-drop [] b i h = refl
find-drop (x ∷ p) [] i h = ground arith
find-drop (x ∷ p) (y ∷ b) i h = elim (Bool-cases (starts_with (x ∷ p) (y ∷ b))) [
  | inl e ↦ ground arith
  | inr e ↦ elim (Option-cases (find (x ∷ p) b)) [
    | inl o ↦ ground arith
    | inr (j, o) ↦ ground (arith, find-drop (x ∷ p) b j)
  ]
]

pub find_front : (p b : List ℕ) → starts_with p b ≡ true → find p b ≡ some 0
unfolding find
find_front p [] h = rw h
find_front p (y ∷ b) h = rw h

pub after-found : (p b : List ℕ) (i : ℕ) → find p b ≡ some i → after p b ≡ some (drop i b)
unfolding after
after-found p b i h = rw (h, after)

pub after-none : (p b : List ℕ) → find p b ≡ none → after p b ≡ none
unfolding after
after-none p b h = rw (h, after)
