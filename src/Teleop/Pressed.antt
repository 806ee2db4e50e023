-- ===== src/Teleop/Pressed.antt =====
-- What `read_key` gives, and what `normalize_key` makes of it.
use navigation_robot.Base.{
  ℕ, ◌≡◌, ◌⊎◌, inl, inr, refl, Bool, true, false, ◌&&◌, Option, none, List, [], ◌∷◌, ◌++◌, ltb,
  ◌==◌, if◌then◌else◌, ==→eq, Bool-cases,
}
use navigation_robot.Base.Texts.{codes, eq_text, is_part, lower_code}
use navigation_robot.Teleop.Keys.{
  Answer, silent, ended, byte, read_key, arrow_key, normalize_key, decoded, escape, read_more,
  lower_unless, read_first,
}

-- A key that is one character, or no part of the digits.
abbrev pub IsPlain : List ℕ → Type 0
IsPlain key = ((c : ℕ) × (key ≡ c ∷ [])) ⊎ (is_part key (codes "12345") ≡ false)

if-IsPlain :
    (raw : List ℕ) (test : Bool) (x y : Option (List ℕ))
    → IsPlain (lower_unless x raw)
    → IsPlain (lower_unless y raw)
    → IsPlain (lower_unless (if test then x else y) raw)
if-IsPlain raw true x y h k = h
if-IsPlain raw false x y h k = k

-- What `read_key` gives: nothing, one character, or an escape with what follows it.
abbrev pub IsRead : List ℕ → Type 0
IsRead raw = ((c : ℕ) × (raw ≡ c ∷ [])) ⊎ ((rest : List ℕ) × (raw ≡ escape ∷ rest))

and_false : (b : Bool) → (b && false) ≡ false
and_false true = refl
and_false false = refl

pub normalize_key-IsPlain : (raw : List ℕ) → IsRead raw → IsPlain (normalize_key raw)
unfolding normalize_key arrow_key
normalize_key-IsPlain raw (inl (c, e)) = rw (e, and_false (c == escape)) (inl (lower_code c, refl))
normalize_key-IsPlain raw (inr (rest, e)) = rw e (
    if-IsPlain (escape ∷ rest) (eq_text (escape ∷ rest) (escape ∷ codes "[A")) _ _
      (inl (b'w', refl))
      (if-IsPlain (escape ∷ rest) (eq_text (escape ∷ rest) (escape ∷ codes "[B")) _ _
        (inl (b's', refl))
        (if-IsPlain (escape ∷ rest) (eq_text (escape ∷ rest) (escape ∷ codes "[D")) _ _
          (inl (b'a', refl))
          (if-IsPlain (escape ∷ rest) (eq_text (escape ∷ rest) (escape ∷ codes "[C")) _ none
            (inl (b'd', refl)) (inr refl)))))

read_more-IsRead :
    (rest : List ℕ) (answers : List Answer)
    → (more : List ℕ) × (read_more (escape ∷ rest) answers ≡ escape ∷ more)
read_more-IsRead rest [] = (rest, refl)
read_more-IsRead rest (silent ∷ answers) = (rest, refl)
read_more-IsRead rest (ended ∷ answers) = read_more-IsRead rest answers
read_more-IsRead rest (byte c ∷ answers) = read_more-IsRead (rest ++ decoded c) answers

abbrev pub IsReadOrNone : List ℕ → Type 0
IsReadOrNone [] = Unit
IsReadOrNone (c ∷ raw) = IsRead (c ∷ raw)

IsRead→OrNone : (c : ℕ) (raw : List ℕ) → IsRead (c ∷ raw) → IsReadOrNone (c ∷ raw)
IsRead→OrNone c raw h = h

read_first-IsRead : (c : ℕ) (answers : List Answer) → IsReadOrNone (read_first (c ∷ []) answers)
unfolding read_first
read_first-IsRead c answers = elim (Bool-cases (c == escape)) [
  | inl e ↦
      let (rest, more) = read_more-IsRead [] answers in
      rw (e, ==→eq c escape e, more) (inr (rest, refl))
  | inr e ↦ rw e (inl (c, refl))
]

pub read_key-IsRead : (first second third : Answer) → IsReadOrNone (read_key first second third)
unfolding read_key
read_key-IsRead silent second third = tt
read_key-IsRead ended second third = tt
read_key-IsRead (byte c) second third = elim (Bool-cases (ltb c 128)) [
  | inl e ↦ rw e (read_first-IsRead c (second ∷ third ∷ []))
  | inr e ↦ rw e tt
]
