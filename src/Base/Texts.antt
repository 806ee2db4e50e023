-- ===== src/Base/Texts.antt =====
-- Texts as the lists of their characters' codes.
use Prim.Native.Nat.{ℕ, ◌+◌}
use Prim.Native.Char.{code}
use Prim.Native.String.{String}
use mathlib.Core.Bool.{Bool, true, false, ◌&&◌, ◌||◌}
use mathlib.Core.List.{List, [], ◌∷◌, map}
use package.navigation_robot.Base.Bytes.{starts_with}
use package.navigation_robot.Base.Tests.{leb, ◌==◌, if◌then◌else◌}

abbrev pub codes : String → List ℕ
codes String.[] = []
codes (String.◌∷◌ c s) = code c ∷ codes s

-- Python's `==` on texts.
abbrev pub eq_text : List ℕ → List ℕ → Bool
eq_text [] [] = true
eq_text [] (d ∷ t) = false
eq_text (c ∷ s) [] = false
eq_text (c ∷ s) (d ∷ t) = c == d && eq_text s t

-- Python's `part in text`: the part stands somewhere in the text.
abbrev pub is_part : List ℕ → List ℕ → Bool
is_part part [] = starts_with part []
is_part part (c ∷ text) = starts_with part (c ∷ text) || is_part part text

-- `str.lower` on ASCII.
abbrev pub lower_code : ℕ → ℕ
lower_code c = if leb b'A' c && leb c b'Z' then c + 32 else c

abbrev pub lower : List ℕ → List ℕ
lower = map lower_code
