-- ===== src/LocalMap/Cells.antt =====
-- Which pixel each cell of the grid comes from.
use navigation_robot.Base.{
  ℕ, zero, suc, ◌+◌, ◌-◌, ◌*◌, ◌≤◌, ◌<◌, ◌≡◌, refl, ap, ◌∙◌, List, [], ◌∷◌, arith, length, get_or,
  take, drop, length-take, length-drop, get_or-append, get_or-append_right,
}
use native.Mathlib.Nat.{zero-add, suc-add}
use navigation_robot.Base.Int.{ℤ}
use navigation_robot.LocalMap.{Thresholds, cell, cells, convert}

get_or-drop : (n : ℕ) (xs : List ℤ) (i : ℕ) (d : ℤ) → get_or (drop n xs) i d ≡ get_or xs (n + i) d
get_or-drop zero xs i d = rw zero-add
get_or-drop (suc n) [] i d = refl
get_or-drop (suc n) (x ∷ xs) i d = rw suc-add (get_or-drop n xs i d)

get_or-take : (n : ℕ) (xs : List ℤ) (i : ℕ) (d : ℤ) → i < n → get_or (take n xs) i d ≡ get_or xs i d
get_or-take zero xs i d h = absurd (omega arith)
get_or-take (suc n) [] i d h = refl
get_or-take (suc n) (x ∷ xs) zero d h = refl
get_or-take (suc n) (x ∷ xs) (suc i) d h = get_or-take n xs i d (omega arith)

module _ (t : Thresholds) where
  length-cells : (xs : List ℤ) → length (cells t xs) ≡ length xs
  unfolding cells
  length-cells [] = refl
  length-cells (x ∷ xs) = ap suc (length-cells xs)

  get_or-cells :
      (xs : List ℤ) (i : ℕ) (d : ℤ)
      → i < length xs
      → get_or (cells t xs) i (cell t d) ≡ cell t (get_or xs i d)
  unfolding cells
  get_or-cells [] i d h = absurd (omega arith)
  get_or-cells (x ∷ xs) zero d h = refl
  get_or-cells (x ∷ xs) (suc i) d h = get_or-cells xs i d (omega arith)

  -- The row of an image that the conversion takes first.
  abbrev row : ℕ → ℕ → List ℤ → List ℤ
  row width image_y pixels = cells t (take width (drop (image_y * width) pixels))

  length-row :
      (width image_y : ℕ) (pixels : List ℤ)
      → image_y * width + width ≤ length pixels
      → length (row width image_y pixels) ≡ width
  length-row width image_y pixels h =
      let taken = drop (image_y * width) pixels in
      omega (
        arith,
        length-cells (take width taken),
        length-take width taken,
        length-drop (image_y * width) pixels,
      )

  get_or-row :
      (width image_y x : ℕ) (pixels : List ℤ) (d : ℤ)
      → image_y * width + width ≤ length pixels
      → x < width
      → get_or (row width image_y pixels) x (cell t d)
        ≡ cell t (get_or pixels (image_y * width + x) d)
  get_or-row width image_y x pixels d h k =
      let taken = drop (image_y * width) pixels in
      let inside : x < length (take width taken) =
        omega (arith, length-take width taken, length-drop (image_y * width) pixels) in
      get_or-cells (take width taken) x d inside
      ∙ ap (cell t) (get_or-take width taken x d k ∙ get_or-drop (image_y * width) pixels x d)

  -- The first row of cells is the last row of the image, and so on: the cell in column `x` of row
  -- `map_y` has the value of the pixel in that column of the row that is as far from the bottom of
  -- the image. This holds for every cell of an image with at least as many pixels as it needs.
  pub convert-cell :
      (width height map_y x : ℕ) (pixels : List ℤ) (d : ℤ)
      → height * width ≤ length pixels
      → x < width
      → map_y < height
      → get_or (convert t width height pixels) (map_y * width + x) (cell t d)
        ≡ cell t (get_or pixels ((height - map_y - 1) * width + x) d)
  unfolding convert
  convert-cell width zero map_y x pixels d h k l = absurd (omega arith)
  convert-cell width (suc y) zero x pixels d h k l =
      let first = row width y pixels in
      let at_x : 0 * width + x ≡ x = omega arith in
      let last_row : suc y - 0 - 1 ≡ y = omega arith in
      let enough : y * width + width ≤ length pixels = omega arith in
      rw (at_x, last_row)
        (get_or-append first (convert t width y pixels) x (cell t d)
            (omega (arith, length-row width y pixels enough))
          ∙ get_or-row width y x pixels d enough k)
  convert-cell width (suc y) (suc m) x pixels d h k l =
      let first = row width y pixels in
      let enough : y * width + width ≤ length pixels = omega arith in
      let past : suc m * width + x ≡ length first + (m * width + x) =
        omega (arith, length-row width y pixels enough) in
      let same_row : suc y - suc m - 1 ≡ y - m - 1 = omega arith in
      rw (past, same_row)
        (get_or-append_right first (convert t width y pixels) (m * width + x) (cell t d)
          ∙ convert-cell width y m x pixels d (omega arith) k (omega arith))
