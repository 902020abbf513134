-- ===== src/Board/Ribbon/InRange.antt =====
-- The triangles of a stroke name vertices that are there.
use scoutpulse.Base.{
  ℕ, zero, suc, ◌+◌, ◌*◌, ◌≤◌, ◌<◌, ◌≡◌, refl, List, [], ◌∷◌, ◌++◌, arith, length, length-append,
  All, Number,
}
use scoutpulse.Board.Doc.{Vec2}
use scoutpulse.Board.Ribbon.{
  BufferGeometry, triangles, end_pair, joint_pair, strip_after, add_line, add_lines, ribbon,
}

-- every index is below a bound
abbrev pub IsBelow : ℕ → List ℕ → Type 0
IsBelow bound = All (λ i. i < bound)

append-IsBelow :
    (bound : ℕ) (xs ys : List ℕ) → IsBelow bound xs → IsBelow bound ys → IsBelow bound (xs ++ ys)
append-IsBelow bound [] ys h k = k
append-IsBelow bound (x ∷ xs) ys (h, hs) k = (h, append-IsBelow bound xs ys hs k)

widen-IsBelow : (a b : ℕ) (xs : List ℕ) → a ≤ b → IsBelow a xs → IsBelow b xs
widen-IsBelow a b [] h k = tt
widen-IsBelow a b (x ∷ xs) h (k, ks) = (omega arith, widen-IsBelow a b xs h ks)

triangles-IsBelow :
    (bound base k left : ℕ)
    → base + (k + left) * 2 + 2 ≤ bound
    → IsBelow bound (triangles base k left)
unfolding triangles
triangles-IsBelow bound base k zero h = tt
triangles-IsBelow bound base k (suc left) h =
    let rest = triangles-IsBelow bound base (k + 1) left (omega arith) in ground arith

length-triangles : (base k left : ℕ) → length (triangles base k left) ≡ 6 * left
unfolding triangles
length-triangles base k zero = refl
length-triangles base k (suc left) = omega (arith, length-triangles base (k + 1) left)

-- the points of the lines that are drawn, and their segments
abbrev pub points_drawn : {F : Type 0} → List (List (Vec2 F)) → ℕ
points_drawn [] = 0
points_drawn ([] ∷ lines) = points_drawn lines
points_drawn ((p ∷ []) ∷ lines) = points_drawn lines
points_drawn ((p ∷ q ∷ line) ∷ lines) = length (p ∷ q ∷ line) + points_drawn lines

abbrev pub segments_drawn : {F : Type 0} → List (List (Vec2 F)) → ℕ
segments_drawn [] = 0
segments_drawn ([] ∷ lines) = segments_drawn lines
segments_drawn ((p ∷ line) ∷ lines) = length line + segments_drawn lines

module _ {F : Type 0} ⦃n : Number F⦄ where
  length-strip_after :
      (hw lift : F) (prev here : Vec2 F) (line : List (Vec2 F))
      → length (strip_after hw lift prev here line) ≡ 2 * length line + 2
  unfolding strip_after end_pair joint_pair
  length-strip_after hw lift prev here [] = refl
  length-strip_after hw lift prev here (next ∷ line) =
      omega (arith, length-strip_after hw lift here next line)

  length-add_line :
      (hw lift : F) (g : BufferGeometry F) (p q : Vec2 F) (line : List (Vec2 F))
      → length (add_line hw lift g (p ∷ q ∷ line)).position
        ≡ length g.position + 2 * length line + 4
  unfolding add_line end_pair
  length-add_line hw lift g p q line = omega (
    arith,
    length-append g.position (end_pair hw lift p p q ++ strip_after hw lift p q line),
    length-strip_after hw lift p q line,
  )

  add_line-IsBelow :
      (hw lift : F) (g : BufferGeometry F) (line : List (Vec2 F))
      → IsBelow (length g.position) g.index
      → IsBelow (length (add_line hw lift g line).position) (add_line hw lift g line).index
  unfolding add_line
  add_line-IsBelow hw lift g [] h = h
  add_line-IsBelow hw lift g (p ∷ []) h = h
  add_line-IsBelow hw lift g (p ∷ q ∷ line) h =
      let total = length (add_line hw lift g (p ∷ q ∷ line)).position in
      append-IsBelow total g.index (triangles (length g.position) 0 (suc (length line)))
        (widen-IsBelow (length g.position) total g.index
          (omega (arith, length-add_line hw lift g p q line)) h)
        (triangles-IsBelow total (length g.position) 0 (suc (length line))
          (omega (arith, length-add_line hw lift g p q line)))

  add_lines-IsBelow :
      (hw lift : F) (lines : List (List (Vec2 F))) (g : BufferGeometry F)
      → IsBelow (length g.position) g.index
      → IsBelow (length (add_lines hw lift lines g).position) (add_lines hw lift lines g).index
  unfolding add_lines
  add_lines-IsBelow hw lift [] g h = h
  add_lines-IsBelow hw lift (line ∷ lines) g h =
      add_lines-IsBelow hw lift lines (add_line hw lift g line) (add_line-IsBelow hw lift g line h)

  add_lines-counts :
      (hw lift : F) (lines : List (List (Vec2 F))) (g : BufferGeometry F)
      → (length (add_lines hw lift lines g).position ≡ length g.position + 2 * points_drawn lines)
        × (length (add_lines hw lift lines g).index ≡ length g.index + 6 * segments_drawn lines)
  unfolding add_lines add_line
  add_lines-counts hw lift [] g = (omega arith, omega arith)
  add_lines-counts hw lift ([] ∷ lines) g =
      let (a, b) = add_lines-counts hw lift lines g in (omega arith, omega arith)
  add_lines-counts hw lift ((p ∷ []) ∷ lines) g =
      let (a, b) = add_lines-counts hw lift lines g in (omega arith, omega arith)
  add_lines-counts hw lift ((p ∷ q ∷ line) ∷ lines) g =
      let (a, b) = add_lines-counts hw lift lines (add_line hw lift g (p ∷ q ∷ line)) in
      (
        omega (arith, a, length-add_line hw lift g p q line),
        omega (
          arith,
          b,
          length-append g.index (triangles (length g.position) 0 (suc (length line))),
          length-triangles (length g.position) 0 (suc (length line)),
        ),
      )

  -- A ribbon has two vertices for each point of the lines with at least two points, two triangles
  -- for each of their segments, and no corner of a triangle names a vertex that is not there.
  pub ribbon-IsBelow :
      (lines : List (List (Vec2 F))) (width lift : F)
      → (length (ribbon lines width lift).position ≡ 2 * points_drawn lines)
        × (length (ribbon lines width lift).index ≡ 6 * segments_drawn lines)
        × IsBelow (length (ribbon lines width lift).position) (ribbon lines width lift).index
  unfolding ribbon
  ribbon-IsBelow lines width lift =
      let hw = n.div width (n.ratio 2 1) in
      let (a, b) = add_lines-counts hw lift lines (record { position = []; index = [] }) in
      (
        omega (arith, a),
        omega (arith, b),
        add_lines-IsBelow hw lift lines (record { position = []; index = [] }) tt,
      )
