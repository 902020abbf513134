-- ===== src/Board/Curves.antt =====
-- Curves, hits and paths: the rest of features/tactics/board/geometry.ts, and `drawingPath` and
-- `trimEnd` of features/tactics/board/strokes.ts.
use mathlib.Core.List.{reverse}
use scoutpulse.Base.{
  ℕ, zero, suc, ◌+◌, ◌*◌, ◌≡◌, refl, ap, ◌∙◌, Bool, true, false, not, ◌&&◌, Option, none, some,
  List, [], ◌∷◌, ◌++◌, arith, ltb, if◌then◌else◌, length, Number, int, lt, abs, min_of, max_of,
}
use scoutpulse.Board.Doc.{Vec2, Drawing, DrawingKind}
use scoutpulse.Board.Geometry.{vec, lerp2, dist, quad, rect}

-- `a !== b`
abbrev differ : Bool → Bool → Bool
differ true b = not b
differ false b = b

module _ {F : Type 0} ⦃n : Number F⦄ where
  unfoldable pub curve_mid : Vec2 F → Vec2 F → Option (Vec2 F) → Vec2 F
  curve_mid a b none = lerp2 a b (n.ratio 1 2)
  curve_mid a b (some control) = quad a control b (n.ratio 1 2)

  -- the loop of `sampleCurve`: the samples from number `k` on, with `left` more to come
  sample_from : Vec2 F → Vec2 F → Vec2 F → ℕ → ℕ → ℕ → List (Vec2 F)
  sample_from a c b segments k zero = quad a c b (n.div (int k) (int segments)) ∷ []
  sample_from a c b segments k (suc left) =
      quad a c b (n.div (int k) (int segments)) ∷ sample_from a c b segments (k + 1) left

  unfoldable pub sample_curve : Vec2 F → Vec2 F → Option (Vec2 F) → ℕ → List (Vec2 F)
  unfolding sample_from
  sample_curve a b none segments = a ∷ b ∷ []
  sample_curve a b (some control) segments = sample_from a control b segments 0 segments

  unfoldable pub path_from : F → Vec2 F → List (Vec2 F) → F
  path_from total p [] = total
  path_from total p (q ∷ points) = path_from (n.add total (dist p q)) q points

  unfoldable pub path_length : List (Vec2 F) → F
  unfolding path_from
  path_length [] = int 0
  path_length (p ∷ points) = path_from (int 0) p points

  -- what one pass of `smooth` pushes for the segments after a point, and the last point
  unfoldable pub cuts : Vec2 F → List (Vec2 F) → List (Vec2 F)
  cuts a [] = a ∷ []
  cuts a (b ∷ points) = lerp2 a b (n.ratio 25 100) ∷ lerp2 a b (n.ratio 75 100) ∷ cuts b points

  abbrev pub cut_corners : List (Vec2 F) → List (Vec2 F)
  cut_corners [] = []
  cut_corners (p ∷ points) = p ∷ cuts p points

  -- `smooth` with so many passes
  unfoldable pub smooth : List (Vec2 F) → ℕ → List (Vec2 F)
  smooth points zero = points
  smooth points (suc passes) =
      smooth (if ltb 2 (length points) then cut_corners points else points) passes

  -- the loop of `ellipse` and of `arc`: `left` more points of a circle's parameter
  unfoldable pub around : (F → Vec2 F) → (ℕ → F) → ℕ → ℕ → List (Vec2 F)
  around point angle k zero = point (angle k) ∷ []
  around point angle k (suc left) = point (angle k) ∷ around point angle (k + 1) left

  unfoldable pub ellipse : Vec2 F → Vec2 F → ℕ → List (Vec2 F)
  unfolding around
  ellipse a b segments =
      let cx = n.div (n.add a.x b.x) (int 2) in
      let cy = n.div (n.add a.y b.y) (int 2) in
      let rx = n.div (abs (n.sub b.x a.x)) (int 2) in
      let ry = n.div (abs (n.sub b.y a.y)) (int 2) in
      around (λ t. vec (n.add cx (n.mul (n.cos t) rx)) (n.add cy (n.mul (n.sin t) ry)))
        (λ i. n.mul (n.mul (n.div (int i) (int segments)) n.pi) (int 2)) 0 segments

  -- the parameter of the point of a segment nearest to `p`
  abbrev nearest_at : F → F → F → Vec2 F → Vec2 F → F
  nearest_at len2 dx dy p a =
      if n.eq len2 (int 0)
      then int 0
      else max_of (int 0) (
          min_of (int 1) (n.div (n.add (n.mul (n.sub p.x a.x) dx) (n.mul (n.sub p.y a.y) dy)) len2))

  unfoldable pub dist_to_segment : Vec2 F → Vec2 F → Vec2 F → F
  dist_to_segment p a b =
      let dx = n.sub b.x a.x in
      let dy = n.sub b.y a.y in
      let t = nearest_at (n.add (n.mul dx dx) (n.mul dy dy)) dx dy p a in
      dist p (vec (n.add a.x (n.mul t dx)) (n.add a.y (n.mul t dy)))

  -- `Math.min(best, d)`, where `none` is Infinity
  abbrev closer : Option F → F → Option F
  closer none d = some d
  closer (some best) d = some (min_of best d)

  dist_from : Vec2 F → Option F → Vec2 F → List (Vec2 F) → Option F
  dist_from p best a [] = best
  dist_from p best a (b ∷ points) = dist_from p (closer best (dist_to_segment p a b)) b points

  -- The distance to no points is Infinity, `none`.
  unfoldable pub dist_to_polyline : Vec2 F → List (Vec2 F) → Option F
  unfolding dist_from
  dist_to_polyline p [] = none
  dist_to_polyline p (a ∷ []) = some (dist p a)
  dist_to_polyline p (a ∷ b ∷ points) = dist_from p none a (b ∷ points)

  -- whether the edge from `j` to `i` crosses the ray from `p`
  abbrev crosses : Vec2 F → Vec2 F → Vec2 F → Bool
  crosses p j i =
      differ (lt p.y i.y) (lt p.y j.y)
      && lt p.x (n.add (n.div (n.mul (n.sub j.x i.x) (n.sub p.y i.y)) (n.sub j.y i.y)) i.x)

  inside_from : Vec2 F → Bool → Vec2 F → List (Vec2 F) → Bool
  inside_from p inside j [] = inside
  inside_from p inside j (i ∷ poly) =
      inside_from p (if crosses p j i then not inside else inside) i poly

  abbrev last_of : Vec2 F → List (Vec2 F) → Vec2 F
  last_of d [] = d
  last_of d (p ∷ points) = last_of p points

  unfoldable pub inside_polygon : Vec2 F → List (Vec2 F) → Bool
  unfolding inside_from
  inside_polygon p [] = false
  inside_polygon p (a ∷ poly) = inside_from p false (last_of a poly) (a ∷ poly)

  abbrev ends_curve : List (Vec2 F) → Option (Vec2 F) → List (Vec2 F)
  ends_curve [] control = []
  ends_curve (a ∷ []) control = a ∷ []
  ends_curve (a ∷ b ∷ points) control = sample_curve a (last_of b points) control 40

  abbrev boxed : (Vec2 F → Vec2 F → List (Vec2 F)) → List (Vec2 F) → List (Vec2 F)
  boxed shape (a ∷ b ∷ points) = shape a b
  boxed shape points = points

  abbrev closed : List (Vec2 F) → List (Vec2 F)
  closed (a ∷ b ∷ c ∷ points) = (a ∷ b ∷ c ∷ points) ++ a ∷ []
  closed points = points

  abbrev path_of : DrawingKind → List (Vec2 F) → Option (Vec2 F) → List (Vec2 F)
  path_of DrawingKind.arrow points control = ends_curve points control
  path_of DrawingKind.line points control = ends_curve points control
  path_of DrawingKind.pen points control = smooth points 2
  path_of DrawingKind.rect points control = boxed rect points
  path_of DrawingKind.ellipse points control = boxed (λ a b. ellipse a b 64) points
  path_of DrawingKind.polygon points control = closed points
  path_of DrawingKind.text points control = points

  unfoldable pub drawing_path : Drawing F → List (Vec2 F)
  drawing_path d = path_of d.kind d.points d.control

  -- the loop of `trimEnd`, on the points from the last one back
  trim_back : F → List (Vec2 F) → List (Vec2 F)
  trim_back remaining [] = []
  trim_back remaining (b ∷ []) = b ∷ []
  trim_back remaining (b ∷ a ∷ points) =
      let rest = trim_back (n.sub remaining (dist a b)) (a ∷ points) in
      let t = n.div (n.sub (dist a b) remaining) (dist a b) in
      if lt (int 0) remaining
      then if lt remaining (dist a b)
        then vec (n.add a.x (n.mul (n.sub b.x a.x) t)) (n.add a.y (n.mul (n.sub b.y a.y) t))
          ∷ a
          ∷ points
        else rest
      else b ∷ a ∷ points

  unfoldable pub trim_end : List (Vec2 F) → F → List (Vec2 F)
  unfolding trim_back
  trim_end points amount = reverse (trim_back amount (reverse points))

  length-sample_from :
      (a c b : Vec2 F) (segments k left : ℕ) → length (sample_from a c b segments k left) ≡ left + 1
  unfolding sample_from
  length-sample_from a c b segments k zero = refl
  length-sample_from a c b segments k (suc left) =
      omega (arith, length-sample_from a c b segments (k + 1) left)

  length-cuts :
      (p : Vec2 F) (points : List (Vec2 F)) → length (cuts p points) ≡ 2 * length points + 1
  unfolding cuts
  length-cuts p [] = refl
  length-cuts p (q ∷ points) = omega (arith, length-cuts q points)

  last_of-cuts :
      (d p : Vec2 F) (points : List (Vec2 F)) → last_of d (cuts p points) ≡ last_of p points
  unfolding cuts
  last_of-cuts d p [] = refl
  last_of-cuts d p (q ∷ points) = last_of-cuts (lerp2 p q (n.ratio 75 100)) q points

  -- the ends of a line with a first point
  abbrev pub HasEnds : Vec2 F → Vec2 F → List (Vec2 F) → Type 0
  HasEnds first last points =
      (rest : List (Vec2 F)) × (points ≡ first ∷ rest) × (last_of first rest ≡ last)

  pass-HasEnds :
      (first last : Vec2 F) (points : List (Vec2 F))
      → HasEnds first last points
      → HasEnds first last (cut_corners points)
  pass-HasEnds first last points (rest, e, l) =
      (cuts first rest, ap cut_corners e, last_of-cuts first first rest ∙ l)

  pick-HasEnds :
      (first last : Vec2 F) (points : List (Vec2 F)) (b : Bool)
      → HasEnds first last points
      → HasEnds first last (if b then cut_corners points else points)
  pick-HasEnds first last points true h = pass-HasEnds first last points h
  pick-HasEnds first last points false h = h

  -- A freehand stroke of at least one point keeps its first and its last point when it is
  -- smoothed, however many passes are made.
  pub smooth-HasEnds :
      (first last : Vec2 F) (passes : ℕ) (points : List (Vec2 F))
      → HasEnds first last points
      → HasEnds first last (smooth points passes)
  unfolding smooth
  smooth-HasEnds first last zero points h = h
  smooth-HasEnds first last (suc passes) points h =
      smooth-HasEnds first last passes _ (pick-HasEnds first last points (ltb 2 (length points)) h)

  length-cut_corners : (points : List (Vec2 F)) → length (cut_corners points) ≡ 2 * length points
  length-cut_corners [] = refl
  length-cut_corners (p ∷ points) = omega (arith, length-cuts p points)

  -- Smoothing a line of more than two points doubles it with each of its two passes, and a shorter
  -- one is left as it is.
  pub length-smooth :
      (points : List (Vec2 F))
      → length (smooth points 2)
        ≡ (if ltb 2 (length points) then 4 * length points else length points)
  unfolding smooth
  length-smooth points = grind (arith, length-cut_corners)
