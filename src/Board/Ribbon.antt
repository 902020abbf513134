-- ===== src/Board/Ribbon.antt =====
-- The triangles of a stroke: `ribbon`, `arrowHead`, `arc` and `standardLines` of
-- features/tactics/board/strokes.ts. A vertex is three numbers of the position attribute.
pub mod InRange
use scoutpulse.Base.{
  ℕ, zero, suc, ◌+◌, ◌*◌, List, [], ◌∷◌, ◌++◌, length, Number, int, neg, min_of, max_of, or_one,
}
use scoutpulse.Board.Doc.{Vec2}
use scoutpulse.Board.Defaults.{pitch_length, pitch_width}
use scoutpulse.Board.Geometry.{vec, dist}
use scoutpulse.Board.Curves.{around}

pub record Vertex (F : Type 0) : Type 0 where
  pub x : F
  pub y : F
  pub z : F

pub record BufferGeometry (F : Type 0) : Type 0 where
  pub position : List (Vertex F)
  pub index : List ℕ

-- the two triangles of each segment, from segment `k` on, of a line whose vertices start at `base`
unfoldable pub triangles : ℕ → ℕ → ℕ → List ℕ
triangles base k zero = []
triangles base k (suc left) =
    let a = base + k * 2 in
    a ∷ (a + 1) ∷ (a + 2) ∷ (a + 1) ∷ (a + 3) ∷ (a + 2) ∷ triangles base (k + 1) left

module _ {F : Type 0} ⦃n : Number F⦄ where
  -- the two vertices at a point, for the scaled normal there
  abbrev beside : F → F → Vec2 F → F → F → F → List (Vertex F)
  beside hw lift here nx ny scale =
      record {
        x = n.add here.x (n.mul (n.mul nx hw) scale);
        y = lift;
        z = n.add here.y (n.mul (n.mul ny hw) scale);
      }
      ∷ record {
        x = n.sub here.x (n.mul (n.mul nx hw) scale);
        y = lift;
        z = n.sub here.y (n.mul (n.mul ny hw) scale);
      }
      ∷ []

  -- at an end of the line
  unfoldable pub end_pair : F → F → Vec2 F → Vec2 F → Vec2 F → List (Vertex F)
  end_pair hw lift here prev next =
      let dx = n.sub next.x prev.x in
      let dy = n.sub next.y prev.y in
      let len = or_one (n.hypot dx dy) in
      beside hw lift here (n.div (neg dy) len) (n.div dx len) (int 1)

  -- at a joint, mitred, the mitre capped
  unfoldable pub joint_pair : F → F → Vec2 F → Vec2 F → Vec2 F → List (Vertex F)
  joint_pair hw lift here prev next =
      let ax = n.sub here.x prev.x in
      let ay = n.sub here.y prev.y in
      let bx = n.sub next.x here.x in
      let by = n.sub next.y here.y in
      let la = or_one (n.hypot ax ay) in
      let lb = or_one (n.hypot bx by) in
      let n1x = n.div (neg ay) la in
      let n1y = n.div ax la in
      let n2x = n.div (neg by) lb in
      let n2y = n.div bx lb in
      let len = or_one (n.hypot (n.add n1x n2x) (n.add n1y n2y)) in
      let nx = n.div (n.add n1x n2x) len in
      let ny = n.div (n.add n1y n2y) len in
      let cos = n.add (n.mul nx n1x) (n.mul ny n1y) in
      beside hw lift here nx ny (min_of (n.ratio 25 10) (n.div (int 1) (max_of (n.ratio 2 10) cos)))

  -- the vertices from a point on, the one before it given
  unfoldable pub strip_after : F → F → Vec2 F → Vec2 F → List (Vec2 F) → List (Vertex F)
  strip_after hw lift prev here [] = end_pair hw lift here prev here
  strip_after hw lift prev here (next ∷ line) =
      joint_pair hw lift here prev next ++ strip_after hw lift here next line

  -- a line of at least two points adds its vertices and triangles
  unfoldable pub add_line : F → F → BufferGeometry F → List (Vec2 F) → BufferGeometry F
  unfolding strip_after triangles
  add_line hw lift g [] = g
  add_line hw lift g (p ∷ []) = g
  add_line hw lift g (p ∷ q ∷ line) = record {
    position = g.position ++ (end_pair hw lift p p q ++ strip_after hw lift p q line);
    index = g.index ++ triangles (length g.position) 0 (suc (length line));
  }

  unfoldable pub add_lines : F → F → List (List (Vec2 F)) → BufferGeometry F → BufferGeometry F
  unfolding add_line
  add_lines hw lift [] g = g
  add_lines hw lift (line ∷ lines) g = add_lines hw lift lines (add_line hw lift g line)

  unfoldable pub ribbon : List (List (Vec2 F)) → F → F → BufferGeometry F
  unfolding add_lines
  ribbon lines width lift =
      add_lines (n.div width (int 2)) lift lines (record { position = []; index = [] })

  unfoldable pub arrow_head : Vec2 F → Vec2 F → F → F → List (Vertex F)
  arrow_head from tip width lift =
      let len = max_of (n.ratio 11 10) (n.mul width (n.ratio 42 10)) in
      let half = max_of (n.ratio 6 10) (n.mul width (n.ratio 21 10)) in
      let d = or_one (dist from tip) in
      let ux = n.div (n.sub tip.x from.x) d in
      let uy = n.div (n.sub tip.y from.y) d in
      let bx = n.sub tip.x (n.mul ux len) in
      let by = n.sub tip.y (n.mul uy len) in
      record { x = tip.x; y = lift; z = tip.y }
      ∷ record { x = n.sub bx (n.mul uy half); y = lift; z = n.add by (n.mul ux half) }
      ∷ record { x = n.add bx (n.mul uy half); y = lift; z = n.sub by (n.mul ux half) }
      ∷ []

  unfoldable pub arc : F → F → F → F → F → ℕ → List (Vec2 F)
  unfolding around
  arc cx cy r from to segments =
      around (λ t. vec (n.add cx (n.mul (n.cos t) r)) (n.add cy (n.mul (n.sin t) r)))
        (λ i. n.add from (n.div (n.mul (n.sub to from) (int i)) (int segments))) 0 segments

  -- HALF_LENGTH and HALF_WIDTH of model.ts, as L and W here
  abbrev half_l : F
  half_l = n.ratio pitch_length 2

  abbrev half_w : F
  half_w = n.ratio pitch_width 2

  -- a rectangle open at the goal line
  abbrev box : F → F → F → List (Vec2 F)
  box goal_line depth half =
      vec goal_line (neg half) ∷ vec depth (neg half) ∷ vec depth half ∷ vec goal_line half ∷ []

  -- the lines of one half: the boxes, the D and the corner arcs
  unfoldable pub half_lines : F → F → F → F → F → F → List (List (Vec2 F))
  unfolding arc
  half_lines side d_from d_to left_start right_start quarter =
      let goal_line = n.mul side half_l in
      let spot = n.sub goal_line (n.mul side (int 11)) in
      box goal_line (n.sub goal_line (n.mul side (n.ratio 165 10))) (n.ratio 2016 100)
      ∷ box goal_line (n.sub goal_line (n.mul side (n.ratio 55 10))) (n.ratio 916 100)
      ∷ arc spot (int 0) (n.ratio 915 100) d_from d_to 48
      ∷ arc goal_line (neg half_w) (int 1) left_start (n.add left_start quarter) 12
      ∷ arc goal_line half_w (int 1) right_start (n.add right_start quarter) 12
      ∷ []

  unfoldable pub standard_lines : List (List (Vec2 F))
  unfolding half_lines arc
  standard_lines =
      let quarter = n.div n.pi (int 2) in
      let a = n.acos (n.div (n.ratio 55 10) (n.ratio 915 100)) in
      ((vec (neg half_l) (neg half_w)
          ∷ vec half_l (neg half_w)
          ∷ vec half_l half_w
          ∷ vec (neg half_l) half_w
          ∷ vec (neg half_l) (neg half_w)
          ∷ [])
        ∷ (vec (int 0) (neg half_w) ∷ vec (int 0) half_w ∷ [])
        ∷ arc (int 0) (int 0) (n.ratio 915 100) (int 0) (n.mul n.pi (int 2)) 96
        ∷ [])
      ++ (half_lines (neg (int 1)) (neg a) a (int 0) (neg quarter) quarter
          ++ half_lines (int 1) (n.sub n.pi a) (n.add n.pi a) quarter n.pi quarter)
