-- ===== src/Board/Geometry.antt =====
-- Plane geometry: features/tactics/board/geometry.ts, as far as the editor and the playback use it.
use scoutpulse.Base.{List, [], ◌∷◌, Number, int, if◌then◌else◌}
use scoutpulse.Board.Doc.{Vec2}

module _ {F : Type 0} ⦃n : Number F⦄ where
  abbrev pub vec : F → F → Vec2 F
  vec x y = record { x = x; y = y }

  unfoldable pub lerp : F → F → F → F
  lerp a b t = n.add a (n.mul (n.sub b a) t)

  unfoldable pub lerp2 : Vec2 F → Vec2 F → F → Vec2 F
  unfolding lerp
  lerp2 a b t = vec (lerp a.x b.x t) (lerp a.y b.y t)

  unfoldable pub dist : Vec2 F → Vec2 F → F
  dist a b = n.hypot (n.sub b.x a.x) (n.sub b.y a.y)

  abbrev bezier : F → F → F → F → F → F
  bezier u t a c b =
      n.add (n.add (n.mul (n.mul u u) a) (n.mul (n.mul (n.mul (int 2) u) t) c))
        (n.mul (n.mul t t) b)

  unfoldable pub quad : Vec2 F → Vec2 F → Vec2 F → F → Vec2 F
  quad a c b t = let u = n.sub (int 1) t in vec (bezier u t a.x c.x b.x) (bezier u t a.y c.y b.y)

  abbrev through : F → F → F → F
  through a m b = n.sub (n.mul (int 2) m) (n.div (n.add a b) (int 2))

  unfoldable pub control_through : Vec2 F → Vec2 F → Vec2 F → Vec2 F
  control_through a m b = vec (through a.x m.x b.x) (through a.y m.y b.y)

  -- the loop of `thin`, after a kept point
  thin_after : F → Vec2 F → List (Vec2 F) → List (Vec2 F)
  thin_after least kept [] = []
  thin_after least kept (p ∷ points) =
      if n.le least (dist kept p)
      then p ∷ thin_after least p points
      else thin_after least kept points

  unfoldable pub thin : List (Vec2 F) → F → List (Vec2 F)
  unfolding thin_after
  thin [] least = []
  -- the first point is compared with itself before the others
  thin (p ∷ points) least = p ∷ thin_after least p (p ∷ points)

  unfoldable pub rect : Vec2 F → Vec2 F → List (Vec2 F)
  rect a b = a ∷ vec b.x a.y ∷ b ∷ vec a.x b.y ∷ a ∷ []

  unfoldable pub ease_out : F → F
  ease_out t = n.sub (int 1) (n.mul (n.sub (int 1) t) (n.sub (int 1) t))
