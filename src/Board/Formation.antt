-- ===== src/Board/Formation.antt =====
-- Formations: `FORMATIONS`, `shape` and `formation` of features/tactics/board/model.ts.
mod Table
pub use Table.{formation_names}
unfoldable pub use Table.{formations}
use scoutpulse.Base.{
  ℕ, zero, suc, ◌+◌, ◌-◌, String, Bool, true, Option, none, some, List, [], ◌∷◌, map, Number, int,
  neg, Dict, insert, lookup, or_else,
}
use scoutpulse.Board.Doc.{Vec2, BoardObject, ObjectKind, TeamId}
use scoutpulse.Board.Defaults.{pitch_length, pitch_width}
use scoutpulse.Board.Geometry.{vec}
use scoutpulse.Board.Formation.Table.{Spot, four_four_two}

pub data Side : Type 0 where
  left right : Side

pub record Formation (F : Type 0) : Type 0 where
  pub objects : List (BoardObject F)
  pub pos : Dict (Vec2 F)

module _ {F : Type 0} where
  abbrev numbered : String → TeamId → Option Bool → String → BoardObject F
  numbered id team keeper number = record {
    id = id;
    kind = ObjectKind.player;
    team = some team;
    keeper = keeper;
    number = some number;
    name = none;
    bib = none;
    color = none;
    color2 = none;
    pattern = none;
    size = none;
    rotation = none;
  }

module _ {F : Type 0} ⦃n : Number F⦄ where
  -- `-dir * x`
  abbrev away_from : Side → F → F
  away_from left x = neg x
  away_from right x = x

  abbrev half_length : F
  half_length = n.ratio pitch_length 2

  -- to a tenth of a metre
  abbrev round_tenth : F → F
  round_tenth x = n.div (n.round (n.mul x (int 10))) (int 10)

  unfoldable pub spot_at : Side → Spot → Vec2 F
  spot_at side spot =
      let depth = n.sub (int 1) (n.ratio spot.depth 100) in
      let across = n.ratio spot.across 100 in
      vec
        (round_tenth (
          away_from side
            (n.sub (n.sub half_length (int 10)) (n.mul depth (n.sub half_length (int 14))))))
        (round_tenth (n.mul (n.sub across (n.ratio 5 10)) (int (pitch_width - 10))))

  -- The loop over the spots; `newId()` gives `fresh k` for the next one.
  lay_out : (ℕ → String) → ℕ → TeamId → Side → List Spot → Dict (Vec2 F) → Formation F
  lay_out fresh k team side [] pos = record { objects = []; pos = pos }
  lay_out fresh k team side (spot ∷ spots) pos =
      let rest = lay_out fresh (suc k) team side spots (insert (fresh k) (spot_at side spot) pos) in
      record { objects = numbered (fresh k) team none spot.number ∷ rest.objects; pos = rest.pos }

  unfoldable pub formation : String → TeamId → Side → (ℕ → String) → Formation F
  unfolding lay_out formations
  formation name team side fresh =
      let spots = or_else (lookup name formations) four_four_two in
      let at = vec (away_from side (n.sub half_length (int 4))) (int 0) in
      let rest = lay_out fresh 1 team side spots (insert (fresh 0) at []) in
      record { objects = numbered (fresh 0) team (some true) "1" ∷ rest.objects; pos = rest.pos }
