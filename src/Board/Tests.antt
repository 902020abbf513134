-- ===== src/Board/Tests.antt =====
-- Runs of the clock on a small board, and the theorems at inputs that meet their hypotheses.
use scoutpulse.Base.{List, length, ◌*◌, ℕ, ◌≡◌, refl, true, [], ◌∷◌}
use scoutpulse.Base.Naturals.{whole, whole-IsOrdered}
use scoutpulse.Board.Geometry.{vec}
use scoutpulse.Board.Ribbon.{ribbon}
use scoutpulse.Board.Ribbon.InRange.{IsBelow, ribbon-IsBelow}
use scoutpulse.Board.Doc.{TacticDoc, Vec2}
use scoutpulse.Board.Defaults.{new_step, empty_doc}
use scoutpulse.Board.Playback.{timeline}
use scoutpulse.Board.Playback.Contiguous.{IsTimeline, timeline-IsTimeline}
use scoutpulse.Board.Player.{BoardPlayer, new_player, InRange}

abbrev two_steps : TacticDoc ℕ
two_steps = record (empty_doc "a") {
  steps =
      record (new_step "a") { duration = 2; hold = 1 }
      ∷ record (new_step "b") { duration = 3; hold = 2 }
      ∷ [];
}

two_steps_total : (timeline two_steps).total ≡ 6
unfolding timeline
two_steps_total = refl

timeline-IsTimeline_example : IsTimeline 0 0 2 2 (timeline two_steps)
timeline-IsTimeline_example = timeline-IsTimeline whole-IsOrdered two_steps

abbrev running : BoardPlayer ℕ
running = record new_player { time = 1; playing = true }

running-InRange : InRange (timeline two_steps) running
unfolding timeline
running-InRange = (refl, refl)

-- a line with one joint
abbrev elbow : List (List (Vec2 ℕ))
elbow = (vec 0 0 ∷ vec 5 0 ∷ vec 5 5 ∷ []) ∷ []

ribbon-IsBelow_example :
    (length (ribbon elbow 2 1).position ≡ 2 * 3)
    × (length (ribbon elbow 2 1).index ≡ 6 * 2)
    × IsBelow (length (ribbon elbow 2 1).position) (ribbon elbow 2 1).index
ribbon-IsBelow_example = ribbon-IsBelow elbow 2 1
