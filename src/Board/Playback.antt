-- ===== src/Board/Playback.antt =====
-- A board's steps as motion: features/tactics/board/playback.ts.
pub mod Contiguous
use scoutpulse.Base.{
  ℕ, zero, suc, ◌-◌, String, Bool, true, false, not, Option, none, some, List, [], ◌∷◌, ◌++◌,
  Number, int, Dict, lookup, insert, get_elem?, any, str_eq, if◌then◌else◌, or_else, ℤ, pos, ◌==◌,
}
use scoutpulse.Board.Doc.{Vec2, BoardObject, ObjectKind, EquipmentKind, Drawing, Step, TacticDoc}
use scoutpulse.Board.Geometry.{vec, dist, quad, lerp2, ease_out}
use scoutpulse.Board.Position.{position_at}

pub data SegmentKind : Type 0 where
  hold move : SegmentKind

pub record Segment (F : Type 0) : Type 0 where
  pub kind : SegmentKind
  pub step : ℕ
  pub start : F
  pub end : F

pub record Timeline (F : Type 0) : Type 0 where
  pub segments : List (Segment F)
  pub total : F
  pub step_starts : List F

pub record Placement (F : Type 0) : Type 0 where
  pub x : F
  pub y : F
  pub h : F
  pub appear : F
  pub heading : Option F

pub record Frame (F : Type 0) : Type 0 where
  pub step : ℕ
  pub placements : Dict (Placement F)
  pub drawings : List (Drawing F)
  pub drawing_opacity : F
  pub highlights : List String
  pub note : String

module _ {F : Type 0} where
  abbrev segment : SegmentKind → ℕ → F → F → Segment F
  segment kind step start end = record { kind = kind; step = step; start = start; end = end }

  -- what a frame takes from a step that may not be there
  abbrev drawings_at : Option (Step F) → List (Drawing F)
  drawings_at none = []
  drawings_at (some st) = st.drawings

  abbrev highlights_at : Option (Step F) → List String
  highlights_at none = []
  highlights_at (some st) = or_else st.highlight []

  abbrev note_at : Option (Step F) → String
  note_at none = ""
  note_at (some st) = st.note

  abbrev bend_at : Option (Step F) → String → Option (Vec2 F)
  bend_at none id = none
  bend_at (some st) id = lookup id (or_else st.bend [])

  abbrev flies_at : Option (Step F) → String → Bool
  flies_at none id = false
  flies_at (some st) id = any (λ x. str_eq x id) (or_else st.air [])

abbrev is_ball : ObjectKind → Bool
is_ball (ObjectKind.equipment EquipmentKind.ball) = true
is_ball _ = false

module _ {F : Type 0} ⦃n : Number F⦄ where
  abbrev pub least : F → F → F
  least a b = if n.le a b then a else b

  abbrev pub greatest : F → F → F
  greatest a b = if n.le a b then b else a

  -- The travel into a step; none into the first.
  abbrev arrival : ℕ → F → Step F → F
  arrival zero t st = t
  arrival (suc i) t st = n.add t (greatest (n.ratio 1 10) st.duration)

  abbrev move_into : ℕ → F → Step F → List (Segment F)
  move_into zero t st = []
  move_into (suc i) t st = segment SegmentKind.move (suc i) t (arrival (suc i) t st) ∷ []

  -- The loop of `timeline`, from step `i` and time `t` on.
  timeline_from : ℕ → F → List (Step F) → Timeline F
  timeline_from i t [] = record { segments = []; total = t; step_starts = [] }
  timeline_from i t (st ∷ steps) =
      let here = arrival i t st in
      let next = n.add here (greatest (int 0) st.hold) in
      let rest = timeline_from (suc i) next steps in
      record {
        segments = move_into i t st ++ segment SegmentKind.hold i here next ∷ rest.segments;
        total = rest.total;
        step_starts = here ∷ rest.step_starts;
      }

  unfoldable pub timeline : TacticDoc F → Timeline F
  unfolding timeline_from
  timeline doc = timeline_from 0 (int 0) doc.steps

  abbrev stand_at : Vec2 F → F → Placement F
  stand_at p appear = record { x = p.x; y = p.y; h = int 0; appear = appear; heading = none }

  abbrev place_still : Option (Vec2 F) → String → Dict (Placement F) → Dict (Placement F)
  place_still none id out = out
  place_still (some p) id out = insert id (stand_at p (int 1)) out

  still_loop : TacticDoc F → ℕ → List (BoardObject F) → Dict (Placement F) → Dict (Placement F)
  still_loop doc step [] out = out
  still_loop doc step (obj ∷ objects) out =
      still_loop doc step objects (place_still (position_at doc (pos step) obj.id) obj.id out)

  unfoldable pub still : TacticDoc F → ℕ → Dict (Placement F)
  unfolding still_loop
  still doc step = still_loop doc step doc.objects []

  -- `-(cos(pi * t) - 1) / 2`
  abbrev ease_in_out : F → F
  ease_in_out t = n.div (n.sub (int 1) (n.cos (n.mul n.pi t))) (int 2)

  -- an object between two places, a share `p` of the way
  abbrev travelling : Option (Step F) → BoardObject F → Vec2 F → Vec2 F → F → Placement F
  travelling target obj from to p =
      let e = if is_ball obj.kind then ease_out p else ease_in_out p in
      let at : Vec2 F = elim (bend_at target obj.id) [
        | some c ↦ quad from c to e
        | none ↦ lerp2 from to e
      ] in
      let ahead : Vec2 F = elim (bend_at target obj.id) [
        | some c ↦ quad from c to (least (int 1) (n.add e (n.ratio 2 100)))
        | none ↦ to
      ] in
      let peak = least (int 14) (n.mul (dist from to) (n.ratio 22 100)) in
      record {
        x = at.x;
        y = at.y;
        h =
            if flies_at target obj.id
            then n.mul (n.mul (n.mul (int 4) peak) p) (n.sub (int 1) p)
            else int 0;
        appear = int 1;
        heading =
            if n.le (dist at ahead) (n.ratio 1 10_000)
            then none
            else some (n.atan2 (n.sub ahead.y at.y) (n.sub ahead.x at.x));
      }

  -- one round of the loop of `frameAt` over the objects
  abbrev place_moving :
      Option (Step F)
      → BoardObject F
      → Option (Vec2 F)
      → Option (Vec2 F)
      → F
      → Dict (Placement F)
      → Dict (Placement F)
  place_moving target obj from none p out = out
  place_moving target obj none (some to) p out = insert obj.id (stand_at to (ease_out p)) out
  place_moving target obj (some from) (some to) p out =
      insert obj.id (travelling target obj from to p) out

  moving_loop : TacticDoc F → ℕ → F → List (BoardObject F) → Dict (Placement F) → Dict (Placement F)
  moving_loop doc into p [] out = out
  moving_loop doc into p (obj ∷ objects) out = moving_loop doc into p objects (
      place_moving (get_elem? doc.steps into) obj (position_at doc (pos (into - 1)) obj.id)
        (position_at doc (pos into) obj.id) p out)

  -- the last segment that has started
  last_started : List (Segment F) → F → Option (Segment F) → Option (Segment F)
  last_started [] t seg = seg
  last_started (s ∷ segments) t seg =
      last_started segments t
        (if n.le s.start (n.add t (n.ratio 1 1_000_000_000)) then some s else seg)

  abbrev hold_frame : TacticDoc F → ℕ → F → Frame F
  hold_frame doc step elapsed = record {
    step = step;
    placements = still doc step;
    drawings = drawings_at (get_elem? doc.steps step);
    drawing_opacity = if step == 0 then int 1 else least (int 1) (n.div elapsed (n.ratio 3 10));
    highlights = highlights_at (get_elem? doc.steps step);
    note = note_at (get_elem? doc.steps step);
  }

  -- The segment moves into step `seg.step`, which is not the first.
  abbrev move_frame : TacticDoc F → Segment F → F → Frame F
  move_frame doc seg p = record {
    step = seg.step - 1;
    placements = moving_loop doc seg.step p doc.objects [];
    drawings = drawings_at (get_elem? doc.steps (seg.step - 1));
    drawing_opacity = n.sub (int 1) (ease_in_out p);
    highlights = highlights_at (get_elem? doc.steps seg.step);
    note = note_at (get_elem? doc.steps seg.step);
  }

  abbrev frame_of_kind : SegmentKind → TacticDoc F → Segment F → F → Frame F
  frame_of_kind SegmentKind.hold doc seg t = hold_frame doc seg.step (n.sub t seg.start)
  frame_of_kind SegmentKind.move doc seg t =
      move_frame doc seg (n.div (n.sub t seg.start) (n.sub seg.end seg.start))

  abbrev frame_in : Option (Segment F) → TacticDoc F → F → Frame F
  frame_in none doc t = hold_frame doc 0 (int 0)
  frame_in (some seg) doc t = frame_of_kind seg.kind doc seg t

  unfoldable pub frame_at : TacticDoc F → Timeline F → F → Frame F
  unfolding last_started moving_loop still
  frame_at doc line time =
      let t = greatest (int 0) (least line.total time) in
      frame_in (last_started line.segments t none) doc t

  -- the loop of `stepAtTime`, from index `i` on
  step_from : List F → F → ℕ → ℕ → ℕ
  step_from [] time i current = current
  step_from (start ∷ starts) time i current =
      step_from starts time (suc i)
        (if n.le (n.sub start (n.ratio 1 1_000_000)) time then i else current)

  unfoldable pub step_at_time : Timeline F → F → ℕ
  unfolding step_from
  step_at_time line time = step_from line.step_starts time 0 0
