-- ===== src/Engine/Session/Closed.antt =====
-- Every edit of a drag is closed by its release: the store's open gesture and the engine's agree.
use mathlib.Core.List.{foldl}
use scoutpulse.Base.{
  ℕ, zero, suc, String, ◌≡◌, refl, ap, ◌∙◌, Bool, true, false, not, Option, none, some, List, [],
  ◌∷◌, arith, Number, get_elem?, modify, lookup,
}
use scoutpulse.Board.Doc.{Vec2, Step, TacticDoc}
use scoutpulse.Board.Geometry.{control_through}
use scoutpulse.Board.Position.{moves, position_at, pos_in, position_at-standing}
use scoutpulse.Editor.Store.{Tool, EditorStore, Phase, apply, with_current_step}
use scoutpulse.Editor.Objects.{before, set_bend, bend as bend_path, bend_between, move_object}
use scoutpulse.Editor.Drawings.{edit_drawing, stroke}
use scoutpulse.Engine.Pointer.{Engine, Gesture, Handle, Call, released, drag, drag_handle}
use scoutpulse.Engine.Session.{deliver, delivered}

module _ {F : Type 0} ⦃n : Number F⦄ where
  -- where a path that is bent comes from and goes to
  abbrev pub path_start : String → EditorStore F → Option (Vec2 F)
  path_start id s = position_at s.doc (before s.step_index) id

  abbrev pub path_end : String → EditorStore F → Option (Vec2 F)
  path_end id s = pos_in id (get_elem? s.doc.steps s.step_index)

  -- An open gesture of the store is one that the engine is in, and that its release will close.
  pub data Holds : Option (Gesture F) → EditorStore F → Type 0 where
    shut : {g : Option (Gesture F)} {s : EditorStore F} → s.gesture_open ≡ false → Holds g s
    object :
        {id : String} {offset : Vec2 F} {s : EditorStore F}
        → Holds (some (Gesture.object id offset true)) s
    drawing :
        {id : String} {last : Vec2 F} {s : EditorStore F}
        → Holds (some (Gesture.drawing id last true)) s
    point :
        {id : String} {i : ℕ} {s : EditorStore F}
        → Holds (some (Gesture.handle (Handle.point id i))) s
    control :
        {id : String} {s : EditorStore F} → Holds (some (Gesture.handle (Handle.control id))) s
    bend :
        {id : String} {s : EditorStore F} (from to : Vec2 F)
        → path_start id s ≡ some from
        → path_end id s ≡ some to
        → Holds (some (Gesture.handle (Handle.bend id))) s

  moves-set_bend :
      (id other : String) (c : Vec2 F) (i : ℕ) (steps : List (Step F))
      → moves other (modify (set_bend id c) i steps) ≡ moves other steps
  moves-set_bend id other c i [] = refl
  moves-set_bend id other c zero (st ∷ steps) = refl
  moves-set_bend id other c (suc i) (st ∷ steps) =
      ap (lookup other st.pos ∷◌) (moves-set_bend id other c i steps)

  pos_in-set_bend :
      (id other : String) (c : Vec2 F) (i j : ℕ) (steps : List (Step F))
      → pos_in other (get_elem? (modify (set_bend id c) i steps) j)
        ≡ pos_in other (get_elem? steps j)
  pos_in-set_bend id other c i j [] = refl
  pos_in-set_bend id other c zero zero (st ∷ steps) = refl
  pos_in-set_bend id other c zero (suc j) (st ∷ steps) = refl
  pos_in-set_bend id other c (suc i) zero (st ∷ steps) = refl
  pos_in-set_bend id other c (suc i) (suc j) (st ∷ steps) = pos_in-set_bend id other c i j steps

  before-set_bend :
      (id : String) (c : Vec2 F) (k i : ℕ) (doc : TacticDoc F)
      → position_at (record doc { steps = modify (set_bend id c) k doc.steps }) (before i) id
        ≡ position_at doc (before i) id
  before-set_bend id c k zero doc = unfold position_at in refl
  before-set_bend id c k (suc i) doc =
      rw
        (
          position_at-standing (record doc { steps = modify (set_bend id c) k doc.steps }) i id,
          moves-set_bend id id c k doc.steps,
          position_at-standing doc i id,
        )
        refl

  -- bending a path moves neither of its ends
  path_start-bent :
      (id : String) (c : Vec2 F) (phase : Phase) (s : EditorStore F)
      → path_start id (apply (with_current_step (set_bend id c) s) phase s) ≡ path_start id s
  unfolding apply with_current_step
  path_start-bent id c phase s = before-set_bend id c s.step_index s.step_index s.doc

  path_end-bent :
      (id : String) (c : Vec2 F) (phase : Phase) (s : EditorStore F)
      → path_end id (apply (with_current_step (set_bend id c) s) phase s) ≡ path_end id s
  unfolding apply with_current_step
  path_end-bent id c phase s = pos_in-set_bend id id c s.step_index s.step_index s.doc.steps

  still_bending :
      (a b : Option (Vec2 F)) (id : String) (mid : Vec2 F) (s : EditorStore F)
      → path_start id s ≡ a
      → path_end id s ≡ b
      → Holds (some (Gesture.handle (Handle.bend id))) s
      → Holds (some (Gesture.handle (Handle.bend id))) (bend_between a b id mid false s)
  still_bending none b id mid s e f h = h
  still_bending (some from) none id mid s e f h = h
  still_bending (some from) (some to) id mid s e f h =
      let c = control_through from mid to in
      Holds.bend from to (path_start-bent id c Phase.move s ∙ e)
        (path_end-bent id c Phase.move s ∙ f)

  bending_closed :
      (a b : Option (Vec2 F)) (id : String) (mid : Vec2 F) (s : EditorStore F)
      → path_start id s ≡ a
      → path_end id s ≡ b
      → Holds (some (Gesture.handle (Handle.bend id))) s
      → (bend_between a b id mid true s).gesture_open ≡ false
  unfolding apply
  bending_closed (some from) (some to) id mid s e f h = refl
  bending_closed none b id mid s e f (Holds.shut h) = h
  bending_closed none b id mid s e f (Holds.bend from to h k) = cc
  bending_closed (some from) none id mid s e f (Holds.shut h) = h
  bending_closed (some from) none id mid s e f (Holds.bend _ to h k) = cc

  pub stroke_closed :
      (id : String) (tool : Tool) (points : List (Vec2 F)) (done : Bool) (s : EditorStore F)
      → s.gesture_open ≡ false
      → (deliver id (record s { tool = tool }) (Call.stroke points done)).gesture_open ≡ false
  unfolding deliver stroke apply
  stroke_closed id Tool.select points done s h = h
  stroke_closed id Tool.place points done s h = h
  stroke_closed id (Tool.draw kind) points true s h = ground arith
  stroke_closed id (Tool.draw kind) points false s h = h

  -- The release of a gesture on the grass closes whatever it has opened in the store.
  pub released_closed :
      (g : Option (Gesture F)) (at : Vec2 F) (id : String) (s : EditorStore F)
      → Holds g s
      → (foldl (deliver id) s (released g (some at))).gesture_open ≡ false
  unfolding released deliver drag_handle move_object edit_drawing apply bend_path
  released_closed none at id s (Holds.shut h) = h
  released_closed (some (Gesture.object obj offset true)) at id s h = refl
  released_closed (some (Gesture.object obj offset false)) at id s (Holds.shut h) = h
  released_closed (some (Gesture.handle (Handle.point d i))) at id s h = refl
  released_closed (some (Gesture.handle (Handle.control d))) at id s h = refl
  released_closed (some (Gesture.handle (Handle.bend obj))) at id s h =
      bending_closed (path_start obj s) (path_end obj s) obj _ s refl refl h
  released_closed (some (Gesture.drawing d last true)) at id s h = refl
  released_closed (some (Gesture.drawing d last false)) at id s (Holds.shut h) = h
  released_closed (some (Gesture.stroke points)) at id s (Holds.shut h) =
      stroke_closed id s.tool points true s h

  -- gestures that are over when they are released off the grass too
  abbrev pub ends_off_grass : Option (Gesture F) → Bool
  ends_off_grass (some (Gesture.object obj offset moved)) = not moved
  ends_off_grass (some (Gesture.handle h)) = false
  ends_off_grass _ = true

  -- The release of such a gesture off the grass closes whatever it has opened in the store.
  pub released_off_closed :
      (g : Option (Gesture F)) (id : String) (s : EditorStore F)
      → Holds g s
      → ends_off_grass g ≡ true
      → (foldl (deliver id) s (released g none)).gesture_open ≡ false
  unfolding released deliver edit_drawing apply
  released_off_closed none id s (Holds.shut h) e = h
  released_off_closed (some (Gesture.object obj offset true)) id s h e = cc
  released_off_closed (some (Gesture.object obj offset false)) id s (Holds.shut h) e = h
  released_off_closed (some (Gesture.handle g)) id s h e = cc
  released_off_closed (some (Gesture.drawing d last true)) id s h e = refl
  released_off_closed (some (Gesture.drawing d last false)) id s (Holds.shut h) e = h
  released_off_closed (some (Gesture.stroke points)) id s (Holds.shut h) e =
      stroke_closed id s.tool points true s h

  -- gestures that have opened none in the store
  abbrev pub opens_none : Option (Gesture F) → Bool
  opens_none (some (Gesture.object obj offset moved)) = not moved
  opens_none (some (Gesture.drawing id last moved)) = not moved
  opens_none (some (Gesture.handle h)) = false
  opens_none _ = true

  pub opens_none-closed :
      (g : Option (Gesture F)) (s : EditorStore F)
      → Holds g s
      → opens_none g ≡ true
      → s.gesture_open ≡ false
  opens_none-closed g s (Holds.shut h) e = h
  opens_none-closed _ s Holds.object e = cc
  opens_none-closed _ s Holds.drawing e = cc
  opens_none-closed _ s Holds.point e = cc
  opens_none-closed _ s Holds.control e = cc
  opens_none-closed _ s (Holds.bend from to h k) e = cc

  -- A move on the grass keeps the store's open gesture and the engine's in step.
  pub dragged-Holds :
      (g : Gesture F) (at : Vec2 F) (id : String) (e : Engine F) (s : EditorStore F)
      → Holds (some g) s
      → e.gesture ≡ some g
      → Holds (delivered id s (drag g at e)).engine.gesture (delivered id s (drag g at e)).store
  unfolding drag deliver drag_handle bend_path
  dragged-Holds (Gesture.object obj offset moved) at id e s h eq = Holds.object
  dragged-Holds (Gesture.handle (Handle.point d i)) at id e s h eq = rw eq Holds.point
  dragged-Holds (Gesture.handle (Handle.control d)) at id e s h eq = rw eq Holds.control
  dragged-Holds (Gesture.handle (Handle.bend obj)) at id e s h eq =
      rw eq (still_bending (path_start obj s) (path_end obj s) obj _ s refl refl h)
  dragged-Holds (Gesture.drawing d last moved) at id e s h eq = Holds.drawing
  dragged-Holds (Gesture.stroke points) at id e s (Holds.shut h) eq =
      Holds.shut (stroke_closed id s.tool _ false s h)
