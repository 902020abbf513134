-- ===== src/Editor/Placing.antt =====
-- Moving and deleting an object: where everything stands afterwards.
use scoutpulse.Base.{
  ℕ, zero, suc, ◌<◌, String, ◌≡◌, ◌≢◌, refl, ap, Bool, false, not, none, some, List, [], ◌∷◌, map,
  arith, Number, lookup, lookup-insert, lookup-erase, length, modify, any, filter, All, str_eq,
  eq_iff,
}
use scoutpulse.Board.Doc.{Vec2, BoardObject, Step}
use scoutpulse.Board.Standing.{standing-modify_before, standing-modify_self, standing-none}
use scoutpulse.Board.Position.{moves, length-moves, position_at-standing}
use scoutpulse.Editor.Store.{Target, EditorStore, apply, with_current_step, has_object}
use scoutpulse.Editor.Objects.{
  put_at, move_object, rounded, strip_step, without_object, delete_target, delete_selection,
}
use scoutpulse.Editor.Shows.{shows}

module _ {F : Type 0} where
  moves-put_at_self :
      (id : String) (at : Vec2 F) (i : ℕ) (steps : List (Step F))
      → moves id (modify (put_at id at) i steps) ≡ modify (λ o. some at) i (moves id steps)
  moves-put_at_self id at i [] = refl
  moves-put_at_self id at zero (st ∷ steps) =
      ground (arith, lookup-insert id id at st.pos, eq_iff id id)
  moves-put_at_self id at (suc i) (st ∷ steps) =
      ap (lookup id st.pos ∷◌) (moves-put_at_self id at i steps)

  moves-put_at_ne :
      (id other : String) (at : Vec2 F) (i : ℕ) (steps : List (Step F))
      → other ≢ id
      → moves other (modify (put_at id at) i steps) ≡ moves other steps
  moves-put_at_ne id other at i [] h = refl
  moves-put_at_ne id other at zero (st ∷ steps) h =
      ground (arith, lookup-insert id other at st.pos, eq_iff id other)
  moves-put_at_ne id other at (suc i) (st ∷ steps) h =
      ap (lookup other st.pos ∷◌) (moves-put_at_ne id other at i steps h)

module _ {F : Type 0} ⦃n : Number F⦄ where
  steps-move_object :
      (id : String) (at : Vec2 F) (done : Bool) (s : EditorStore F)
      → (move_object id at done s).doc.steps
        ≡ modify (put_at id (rounded at)) s.step_index s.doc.steps
  unfolding move_object apply with_current_step
  steps-move_object id at done s = refl

  -- A move puts the object, at the current step, where it was dropped, to a hundredth of a metre;
  -- the earlier steps show it where they did, and no step shows any other object elsewhere.
  pub shows-move_object :
      (id : String) (at : Vec2 F) (done : Bool) (s : EditorStore F)
      → s.step_index < length s.doc.steps
      → (shows (move_object id at done s).doc s.step_index id ≡ some (rounded at))
        × ((j : ℕ)
            → j < s.step_index
            → shows (move_object id at done s).doc j id ≡ shows s.doc j id)
        × ((j : ℕ) (other : String)
            → other ≢ id
            → shows (move_object id at done s).doc j other ≡ shows s.doc j other)
  shows-move_object id at done s h = (
    rw
        (
          position_at-standing (move_object id at done s).doc s.step_index id,
          steps-move_object id at done s,
          moves-put_at_self id (rounded at) s.step_index s.doc.steps,
        )
        (standing-modify_self none (moves id s.doc.steps) (rounded at) s.step_index
          (omega (arith, length-moves id s.doc.steps))),
    λ j l.
        rw
          (
            position_at-standing (move_object id at done s).doc j id,
            steps-move_object id at done s,
            moves-put_at_self id (rounded at) s.step_index s.doc.steps,
            position_at-standing s.doc j id,
          )
          (standing-modify_before none (moves id s.doc.steps) _ s.step_index (suc j) l),
    λ j other ne.
        rw
          (
            position_at-standing (move_object id at done s).doc j other,
            steps-move_object id at done s,
            moves-put_at_ne id other (rounded at) s.step_index s.doc.steps ne,
            position_at-standing s.doc j other,
          )
          refl,
  )

module _ {F : Type 0} (id : String) where
  moves-strip_self :
      (steps : List (Step F)) → All (λ o. o ≡ none) (moves id (map (strip_step id) steps))
  moves-strip_self [] = tt
  moves-strip_self (st ∷ steps) =
      (ground (arith, lookup-erase id id st.pos, eq_iff id id), moves-strip_self steps)

  moves-strip_ne :
      (other : String) (steps : List (Step F))
      → other ≢ id
      → moves other (map (strip_step id) steps) ≡ moves other steps
  moves-strip_ne other [] h = refl
  moves-strip_ne other (st ∷ steps) h = cc (erased, moves-strip_ne other steps h)
    where
      erased : lookup other (strip_step id st).pos ≡ lookup other st.pos
      erased = ground (arith, lookup-erase id other st.pos, eq_iff other id)

  not-any-filter :
      (objects : List (BoardObject F))
      → any (λ o. str_eq o.id id) (filter (λ o. not (str_eq o.id id)) objects) ≡ false
  unfolding any filter
  not-any-filter [] = refl
  not-any-filter (o ∷ objects) = ground (arith, not-any-filter objects)

  doc-delete_selection :
      (s : EditorStore F)
      → s.selection ≡ some (Target.object id)
      → (delete_selection s).doc ≡ without_object id s.doc
  unfolding delete_selection apply
  doc-delete_selection s h = rw (h, delete_target) refl

  -- Deleting a selected object takes it off the board and out of every step; every other object
  -- stands at every step where it stood.
  pub shows-delete_selection :
      (s : EditorStore F)
      → s.selection ≡ some (Target.object id)
      → (has_object id (delete_selection s).doc ≡ false)
        × ((j : ℕ) → shows (delete_selection s).doc j id ≡ none)
        × ((j : ℕ) (other : String)
            → other ≢ id
            → shows (delete_selection s).doc j other ≡ shows s.doc j other)
  unfolding without_object
  shows-delete_selection s h = rw (doc-delete_selection s h) (
    not-any-filter s.doc.objects,
    (λ j.
        rw (position_at-standing (without_object id s.doc) j id)
          (standing-none _ (suc j) (moves-strip_self s.doc.steps))),
    λ j other ne.
        rw
          (
            position_at-standing (without_object id s.doc) j other,
            moves-strip_ne other s.doc.steps ne,
            position_at-standing s.doc j other,
          )
          refl,
  )
