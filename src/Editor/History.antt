-- ===== src/Editor/History.antt =====
-- Undo and redo: what they give back, and how far they go.
use scoutpulse.Base.{◌-◌, ◌≡◌, refl, true, false, List, [], ◌∷◌, arith, take}
use mathlib.Core.List.{foldl}
use scoutpulse.Board.Doc.{TacticDoc}
use scoutpulse.Editor.Store.{EditorStore, Phase, move, end, history_limit, apply, undo, redo}

module _ {F : Type 0} where
  -- An edit outside a gesture is undone by one undo, which keeps it for a redo.
  pub undo-apply :
      (next : TacticDoc F) (phase : Phase) (s : EditorStore F)
      → s.gesture_open ≡ false
      → ((undo (apply next phase s)).doc ≡ s.doc) × ((redo (undo (apply next phase s))).doc ≡ next)
  unfolding apply undo redo
  undo-apply next phase s h = ground arith

  -- the edits of a drag but for its last
  abbrev pub dragged : EditorStore F → List (TacticDoc F) → EditorStore F
  dragged = foldl (λ s doc. apply doc move s)

  abbrev pub drag : EditorStore F → List (TacticDoc F) → TacticDoc F → EditorStore F
  drag s docs last = apply last end (dragged s docs)

  dragged_open :
      (docs : List (TacticDoc F)) (s : EditorStore F)
      → s.gesture_open ≡ true
      → ((dragged s docs).gesture_open ≡ true) × ((dragged s docs).undo_stack ≡ s.undo_stack)
  unfolding apply
  dragged_open [] s h = (h, refl)
  dragged_open (doc ∷ docs) s h =
      let (a, b) = dragged_open docs (apply doc move s) refl in (a, ground arith)

  drag-undo_stack :
      (docs : List (TacticDoc F)) (s : EditorStore F) (last : TacticDoc F)
      → s.gesture_open ≡ false
      → (drag s docs last).undo_stack ≡ s.doc ∷ take (history_limit - 1) s.undo_stack
  unfolding apply
  drag-undo_stack [] s last h = ground arith
  drag-undo_stack (doc ∷ docs) s last h =
      let (a, b) = dragged_open docs (apply doc move s) refl in ground arith

  pub undo_doc :
      (s : EditorStore F) (doc : TacticDoc F) (rest : List (TacticDoc F))
      → s.undo_stack ≡ doc ∷ rest
      → ((undo s).doc ≡ doc)
        × ((undo s).undo_stack ≡ rest)
        × ((undo s).redo_stack ≡ s.doc ∷ s.redo_stack)
  unfolding undo
  undo_doc s doc rest h = ground arith

  -- A drag that starts outside a gesture is one undo entry, however many moves it makes: one undo
  -- gives back the document from before the drag, and leaves on the stack the newest 99 entries
  -- that were there.
  pub undo-drag :
      (s : EditorStore F) (docs : List (TacticDoc F)) (last : TacticDoc F)
      → s.gesture_open ≡ false
      → ((undo (drag s docs last)).doc ≡ s.doc)
        × ((undo (drag s docs last)).undo_stack ≡ take (history_limit - 1) s.undo_stack)
  undo-drag s docs last h =
      let (a, b, _) =
        undo_doc (drag s docs last) s.doc (take (history_limit - 1) s.undo_stack)
          (drag-undo_stack docs s last h) in
      (a, b)
