-- ===== src/Engine/Shown.antt =====
-- What is seen on the board after a document and a frame are handed over: `setDoc` and `setFrame` of
-- features/tactics/board/engine.ts.
use scoutpulse.Base.{
  String, ◌≡◌, refl, ◌∙◌, inl, inr, Bool, false, ◌&&◌, ◌||◌, Option, none, some, List, [], ◌∷◌,
  Dict, lookup, insert, lookup-insert, lookup-filter_keys, find, any, arith, Number, str_eq, eq_iff,
  is_some, Bool-cases,
}
use scoutpulse.Board.Doc.{BoardObject, TacticDoc}
use scoutpulse.Board.Playback.{Frame, Placement}
use scoutpulse.Editor.Store.{has_object}
use scoutpulse.Engine.Camera.{turn}
use scoutpulse.Engine.Pieces.{
  Piece, set_doc, set_pieces, set_frame, place_piece, kept_or_built, object_scale, appearance_key,
}

abbrev seen : {F : Type 0} → Option (Piece F) → Bool
seen none = false
seen (some p) = p.visible

-- whether the piece of an object is seen
abbrev pub is_seen : {F : Type 0} → String → Dict (Piece F) → Bool
is_seen id pieces = seen (lookup id pieces)

module _ {F : Type 0} ⦃n : Number F⦄ where
  is_some-set_pieces :
      (key : BoardObject F → String) (rotation : BoardObject F → F) (id : String)
      (objects : List (BoardObject F)) (pieces : Dict (Piece F))
      → is_some (lookup id (set_pieces key rotation objects pieces))
        ≡ any (λ o. str_eq o.id id) objects || is_some (lookup id pieces)
  unfolding set_pieces any
  is_some-set_pieces key rotation id [] pieces = refl
  is_some-set_pieces key rotation id (obj ∷ objects) pieces = ground (
    arith,
    is_some-set_pieces key rotation id objects (
        insert obj.id
          (kept_or_built (key obj) (rotation obj) (object_scale (some obj)) (lookup obj.id pieces))
          pieces),
    lookup-insert obj.id id
        (kept_or_built (key obj) (rotation obj) (object_scale (some obj)) (lookup obj.id pieces))
        pieces,
  )

  is_some-set_doc :
      (show : F → String) (radians : F → F) (flat : Bool) (doc : TacticDoc F)
      (pieces : Dict (Piece F)) (id : String)
      → is_some (lookup id (set_doc show radians flat doc pieces)) ≡ has_object id doc
  unfolding set_doc
  is_some-set_doc show radians flat doc pieces id = ground (
    arith,
    lookup-filter_keys (λ k. any (λ o. str_eq o.id k) doc.objects) id
        (set_pieces (λ obj. appearance_key show doc obj flat) (λ obj. turn radians flat obj)
          doc.objects pieces),
    is_some-set_pieces (λ obj. appearance_key show doc obj flat) (λ obj. turn radians flat obj) id
        doc.objects pieces,
  )

  seen-place_piece :
      (obj : Option (BoardObject F)) (to : Option (Placement F)) (p : Piece F)
      → (place_piece obj to p).visible ≡ is_some to
  unfolding place_piece
  seen-place_piece obj none p = refl
  seen-place_piece obj (some to) p = refl

  is_seen-set_frame :
      (objects : List (BoardObject F)) (frame : Frame F) (id : String) (pieces : Dict (Piece F))
      → is_seen id (set_frame objects frame pieces)
        ≡ is_some (lookup id pieces) && is_some (lookup id frame.placements)
  unfolding set_frame lookup
  is_seen-set_frame objects frame id [] = refl
  is_seen-set_frame objects frame id ((j, p) ∷ pieces) = elim (Bool-cases (str_eq j id)) [
    | inr other ↦ rw other (is_seen-set_frame objects frame id pieces)
    | inl same ↦
        let e : j ≡ id = (eq_iff j id).0 same in
        rw (same, e)
          (seen-place_piece (find (λ o. str_eq o.id id) objects) (lookup id frame.placements) p)
  ]

  -- After a document and then a frame are handed over, whatever stood on the board before, an
  -- object is seen exactly when it is in the document and the frame places it.
  pub is_seen-set_doc :
      (show : F → String) (radians : F → F) (flat : Bool) (doc : TacticDoc F) (frame : Frame F)
      (pieces : Dict (Piece F)) (id : String)
      → is_seen id (set_frame doc.objects frame (set_doc show radians flat doc pieces))
        ≡ has_object id doc && is_some (lookup id frame.placements)
  is_seen-set_doc show radians flat doc frame pieces id =
      is_seen-set_frame doc.objects frame id (set_doc show radians flat doc pieces)
      ∙ rw (is_some-set_doc show radians flat doc pieces id) refl
