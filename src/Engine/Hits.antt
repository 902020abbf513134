-- ===== src/Engine/Hits.antt =====
-- What the pointer is over: `hitObject` and `hitDrawing` of features/tactics/board/engine.ts. The
-- ray cast through the meshes is three.js's, and its result an argument.
use scoutpulse.Base.{
  String, ◌≡◌, refl, ◌⊎◌, inl, inr, Bool, true, false, not, ◌&&◌, ◌||◌, Option, none, some, List,
  [], ◌∷◌, Dict, All, In, arith, Number, IsOrdered, lt, int, if◌then◌else◌, or_else, Bool-cases,
}
use mathlib.Core.List.{reverse}
use scoutpulse.Board.Doc.{Vec2, Drawing, DrawingKind}
use scoutpulse.Board.Defaults.{default_stroke}
use scoutpulse.Board.Curves.{dist_to_polyline, drawing_path, inside_polygon}
use scoutpulse.Engine.Pieces.{Piece}

abbrev is_text : DrawingKind → Bool
is_text DrawingKind.text = true
is_text _ = false

abbrev is_zone : DrawingKind → Bool
is_zone DrawingKind.rect = true
is_zone DrawingKind.ellipse = true
is_zone DrawingKind.polygon = true
is_zone _ = false

module _ {F : Type 0} ⦃n : Number F⦄ where
  -- how far a piece stands from a point
  abbrev pub away : Vec2 F → Piece F → F
  away at p = n.hypot (n.sub p.at.x at.x) (n.sub p.at.y at.y)

  -- whether a piece is seen, and nearer than the best so far
  abbrev pub improves : Vec2 F → F → Piece F → Bool
  improves at best p = p.visible && lt (away at p) best

  nearest : Vec2 F → Option String → F → Dict (Piece F) → Option String
  nearest at found best [] = found
  nearest at found best ((id, p) ∷ pieces) =
      nearest at (if improves at best p then some id else found)
        (if improves at best p then away at p else best) pieces

  -- the first piece that the ray meets; else the nearest one within reach
  unfoldable pub hit_object : Option String → Option (Vec2 F) → Dict (Piece F) → Option String
  unfolding nearest
  hit_object (some id) at pieces = some id
  hit_object none none pieces = none
  hit_object none (some at) pieces = nearest at none (n.ratio 16 10) pieces

  -- `d < limit`, where `none` is Infinity
  abbrev below : F → Option F → Bool
  below limit none = false
  below limit (some d) = lt d limit

  abbrev near_first : Vec2 F → List (Vec2 F) → Bool
  near_first at [] = false
  near_first at (p ∷ points) = lt (n.hypot (n.sub at.x p.x) (n.sub at.y p.y)) (n.ratio 25 10)

  unfoldable pub is_hit : Vec2 F → Drawing F → Bool
  is_hit at d =
      if is_text d.kind
      then near_first at d.points
      else below (n.add (n.div (or_else d.width default_stroke) (int 2)) (n.ratio 9 10))
          (dist_to_polyline at (drawing_path d))
        || (is_zone d.kind && inside_polygon at (drawing_path d))

  first_hit : Vec2 F → List (Drawing F) → Option String
  first_hit at [] = none
  first_hit at (d ∷ drawings) = if is_hit at d then some d.id else first_hit at drawings

  -- from the last drawing, the topmost one, back
  unfoldable pub hit_drawing : Vec2 F → List (Drawing F) → Option String
  unfolding first_hit
  hit_drawing at drawings = first_hit at (reverse drawings)

-- no piece that is seen stands nearer than a limit
abbrev pub IsClear : {F : Type 0} ⦃n : Number F⦄ → Vec2 F → F → Dict (Piece F) → Type 0
IsClear ⦃n⦄ at limit = All (λ entry. (not entry.1.visible || n.le limit (away at entry.1)) ≡ true)

module _ {F : Type 0} ⦃n : Number F⦄ where
  -- The named piece is seen, within the limit, and none that is seen is nearer.
  abbrev pub IsNearest : Vec2 F → F → Dict (Piece F) → String → Type 0
  IsNearest at limit pieces id =
      (p : Piece F) × In (id, p) pieces
      × (improves at limit p ≡ true)
      × IsClear at (away at p) pieces

  -- what the search leaves, from a piece found before on
  abbrev IsBest : Vec2 F → F → Option String → Dict (Piece F) → Option String → Type 0
  IsBest at limit found pieces result =
      ((result ≡ found) × IsClear at limit pieces)
      ⊎ ((id : String) × (result ≡ some id) × IsNearest at limit pieces id)

module _ {F : Type 0} ⦃n : Number F⦄ (ord : IsOrdered n) where
  open ord use {le_refl, le_trans, le_total}

  le_of_lt : (x y : F) → lt x y ≡ true → n.le x y ≡ true
  le_of_lt x y h = elim (le_total x y) [ inl le ↦ le | inr ge ↦ cc ]

  lt_of_lt_of_le : (x y z : F) → lt x y ≡ true → n.le y z ≡ true → lt x z ≡ true
  lt_of_lt_of_le x y z h k = elim (Bool-cases (n.le z x)) [
    | inr less ↦ rw less refl
    | inl le ↦ let e = le_trans y z x k le in cc
  ]

  -- a piece is seen and nearer than the best, or it is not
  improves-true :
      (at : Vec2 F) (best : F) (p : Piece F)
      → improves at best p ≡ true
      → (p.visible ≡ true) × (lt (away at p) best ≡ true)
  improves-true at best p h = ground arith

  improves-false :
      (at : Vec2 F) (best : F) (p : Piece F)
      → improves at best p ≡ false
      → (not p.visible || n.le best (away at p)) ≡ true
  improves-false at best p h = ground arith

  better-IsBest :
      (at : Vec2 F) (found result : Option String) (limit : F) (id : String) (p : Piece F)
      (pieces : Dict (Piece F))
      → improves at limit p ≡ true
      → IsBest at (away at p) (some id) pieces result
      → IsBest at limit found ((id, p) ∷ pieces) result
  better-IsBest at found result limit id p pieces h (inl (e, clear)) =
      inr (id, e, (p, In.first, h, (ground (arith, le_refl (away at p)), clear)))
  better-IsBest at found result limit id p pieces h (inr (other, e, (q, mem, good, clear))) =
      let (seen, near) = improves-true at limit p h in
      let (seen_q, near_q) = improves-true at (away at p) q good in
      let closer = le_of_lt (away at q) (away at p) near_q in
      let within = lt_of_lt_of_le (away at q) (away at p) limit near_q (le_of_lt _ _ near) in
      inr (other, e, (q, In.next mem, ground arith, (ground arith, clear)))

  worse-IsBest :
      (at : Vec2 F) (found result : Option String) (limit : F) (id : String) (p : Piece F)
      (pieces : Dict (Piece F))
      → improves at limit p ≡ false
      → IsBest at limit found pieces result
      → IsBest at limit found ((id, p) ∷ pieces) result
  worse-IsBest at found result limit id p pieces h (inl (e, clear)) =
      inl (e, (improves-false at limit p h, clear))
  worse-IsBest at found result limit id p pieces h (inr (other, e, (q, mem, good, clear))) =
      let (seen_q, near_q) = improves-true at limit q good in
      let far = improves-false at limit p h in
      let closer = le_trans (away at q) limit (away at p) (le_of_lt (away at q) limit near_q) in
      inr (other, e, (q, In.next mem, good, (ground arith, clear)))

  nearest-IsBest :
      (at : Vec2 F) (found : Option String) (limit : F) (pieces : Dict (Piece F))
      → IsBest at limit found pieces (nearest at found limit pieces)
  unfolding nearest
  nearest-IsBest at found limit [] = inl (refl, tt)
  nearest-IsBest at found limit ((id, p) ∷ pieces) = elim (Bool-cases (improves at limit p)) [
    | inl better ↦
        rw (better, nearest)
          (better-IsBest at found _ limit id p pieces better
            (nearest-IsBest at (some id) (away at p) pieces))
    | inr worse ↦
        rw worse
          (worse-IsBest at found _ limit id p pieces worse (nearest-IsBest at found limit pieces))
  ]

  -- Where the ray meets no piece, a click takes a piece that is seen and stands within 1.6 metres
  -- of it, with no piece seen nearer, or none when there is no such piece.
  pub hit_object-IsNearest :
      (at : Vec2 F) (pieces : Dict (Piece F))
      → ((hit_object none (some at) pieces ≡ none) × IsClear at (n.ratio 16 10) pieces)
        ⊎ ((id : String) × (hit_object none (some at) pieces ≡ some id)
            × IsNearest at (n.ratio 16 10) pieces id)
  unfolding hit_object
  hit_object-IsNearest at pieces = nearest-IsBest at none (n.ratio 16 10) pieces
