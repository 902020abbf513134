-- ===== src/Engine/Camera.antt =====
-- The mouse and touch layout, and what the cameras frame: `applyInteractivity`, `bounds`,
-- `frameFlat`, `fitOrtho`, `turn` and `radiusOf` of features/tactics/board/engine.ts.
use scoutpulse.Base.{
  ◌≡◌, refl, Bool, true, false, ◌&&◌, Option, none, some, Number, int, neg, max_of, if◌then◌else◌,
  or_else,
}
use scoutpulse.Board.Doc.{BoardObject, ObjectKind, EquipmentKind, PitchLayout, is_player}
use scoutpulse.Board.Defaults.{pitch_length, pitch_width}

-- THREE.MOUSE and THREE.TOUCH
pub data Mouse : Type 0 where
  rotate dolly pan : Mouse

pub data Touch : Type 0 where
  rotate pan dolly_pan dolly_rotate : Touch

-- `mouseButtons` and `touches` of the controls; `none` is null
pub record Controls : Type 0 where
  pub left : Option Mouse
  pub middle : Option Mouse
  pub right : Option Mouse
  pub one : Option Touch
  pub two : Option Touch

abbrev look : Bool → Mouse
look flat = if flat then Mouse.pan else Mouse.rotate

-- `applyInteractivity`, with `flat` and `edit.editor`
unfoldable pub apply_interactivity : Bool → Bool → Controls
apply_interactivity flat editor =
    if editor
    then record {
      left = none;
      middle = some Mouse.dolly;
      right = some (look flat);
      one = none;
      two = some (if flat then Touch.dolly_pan else Touch.dolly_rotate);
    }
    else record {
      left = some (look flat);
      middle = some Mouse.dolly;
      right = some Mouse.pan;
      one = some (if flat then Touch.pan else Touch.rotate);
      two = some Touch.dolly_pan;
    }

-- whether a button or fingers may turn the camera
abbrev pub turns : Controls → Bool
turns c =
    any_mouse c.left (any_mouse c.middle (any_mouse c.right (touch c.one (touch c.two false))))
  where
    any_mouse : Option Mouse → Bool → Bool
    any_mouse (some Mouse.rotate) rest = true
    any_mouse (some Mouse.dolly) rest = rest
    any_mouse (some Mouse.pan) rest = rest
    any_mouse none rest = rest

    touch : Option Touch → Bool → Bool
    touch (some Touch.rotate) rest = true
    touch (some Touch.dolly_rotate) rest = true
    touch (some Touch.pan) rest = rest
    touch (some Touch.dolly_pan) rest = rest
    touch none rest = rest

pub record Bounds (F : Type 0) : Type 0 where
  pub x0 : F
  pub x1 : F
  pub y0 : F
  pub y1 : F

-- the 2D camera: where it stands and looks, and half the size of what it shows
pub record Ortho (F : Type 0) : Type 0 where
  pub half : F
  pub left : F
  pub right : F
  pub top : F
  pub bottom : F
  pub x : F
  pub z : F
  pub target_x : F
  pub target_z : F

module _ {F : Type 0} ⦃n : Number F⦄ where
  abbrev half_l : F
  half_l = n.ratio pitch_length 2

  abbrev half_w : F
  half_w = n.ratio pitch_width 2

  abbrev around : F → F → F → Bounds F
  around x0 x1 half = record { x0 = x0; x1 = x1; y0 = neg half; y1 = half }

  unfoldable pub bounds : PitchLayout → Bounds F
  bounds PitchLayout.full =
      around (n.sub (neg half_l) (int 2)) (n.add half_l (int 2)) (n.add half_w (int 2))
  bounds PitchLayout.half = around (neg (int 2)) (n.add half_l (int 3)) (n.add half_w (int 2))
  bounds PitchLayout.third =
      around (n.sub half_l (int 37)) (n.add half_l (int 3)) (n.add half_w (int 1))
  bounds PitchLayout.box = around (n.sub half_l (int 26)) (n.add half_l (int 3)) (int 24)
  bounds PitchLayout.drill = around (neg (int 24)) (int 24) (int 17)

  unfoldable pub fit_ortho : F → F → Ortho F → Ortho F
  fit_ortho aspect h c = record c {
    left = n.mul (neg h) aspect;
    right = n.mul h aspect;
    top = h;
    bottom = neg h;
  }

  unfoldable pub frame_flat : F → PitchLayout → Ortho F → Ortho F
  unfolding fit_ortho bounds
  frame_flat aspect layout c =
      let b : Bounds F = bounds layout in
      let cx = n.div (n.add b.x0 b.x1) (int 2) in
      let cy = n.div (n.add b.y0 b.y1) (int 2) in
      let half =
        n.mul
          (max_of (n.div (n.sub b.y1 b.y0) (int 2))
            (n.div (n.div (n.sub b.x1 b.x0) (int 2)) aspect))
          (n.ratio 104 100) in
      fit_ortho aspect half (record c {
        half = half;
        x = cx;
        z = n.add cy (n.ratio 1 100);
        target_x = cx;
        target_z = cy;
      })

  -- `turn`, in degrees turned the other way; the unit is three.js's
  unfoldable pub turn : (F → F) → Bool → BoardObject F → F
  turn radians flat obj =
      if flat && is_player obj.kind then int 0 else neg (radians (or_else obj.rotation (int 0)))

  abbrev radius_of_kind : ObjectKind → Bool → F
  radius_of_kind ObjectKind.player flat =
      n.div (if flat then n.ratio 13 10 else n.ratio 95 100) (n.ratio 95 100)
  radius_of_kind (ObjectKind.equipment EquipmentKind.goal) flat = n.ratio 42 10
  radius_of_kind (ObjectKind.equipment EquipmentKind.minigoal) flat = int 2
  radius_of_kind (ObjectKind.equipment EquipmentKind.ladder) flat = int 2
  radius_of_kind (ObjectKind.equipment EquipmentKind.popup) flat = n.ratio 11 10
  radius_of_kind (ObjectKind.equipment _) flat = n.ratio 6 10

  unfoldable pub radius_of : Option (BoardObject F) → Bool → F
  radius_of none flat = int 1
  radius_of (some obj) flat = radius_of_kind obj.kind flat

-- In the editor neither the left button nor one finger moves the camera, whether the board is flat
-- or not; a flat board is turned by no button and no touch, in the editor or in the viewer; and
-- every other board can be turned.
pub apply_interactivity_lem :
    (flat editor : Bool)
    → ((apply_interactivity flat true).left ≡ none)
      × ((apply_interactivity flat true).one ≡ none)
      × (turns (apply_interactivity true editor) ≡ false)
      × (turns (apply_interactivity false editor) ≡ true)
unfolding apply_interactivity
apply_interactivity_lem flat true = (refl, refl, refl, refl)
apply_interactivity_lem flat false = (refl, refl, refl, refl)
