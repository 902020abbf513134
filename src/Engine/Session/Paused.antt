-- ===== src/Engine/Session/Paused.antt =====
-- A board whose editing is off: while it plays, stands between two steps or is recorded.
use scoutpulse.Base.{String, ◌≡◌, refl, false, Number}
use scoutpulse.Engine.Pointer.{
  Pointer, Event, editing, handle_event, on_pointer_down, on_pointer_move,
}
use scoutpulse.Engine.Session.{Session, feed}

module _ {F : Type 0} ⦃n : Number F⦄ where
  -- While editing is off, a pointer that goes down or moves changes neither the engine nor the
  -- store.
  pub feed_paused :
      (s : Session F) (ev : Pointer F) (id : String)
      → editing s.engine ≡ false
      → (feed (Event.down ev) id s ≡ s) × (feed (Event.move ev) id s ≡ s)
  unfolding feed handle_event on_pointer_down on_pointer_move
  feed_paused s ev id h = (simp h refl, simp h refl)
