-- ===== src/Editor/Saving.antt =====
-- Opening and saving a board: `load`, `save`, `signInToSave` and `canLeave` of
-- features/tactics/editor/tactics-editor.ts. A save is the part up to its request, and the part from the
-- answer on; what the page does meanwhile comes between. The content of a board that is read is what
-- `normalizeDoc` gives of it.
pub mod Lost
use scoutpulse.Base.{
  String, Bool, true, false, not, Option, none, some, List, [], ◌∷◌, Number, if◌then◌else◌, Text,
  trim, is_empty,
}
use scoutpulse.Board.Doc.{TacticDoc}
use scoutpulse.Forms.Fields.{is_filled}
use scoutpulse.Forms.Dates.{text_eq}
use scoutpulse.Forms.Submit.{Caught, message_for}
use scoutpulse.Editor.Store
use scoutpulse.Editor.Store.{EditorStore, mark_saved}
use scoutpulse.Editor.Action.{Action, act}

-- what is kept in the session's storage while someone signs in
pub record Draft (F : Type 0) : Type 0 where
  pub title : Text
  pub description : Text
  pub doc : TacticDoc F

pub record TacticsEditor (F : Type 0) : Type 0 where
  pub store : EditorStore F
  pub title : Text
  pub description : Text
  pub saved_slug : Option Text
  pub loading : Bool
  pub load_error : Option String
  pub saving : Bool
  pub save_error : Option String
  pub draft : Option (Draft F)

-- of core/models/tactics.ts, what the editor reads
pub record TacticBoard (F : Type 0) : Type 0 where
  pub slug : Text
  pub owner_id : Text
  pub title : Text
  pub description : Text
  pub content : TacticDoc F

pub record BoardInput (F : Type 0) : Type 0 where
  pub title : Text
  pub description : Text
  pub content : TacticDoc F

-- what the repository answers
pub data Reply (F : Type 0) : Type 0 where
  board : TacticBoard F → Reply F
  thrown : Caught → Reply F

pub data Request (F : Type 0) : Type 0 where
  update : Text → BoardInput F → Request F
  create : BoardInput F → Request F

-- `Untitled board`
abbrev untitled : Text
untitled =
    b'U' ∷ b'n' ∷ b't' ∷ b'i' ∷ b't' ∷ b'l' ∷ b'e' ∷ b'd' ∷ b' ' ∷ b'b' ∷ b'o' ∷ b'a' ∷ b'r' ∷ b'd'
    ∷ []

abbrev pub is_user : Text → Option Text → Bool
is_user owner none = false
is_user owner (some id) = text_eq owner id

module _ {F : Type 0} where
  abbrev pub begin_load : TacticsEditor F → TacticsEditor F
  begin_load e = record e { loading = true }

  -- `load`, from the answer on; who is signed in is an argument
  unfoldable pub end_load : Option Text → Reply F → TacticsEditor F → TacticsEditor F
  unfolding Store.load message_for text_eq
  end_load user (Reply.board b) e =
      if is_user b.owner_id user
      then record e {
        title = b.title;
        description = b.description;
        store = Store.load b.content e.store;
        saved_slug = some b.slug;
        loading = false;
      }
      else record e {
        load_error =
            some "Only the member who made this board can edit it. You can still watch it.";
        loading = false;
      }
  end_load user (Reply.thrown c) e = record e {
    load_error = some (message_for "Could not open this board." c);
    loading = false;
  }

  -- what a save sends
  abbrev pub input_of : TacticsEditor F → BoardInput F
  input_of e =
      let title = trim e.title in
      record {
        title = if is_empty title then untitled else title;
        description = trim e.description;
        content = e.store.doc;
      }

  abbrev pub request_of : Option Text → BoardInput F → Request F
  request_of none input = Request.create input
  request_of (some slug) input =
      if is_empty slug then Request.create input else Request.update slug input

  -- `signInToSave`, with whether the storage takes the draft
  unfoldable pub sign_in_to_save : Bool → TacticsEditor F → TacticsEditor F
  unfolding mark_saved
  sign_in_to_save stores e = record e {
    draft =
        if stores
        then some (record { title = e.title; description = e.description; doc = e.store.doc })
        else e.draft;
    store = mark_saved e.store;
  }

  -- `save` up to the answer, with whether someone is signed in and whether the storage takes a draft
  unfoldable pub save : Bool → Bool → TacticsEditor F → TacticsEditor F × Option (Request F)
  unfolding sign_in_to_save
  save can_save stores e =
      if can_save
      then (
        record e { saving = true; save_error = none },
        some (request_of e.saved_slug (input_of e)),
      )
      else (sign_in_to_save stores e, none)

  -- a board that was created gets its slug
  abbrev slug_after : Request F → Text → Option Text → Option Text
  slug_after (Request.create input) slug saved = some slug
  slug_after (Request.update old input) slug saved = saved

  -- the rest of `save`
  unfoldable pub settle : Request F → Reply F → TacticsEditor F → TacticsEditor F
  unfolding mark_saved message_for
  settle request (Reply.board b) e = record e {
    title = b.title;
    store = mark_saved e.store;
    saved_slug = slug_after request b.slug e.saved_slug;
    saving = false;
  }
  settle request (Reply.thrown c) e = record e {
    save_error = some (message_for "Could not save the board. Please try again." c);
    saving = false;
  }

  -- `canLeave`, with what the user answers when asked
  unfoldable pub can_leave : Bool → TacticsEditor F → Bool
  can_leave confirmed e = if not e.store.dirty then true else confirmed

module _ {F : Type 0} ⦃n : Number F⦄ where
  -- the user works on the board
  abbrev pub edit : Action F → TacticsEditor F → TacticsEditor F
  edit a e = record e { store = act e.store a }
