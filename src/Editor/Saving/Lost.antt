-- ===== src/Editor/Saving/Lost.antt =====
-- A board and what the service has of it: what is left behind when the page is left.
use mathlib.Core.List.{foldl}
use mathlib.Core.Option.{some-injective}
use scoutpulse.Base.{
  arith, ◌≡◌, refl, ◌⊎◌, inl, inr, sym, ap, ◌∙◌, Bool, true, false, Option, none, some, List, [],
  ◌∷◌, Number, Text,
}
use scoutpulse.Board.Doc.{TacticDoc}
use scoutpulse.Editor.Store
use scoutpulse.Editor.Store.{EditorStore, mark_saved}
use scoutpulse.Editor.Action.{Action, act, run}
use scoutpulse.Editor.Effects.{Did, is_mark_saved, act-Did}
use scoutpulse.Editor.Saving.{
  TacticsEditor, TacticBoard, BoardInput, Request, Reply, input_of, request_of, save, settle,
  end_load, can_leave, edit, is_user,
}

-- the page, the document that the service has, and the request that is on its way
pub record World (F : Type 0) : Type 0 where
  pub page : TacticsEditor F
  pub stored : Option (TacticDoc F)
  pub flight : Option (Request F)

abbrev pub content_of : {F : Type 0} → Request F → TacticDoc F
content_of (Request.update slug input) = input.content
content_of (Request.create input) = input.content

module _ {F : Type 0} where
  content_of-request_of :
      (slug : Option Text) (input : BoardInput F)
      → content_of (request_of slug input) ≡ input.content
  content_of-request_of none input = refl
  content_of-request_of (some []) input = refl
  content_of-request_of (some (c ∷ slug)) input = refl

  -- someone who is signed in saves
  abbrev pub sends : World F → World F
  sends w = let sent = save true true w.page in record w { page = sent.0; flight = sent.1 }

  -- the service stores what was sent, or the request fails
  abbrev pub answers : Request F → Reply F → World F → World F
  answers r (Reply.board b) w = record {
    page = settle r (Reply.board b) w.page;
    stored = some (content_of r);
    flight = none;
  }
  answers r (Reply.thrown c) w = record w { page = settle r (Reply.thrown c) w.page; flight = none }

  -- what the service has is what the page shows, or nothing is stored and the board is as it began
  abbrev pub IsSafe : TacticDoc F → World F → Type 0
  IsSafe blank w =
      (w.stored ≡ some w.page.store.doc) ⊎ ((w.stored ≡ none) × (w.page.store.doc ≡ blank))

  -- a board that was stored is opened by its owner
  abbrev pub opens : Option Text → TacticBoard F → TacticsEditor F → World F
  opens user b e = record {
    page = end_load user (Reply.board b) e;
    stored = some b.content;
    flight = none;
  }

  record IsTold (blank : TacticDoc F) (w : World F) : Type 0 where
    clean : w.page.store.dirty ≡ false → IsSafe blank w
    sent : (r : Request F) → w.flight ≡ some r → content_of r ≡ w.page.store.doc

module _ {F : Type 0} ⦃n : Number F⦄ where
  -- What happens to a board that someone who is signed in edits: an edit comes while no save is on its
  -- way, and so does a save. The title and the description change at any time.
  pub data Next : World F → World F → Type 0 where
    edits :
        (a : Action F) (w : World F)
        → is_mark_saved a ≡ false
        → w.flight ≡ none
        → Next w (record w { page = edit a w.page })
    titled :
        (title description : Text) (w : World F)
        → Next w (record w { page = record w.page { title = title; description = description } })
    saves : (w : World F) → w.flight ≡ none → Next w (sends w)
    answered :
        (r : Request F) (reply : Reply F) (w : World F)
        → w.flight ≡ some r
        → Next w (answers r reply w)

  -- from a new board, or from one that its owner opens
  pub data Reach (blank : TacticDoc F) : World F → Type 0 where
    fresh :
        (e : TacticsEditor F)
        → e.store.doc ≡ blank
        → Reach blank (record { page = e; stored = none; flight = none })
    opened :
        (user : Option Text) (b : TacticBoard F) (e : TacticsEditor F)
        → is_user b.owner_id user ≡ true
        → Reach blank (opens user b e)
    later : {w v : World F} → Reach blank w → Next w v → Reach blank v

  Did-IsSafe :
      {moving : Bool} {blank : TacticDoc F} (w : World F) (t : EditorStore F)
      → Did moving w.page.store t
      → (w.page.store.dirty ≡ false → IsSafe blank w)
      → t.dirty ≡ false
      → IsSafe blank (record w { page = record w.page { store = t } })
  Did-IsSafe w t (Did.edited dirty _) h clean = cc
  Did-IsSafe w t (Did.kept doc dirty _) h clean = rw doc (h (sym dirty ∙ clean))

  answers-IsTold :
      {blank : TacticDoc F} (r : Request F) (reply : Reply F) (w : World F)
      → w.flight ≡ some r
      → IsTold blank w
      → IsTold blank (answers r reply w)
  unfolding settle mark_saved
  answers-IsTold r (Reply.board b) w flies h = record {
    clean = λ c. inl (ap some (h.sent r flies));
    sent = λ q e. cc;
  }
  answers-IsTold r (Reply.thrown c) w flies h = record { clean = h.clean; sent = λ q e. cc }

  Next-IsTold : {blank : TacticDoc F} {w v : World F} → Next w v → IsTold blank w → IsTold blank v
  unfolding save
  Next-IsTold (Next.edits a w plain idle) h = record {
    clean = Did-IsSafe w (act w.page.store a) (act-Did w.page.store a plain) h.clean;
    sent = λ q e. cc;
  }
  Next-IsTold (Next.titled title description w) h = record { clean = h.clean; sent = h.sent }
  Next-IsTold (Next.saves w idle) h = record {
    clean = h.clean;
    sent = λ r e.
        ap content_of (sym (some-injective _ _ e))
        ∙ content_of-request_of w.page.saved_slug (input_of w.page);
  }
  Next-IsTold (Next.answered r reply w flies) h = answers-IsTold r reply w flies h

  Reach-IsTold : {blank : TacticDoc F} {w : World F} → Reach blank w → IsTold blank w
  unfolding end_load Store.load
  Reach-IsTold (Reach.fresh e doc) = record { clean = λ c. inr (refl, doc); sent = λ r q. cc }
  Reach-IsTold (Reach.opened user b e owns) = record {
    clean = λ c. inl (rw owns refl);
    sent = λ r q. cc;
  }
  Reach-IsTold (Reach.later r st) = Next-IsTold st (Reach-IsTold r)

  -- As long as someone who is signed in edits a new board, or one of their own that they have
  -- opened, edits it and saves it only while no save is on its way, and marks it saved in no other
  -- way: when the page can be left without a question, the document that the service has is the one
  -- that the editor shows, or nothing is stored and the document is the one that the editor began
  -- with.
  pub Reach-can_leave :
      {blank : TacticDoc F} (w : World F)
      → Reach blank w
      → can_leave false w.page ≡ true
      → IsSafe blank w
  unfolding can_leave
  Reach-can_leave w r leaves = (Reach-IsTold r).clean (ground arith)

  store-edits :
      (work : List (Action F)) (e : TacticsEditor F)
      → (foldl (λ p a. edit a p) e work).store ≡ run e.store work
  store-edits [] e = refl
  store-edits (a ∷ work) e = store-edits work (edit a e)

  -- several operations, one after the other
  abbrev pub works : List (Action F) → World F → World F
  works work w = record w { page = foldl (λ p a. edit a p) w.page work }

  -- With no save on its way, a save by someone who is signed in, any number of operations after it,
  -- and the answer that the board is stored: the service has the document from before the
  -- operations, the editor shows the one from after them, and the page can be left without a
  -- question.
  pub can_leave-answers :
      (w : World F) (work : List (Action F)) (b : TacticBoard F)
      → w.flight ≡ none
      → (r : Request F) × ((sends w).flight ≡ some r)
        × ((answers r (Reply.board b) (works work (sends w))).stored ≡ some w.page.store.doc)
        × ((answers r (Reply.board b) (works work (sends w))).page.store.doc
            ≡ (run w.page.store work).doc)
        × (can_leave false (answers r (Reply.board b) (works work (sends w))).page ≡ true)
  unfolding save settle mark_saved can_leave
  can_leave-answers w work b idle = (
    request_of w.page.saved_slug (input_of w.page),
    refl,
    ap some (content_of-request_of w.page.saved_slug (input_of w.page)),
    ap (λ s. s.doc) (store-edits work (sends w).page),
    refl,
  )

  -- A new board that is saved again before the answer is sent to be created a second time.
  pub save-save :
      (e : TacticsEditor F) (stores : Bool)
      → e.saved_slug ≡ none
      → (save true stores (save true stores e).0).1 ≡ some (Request.create (input_of e))
  unfolding save
  save-save e stores new = rw new refl
