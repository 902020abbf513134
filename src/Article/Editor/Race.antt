-- ===== src/Article/Editor/Race.antt =====
-- How the callers of `save` meet: what a save that is left alone comes to, and what two callers that
-- wait for the same request, or an edit during a request, do.
use scoutpulse.Base.{
  String, ◌≡◌, refl, true, false, not, ◌&&◌, ◌==◌, ==_iff, Option, none, some, [], ◌∷◌, ◌++◌, map,
  is_some, Bool-cases, inl, inr,
}
use scoutpulse.Article.Editor.{
  Editor, Article, Act, Flight, ok, failed, can_edit, after_save, send, save_now, save, resume,
  resume_each, after_each, finish, answered, settle, is_blank_draft, id_of,
}

-- the request that a save sends
abbrev pub request : Option Act → Editor → Flight
request act e = record {
  number = e.sent_count;
  to = id_of e.article;
  sent = e.text;
  seen = e.edits;
  first = act;
  waiters = [];
}

-- With nothing on its way, a save of unsaved text that may be edited and is not a blank new draft
-- sends that text, and when the desk stores it and nothing was typed meanwhile, nothing is unsaved
-- or on its way.
pub save-settle :
    (e : Editor) (saved : Article)
    → e.dirty ≡ true
    → can_edit e ≡ true
    → (not (is_some e.article) && is_blank_draft e.text) ≡ false
    → e.in_flight ≡ none
    → e.flights ≡ []
    → ((save none e).flights ≡ request none e ∷ [])
      × ((settle (request none e) (ok saved) (save none e)).dirty ≡ false)
      × ((settle (request none e) (ok saved) (save none e)).flights ≡ [])
unfolding save save_now send settle answered finish resume_each after_each after_save
save-settle e saved dirty may full free empty =
    let same = (==_iff e.edits e.edits).1 refl in
    let named = (==_iff e.sent_count e.sent_count).1 refl in
    (
      simp (free, dirty, may, full, empty) refl,
      simp (free, dirty, may, full, empty, same, named) refl,
      simp (free, dirty, may, full, empty, same, named) refl,
    )

-- Two callers that wait while a new article is created, and find that this has failed, each send a
-- request to create it: two are on their way at once.
pub two_creates :
    (e : Editor) (f : Flight) (message : String)
    → e.article ≡ none
    → e.dirty ≡ true
    → is_blank_draft e.text ≡ false
    → e.flights ≡ f ∷ []
    → f.first ≡ none
    → f.waiters ≡ none ∷ none ∷ []
    → map (λ g. g.to) (settle f (failed message) e).flights ≡ none ∷ none ∷ []
unfolding settle answered finish resume_each resume send after_each after_save
two_creates e f message new dirty full only first waiters =
    let named = (==_iff f.number f.number).1 refl in
    simp (only, first, waiters, new, dirty, full, named) refl

-- An action that waits for a save goes to the desk when that save is answered, also when the text
-- was changed meanwhile: what is acted on is then not what was written.
pub act_unsaved :
    (e : Editor) (f : Flight) (act : Act) (saved : Article)
    → e.dirty ≡ true
    → e.save_error ≡ none
    → (e.edits == f.seen) ≡ false
    → f.first ≡ some act
    → f.waiters ≡ []
    → ((settle f (ok saved) e).dirty ≡ true)
      × ((settle f (ok saved) e).acting ≡ e.acting ++ record { act = act; on = saved.id } ∷ [])
unfolding settle answered finish resume_each after_each after_save
act_unsaved e f act saved dirty fine changed first waiters = elim (Bool-cases e.timer) [
  | inl t ↦ (
    simp (dirty, changed, first, waiters, fine, t) refl,
    simp (dirty, changed, first, waiters, fine, t) refl,
  )
  | inr t ↦ (
    simp (dirty, changed, first, waiters, fine, t) refl,
    simp (dirty, changed, first, waiters, fine, t) refl,
  )
]
