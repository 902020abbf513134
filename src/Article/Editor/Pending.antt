-- ===== src/Article/Editor/Pending.antt =====
-- Unsaved text is never forgotten: a save of it is due, on its way, or has failed and says so.
use scoutpulse.Base.{
  ℕ, ◌≡◌, ◌⊎◌, refl, Bool, true, false, not, ◌&&◌, ◌||◌, Option, none, some, List, [], ◌∷◌, ◌++◌,
  In, All, arith, if◌then◌else◌, is_some, Bool-cases, inl, inr,
}
use scoutpulse.Article.Editor.{
  Editor, Draft, Article, Act, Acting, Flight, Answer, ok, failed, new_editor, opened, can_edit,
  edited, set_text, after_save, send, save_now, save as save_text, id_of, await_flight,
  save_or_wait, resume, resume_each, Turns, after_each, finish, answered, without_flight, settle,
  is_blank_draft,
}
use scoutpulse.Article.Workflow.{act_answered}

abbrev is_some_flight : List Flight → Bool
is_some_flight [] = false
is_some_flight (f ∷ flights) = true

-- Unsaved text that may be saved has a timer, a request on its way, or an error on show.
abbrev pub is_pending : Editor → Bool
is_pending e =
    not e.dirty || e.timer || is_some e.save_error || is_some_flight e.flights || not (can_edit e)

-- a request that is waited for is on its way
abbrev is_linked : Editor → Bool
is_linked e = not (is_some e.in_flight) || is_some_flight e.flights

abbrev IsKept : Editor → Type 0
IsKept e = (is_pending e ≡ true) × (is_linked e ≡ true)

is_some_flight-append :
    (flights : List Flight) (f : Flight) → is_some_flight (flights ++ f ∷ []) ≡ true
is_some_flight-append [] f = refl
is_some_flight-append (g ∷ flights) f = refl

is_some_flight-await :
    (k : ℕ) (act : Option Act) (flights : List Flight)
    → is_some_flight (await_flight k act flights) ≡ is_some_flight flights
is_some_flight-await k act [] = refl
is_some_flight-await k act (f ∷ flights) = ground arith

after_save-IsKept : (act : Option Act) (e : Editor) → IsKept e → IsKept (after_save act e)
unfolding after_save
after_save-IsKept none e h = h
after_save-IsKept (some act) e h = ground arith

either-IsKept : (b : Bool) (x y : Editor) → IsKept x → IsKept y → IsKept (if b then x else y)
either-IsKept true x y h k = h
either-IsKept false x y h k = k

module _ (act : Option Act) (e : Editor) where
  send-IsKept : IsKept (send act e)
  unfolding send
  send-IsKept =
      let more = is_some_flight-append e.flights (record {
        number = e.sent_count;
        to = id_of e.article;
        sent = e.text;
        seen = e.edits;
        first = act;
        waiters = [];
      }) in
      ground (arith, more)

  save_now-IsKept : is_linked e ≡ true → IsKept (save_now act e)
  unfolding save_now
  save_now-IsKept h = elim (Bool-cases (not e.dirty || not (can_edit e))) [
    | inl idle ↦ rw idle (after_save-IsKept act e (ground arith, h))
    | inr saves ↦ rw saves (elim (Bool-cases (not (is_some e.article) && is_blank_draft e.text)) [
      | inl blank ↦ rw blank (after_save-IsKept act (record e { dirty = false }) (ground arith, h))
      | inr full ↦ rw full send-IsKept
    ])
  ]

  save_or_wait-IsKept :
      (k : Option ℕ) → e.in_flight ≡ k → is_linked e ≡ true → IsKept (save_or_wait k act e)
  save_or_wait-IsKept none eq h = save_now-IsKept h
  save_or_wait-IsKept (some k) eq h =
      let same = is_some_flight-await k act e.flights in (ground arith, ground arith)

  resume-IsKept : (done : List (Option Act)) → IsKept e → IsKept (resume act (e, done)).0
  unfolding resume
  resume-IsKept done h = elim (Bool-cases (not e.dirty || not (can_edit e))) [
    | inl idle ↦ rw idle h
    | inr saves ↦ rw saves (elim (Bool-cases (not (is_some e.article) && is_blank_draft e.text)) [
      | inl blank ↦ rw blank (ground arith, h.1)
      | inr full ↦ rw full send-IsKept
    ])
  ]

finish-IsKept : (e : Editor) → is_linked e ≡ true → IsKept (finish e)
unfolding finish
finish-IsKept e h = ground arith

resume_each-IsKept :
    (acts : List (Option Act)) (r : Turns) → IsKept r.0 → IsKept (resume_each acts r).0
unfolding resume_each
resume_each-IsKept [] r h = h
resume_each-IsKept (act ∷ acts) r h =
    resume_each-IsKept acts (resume act r) (resume-IsKept act r.0 r.1 h)

after_each-IsKept : (acts : List (Option Act)) (e : Editor) → IsKept e → IsKept (after_each acts e)
unfolding after_each
after_each-IsKept [] e h = h
after_each-IsKept (act ∷ acts) e h =
    after_each-IsKept acts (after_save act e) (after_save-IsKept act e h)

answered-is_linked :
    (f : Flight) (answer : Answer Article) (e : Editor) → is_linked (answered f answer e) ≡ true
unfolding answered
answered-is_linked f (ok saved) e = refl
answered-is_linked f (failed message) e = refl

-- What can happen to the editor. `calm` says whether at most one caller of `save` waits for
-- another's request; the text is changed while it may be edited, and an action is not answered
-- while there is unsaved text that may not be edited.
pub data Next (calm : Bool) : Editor → Editor → Type 0 where
  edit : (text : Draft) (e : Editor) → can_edit e ≡ true → Next calm e (set_text text e)
  save :
      (act : Option Act) (e : Editor)
      → (calm ≡ false) ⊎ All (λ f. f.waiters ≡ []) e.flights
      → Next calm e (save_text act e)
  answer :
      (f : Flight) (answer : Answer Article) (e : Editor)
      → In f e.flights
      → Next calm e (settle f answer e)
  acted :
      (a : Acting) (answer : Answer Article) (e : Editor)
      → (e.dirty && not (can_edit e)) ≡ false
      → Next calm e (act_answered a answer e)

pub data Reach (calm : Bool) : Editor → Type 0 where
  fresh : (admin : Bool) → Reach calm (new_editor admin)
  loaded : (admin : Bool) (a : Article) → Reach calm (opened admin a)
  later : {e e' : Editor} → Reach calm e → Next calm e e' → Reach calm e'

Next-IsKept : {calm : Bool} {e e' : Editor} → Next calm e e' → IsKept e → IsKept e'
unfolding set_text edited save_text settle act_answered
Next-IsKept (Next.edit text e may) h = ground arith
Next-IsKept (Next.save act e _) h =
    save_or_wait-IsKept act (record e { timer = false }) e.in_flight refl h.1
Next-IsKept (Next.answer f ans e _) h =
    let now = answered f ans (record e { flights = without_flight f.number e.flights }) in
    let linked =
      answered-is_linked f ans (record e { flights = without_flight f.number e.flights }) in
    let turns = resume_each f.waiters (finish now, f.first ∷ []) in
    after_each-IsKept turns.1 turns.0
      (resume_each-IsKept f.waiters (finish now, f.first ∷ []) (finish-IsKept now linked))
Next-IsKept (Next.acted a (ok next) e clean) h = ground arith
Next-IsKept (Next.acted a (failed message) e clean) h = ground arith

Reach-IsKept : {calm : Bool} {e : Editor} → Reach calm e → IsKept e
Reach-IsKept (Reach.fresh admin) = (refl, refl)
Reach-IsKept (Reach.loaded admin a) = (refl, refl)
Reach-IsKept (Reach.later r st) = Next-IsKept st (Reach-IsKept r)

-- As long as the text is changed only while it may be edited, and no action is answered while there
-- is unsaved text that may not be edited, however many callers save at once: unsaved text that may
-- be edited has its timer running, or a request on its way, or the last save has failed and the
-- page says so.
pub Reach-is_pending : {calm : Bool} (e : Editor) → Reach calm e → is_pending e ≡ true
Reach-is_pending e r = (Reach-IsKept r).0
