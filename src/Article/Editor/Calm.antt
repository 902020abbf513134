-- ===== src/Article/Editor/Calm.antt =====
-- The saving of the article editor while at most one caller waits for another's request: nothing is
-- on its way, or one request is.
use scoutpulse.Base.{
  ℕ, ◌≤◌, String, ◌≡◌, ◌⊎◌, refl, sym, ap, ◌∙◌, Bool, true, false, not, ◌&&◌, ◌||◌, ==_iff, Option,
  none, some, List, [], ◌∷◌, In, In-single, All, arith, if◌then◌else◌, is_some, Option-cases, inl,
  inr,
}
use scoutpulse.Article.Editor.{
  Editor, Draft, Article, Act, Acting, Flight, Answer, ok, failed, can_edit, after_save, act_on,
  send, save_now, id_of, await_flight, save_or_wait, resume, resume_each, Turns, after_each, finish,
  without_flight, is_blank_draft,
}

abbrev pub storing : Flight → Answer Article → Option Draft → Option Draft
storing f (ok saved) stored = some f.sent
storing f (failed message) stored = stored

-- at most one caller waits for a request
pub data IsCalmWait : List (Option Act) → Type 0 where
  nobody : IsCalmWait []
  one : (act : Option Act) → IsCalmWait (act ∷ [])

-- Nothing on its way, and what is not marked unsaved is stored, or not worth storing.
pub record IsIdle (stored : Option Draft) (e : Editor) : Type 0 where
  pub empty : e.flights ≡ []
  pub free : e.in_flight ≡ none
  pub clean :
      (e.dirty ≡ true)
      ⊎ (stored ≡ some e.text)
      ⊎ ((e.article ≡ none) × (is_blank_draft e.text ≡ true))

-- One request on its way, which holds the text if that has not changed since.
pub record IsSending (e : Editor) : Type 0 where
  pub flight : Flight
  pub only : e.flights ≡ flight ∷ []
  pub named : e.in_flight ≡ some flight.number
  pub dirty : e.dirty ≡ true
  pub calm : IsCalmWait flight.waiters
  pub seen : flight.seen ≤ e.edits
  pub holds : flight.seen ≡ e.edits → flight.sent ≡ e.text

abbrev pub IsCalm : Option Draft → Editor → Type 0
IsCalm stored e = IsIdle stored e ⊎ IsSending e

no_article :
    (e : Editor) → (not (is_some e.article) && is_blank_draft e.text) ≡ true → e.article ≡ none
no_article e h = elim (Option-cases e.article) [ inl gone ↦ gone | inr (a, here) ↦ cc ]

no_text :
    (e : Editor)
    → (not (is_some e.article) && is_blank_draft e.text) ≡ true
    → is_blank_draft e.text ≡ true
no_text e h = ground arith

is_dirty : (e : Editor) → (not e.dirty || not (can_edit e)) ≡ false → e.dirty ≡ true
is_dirty e h = ground arith

-- An action touches nothing of the text and its saving.
act_on_shape :
    (a : Option Article) (error : Option String) (act : Act) (e : Editor)
    → (b : Bool) × (message : Option String) × (l : List Acting) × (act_on a error act e
        ≡ record e { busy = b; action_error = message; acting = l })
act_on_shape none error act e = (e.busy, e.action_error, e.acting, refl)
act_on_shape (some a) (some message) act e = (e.busy, e.action_error, e.acting, refl)
act_on_shape (some a) none act e = (_, _, _, refl)

after_save_shape :
    (act : Option Act) (e : Editor)
    → (b : Bool) × (message : Option String) × (l : List Acting) × (after_save act e
        ≡ record e { busy = b; action_error = message; acting = l })
unfolding after_save
after_save_shape none e = (e.busy, e.action_error, e.acting, refl)
after_save_shape (some act) e = act_on_shape e.article e.save_error act e

none-ne-some : {k : ℕ} → ◌≡◌ {A = Option ℕ} none (some k) → ⊥
none-ne-some e = cc

-- the only flight has no caller waiting
alone :
    (flights : List Flight) (f : Flight)
    → All (λ g. g.waiters ≡ []) flights
    → flights ≡ f ∷ []
    → f.waiters ≡ []
alone flights f free e = (rw e at free).0

awaited :
    (k : ℕ) (f : Flight) (act : Option Act) (flights : List Flight)
    → flights ≡ f ∷ []
    → some f.number ≡ some k
    → f.waiters ≡ []
    → await_flight k act flights ≡ record f { waiters = act ∷ [] } ∷ []
awaited k f act flights e same free =
    let named = (==_iff f.number k).1 (cc) in ap (await_flight k act) e ∙ simp (named, free) refl

pub in_one : (f g : Flight) (flights : List Flight) → In f flights → flights ≡ g ∷ [] → f ≡ g
in_one f g flights mem e = In-single f g (rw e at mem)

pub no_flight : (f : Flight) (flights : List Flight) → In f flights → flights ≡ [] → ⊥
no_flight f flights mem e = let h : In f [] = rw e at mem in elim h [ ]

-- taking the only flight away leaves none
pub without_only :
    (f : Flight) (flights : List Flight) → flights ≡ f ∷ [] → without_flight f.number flights ≡ []
without_only f flights e =
    let named = (==_iff f.number f.number).1 refl in ap (without_flight f.number) e ∙ rw named refl

module _ (stored : Option Draft) where
  after_save-IsIdle :
      (act : Option Act) (e : Editor) → IsIdle stored e → IsIdle stored (after_save act e)
  after_save-IsIdle act e h =
      let (_, _, _, shape) = after_save_shape act e in
      rw shape (record { empty = h.empty; free = h.free; clean = h.clean })

  send-IsSending :
      (act : Option Act) (e : Editor) → IsIdle stored e → e.dirty ≡ true → IsSending (send act e)
  unfolding send
  send-IsSending act e h d = record {
    flight = record {
      number = e.sent_count;
      to = id_of e.article;
      sent = e.text;
      seen = e.edits;
      first = act;
      waiters = [];
    };
    only = rw h.empty refl;
    named = refl;
    dirty = d;
    calm = IsCalmWait.nobody;
    seen = omega arith;
    holds = λ same. refl;
  }

  either-IsIdle :
      (b : Bool) (x y : Editor)
      → IsIdle stored x
      → IsIdle stored y
      → IsIdle stored (if b then x else y)
  either-IsIdle true x y h k = h
  either-IsIdle false x y h k = k

  either-IsCalm :
      (b : Bool) (x y : Editor)
      → (b ≡ true → IsCalm stored x)
      → (b ≡ false → IsCalm stored y)
      → IsCalm stored (if b then x else y)
  either-IsCalm true x y h k = h refl
  either-IsCalm false x y h k = k refl

  save_now-IsCalm :
      (act : Option Act) (e : Editor) → IsIdle stored e → IsCalm stored (save_now act e)
  unfolding save_now
  save_now-IsCalm act e h =
      either-IsCalm (not e.dirty || not (can_edit e)) _ _ (λ idle. inl (after_save-IsIdle act e h))
        (λ saves.
          either-IsCalm (not (is_some e.article) && is_blank_draft e.text) _ _
            (λ blank. inl (
              after_save-IsIdle act (record e { dirty = false })
                (record {
                  empty = h.empty;
                  free = h.free;
                  clean = inr (inr (no_article e blank, no_text e blank));
                })))
            (λ full. inr (send-IsSending act e h (is_dirty e saves))))

  pub save_or_wait-IsCalm :
      (k : Option ℕ) (act : Option Act) (e : Editor)
      → e.in_flight ≡ k
      → All (λ f. f.waiters ≡ []) e.flights
      → IsCalm stored e
      → IsCalm stored (save_or_wait k act e)
  save_or_wait-IsCalm none act e eq free (inl h) = save_now-IsCalm act e h
  save_or_wait-IsCalm none act e eq free (inr h) = absurd (none-ne-some (sym eq ∙ h.named))
  save_or_wait-IsCalm (some k) act e eq free (inl h) = absurd (none-ne-some (sym h.free ∙ eq))
  save_or_wait-IsCalm (some k) act e eq free (inr h) = inr (record {
    flight = record h.flight { waiters = act ∷ [] };
    only =
        awaited k h.flight act e.flights h.only (sym h.named ∙ eq)
          (alone e.flights h.flight free h.only);
    named = h.named;
    dirty = h.dirty;
    calm = IsCalmWait.one act;
    seen = h.seen;
    holds = h.holds;
  })

  pub finish-IsIdle : (e : Editor) → IsIdle stored e → IsIdle stored (finish e)
  unfolding finish
  finish-IsIdle e h =
      either-IsIdle (e.dirty && not (is_some e.save_error) && not e.timer) _ _
        (record { empty = h.empty; free = h.free; clean = h.clean }) h

  either-turns :
      (b : Bool) (x y : Turns)
      → (b ≡ true → IsCalm stored x.0)
      → (b ≡ false → IsCalm stored y.0)
      → IsCalm stored (if b then x else y).0
  either-turns true x y h k = h refl
  either-turns false x y h k = k refl

  resume-IsCalm :
      (act : Option Act) (done : List (Option Act)) (e : Editor)
      → IsIdle stored e
      → IsCalm stored (resume act (e, done)).0
  unfolding resume
  resume-IsCalm act done e h =
      either-turns (not e.dirty || not (can_edit e)) _ _ (λ idle. inl h)
        (λ saves.
          either-turns (not (is_some e.article) && is_blank_draft e.text) _ _
            (λ blank. inl (record {
              empty = h.empty;
              free = h.free;
              clean = inr (inr (no_article e blank, no_text e blank));
            }))
            (λ full. inr (send-IsSending act e h (is_dirty e saves))))

  pub resume_each-IsCalm :
      (acts : List (Option Act)) (r : Turns)
      → IsCalmWait acts
      → IsIdle stored r.0
      → IsCalm stored (resume_each acts r).0
  unfolding resume_each
  resume_each-IsCalm [] r IsCalmWait.nobody h = inl h
  resume_each-IsCalm (_ ∷ _) r (IsCalmWait.one act) h = resume-IsCalm act r.1 r.0 h

  after_save-IsSending :
      (act : Option Act) (e : Editor) → IsSending e → IsSending (after_save act e)
  after_save-IsSending act e h =
      let (_, _, _, shape) = after_save_shape act e in
      rw shape (record {
        flight = h.flight;
        only = h.only;
        named = h.named;
        dirty = h.dirty;
        calm = h.calm;
        seen = h.seen;
        holds = h.holds;
      })

  pub after_each-IsCalm :
      (acts : List (Option Act)) (e : Editor) → IsCalm stored e → IsCalm stored (after_each acts e)
  unfolding after_each
  after_each-IsCalm [] e h = h
  after_each-IsCalm (act ∷ acts) e (inl h) =
      after_each-IsCalm acts (after_save act e) (inl (after_save-IsIdle act e h))
  after_each-IsCalm (act ∷ acts) e (inr h) =
      after_each-IsCalm acts (after_save act e) (inr (after_save-IsSending act e h))
