-- ===== src/Article/Editor/CalmSteps.antt =====
-- What keeps the saving of the article editor calm: each of its steps, while at most one caller waits for
-- another's request.
use scoutpulse.Base.{
  ◌≡◌, refl, sym, ap, ◌∙◌, true, false, ◌==◌, ==_iff, Option, some, [], In, All, arith, is_some,
  Bool-cases, inl, inr, ◌∷◌,
}
use scoutpulse.Article.Doc.{is_blank, is_empty_doc, plain_text}
use scoutpulse.Article.Editor.{
  Editor, Draft, Article, Act, Acting, Flight, Answer, ok, failed, can_edit, edited, set_text,
  save as save_text, answered, without_flight, settle, is_blank_draft, blank_draft, finish,
  resume_each,
}
use scoutpulse.Article.Workflow.{act_answered}
use scoutpulse.Article.Editor.Calm.{
  storing, IsIdle, IsCalm, in_one, no_flight, without_only, save_or_wait-IsCalm, finish-IsIdle,
  resume_each-IsCalm, after_each-IsCalm,
}

answered-IsIdle :
    (stored : Option Draft) (f : Flight) (ans : Answer Article) (e : Editor)
    → e.flights ≡ []
    → e.dirty ≡ true
    → (f.seen ≡ e.edits → f.sent ≡ e.text)
    → IsIdle (storing f ans stored) (answered f ans e)
unfolding answered
answered-IsIdle stored f (failed message) e empty dirty holds = record {
  empty = empty;
  free = refl;
  clean = inl dirty;
}
answered-IsIdle stored f (ok saved) e empty dirty holds = record {
  empty = empty;
  free = refl;
  clean = elim (Bool-cases (e.edits == f.seen)) [
    | inl same ↦ inr (inl (ap some (holds (sym ((==_iff e.edits f.seen).0 same)))))
    | inr other ↦ inl (rw other dirty)
  ];
}

pub blank_is_blank : is_blank_draft blank_draft ≡ true
unfolding is_blank_draft is_blank is_empty_doc plain_text
blank_is_blank = refl

pub settle-IsCalm :
    (stored : Option Draft) (f : Flight) (ans : Answer Article) (e : Editor)
    → In f e.flights
    → IsCalm stored e
    → IsCalm (storing f ans stored) (settle f ans e)
unfolding settle
settle-IsCalm stored f ans e mem (inl h) = absurd (no_flight f e.flights mem h.empty)
settle-IsCalm stored f ans e mem (inr h) =
    let same = in_one f h.flight e.flights mem h.only in
    let e' : Editor = record e { flights = without_flight f.number e.flights } in
    let now = answered f ans e' in
    let turns = resume_each f.waiters (finish now, f.first ∷ []) in
    after_each-IsCalm (storing f ans stored) turns.1 turns.0 (
      resume_each-IsCalm (storing f ans stored) f.waiters (finish now, f.first ∷ [])
        (rw same h.calm)
        (finish-IsIdle (storing f ans stored) now (
          answered-IsIdle stored f ans e' (without_only f e.flights (h.only ∙ rw same refl)) h.dirty
            (rw same h.holds))))

pub edit-IsCalm :
    (stored : Option Draft) (text : Draft) (e : Editor)
    → can_edit e ≡ true
    → IsCalm stored e
    → IsCalm stored (set_text text e)
unfolding set_text edited
edit-IsCalm stored text e may (inl h) =
    rw may (inl (record { empty = h.empty; free = h.free; clean = inl refl }))
edit-IsCalm stored text e may (inr h) = rw may (
    inr (record {
      flight = h.flight;
      only = h.only;
      named = h.named;
      dirty = refl;
      calm = h.calm;
      seen = omega (arith, h.seen);
      holds = λ same. absurd (omega (arith, same, h.seen));
    }))

pub acted-IsCalm :
    (stored : Option Draft) (a : Acting) (ans : Answer Article) (e : Editor)
    → is_some e.article ≡ true
    → IsCalm stored e
    → IsCalm stored (act_answered a ans e)
unfolding act_answered
acted-IsCalm stored a (ok next) e there (inl h) = inl (record {
  empty = h.empty;
  free = h.free;
  clean = elim h.clean [
    | inl dirty ↦ inl dirty
    | inr (inl same) ↦ inr (inl same)
    | inr (inr (gone, _)) ↦ cc
  ];
})
acted-IsCalm stored a (failed message) e there (inl h) =
    inl (record { empty = h.empty; free = h.free; clean = h.clean })
acted-IsCalm stored a (ok next) e there (inr h) = inr (record {
  flight = h.flight;
  only = h.only;
  named = h.named;
  dirty = h.dirty;
  calm = h.calm;
  seen = h.seen;
  holds = h.holds;
})
acted-IsCalm stored a (failed message) e there (inr h) = inr (record {
  flight = h.flight;
  only = h.only;
  named = h.named;
  dirty = h.dirty;
  calm = h.calm;
  seen = h.seen;
  holds = h.holds;
})

pub save-IsCalm :
    (stored : Option Draft) (act : Option Act) (e : Editor)
    → All (λ f. f.waiters ≡ []) e.flights
    → IsCalm stored e
    → IsCalm stored (save_text act e)
unfolding save_text
save-IsCalm stored act e free (inl h) =
    save_or_wait-IsCalm stored e.in_flight act (record e { timer = false }) refl free
      (inl (record { empty = h.empty; free = h.free; clean = h.clean }))
save-IsCalm stored act e free (inr h) =
    save_or_wait-IsCalm stored e.in_flight act (record e { timer = false }) refl free
      (inr (record {
        flight = h.flight;
        only = h.only;
        named = h.named;
        dirty = h.dirty;
        calm = h.calm;
        seen = h.seen;
        holds = h.holds;
      }))
