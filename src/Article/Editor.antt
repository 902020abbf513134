-- ===== src/Article/Editor.antt =====
-- The article editor: features/articles/editor/article-editor.ts. A signal is a field. `save` is an
-- async method: what it does up to an `await` is one function here, and what it does afterwards is a
-- function of its own. A request that is on its way is a `Flight`, with the callers of `save` that
-- await it, the one that sent it first. The desk's answers are arguments.
pub mod Pending
pub mod Calm
pub mod CalmSteps
pub mod Stored
pub mod Race
mod Tests
use scoutpulse.Base.{
  ℕ, ◌+◌, String, Bool, true, false, not, ◌&&◌, ◌||◌, ◌==◌, Option, none, some, List, [], ◌∷◌, ◌++◌,
  if◌then◌else◌, is_some, str_eq,
}
use scoutpulse.Article.Doc.{DocNode, ArticleStatus, empty_article_doc, is_blank, is_empty_doc}

-- the working copy, which is also `ArticleInput`
pub record Draft : Type 0 where
  pub title : String
  pub subtitle : String
  pub cover_url : String
  pub cover_caption : String
  pub tags : List String
  pub body : DocNode

-- of `Article`, what the editor reads
pub record Article : Type 0 where
  pub id : String
  pub status : ArticleStatus
  pub draft : Draft

-- what is asked of the desk in the workflow
pub data Run : Type 0 where
  submission : Option String → Run
  changes_request : String → Run
  withdrawal : Run

-- `act(run, done)`
pub record Act : Type 0 where
  pub run : Run
  pub done : String

-- A request to store `sent`: to an article, or to create one. `first` and `waiters` are what follows
-- the calls of `save` that await it: nothing, or an action.
pub record Flight : Type 0 where
  pub number : ℕ
  pub to : Option String
  pub sent : Draft
  pub seen : ℕ
  pub first : Option Act
  pub waiters : List (Option Act)

-- an action that is on its way
pub record Acting : Type 0 where
  pub act : Act
  pub on : String

pub record Editor : Type 0 where
  pub admin : Bool
  pub article : Option Article
  pub text : Draft
  pub dirty : Bool
  pub saving : Bool
  pub saved_at : Bool
  pub save_error : Option String
  pub busy : Bool
  pub notice : Option String
  pub action_error : Option String
  pub timer : Bool
  pub edits : ℕ
  -- `inFlight`, the number of a flight
  pub in_flight : Option ℕ
  pub flights : List Flight
  pub sent_count : ℕ
  pub acting : List Acting

abbrev pub blank_draft : Draft
blank_draft = record {
  title = "";
  subtitle = "";
  cover_url = "";
  cover_caption = "";
  tags = [];
  body = empty_article_doc;
}

-- an editor on a new article
abbrev pub new_editor : Bool → Editor
new_editor admin = record {
  admin = admin;
  article = none;
  text = blank_draft;
  dirty = false;
  saving = false;
  saved_at = false;
  save_error = none;
  busy = false;
  notice = none;
  action_error = none;
  timer = false;
  edits = 0;
  in_flight = none;
  flights = [];
  sent_count = 0;
  acting = [];
}

-- `load`, when the article has come
abbrev pub opened : Bool → Article → Editor
opened admin a = record (new_editor admin) { article = some a; text = a.draft }

abbrev is_open : ArticleStatus → Bool
is_open ArticleStatus.draft = true
is_open ArticleStatus.changes_requested = true
is_open ArticleStatus.in_review = false
is_open ArticleStatus.published = false

abbrev may_edit : Option Article → Bool → Bool
may_edit none admin = true
may_edit (some a) admin = admin || is_open a.status

abbrev pub can_edit : Editor → Bool
can_edit e = may_edit e.article e.admin

-- nothing worth creating a draft for
unfoldable pub is_blank_draft : Draft → Bool
is_blank_draft d =
    is_blank d.title && is_blank d.subtitle && str_eq d.cover_url "" && is_empty_doc d.body

-- `edited`, after the text is set; the timer is set again
unfoldable pub edited : Editor → Editor
edited e =
    if can_edit e
    then record e { edits = e.edits + 1; dirty = true; notice = none; timer = true }
    else e

-- `onBody`, `setTitle`, `setTags` and the other fields: the text is set, then `edited`
unfoldable pub set_text : Draft → Editor → Editor
unfolding edited
set_text text e = edited (record e { text = text })

abbrev pub id_of : Option Article → Option String
id_of none = none
id_of (some a) = some a.id

-- what `act` does on the article and the error that its `save` has left
abbrev pub act_on : Option Article → Option String → Act → Editor → Editor
act_on none error act e = e
act_on (some a) (some message) act e = e
act_on (some a) none act e = record e {
  busy = true;
  action_error = none;
  acting = e.acting ++ record { act = act; on = a.id } ∷ [];
}

-- what follows a call of `save`
unfoldable pub after_save : Option Act → Editor → Editor
after_save none e = e
after_save (some act) e = act_on e.article e.save_error act e

-- the request that `save` sends
unfoldable pub send : Option Act → Editor → Editor
send act e = record e {
  saving = true;
  save_error = none;
  in_flight = some e.sent_count;
  sent_count = e.sent_count + 1;
  flights =
      e.flights
      ++ record {
        number = e.sent_count;
        to = id_of e.article;
        sent = e.text;
        seen = e.edits;
        first = act;
        waiters = [];
      }
        ∷ [];
}

-- `save` from where it has nothing to wait for
unfoldable pub save_now : Option Act → Editor → Editor
unfolding after_save send
save_now act e =
    if not e.dirty || not (can_edit e)
    then after_save act e
    else if not (is_some e.article) && is_blank_draft e.text
    then after_save act (record e { dirty = false })
    else send act e

abbrev pub await_flight : ℕ → Option Act → List Flight → List Flight
await_flight k act [] = []
await_flight k act (f ∷ flights) =
    let rest = await_flight k act flights in
    if f.number == k then record f { waiters = f.waiters ++ act ∷ [] } ∷ flights else f ∷ rest

abbrev pub save_or_wait : Option ℕ → Option Act → Editor → Editor
save_or_wait none act e = save_now act e
save_or_wait (some k) act e = record e { flights = await_flight k act e.flights }

-- `save`, up to its first `await`; the timer that fires calls it too
unfoldable pub save : Option Act → Editor → Editor
unfolding save_now
save act e = save_or_wait e.in_flight act (record e { timer = false })

-- The callers whose `save` returns go on when all the callers of that request had their turn: the
-- editor, and who they are.
abbrev pub Turns : Type 0
Turns = Editor × List (Option Act)

-- a caller that waited for another's request
unfoldable pub resume : Option Act → Turns → Turns
unfolding send
resume act (e, done) =
    if not e.dirty || not (can_edit e)
    then (e, done ++ act ∷ [])
    else if not (is_some e.article) && is_blank_draft e.text
    then (record e { dirty = false }, done ++ act ∷ [])
    else (send act e, done)

unfoldable pub resume_each : List (Option Act) → Turns → Turns
unfolding resume
resume_each [] r = r
resume_each (act ∷ acts) r = resume_each acts (resume act r)

-- what follows the calls that have returned
unfoldable pub after_each : List (Option Act) → Editor → Editor
unfolding after_save
after_each [] e = e
after_each (act ∷ acts) e = after_each acts (after_save act e)

-- the caller that sent the request
unfoldable pub finish : Editor → Editor
finish e =
    if e.dirty && not (is_some e.save_error) && not e.timer then record e { timer = true } else e

-- the desk's answer to a request
pub data Answer (A : Type 0) : Type 0 where
  ok : A → Answer A
  failed : String → Answer A

unfoldable pub answered : Flight → Answer Article → Editor → Editor
answered f (ok saved) e = record e {
  article = some saved;
  saved_at = true;
  dirty = if e.edits == f.seen then false else e.dirty;
  saving = false;
  in_flight = none;
}
answered f (failed message) e = record e {
  save_error = some message;
  saving = false;
  in_flight = none;
}

abbrev pub without_flight : ℕ → List Flight → List Flight
without_flight k [] = []
without_flight k (f ∷ flights) =
    let rest = without_flight k flights in if f.number == k then flights else f ∷ rest

-- A request is answered: the answer, its callers in the order of their calls, and then what follows
-- the calls that have returned.
unfoldable pub settle : Flight → Answer Article → Editor → Editor
unfolding answered finish resume_each after_each
settle f answer e =
    let sent =
      finish (answered f answer (record e { flights = without_flight f.number e.flights })) in
    let turns = resume_each f.waiters (sent, f.first ∷ []) in after_each turns.1 turns.0
