-- ===== src/Article/Workflow.antt =====
-- The workflow of an article and leaving its editor: `act`, `submit`, `requestChanges`, `withdraw`,
-- `saveLabel` and `canLeave` of features/articles/editor/article-editor.ts.
use scoutpulse.Base.{
  String, Bool, true, false, not, ◌&&◌, ◌||◌, Option, none, some, if◌then◌else◌, is_some,
}
use scoutpulse.Article.Doc.{ArticleStatus}
use scoutpulse.Article.Editor.{Act, Acting, Answer, Article, Editor, Run, save, ok, failed}

-- `act`
unfoldable pub begin_act : Act → Editor → Editor
unfolding save
begin_act act e = save (some act) e

abbrev is_published : Option Article → Bool
is_published (some a) = elim a.status [
  | ArticleStatus.published ↦ true
  | ArticleStatus.draft ↦ false
  | ArticleStatus.in_review ↦ false
  | ArticleStatus.changes_requested ↦ false
]
is_published none = false

unfoldable pub submit : Option String → Editor → Editor
unfolding begin_act
submit publish_at e =
    begin_act
      (record {
        run = Run.submission publish_at;
        done =
            if e.admin
            then if is_some publish_at
              then "Scheduled. It will go live on its own at that time."
              else "Published. It is live in the Analysis section."
            else "Sent for review. An administrator will publish it or send it back.";
      })
      e

unfoldable pub request_changes : String → Editor → Editor
unfolding begin_act
request_changes note e =
    begin_act
      (record { run = Run.changes_request note; done = "Sent back to the writer with your note." })
      e

unfoldable pub withdraw : Editor → Editor
unfolding begin_act
withdraw e =
    begin_act
      (record {
        run = Run.withdrawal;
        done =
            if is_published e.article
            then "Unpublished. It is a draft again."
            else "Withdrawn. You can edit it again.";
      })
      e

-- the desk's answer to an action, which is the first of those on their way
unfoldable pub act_answered : Acting → Answer Article → Editor → Editor
act_answered a (ok next) e = record e {
  article = some next;
  notice = some a.act.done;
  busy = false;
}
act_answered a (failed message) e = record e { action_error = some message; busy = false }

-- `saveLabel`
unfoldable pub save_label : Editor → String
save_label e =
    if is_some e.save_error
    then "Not saved"
    else if e.saving
    then "Saving…"
    else if e.dirty
    then "Unsaved changes"
    else if e.saved_at
    then "Saved"
    else if is_some e.article
    then "All changes saved"
    else "New draft"

-- `canLeave`, with the answer to the question, and `onBeforeUnload`, with whether it holds the page
unfoldable pub can_leave : Bool → Editor → Editor × Bool
unfolding save
can_leave agreed e = if not e.dirty && not e.saving then (e, true) else (save none e, agreed)

unfoldable pub on_before_unload : Editor → Editor × Bool
unfolding save
on_before_unload e = if e.dirty || e.saving then (save none e, true) else (e, false)
