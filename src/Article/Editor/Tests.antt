-- ===== src/Article/Editor/Tests.antt =====
-- Runs of the article editor, and the theorems at inputs that meet their hypotheses.
use scoutpulse.Base.{◌≡◌, refl, inl, true, false, none, some, [], ◌∷◌, map}
use scoutpulse.Article.Doc.{ArticleStatus, DocNode, DocNodes, word_count, is_blank}
use scoutpulse.Article.Editor.{
  Editor, Draft, Article, Act, Run, Flight, ok, failed, new_editor, opened, blank_draft, set_text,
  save, settle, is_blank_draft,
}
use scoutpulse.Article.Workflow.{submit, save_label}
use scoutpulse.Article.Editor.Pending
use scoutpulse.Article.Editor.Pending.{is_pending, Reach-is_pending}
use scoutpulse.Article.Editor.Stored
use scoutpulse.Article.Editor.Stored.{World}
use scoutpulse.Article.Editor.Race.{request, save-settle, two_creates, act_unsaved}

abbrev hello : Draft
hello = record blank_draft { title = "Hello" }

abbrev article : Article
article = record { id = "1"; status = ArticleStatus.draft; draft = hello }

-- a new article after its headline is typed
abbrev typed : Editor
typed = set_text hello (new_editor false)

typed_label : save_label typed ≡ "Unsaved changes"
unfolding set_text save_label
typed_label = refl

saved_label : save_label (settle (request none typed) (ok article) (save none typed)) ≡ "Saved"
unfolding set_text save settle save_label is_blank_draft is_blank
saved_label = refl

-- the article is opened, changed, and its save sent
abbrev sending : Editor
sending = save none (set_text hello (opened false article))

sending-Reach : Pending.Reach false sending
sending-Reach =
    Pending.Reach.later
      (Pending.Reach.later (Pending.Reach.loaded false article)
        (Pending.Next.edit hello (opened false article) refl))
      (Pending.Next.save none (set_text hello (opened false article)) (inl refl))

Reach-is_pending_example : is_pending sending ≡ true
Reach-is_pending_example = Reach-is_pending sending sending-Reach

abbrev world : World
world = record { editor = set_text hello (opened false article); stored = some hello }

save-settle_example :
    ((save none typed).flights ≡ request none typed ∷ [])
    × ((settle (request none typed) (ok article) (save none typed)).dirty ≡ false)
    × ((settle (request none typed) (ok article) (save none typed)).flights ≡ [])
unfolding set_text is_blank_draft is_blank
save-settle_example = save-settle typed article refl refl refl refl refl

-- the first save of a new article, asked for twice more before it is answered
abbrev creating : Editor
creating = save none (save none (save none typed))

abbrev first_request : Flight
first_request = record (request none typed) { waiters = none ∷ none ∷ [] }

two_creates_example :
    map (λ g. g.to) (settle first_request (failed "down") creating).flights ≡ none ∷ none ∷ []
unfolding set_text save is_blank_draft is_blank
two_creates_example = two_creates creating first_request "down" refl refl refl refl refl refl

-- submitted, and changed while the save is on its way
abbrev review : Act
review = record {
  run = Run.submission none;
  done = "Sent for review. An administrator will publish it or send it back.";
}

abbrev changed : Editor
changed =
    set_text (record hello { subtitle = "More" })
      (submit none (set_text hello (opened false article)))

abbrev submitting : Flight
submitting = record (request (some review) (set_text hello (opened false article))) {
  to = some "1";
}

act_unsaved_example :
    ((settle submitting (ok article) changed).dirty ≡ true)
    × ((settle submitting (ok article) changed).acting ≡ record { act = review; on = "1" } ∷ [])
unfolding set_text submit save
act_unsaved_example = act_unsaved changed submitting review article refl refl refl refl refl

abbrev paragraph : DocNode
paragraph =
    DocNode.node "paragraph" none
      (DocNodes.then_node (DocNode.node "text" none DocNodes.last (some "two words")) DocNodes.last)
      none

words_of_paragraph : word_count paragraph ≡ 2
unfolding word_count
words_of_paragraph = refl
