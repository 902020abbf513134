-- ===== src/Article/Editor/Stored.antt =====
-- What the desk has stored, against what the editor takes for saved, while at most one caller of
-- `save` waits for another's request.
use scoutpulse.Base.{◌≡◌, Bool, true, Option, none, some, [], In, All, is_some}
use scoutpulse.Article.Editor.{
  Editor, Draft, Article, Act, Acting, Flight, Answer, new_editor, opened, can_edit, set_text,
  save as save_text, settle,
}
use scoutpulse.Article.Workflow.{act_answered}
use scoutpulse.Article.Editor.Calm.{storing}

-- the editor, and the text that the desk stored last
pub record World : Type 0 where
  pub editor : Editor
  pub stored : Option Draft

pub data Next : World → World → Type 0 where
  edit :
      (text : Draft) (w : World)
      → can_edit w.editor ≡ true
      → Next w (record w { editor = set_text text w.editor })
  save :
      (act : Option Act) (w : World)
      → All (λ f. f.waiters ≡ []) w.editor.flights
      → Next w (record w { editor = save_text act w.editor })
  answer :
      (f : Flight) (ans : Answer Article) (w : World)
      → In f w.editor.flights
      → Next w (record { editor = settle f ans w.editor; stored = storing f ans w.stored })
  acted :
      (a : Acting) (ans : Answer Article) (w : World)
      → is_some w.editor.article ≡ true
      → Next w (record w { editor = act_answered a ans w.editor })

pub data Reach : World → Type 0 where
  fresh : (admin : Bool) → Reach (record { editor = new_editor admin; stored = none })
  loaded :
      (admin : Bool) (a : Article)
      → Reach (record { editor = opened admin a; stored = some a.draft })
  later : {w w' : World} → Reach w → Next w w' → Reach w'
