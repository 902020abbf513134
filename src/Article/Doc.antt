-- ===== src/Article/Doc.antt =====
-- The article document: features/articles/doc/article-doc.ts, as far as it reads the tree, with
-- `isLive` and `isScheduled` of core/models/articles.ts. A node's missing content is an empty one;
-- of its attributes only the level of a heading is read.
use Prim.Native.Char.{code}
use Prim.Native.String
use scoutpulse.Base.{
  ℕ, ◌+◌, ◌≡◌, refl, ◌↔◌, Bool, true, false, not, ◌&&◌, ◌||◌, String, Option, none, some, arith,
  leb, ltb, ◌==◌, if◌then◌else◌, or_else, str_eq, is_some, Bool-cases, inl, inr,
}

mutual
  pub data DocNode : Type 0 where
    -- type, level, content, text
    node : String → Option ℕ → DocNodes → Option String → DocNode

  pub data DocNodes : Type 0 where
    last : DocNodes
    then_node : DocNode → DocNodes → DocNodes

abbrev pub empty_article_doc : DocNode
empty_article_doc = node "doc" none (then_node (node "paragraph" none last none) last) none

-- `a + b`
abbrev join_two : String → String → String
join_two a b = String.◌++◌ a b

abbrev is_inline : String → Bool
is_inline ty = str_eq ty "paragraph" || str_eq ty "heading"

-- one more piece before the others, `' '` between two blocks
abbrev before_others : Bool → String → DocNodes → String → String
before_others inline first last others = first
before_others inline first (then_node _ _) others =
    join_two first (if inline then others else join_two " " others)

unfoldable mutual
  pub plain_text : DocNode → String
  plain_text (node ty level content text) =
      let joined = joined_text (is_inline ty) content in
      if str_eq ty "text" then or_else text "" else if str_eq ty "hardBreak" then " " else joined

  pub joined_text : Bool → DocNodes → String
  joined_text inline last = ""
  joined_text inline (then_node first rest) =
      before_others inline (plain_text first) rest (joined_text inline rest)

-- what `\s` and `trim` take for a space
abbrev is_space : ℕ → Bool
is_space c =
    (leb 9 c && leb c 13)
    || c == 32
    || c == 160
    || c == 0x1680
    || (leb 0x2000 c && leb c 0x200a)
    || c == 0x2028
    || c == 0x2029
    || c == 0x202f
    || c == 0x205f
    || c == 0x3000
    || c == 0xfeff

-- `!text.trim()`
unfoldable pub is_blank : String → Bool
is_blank String.[] = true
is_blank (String.◌∷◌ c s) = is_space (code c) && is_blank s

-- the words from here on, not counting the one that is being read
words_from : Bool → String → ℕ
words_from inside String.[] = 0
words_from inside (String.◌∷◌ c s) =
    (if is_space (code c) || inside then 0 else 1) + words_from (not (is_space (code c))) s

-- `text.split(/\s+/).filter(Boolean).length`
unfoldable pub word_count : DocNode → ℕ
unfolding words_from plain_text
word_count doc = words_from false (plain_text doc)

abbrev is_embed : String → Bool
is_embed ty = str_eq ty "figure" || str_eq ty "tacticBoard" || str_eq ty "video"

abbrev type_of : DocNode → String
type_of (node ty level content text) = ty

abbrev content_of : DocNode → DocNodes
content_of (node ty level content text) = content

abbrev is_visible : DocNode → Bool
is_visible n = not (is_blank (plain_text n)) || is_embed (type_of n)

any_visible : DocNodes → Bool
any_visible last = false
any_visible (then_node first rest) = is_visible first || any_visible rest

unfoldable pub is_empty_doc : DocNode → Bool
unfolding any_visible
is_empty_doc doc = not (any_visible (content_of doc))

pub data ArticleStatus : Type 0 where
  draft in_review changes_requested published : ArticleStatus

abbrev is_published : ArticleStatus → Bool
is_published ArticleStatus.published = true
is_published _ = false

abbrev due : Option ℕ → ℕ → Bool
due none now = false
due (some at) now = leb at now

abbrev waiting : Option ℕ → ℕ → Bool
waiting none now = false
waiting (some at) now = ltb now at

-- `publish_at` as `Date.parse` reads it
unfoldable pub is_live : ArticleStatus → Option ℕ → ℕ → Bool
is_live status publish_at now = is_published status && due publish_at now

unfoldable pub is_scheduled : ArticleStatus → Option ℕ → ℕ → Bool
is_scheduled status publish_at now = is_published status && waiting publish_at now

words_from-blank : (s : String) → (words_from false s ≡ 0) ↔ (is_blank s ≡ true)
unfolding words_from is_blank
words_from-blank String.[] = (λ h. refl, λ h. refl)
words_from-blank (String.◌∷◌ c s) = elim (Bool-cases (is_space (code c))) [
  | inl space ↦
      let (to, back) = words_from-blank s in
      rw space (λ h. to (omega (arith, h)), λ h. omega (arith, back h))
  | inr letter ↦ rw letter (λ h. absurd (omega arith), λ h. cc)
]

-- A document has no word exactly when its text is blank.
pub word_count-is_blank :
    (doc : DocNode) → (word_count doc ≡ 0) ↔ (is_blank (plain_text doc) ≡ true)
unfolding word_count
word_count-is_blank doc = words_from-blank (plain_text doc)

-- A published article with a time is live or scheduled and never both, and no other article is
-- either; and once live it stays live.
pub is_live-is_scheduled :
    (status : ArticleStatus) (publish_at : Option ℕ) (now later : ℕ)
    → ((is_live status publish_at now || is_scheduled status publish_at now)
        ≡ is_published status && is_some publish_at)
      × ((is_live status publish_at now && is_scheduled status publish_at now) ≡ false)
      × ((is_live status publish_at now && not (is_live status publish_at (now + later))) ≡ false)
unfolding is_live is_scheduled
is_live-is_scheduled status none now later = (ground arith, ground arith, ground arith)
is_live-is_scheduled status (some at) now later = (ground arith, ground arith, ground arith)
