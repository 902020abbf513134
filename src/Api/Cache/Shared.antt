-- ===== src/Api/Cache/Shared.antt =====
-- The components that ask for a list share one reading of it.
use scoutpulse.Base.{
  ℕ, suc, ◌+◌, ◌≡◌, refl, sym, ap, ◌∙◌, inl, inr, String, false, Option, some, List, [], ◌∷◌, Dict,
  ltb, Bool-cases, Option-cases,
}
use scoutpulse.Api.Page.{Page}
use scoutpulse.Api.Lookup.{collected, safety_stop, set_all, after_page, collect, collect_from}
use scoutpulse.Api.Cache.{
  Cache, started_at, is_nil, load, answer, page_read, Turn, ask, reply, take_turns,
}

-- how often the reader answers
abbrev pub replies : List Turn → ℕ
replies [] = 0
replies (ask ∷ turns) = replies turns
replies (reply ∷ turns) = suc (replies turns)

module _ {ℓ} {T : Type ℓ} (id_of : T → String) (fetch : ℕ → Option (Page T)) where
  -- A list that is there is not asked for again.
  take_turns-full :
      (turns : List Turn) (m : Dict T)
      → is_nil m ≡ false
      → take_turns id_of fetch turns (started_at m) ≡ started_at m
  unfolding take_turns load
  take_turns-full [] m full = refl
  take_turns-full (ask ∷ turns) m full = rw full (take_turns-full turns m full)
  take_turns-full (reply ∷ turns) m full = take_turns-full turns m full

  collected-injective : (m k : Dict T) → collected m ≡ collected k → m ≡ k
  collected-injective m k e = cc

  waiting : ℕ → Dict T → Cache T
  waiting offset m = record { by_id = []; loading = some (record { offset = offset; so_far = m }) }

  take_turns-done :
      (turns : List Turn) (m all : Dict T)
      → is_nil all ≡ false
      → collected m ≡ collected all
      → take_turns id_of fetch turns (started_at m) ≡ started_at all
  take_turns-done turns m all full e =
      ap (λ k. take_turns id_of fetch turns (started_at k)) (collected-injective m all e)
      ∙ take_turns-full turns all full

  take_turns-page :
      (turns : List Turn) (offset : ℕ) (m all : Dict T) (page : Page T)
      → is_nil all ≡ false
      → (collect_from id_of fetch (replies turns) (offset + page.limit) (set_all id_of page.items m)
            ≡ collected all
          → take_turns id_of fetch turns
              (waiting (offset + page.limit) (set_all id_of page.items m))
            ≡ started_at all)
      → after_page id_of (collect_from id_of fetch (replies turns)) offset m (some page)
        ≡ collected all
      → take_turns id_of fetch turns
          (page_read id_of (record { offset = offset; so_far = m }) page (waiting offset m)).0
        ≡ started_at all
  unfolding after_page waiting
  take_turns-page turns offset m all page full next read =
      let so_far = set_all id_of page.items m in
      let after =
        after_page id_of (collect_from id_of fetch (replies turns)) offset m (some page) in
      elim (Bool-cases page.has_more) [
        | inr last ↦
            let done : after ≡ collected so_far = rw last refl in
            rw last (take_turns-done turns so_far all full (sym done ∙ read))
        | inl more ↦ elim (Bool-cases (ltb safety_stop (offset + page.limit))) [
          | inl stop ↦
              let done : after ≡ collected so_far = rw (more, stop) refl in
              rw (more, stop) (take_turns-done turns so_far all full (sym done ∙ read))
          | inr on ↦
              let goes_on : after
                  ≡ collect_from id_of fetch (replies turns) (offset + page.limit) so_far =
                rw (more, on) refl in
              rw (more, on) (next (sym goes_on ∙ read))
        ]
      ]

  take_turns-waiting :
      (turns : List Turn) (offset : ℕ) (m all : Dict T)
      → is_nil all ≡ false
      → collect_from id_of fetch (replies turns) offset m ≡ collected all
      → take_turns id_of fetch turns (waiting offset m) ≡ started_at all
  unfolding take_turns load answer collect_from waiting after_page
  take_turns-waiting [] offset m all full read = cc
  take_turns-waiting (ask ∷ turns) offset m all full read =
      take_turns-waiting turns offset m all full read
  take_turns-waiting (reply ∷ turns) offset m all full read = elim (Option-cases (fetch offset)) [
    | inl fails ↦ cc
    | inr (page, comes) ↦ rw comes (
        take_turns-page turns offset m all page full
          (take_turns-waiting turns (offset + page.limit) (set_all id_of page.items m) all full)
          (ap (after_page id_of (collect_from id_of fetch (replies turns)) offset m) (sym comes)
            ∙ read))
  ]

  -- However often a list is asked for before, between and after the answers to one reading of it,
  -- when the answers that come make `collect` return a list that is not empty, they leave that
  -- list, and nothing is being read any more.
  pub take_turns-collect :
      (turns : List Turn) (all : Dict T)
      → is_nil all ≡ false
      → collect id_of fetch (replies turns) ≡ collected all
      → take_turns id_of fetch (ask ∷ turns) (started_at []) ≡ started_at all
  unfolding take_turns load collect waiting
  take_turns-collect turns all full read = take_turns-waiting turns 0 [] all full read
