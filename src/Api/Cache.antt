-- ===== src/Api/Cache.antt =====
-- The lists of clubs, competitions and seasons that `LookupStore` of core/api/lookup-store.ts keeps, and
-- how a server render hands them to the browser, core/api/transferred-map.ts. `collect` is a loop over
-- requests; here it is cut at its `await`, so that other calls come between two
-- pages. What follows the last page (`then` and `finally`) is one step with it.
pub mod Shared
use scoutpulse.Base.{
  ℕ, zero, suc, ◌+◌, ◌≡◌, refl, sym, ap, ◌∙◌, inl, inr, String, Bool, true, false, not, ◌||◌,
  Option, none, some, or_else, List, [], ◌∷◌, arith, Dict, lookup, ltb, if◌then◌else◌, str_eq,
  Bool-cases, Option-cases,
}
use scoutpulse.Api.Page.{Page}
use scoutpulse.Api.Lookup.{Collected, safety_stop, set_all, after_page, collect, collect_from}

-- a loop of `collect` that waits for the page at an offset, with what it has so far
pub record Loading {ℓ} (T : Type ℓ) : Type ℓ where
  pub offset : ℕ
  pub so_far : Dict T

-- `teamsById` and `teamsLoading`, and likewise for competitions and seasons
pub record Cache {ℓ} (T : Type ℓ) : Type ℓ where
  pub by_id : Dict T
  pub loading : Option (Loading T)

abbrev pub is_nil {ℓ} : {A : Type ℓ} → List A → Bool
is_nil [] = true
is_nil (x ∷ xs) = false

module _ {ℓ} {T : Type ℓ} where
  abbrev pub started_at : Dict T → Cache T
  started_at initial = record { by_id = initial; loading = none }

  abbrev load_idle : Cache T → Option (Loading T) → Cache T × Option ℕ
  load_idle c (some l) = (c, none)
  load_idle c none = (record c { loading = some (record { offset = 0; so_far = [] }) }, some 0)

  -- `loadTeams`: the state, and the offset of the page that is asked for
  unfoldable pub load : Cache T → Cache T × Option ℕ
  load c = let idle = load_idle c c.loading in if not (is_nil c.by_id) then (c, none) else idle

  -- `teamName`, with how a club is named
  abbrev pub name_in : (T → String) → Dict T → String → Option String → String
  name_in name by_id fallback none = fallback
  name_in name by_id fallback (some id) =
      if str_eq id ""
      then fallback
      else elim (lookup id by_id) [ none ↦ fallback | some x ↦ name x ]

-- what happens next: another component asks for the list, or the reader answers
pub data Turn : Type 0 where
  ask reply : Turn

module _ {ℓ} {T : Type ℓ} (id_of : T → String) where
  abbrev page_read : Loading T → Page T → Cache T → Cache T × Option ℕ
  page_read l page c =
      let so_far = set_all id_of page.items l.so_far in
      let next = l.offset + page.limit in
      if not page.has_more || ltb safety_stop next
      then (record { by_id = so_far; loading = none }, none)
      else (record c { loading = some (record { offset = next; so_far = so_far }) }, some next)

  abbrev answered : Option (Loading T) → Option (Page T) → Cache T → Cache T × Option ℕ
  answered none page c = (c, none)
  answered (some l) none c = (record c { loading = none }, none)
  answered (some l) (some page) c = unfold set_all in page_read l page c

  -- the page that the loop waits for comes, or its request fails: the state, and what is asked for next
  unfoldable pub answer : Option (Page T) → Cache T → Cache T × Option ℕ
  unfolding set_all
  answer page c = answered c.loading page c

  -- turns with a reader that has a page, or a failure, for each offset
  unfoldable pub take_turns : (ℕ → Option (Page T)) → List Turn → Cache T → Cache T
  unfolding load answer
  take_turns fetch [] c = c
  take_turns fetch (Turn.ask ∷ turns) c = take_turns fetch turns (load c).0
  take_turns fetch (Turn.reply ∷ turns) c = elim c.loading [
    | none ↦ take_turns fetch turns c
    | some l ↦ take_turns fetch turns (answer (fetch l.offset) c).0
  ]

-- the transfer from a server render: what it holds under one name
module _ {ℓ} {V : Type ℓ} where
  abbrev kept : Option (Dict V) → Dict V × Option (Dict V)
  kept none = ([], none)
  kept (some m) = (m, none)

  -- `initial`: the map to start from, and what the transfer holds then
  unfoldable pub initial : Bool → Option (Dict V) → Dict V × Option (Dict V)
  initial is_browser state = if is_browser then kept state else ([], state)

  -- `publish`
  unfoldable pub publish : Bool → Dict V → Option (Dict V) → Option (Dict V)
  publish is_browser m state = if is_browser then state else some m
