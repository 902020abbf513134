-- ===== src/Api/Tests.antt =====
-- Runs of the readers of the API, and the theorems at inputs that meet their hypotheses.
use scoutpulse.Base.{
  ℕ, zero, suc, ◌+◌, ◌<◌, ◌≡◌, ◌≢◌, refl, String, true, false, insert, Option, none, some, List, [],
  ◌∷◌, arith, length, take, drop, lookup, any, ltb,
}
use mathlib.Core.Option.{some-injective}
use scoutpulse.Api.Page.{Page, max_page_size}
use scoutpulse.Api.Lookup.{
  Collected, collected, collect, collect_from, after_page, set_all, collect_all, collect_ends,
}
use scoutpulse.Api.Names.{PlayerNames, resolve}
use scoutpulse.Api.Cache.{
  started_at, load, answer, name_in, Turn, ask, reply, take_turns, initial, publish,
}
use scoutpulse.Api.Cache.Shared.{replies, take_turns-collect}
use scoutpulse.Api.Error.{HttpErrorResponse}

abbrev page_at : ℕ → Page String
page_at offset = record { items = "x" ∷ []; limit = 25; offset = offset; has_more = true }

abbrev clubs : List String
clubs = "ars" ∷ "che" ∷ "liv" ∷ []

-- a service that serves `clubs`
abbrev serve : ℕ → Option (Page String)
serve at = some (record {
  items = take max_page_size (drop at clubs);
  limit = max_page_size;
  offset = at;
  has_more = ltb (at + max_page_size) (length clubs);
})

collect_all_example : collect (λ x. x) serve 51 ≡ Collected.collected (set_all (λ x. x) clubs [])
collect_all_example = collect_all (λ x. x) serve clubs (λ at. refl) (omega arith)

-- a service that always has more
abbrev endless : ℕ → Option (Page String)
endless at = some (page_at at)

endless_limit : (at : ℕ) (page : Page String) → endless at ≡ some page → 0 < page.limit
endless_limit at page e =
    let same : page_at at ≡ page = some-injective _ _ e in rw (← same) (omega arith)

collect_ends_example : collect (λ x. x) endless 5_001 ≢ Collected.running
collect_ends_example = collect_ends (λ x. x) endless endless_limit

abbrev known : PlayerNames
known = record { names = ("a", "Ann") ∷ []; in_flight = "b" ∷ [] }

abbrev asked : List (Option String)
asked = some "a" ∷ some "b" ∷ some "c" ∷ none ∷ some "c" ∷ []

asked_once : (resolve asked known).1 ≡ ("c" ∷ []) ∷ []
unfolding resolve any lookup
asked_once = refl

abbrev gateway : HttpErrorResponse
gateway = record {
  status = 502;
  body = record { error = none; code = some "network"; request_id = none };
}

-- two pages of one name each
abbrev letters : ℕ → Option (Page String)
letters zero = some (record { items = "a" ∷ []; limit = 1; offset = 0; has_more = true })
letters (suc n) = some (record { items = "b" ∷ []; limit = 1; offset = 1; has_more = false })

abbrev asked_often : List Turn
asked_often = ask ∷ reply ∷ ask ∷ reply ∷ ask ∷ []

letters-collect :
    collect (λ x. x) letters (replies asked_often) ≡ collected (("a", "a") ∷ ("b", "b") ∷ [])
unfolding collect collect_from after_page set_all insert
letters-collect = refl

take_turns-collect_example :
    take_turns (λ x. x) letters (ask ∷ asked_often) (started_at [])
    ≡ started_at (("a", "a") ∷ ("b", "b") ∷ [])
take_turns-collect_example =
    take_turns-collect (λ x. x) letters asked_often (("a", "a") ∷ ("b", "b") ∷ []) refl
      letters-collect

-- a list that could not be read is asked for again
ask_again : (load (answer (λ x. x) none (load (started_at {T = String} [])).0).0).1 ≡ some 0
unfolding load answer
ask_again = refl

name_of_none : name_in (λ x. x) (("a", "Ajax") ∷ []) "—" (some "b") ≡ "—"
unfolding lookup
name_of_none = refl

-- what a server render leaves is taken once
taken_once :
    (initial {V = String} true
      (initial {V = String} true (publish {V = String} false (("a", "Ajax") ∷ []) none)).1).0
    ≡ []
unfolding initial publish
taken_once = refl
