-- ===== src/Api/Names.antt =====
-- Names of players by their ids: `PlayerNames` of core/api/player-names.ts. A request that is in flight
-- is its batch of ids.
use scoutpulse.Base.{
  ℕ, zero, suc, String, Bool, not, ◌&&◌, Option, none, some, List, [], ◌∷◌, ◌++◌, length, take,
  drop, Dict, lookup, insert, is_some, or_else, filter, any, str_eq, leb, if◌then◌else◌,
}
use scoutpulse.Api.Page.{max_page_size}

pub record PlayerNames : Type 0 where
  pub names : Dict String
  pub in_flight : List String

-- A player of the service's answer.
pub record Named : Type 0 where
  pub id : String
  pub name : String

abbrev pub has : String → List String → Bool
has id l = any (str_eq id) l

unfoldable pub name_of : Option String → String → PlayerNames → String
name_of none fallback s = fallback
name_of (some id) fallback s =
    if str_eq id "" then fallback else or_else (lookup id s.names) fallback

abbrev pub is_wanted : PlayerNames → String → Bool
is_wanted s id = not (str_eq id "") && not (is_some (lookup id s.names)) && not (has id s.in_flight)

abbrev keep_wanted : PlayerNames → Option String → List String → List String
keep_wanted s none seen = seen
keep_wanted s (some id) seen =
    if is_wanted s id then if has id seen then seen else seen ++ id ∷ [] else seen

-- `new Set(ids.filter(…))`, with what is in the set already
unfoldable pub wanted_from : PlayerNames → List (Option String) → List String → List String
wanted_from s [] seen = seen
wanted_from s (id ∷ ids) seen = wanted_from s ids (keep_wanted s id seen)

unfoldable pub wanted : PlayerNames → List (Option String) → List String
unfolding wanted_from
wanted s ids = wanted_from s ids []

-- The loop that cuts the batches; a round takes at least one id, so their number is fuel enough.
unfoldable pub batches_of : ℕ → List String → List (List String)
batches_of zero ids = []
batches_of (suc fuel) ids =
    let rest = batches_of fuel (drop max_page_size ids) in
    if leb (length ids) 0 then [] else take max_page_size ids ∷ rest

-- The batches that `resolve` asks for, and the state with these in flight.
unfoldable pub resolve : List (Option String) → PlayerNames → PlayerNames × List (List String)
unfolding wanted batches_of
resolve ids s =
    let ids = wanted s ids in
    (record s { in_flight = s.in_flight ++ ids }, batches_of (length ids) ids)

unfoldable pub set_names : List Named → Dict String → Dict String
set_names [] m = m
set_names (p ∷ items) m = set_names items (insert p.id p.name m)

unfoldable pub learn : Option (List Named) → Dict String → Dict String
unfolding set_names
learn none m = m
learn (some items) m = set_names items m

-- the end of `load` and `fetch` for a batch, with the answer or `none` for a failure
unfoldable pub answer_batch : List String → Option (List Named) → PlayerNames → PlayerNames
unfolding learn
answer_batch batch reply s = record {
  names = learn reply s.names;
  in_flight = filter (λ id. not (has id batch)) s.in_flight;
}

-- What happens to the store: someone asks for names, or a batch is answered.
pub data NamesEvent : Type 0 where
  asked : List (Option String) → NamesEvent
  answered : List String → Option (List Named) → NamesEvent

unfoldable pub run_names : List NamesEvent → PlayerNames → PlayerNames
unfolding resolve answer_batch
run_names [] s = s
run_names (NamesEvent.asked ids ∷ events) s = run_names events (resolve ids s).0
run_names (NamesEvent.answered batch reply ∷ events) s =
    run_names events (answer_batch batch reply s)

abbrev pub joined : List (List String) → List String
joined [] = []
joined (l ∷ ls) = l ++ joined ls
