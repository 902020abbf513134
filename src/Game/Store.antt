-- ===== src/Game/Store.antt =====
-- The state of a game and its handlers: the class `PlayedForBothStore` of
-- features/games/played-for-both/played-for-both.store.ts. Arguments stand for the random stream,
-- the fuel of the loop that looks for another club, whether a browser runs the code, and the clock
-- in milliseconds. `none` is a draw that has not ended.
use scoutpulse.Base.{
  ℕ, suc, ◌+◌, ◌-◌, ◌*◌, String, Bool, true, false, not, ◌&&◌, Option, none, some, List, [], ◌∷◌,
  ◌++◌, map, length, filter, any, is_some, str_eq, ltb, leb, if◌then◌else◌,
}
use scoutpulse.Game.Index.{GameIndex, League, PlayedForBothWire, build_index, ◌>>=◌}
use scoutpulse.Game.Pairs.{enabled_clubs}
use scoutpulse.Game.Pool.{build_pair_pool}
use scoutpulse.Game.Draw.{Draw, draw_pair, push_recent}

pub data LoadState : Type 0 where
  loading : LoadState
  ready : LoadState
  error : LoadState

-- A running timer: when it ends, and the length of the round.
pub record Timer : Type 0 where
  pub ends_at : ℕ
  pub total : ℕ

-- `time_left` is the fraction of the round that is left. `stored` is what the local storage holds,
-- which is taken to work.
pub record GameStore : Type 0 where
  pub load_state : LoadState
  pub index : Option GameIndex
  pub leagues : List String
  pub known_only : Bool
  pub famous_only : Bool
  pub allow_nations : Bool
  pub timer_seconds : ℕ
  pub score : ℕ × ℕ
  pub round : ℕ
  pub pair : Option Draw
  pub draw_id : ℕ
  pub revealed : Bool
  pub need_league : Bool
  pub recent : List ℕ
  pub time_left : ℕ × ℕ
  pub timer : Option Timer
  pub stored : Option (List String)
  pub drawn_numbers : ℕ

abbrev pub new_game : Option (List String) → GameStore
new_game stored = record {
  load_state = LoadState.loading;
  index = none;
  leagues = [];
  known_only = true;
  famous_only = true;
  allow_nations = true;
  timer_seconds = 30;
  score = (0, 0);
  round = 1;
  pair = none;
  draw_id = 0;
  revealed = false;
  need_league = false;
  recent = [];
  time_left = (1, 1);
  timer = none;
  stored = stored;
  drawn_numbers = 0;
}

unfoldable pub top5_leagues : List String
top5_leagues = "eng" ∷ "esp" ∷ "ita" ∷ "ger" ∷ "fra" ∷ []

abbrev pub has_league : String → List String → Bool
has_league code leagues = any (str_eq code) leagues

-- `new Set(codes)`
unfoldable pub dedupe : List String → List String → List String
dedupe seen [] = seen
dedupe seen (c ∷ codes) = dedupe (if has_league c seen then seen else seen ++ c ∷ []) codes

abbrev pub league_codes : GameIndex → List String
league_codes ix = map (λ (l : League). l.code) ix.leagues

-- `none` for a storage that is empty, blocked or not a list
unfoldable pub stored_leagues : Option (List String) → GameIndex → List String
unfolding dedupe
stored_leagues none ix = dedupe [] (league_codes ix)
stored_leagues (some stored) ix =
    let valid = filter (λ c. has_league c (league_codes ix)) stored in
    if ltb 0 (length valid) then dedupe [] valid else dedupe [] (league_codes ix)

unfoldable pub set_index : Option GameIndex → GameStore → GameStore
unfolding stored_leagues
set_index none s = record s { load_state = LoadState.error }
set_index (some ix) s = record s {
  leagues = stored_leagues s.stored ix;
  index = some ix;
  load_state = LoadState.ready;
}

abbrev pub loaded : Option PlayedForBothWire → Option GameIndex
loaded none = none
loaded (some wire) = build_index wire

-- `load` up to its request
unfoldable pub begin_load : GameStore → GameStore
begin_load s = record s { load_state = LoadState.loading }

-- `load` from the answer on; `none` is a request that failed
unfoldable pub load : Option PlayedForBothWire → GameStore → GameStore
unfolding set_index
load reply s = set_index (loaded reply) s

unfoldable pub started : GameStore → Bool
started s = is_some s.pair

unfoldable pub stop_timer : GameStore → GameStore
stop_timer s = record s { timer = none }

abbrev pub clubs_of : GameStore → GameIndex → List ℕ
clubs_of s ix = enabled_clubs ix s.leagues

abbrev pub pool_of : GameStore → GameIndex → List ℕ
pool_of s ix =
    if s.known_only
    then build_pair_pool ix (record {
      leagues = s.leagues;
      famous_only = s.famous_only;
      allow_nations = s.allow_nations;
    })
    else []

unfoldable pub reveal : GameStore → GameStore
unfolding stop_timer
reveal s = elim s.pair [ none ↦ s | some draw ↦ stop_timer (record s { revealed = true }) ]

unfoldable pub reset : GameStore → GameStore
unfolding stop_timer
reset s = record (stop_timer s) {
  score = (0, 0);
  round = 1;
  pair = none;
  recent = [];
  revealed = false;
  need_league = false;
  time_left = (1, 1);
}

unfoldable pub set_leagues : List String → GameStore → GameStore
set_leagues leagues s = record s { leagues = leagues; stored = some leagues }

abbrev pub with_league : Bool → String → List String → List String
with_league true code leagues = if has_league code leagues then leagues else leagues ++ code ∷ []
with_league false code leagues = filter (λ c. not (str_eq c code)) leagues

unfoldable pub toggle_league : String → Bool → GameStore → GameStore
unfolding set_leagues
toggle_league code on s = set_leagues (with_league on code s.leagues) s

unfoldable pub all_leagues : GameStore → GameStore
unfolding set_leagues dedupe
all_leagues s = set_leagues (dedupe [] (elim s.index [ none ↦ [] | some ix ↦ league_codes ix ])) s

unfoldable pub top5 : GameStore → GameStore
unfolding set_leagues top5_leagues
top5 s = set_leagues top5_leagues s

unfoldable pub clear_leagues : GameStore → GameStore
unfolding set_leagues
clear_leagues s = set_leagues [] s

abbrev pub scored : Bool → ℕ × ℕ → ℕ × ℕ
scored first (a, b) = if first then (suc a, b) else (a, suc b)

module _ (rng : ℕ → ℕ) (fuel : ℕ) (browser : Bool) where
  unfoldable pub start_timer : ℕ → GameStore → GameStore
  unfolding stop_timer
  start_timer now s =
      let stopped = record (stop_timer s) { time_left = (1, 1) } in
      if leb s.timer_seconds 0 then stopped else if not browser then stopped else record stopped {
        timer =
            some
              (record { ends_at = now + s.timer_seconds * 1_000; total = s.timer_seconds * 1_000 });
      }

  unfoldable pub set_timer : ℕ → ℕ → GameStore → GameStore
  unfolding start_timer stop_timer
  set_timer now seconds s =
      let changed = record s { timer_seconds = seconds } in
      if is_some s.pair && not s.revealed then start_timer now changed else stop_timer changed

  unfoldable pub shown_next : ℕ → GameStore → Option Draw × ℕ → GameStore
  unfolding start_timer
  shown_next now s (none, later) = record s { need_league = true; drawn_numbers = later }
  shown_next now s (some draw, later) = start_timer now (record s {
    recent = push_recent s.recent draw.key;
    need_league = false;
    revealed = false;
    pair = some draw;
    draw_id = suc s.draw_id;
    drawn_numbers = later;
  })

  unfoldable pub next_of : ℕ → Option GameIndex → GameStore → Option GameStore
  unfolding shown_next
  next_of now none s = some s
  next_of now (some ix) s =
      draw_pair rng fuel ix
        (record {
          clubs = clubs_of s ix;
          pool = pool_of s ix;
          known_only = s.known_only;
          allow_nations = s.allow_nations;
          recent = s.recent;
        })
        s.drawn_numbers
      >>= λ drawn. some (shown_next now s drawn)

  unfoldable pub next : ℕ → GameStore → Option GameStore
  unfolding next_of
  next now s = next_of now s.index s

  unfoldable pub primary : ℕ → GameStore → Option GameStore
  unfolding next
  primary now s = next now (if is_some s.pair then record s { round = suc s.round } else s)

  unfoldable pub pointed : ℕ → Bool → Option Draw → GameStore → Option GameStore
  unfolding next
  pointed now first none s = some s
  pointed now first (some draw) s =
      next now (record s { score = scored first s.score; round = suc s.round })

  -- `first` for player 1
  unfoldable pub point : ℕ → Bool → GameStore → Option GameStore
  unfolding pointed
  point now first s = pointed now first s.pair s

-- the callback of the interval, which runs only while the timer does
unfoldable pub timer_tick : ℕ → GameStore → GameStore
unfolding reveal
timer_tick now s = elim s.timer [
  | none ↦ s
  | some t ↦
      let left = t.ends_at - now in
      let changed = record s { time_left = (left, t.total) } in
      if leb left 0 then reveal changed else changed
]
