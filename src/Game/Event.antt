-- ===== src/Game/Event.antt =====
-- What the page of features/games/played-for-both/ calls on the store, and what its clock does.
use scoutpulse.Base.{ℕ, String, Bool, Option, some, List, [], ◌∷◌}
use scoutpulse.Game.Index.{PlayedForBothWire, ◌>>=◌}
use scoutpulse.Game.Store.{
  GameStore, begin_load, load, reveal, reset, toggle_league, all_leagues, top5, clear_leagues,
  set_timer, primary, point, timer_tick,
}

-- `point_event now true` is player 1's; the last three settings are set by the page itself.
pub data Event : Type 0 where
  begin_load_event : Event
  loads_event : Option PlayedForBothWire → Event
  primary_event : ℕ → Event
  reveal_event : Event
  point_event : ℕ → Bool → Event
  reset_event : Event
  toggle_league_event : String → Bool → Event
  all_leagues_event : Event
  top5_event : Event
  clear_leagues_event : Event
  set_timer_event : ℕ → ℕ → Event
  known_only_event : Bool → Event
  famous_only_event : Bool → Event
  allow_nations_event : Bool → Event
  timer_tick_event : ℕ → Event

module _ (rng : ℕ → ℕ) (fuel : ℕ) (browser : Bool) where
  unfoldable pub handle : Event → GameStore → Option GameStore
  unfolding begin_load load primary point reveal reset toggle_league all_leagues top5 clear_leagues
      set_timer timer_tick
  handle Event.begin_load_event s = some (begin_load s)
  handle (Event.loads_event reply) s = some (load reply s)
  handle (Event.primary_event now) s = primary rng fuel browser now s
  handle Event.reveal_event s = some (reveal s)
  handle (Event.point_event now first) s = point rng fuel browser now first s
  handle Event.reset_event s = some (reset s)
  handle (Event.toggle_league_event code on) s = some (toggle_league code on s)
  handle Event.all_leagues_event s = some (all_leagues s)
  handle Event.top5_event s = some (top5 s)
  handle Event.clear_leagues_event s = some (clear_leagues s)
  handle (Event.set_timer_event now seconds) s = some (set_timer rng fuel browser now seconds s)
  handle (Event.known_only_event on) s = some (record s { known_only = on })
  handle (Event.famous_only_event on) s = some (record s { famous_only = on })
  handle (Event.allow_nations_event on) s = some (record s { allow_nations = on })
  handle (Event.timer_tick_event now) s = some (timer_tick now s)

  unfoldable pub handle_all : List Event → GameStore → Option GameStore
  unfolding handle
  handle_all [] s = some s
  handle_all (e ∷ events) s = handle e s >>= handle_all events
