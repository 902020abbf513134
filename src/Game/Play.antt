-- ===== src/Game/Play.antt =====
-- What stays true while a game of features/games/played-for-both/played-for-both.store.ts is played.
use scoutpulse.Base.{
  ℕ, suc, ◌+◌, ◌-◌, ◌≤◌, ◌<◌, ◌≡◌, refl, inl, inr, String, Bool, true, false, not, ◌&&◌, Option,
  none, some, List, [], ◌∷◌, arith, length, is_some, leb, Bool-cases, Option-cases,
}
use mathlib.Core.Option.{some-injective}
use scoutpulse.Game.Index.{GameIndex, ◌>>=◌}
use scoutpulse.Game.Event.{Event, handle, handle_all}
use scoutpulse.Game.Draw.{Draw, push_recent, recent_window, length-push_recent}
use scoutpulse.Game.Store.{
  GameStore, Timer, new_game, begin_load, load, set_index, loaded, reveal, reset, set_leagues,
  toggle_league, all_leagues, top5, clear_leagues, stop_timer, start_timer, set_timer, shown_next,
  next_of, next, primary, scored, pointed, point, timer_tick,
}

-- The timer runs only while a pair is shown and not revealed; what is revealed is a pair; a pair
-- needs the data; and the window of pairs, the rounds and the draws are in keeping with each other.
pub record IsPlaying (index : Option GameIndex) (pair : Option Draw) (revealed : Bool)
    (timer : Option Timer) (recent : List ℕ) (score : ℕ × ℕ) (round : ℕ) : Type 0 where
  pub timed : is_some timer ≡ true → (is_some pair ≡ true) × (revealed ≡ false)
  pub shown : revealed ≡ true → is_some pair ≡ true
  pub has_data : is_some pair ≡ true → is_some index ≡ true
  pub window : length recent ≤ recent_window
  pub rounds : score.0 + score.1 < round

abbrev pub IsConsistent : GameStore → Type 0
IsConsistent s = IsPlaying s.index s.pair s.revealed s.timer s.recent s.score s.round

set_index-IsConsistent :
    (o : Option GameIndex) (s : GameStore) → IsConsistent s → IsConsistent (set_index o s)
unfolding set_index
set_index-IsConsistent none s h = h
set_index-IsConsistent (some ix) s h = record {
  timed = h.timed;
  shown = h.shown;
  has_data = λ e. refl;
  window = h.window;
  rounds = h.rounds;
}

reveal-IsConsistent : (s : GameStore) → IsConsistent s → IsConsistent (reveal s)
unfolding reveal stop_timer
reveal-IsConsistent s h = elim (Option-cases s.pair) [
  | inl e ↦ rw e (rw e at h)
  | inr (d, e) ↦ rw e (record {
    timed = λ k. cc;
    shown = λ k. refl;
    has_data = λ k. h.has_data (rw e refl);
    window = h.window;
    rounds = h.rounds;
  })
]

timer_tick-IsConsistent :
    (now : ℕ) (s : GameStore) → IsConsistent s → IsConsistent (timer_tick now s)
unfolding timer_tick
timer_tick-IsConsistent now s h = elim (Option-cases s.timer) [
  | inl e ↦ rw e (rw e at h)
  | inr (t, e) ↦ elim (Bool-cases (leb (t.ends_at - now) 0)) [
    | inl z ↦
        rw (e, z)
          (rw e at (reveal-IsConsistent (record s { time_left = (t.ends_at - now, t.total) }) h))
    | inr z ↦ rw (e, z) (rw e at h)
  ]
]

module _ (rng : ℕ → ℕ) (fuel : ℕ) (browser : Bool) where
  start_timer-IsConsistent :
      (now : ℕ) (s : GameStore)
      → is_some s.pair ≡ true
      → s.revealed ≡ false
      → IsConsistent s
      → IsConsistent (start_timer rng fuel browser now s)
  unfolding start_timer stop_timer
  start_timer-IsConsistent now s p r h =
      let stopped : IsPlaying s.index s.pair s.revealed none s.recent s.score s.round = record {
        timed = λ k. cc;
        shown = h.shown;
        has_data = h.has_data;
        window = h.window;
        rounds = h.rounds;
      } in
      elim (Bool-cases (leb s.timer_seconds 0)) [
        | inl e ↦ rw e stopped
        | inr e ↦ elim (Bool-cases browser) [
          | inl f ↦
              rw (e, f)
                (record {
                  timed = λ k. (p, r);
                  shown = h.shown;
                  has_data = h.has_data;
                  window = h.window;
                  rounds = h.rounds;
                })
          | inr f ↦ rw (e, f) stopped
        ]
      ]

  shown_next-IsConsistent :
      (now : ℕ) (s : GameStore) (drawn : Option Draw × ℕ)
      → is_some s.index ≡ true
      → IsConsistent s
      → IsConsistent (shown_next rng fuel browser now s drawn)
  unfolding shown_next
  shown_next-IsConsistent now s (none, later) i h = h
  shown_next-IsConsistent now s (some draw, later) i h =
      start_timer-IsConsistent now
        (record s {
          recent = push_recent s.recent draw.key;
          need_league = false;
          revealed = false;
          pair = some draw;
          draw_id = suc s.draw_id;
          drawn_numbers = later;
        })
        refl refl
        (record {
          timed = λ k. (refl, refl);
          shown = λ k. refl;
          has_data = λ k. i;
          window = length-push_recent s.recent draw.key;
          rounds = h.rounds;
        })

  next-IsConsistent :
      (now : ℕ) (s after : GameStore)
      → IsConsistent s
      → next rng fuel browser now s ≡ some after
      → IsConsistent after
  unfolding next next_of
  next-IsConsistent now s after h k = indexed s.index refl k
    where
      drawn :
          (o : Option (Option Draw × ℕ))
          → is_some s.index ≡ true
          → (o >>= λ found. some (shown_next rng fuel browser now s found)) ≡ some after
          → IsConsistent after
      drawn none i k = cc
      drawn (some found) i k =
          let same : shown_next rng fuel browser now s found ≡ after = some-injective _ _ k in
          rw (← same) (shown_next-IsConsistent now s found i h)

      indexed :
          (o : Option GameIndex)
          → s.index ≡ o
          → next_of rng fuel browser now o s ≡ some after
          → IsConsistent after
      indexed none e k = let same : s ≡ after = some-injective _ _ k in rw (← same) h
      indexed (some ix) e k = drawn _ (rw e refl) k

  set_timer-IsConsistent :
      (now seconds : ℕ) (s : GameStore)
      → IsConsistent s
      → IsConsistent (set_timer rng fuel browser now seconds s)
  unfolding set_timer stop_timer
  set_timer-IsConsistent now seconds s h = elim (Bool-cases (is_some s.pair && not s.revealed)) [
    | inl e ↦ rw e (
        start_timer-IsConsistent now (record s { timer_seconds = seconds }) (ground arith)
          (ground arith) h)
    | inr e ↦ rw e (record {
      timed = λ k. cc;
      shown = h.shown;
      has_data = h.has_data;
      window = h.window;
      rounds = h.rounds;
    })
  ]

  scored_sum :
      (first : Bool) (score : ℕ × ℕ)
      → (scored first score).0 + (scored first score).1 ≡ suc (score.0 + score.1)
  scored_sum true (a, b) = omega arith
  scored_sum false (a, b) = omega arith

  pointed-IsConsistent :
      (now : ℕ) (first : Bool) (o : Option Draw) (s after : GameStore)
      → IsConsistent s
      → pointed rng fuel browser now first o s ≡ some after
      → IsConsistent after
  unfolding pointed
  pointed-IsConsistent now first none s after h k = rw (← some-injective _ _ k) h
  pointed-IsConsistent now first (some draw) s after h k =
      next-IsConsistent now (record s { score = scored first s.score; round = suc s.round }) after
        (record {
          timed = h.timed;
          shown = h.shown;
          has_data = h.has_data;
          window = h.window;
          rounds = omega (arith, h.rounds, scored_sum first s.score);
        })
        k

  handle-IsConsistent :
      (e : Event) (s after : GameStore)
      → IsConsistent s
      → handle rng fuel browser e s ≡ some after
      → IsConsistent after
  unfolding handle begin_load load reset stop_timer toggle_league all_leagues top5 clear_leagues
      set_leagues primary point
  handle-IsConsistent Event.begin_load_event s after h k = rw (← some-injective _ _ k) h
  handle-IsConsistent (Event.loads_event reply) s after h k =
      rw (← some-injective _ _ k) (set_index-IsConsistent (loaded reply) s h)
  handle-IsConsistent (Event.primary_event now) s after h k = elim (Bool-cases (is_some s.pair)) [
    | inl e ↦
        next-IsConsistent now (record s { round = suc s.round }) after
          (record {
            timed = h.timed;
            shown = h.shown;
            has_data = h.has_data;
            window = h.window;
            rounds = omega (arith, h.rounds);
          })
          (rw e at k)
    | inr e ↦ next-IsConsistent now s after h (rw e at k)
  ]
  handle-IsConsistent Event.reveal_event s after h k =
      rw (← some-injective _ _ k) (reveal-IsConsistent s h)
  handle-IsConsistent (Event.point_event now first) s after h k =
      pointed-IsConsistent now first s.pair s after h k
  handle-IsConsistent Event.reset_event s after h k = rw (← some-injective _ _ k) (record {
    timed = λ k. cc;
    shown = λ k. cc;
    has_data = λ k. cc;
    window = omega arith;
    rounds = omega arith;
  })
  handle-IsConsistent (Event.toggle_league_event code on) s after h k =
      rw (← some-injective _ _ k) h
  handle-IsConsistent Event.all_leagues_event s after h k = rw (← some-injective _ _ k) h
  handle-IsConsistent Event.top5_event s after h k = rw (← some-injective _ _ k) h
  handle-IsConsistent Event.clear_leagues_event s after h k = rw (← some-injective _ _ k) h
  handle-IsConsistent (Event.set_timer_event now seconds) s after h k =
      rw (← some-injective _ _ k) (set_timer-IsConsistent now seconds s h)
  handle-IsConsistent (Event.known_only_event on) s after h k = rw (← some-injective _ _ k) h
  handle-IsConsistent (Event.famous_only_event on) s after h k = rw (← some-injective _ _ k) h
  handle-IsConsistent (Event.allow_nations_event on) s after h k = rw (← some-injective _ _ k) h
  handle-IsConsistent (Event.timer_tick_event now) s after h k =
      rw (← some-injective _ _ k) (timer_tick-IsConsistent now s h)

  handle_all-IsConsistent :
      (events : List Event) (s after : GameStore)
      → IsConsistent s
      → handle_all rng fuel browser events s ≡ some after
      → IsConsistent after
  unfolding handle_all
  handle_all-IsConsistent [] s after h k = rw (← some-injective _ _ k) h
  handle_all-IsConsistent (e ∷ events) s after h k =
      more (λ mid. handle_all-IsConsistent events mid after) (handle rng fuel browser e s) refl k
    where
      more :
          ((mid : GameStore)
            → IsConsistent mid
            → handle_all rng fuel browser events mid ≡ some after
            → IsConsistent after)
          → (o : Option GameStore) → handle rng fuel browser e s ≡ o
          → (o >>= handle_all rng fuel browser events) ≡ some after
          → IsConsistent after
      more ih none f k = cc
      more ih (some mid) f k = ih mid (handle-IsConsistent e s mid h f) k

-- However a game is played from its start, if its draws end, its timer runs only while a pair is
-- shown and not revealed, an answer is revealed only for a pair, a pair is shown only with the data
-- loaded, at most sixty recent pairs are kept, and the points are fewer than the rounds.
pub handle_all-new_game-IsConsistent :
    (rng : ℕ → ℕ) (fuel : ℕ) (browser : Bool) (stored : Option (List String)) (events : List Event)
    (after : GameStore)
    → handle_all rng fuel browser events (new_game stored) ≡ some after
    → IsConsistent after
handle_all-new_game-IsConsistent rng fuel browser stored events after =
    handle_all-IsConsistent rng fuel browser events (new_game stored) after (record {
      timed = λ k. cc;
      shown = λ k. cc;
      has_data = λ k. cc;
      window = omega arith;
      rounds = omega arith;
    })
