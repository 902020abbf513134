-- ===== src/Game/Tests.antt =====
-- Runs of the game on a small dataset, and the theorems at inputs that meet their hypotheses.
use scoutpulse.Base.{
  ℕ, zero, suc, ◌+◌, ◌-◌, ◌^◌, ◌<◌, ◌≡◌, ◌≢◌, ◌↔◌, ◌⊎◌, inl, inr, refl, String, Bool, true, false,
  Option, none, some, List, [], ◌∷◌, arith, length, get_elem?, filter, find, any, All, pos, ◌==◌,
  Bool-cases,
}
use scoutpulse.Game.Index.{Club, Player, GameIndex, PlayedForBothWire, contains, row, build_index}
use scoutpulse.Game.Index.Rows.{build_index-row}
use scoutpulse.Game.Pairs.{pair_key, is_club, split_key, matches, Member, enabled_clubs}
use scoutpulse.Game.Pairs.Answers.{matches-linked}
use scoutpulse.Game.Pool.{PoolOptions, build_pair_pool, IsAnswered, build_pair_pool-IsAnswered}
use scoutpulse.Game.Pool.Complete.{contains-build_pair_pool}
use scoutpulse.Game.Draw.{
  DrawOptions, Draw, draw_pair, redraw, next_key, push_recent, pick, max_tries,
}
use scoutpulse.Game.Random.{draw_pair-known}
use scoutpulse.Game.Random.NoPool.{IsPlayable, draw_pair-random}
use scoutpulse.Game.Store.{GameStore, new_game}
use scoutpulse.Game.Event.{Event, handle_all}
use scoutpulse.Game.Play.{IsConsistent, handle_all-new_game-IsConsistent}

abbrev club : String → Club
club id = record { id = id; name = id; colour1 = "#000"; colour2 = "#fff"; league = 0 }

abbrev wire : PlayedForBothWire
wire = record {
  leagues = record { code = "eng"; country = "England"; name = "Premier League" } ∷ [];
  clubs = club "ars" ∷ club "che" ∷ [];
  nations = record { fifa = "FRA"; name_en = "France"; name_tr = "Fransa"; flag = "fr" } ∷ [];
  players =
      record { name = "Anelka"; nation = pos 0; clubs = 0 ∷ 1 ∷ []; famous = 0 }
      ∷ record { name = "Giroud"; nation = pos 0; clubs = 0 ∷ 1 ∷ []; famous = 1 }
      ∷ [];
}

abbrev index : GameIndex
index = record {
  leagues = wire.leagues;
  clubs = wire.clubs;
  nations = wire.nations;
  players =
      record { name = "Anelka"; entities = 0 ∷ 1 ∷ 2 ∷ []; famous = false }
      ∷ record { name = "Giroud"; entities = 0 ∷ 1 ∷ 2 ∷ []; famous = true }
      ∷ [];
  club_count = 2;
  by_entity = (0 ∷ 1 ∷ []) ∷ (0 ∷ 1 ∷ []) ∷ (0 ∷ 1 ∷ []) ∷ [];
  clubs_per_league = 2 ∷ [];
}

build-index : build_index wire ≡ some index
unfolding build_index
build-index = refl

build_index-row_example :
    (contains 1 (row index.by_entity 2) ≡ true)
    ↔ ((p : Player) × (get_elem? index.players 1 ≡ some p) × (contains 2 p.entities ≡ true))
build_index-row_example = build_index-row wire index 2 1 build-index

-- every name in order
abbrev any_order : String → String → Bool
any_order a b = true

abbrev giroud : Player
giroud = record { name = "Giroud"; entities = 0 ∷ 1 ∷ 2 ∷ []; famous = true }

matches-linked_example : Member giroud (matches any_order index 1 2) ↔ (
    (i : ℕ) × (get_elem? index.players i ≡ some giroud)
    × (contains 1 (0 ∷ 1 ∷ 2 ∷ []) ≡ true)
    × (contains 2 (0 ∷ 1 ∷ 2 ∷ []) ≡ true))
matches-linked_example = matches-linked any_order wire index 1 2 giroud build-index

abbrev options : PoolOptions
options = record { leagues = "eng" ∷ []; famous_only = true; allow_nations = true }

build_pair_pool-IsAnswered_example : All (IsAnswered index options) (build_pair_pool index options)
build_pair_pool-IsAnswered_example = build_pair_pool-IsAnswered wire index options build-index

contains-build_pair_pool_example : contains (pair_key 0 1) (build_pair_pool index options) ≡ true
unfolding enabled_clubs any
contains-build_pair_pool_example =
    contains-build_pair_pool index options 1 giroud 0 1 refl refl refl refl refl refl (omega arith)

abbrev draw_options : Bool → DrawOptions
draw_options known = record {
  clubs = 0 ∷ 1 ∷ [];
  pool = pair_key 0 1 ∷ [];
  known_only = known;
  allow_nations = false;
  recent = [];
}

-- a random source that takes turns
abbrev turns : ℕ → ℕ
turns zero = 0
turns (suc zero) = 2 ^ 53 - 1
turns (suc (suc k)) = turns k

draw_pair-known_example :
    (draw : Draw) × (later : ℕ) × (draw_pair turns 2 index (draw_options true) 0
      ≡ some (some draw, later))
    × (contains draw.key (pair_key 0 1 ∷ []) ≡ true)
    × (((draw.left, draw.right) ≡ split_key draw.key)
        ⊎ ((draw.right, draw.left) ≡ split_key draw.key))
    × ((contains draw.key [] ≡ false)
        ⊎ ((i : ℕ)
            → i < max_tries
            → (key : ℕ) × (pick (pair_key 0 1 ∷ []) (turns (0 + i)) ≡ some key)
              × (contains key [] ≡ true)))
draw_pair-known_example =
    draw_pair-known turns 2 index (draw_options true) 0 (omega arith) (omega arith) refl

below : (e : ℕ) → contains e (0 ∷ 1 ∷ []) ≡ true → e < 2
below e h = ground arith

both_turns :
    (at : ℕ)
    → ((pick (0 ∷ 1 ∷ []) (turns at) ≡ some 0) × (pick (0 ∷ 1 ∷ []) (turns (suc at)) ≡ some 1))
      ⊎ ((pick (0 ∷ 1 ∷ []) (turns at) ≡ some 1) × (pick (0 ∷ 1 ∷ []) (turns (suc at)) ≡ some 0))
both_turns zero = inl (refl, refl)
both_turns (suc zero) = inr (refl, refl)
both_turns (suc (suc at)) = both_turns at

plus_zero : (at : ℕ) → at ≡ at + 0
plus_zero at = omega arith

plus_one : (at : ℕ) → suc at ≡ at + 1
plus_one at = omega arith

varied :
    (a at : ℕ)
    → (k : ℕ) × (k < 2) × (b : ℕ) × (pick (0 ∷ 1 ∷ []) (turns (at + k)) ≡ some b) × (a ≢ b)
varied a at = elim (Bool-cases (a == 0)) [
  | inr e ↦ elim (both_turns at) [
    | inl (p, q) ↦ (0, omega arith, 0, rw (← plus_zero at) p, ground arith)
    | inr (p, q) ↦ (1, omega arith, 0, rw (← plus_one at) q, ground arith)
  ]
  | inl e ↦ elim (both_turns at) [
    | inl (p, q) ↦ (1, omega arith, 1, rw (← plus_one at) q, ground arith)
    | inr (p, q) ↦ (0, omega arith, 1, rw (← plus_zero at) p, ground arith)
  ]
]

draw_pair-random_example :
    (draw : Draw) × (later : ℕ) × (draw_pair turns 2 index (draw_options false) 0
      ≡ some (some draw, later))
    × IsPlayable index (0 ∷ 1 ∷ []) draw.key
draw_pair-random_example =
    draw_pair-random turns 2 index (draw_options false) 0 refl below (omega arith)
      (λ h. omega (arith, h)) (λ h. varied)

-- The data comes, a pair is drawn and named by a player, and another is revealed by the clock.
abbrev events : List Event
events =
    Event.begin_load_event
    ∷ Event.loads_event (some wire)
    ∷ Event.primary_event 0
    ∷ Event.point_event 9 true
    ∷ Event.timer_tick_event 90_000
    ∷ []

abbrev fallback : Option GameStore → GameStore
fallback none = new_game none
fallback (some s) = s

abbrev after : GameStore
unfolding handle_all draw_pair redraw next_key build_index build_pair_pool enabled_clubs push_recent
    any filter find is_club pair_key
after = fallback (handle_all turns 2 true events (new_game none))

played : handle_all turns 2 true events (new_game none) ≡ some after
unfolding handle_all after draw_pair redraw next_key build_index build_pair_pool enabled_clubs
    push_recent any filter find is_club pair_key
played = refl

points : (after.score ≡ (1, 0)) × (after.revealed ≡ true) × (length after.recent ≡ 2)
unfolding after any filter find is_club pair_key
points = (refl, refl, refl)

handle_all-new_game-IsConsistent_example : IsConsistent after
handle_all-new_game-IsConsistent_example =
    handle_all-new_game-IsConsistent turns 2 true none events after played
