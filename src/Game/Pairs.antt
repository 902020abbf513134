-- ===== src/Game/Pairs.antt =====
-- Pairs of entities and the answers to them: `pairKey`, `splitKey`, `matches` and `enabledClubs` of
-- features/games/played-for-both/played-for-both.engine.ts. Whether one name sorts no later than
-- another by `localeCompare` is an argument.
use scoutpulse.Base.{
  ℕ, zero, suc, ◌+◌, ◌*◌, ◌/◌, ◌%◌, ◌<◌, min, max, ◌≡◌, ◌↔◌, refl, ◌⊎◌, inl, inr, String, Bool,
  true, false, ◌&&◌, none, some, List, [], ◌∷◌, arith, length, get_elem?, filter, any, All, str_eq,
  ltb, ◌==◌, if◌then◌else◌, Bool-cases, Option-cases, ap, sym, ◌∙◌,
}
use mathlib.Core.Path.{subst}
use scoutpulse.Game.Index.{
  GameIndex, Player, Club, League, PlayedForBothWire, build_index, contains, row,
}
use scoutpulse.Game.Index.Rows.{build_index-row}
pub mod Answers

abbrev pub pair_base : ℕ
pair_base = 100_000

unfoldable pub is_club : GameIndex → ℕ → Bool
is_club ix e = ltb e ix.club_count

unfoldable pub nation_entity : GameIndex → ℕ → ℕ
nation_entity ix nation = ix.club_count + nation

unfoldable pub pair_key : ℕ → ℕ → ℕ
pair_key a b = min a b * pair_base + max a b

unfoldable pub split_key : ℕ → ℕ × ℕ
split_key key = (key / pair_base, key % pair_base)

-- Splitting a pair's key gives back its two entities, the smaller one first, if both are below
-- PAIR_BASE.
pub split_key-pair_key :
    (a b : ℕ) → a < pair_base → b < pair_base → split_key (pair_key a b) ≡ (min a b, max a b)
unfolding split_key pair_key
split_key-pair_key a b h k =
    let small : pair_key a b / pair_base ≡ min a b = omega arith in
    let large : pair_key a b % pair_base ≡ max a b = omega arith in λ i. (small i, large i)

-- The order of a pair does not matter.
pub pair_key_comm : (a b : ℕ) → pair_key a b ≡ pair_key b a
unfolding pair_key
pair_key_comm a b = omega arith

abbrev league_on : List League → List String → ℕ → Bool
league_on [] leagues i = false
league_on (l ∷ all) leagues zero = any (λ code. str_eq code l.code) leagues
league_on (l ∷ all) leagues (suc i) = league_on all leagues i

-- the loop of `enabledClubs`, from club `i` on; a club whose league is out of range is not enabled
enabled_from : List League → List String → ℕ → List Club → List ℕ
enabled_from all leagues i [] = []
enabled_from all leagues i (c ∷ clubs) =
    let rest = enabled_from all leagues (suc i) clubs in
    if league_on all leagues c.league then i ∷ rest else rest

unfoldable pub enabled_clubs : GameIndex → List String → List ℕ
unfolding enabled_from
enabled_clubs ix leagues = enabled_from ix.leagues leagues 0 ix.clubs

lt_of_enabled_from :
    (all : List League) (leagues : List String) (i : ℕ) (clubs : List Club) (e : ℕ)
    → contains e (enabled_from all leagues i clubs) ≡ true
    → e < i + length clubs
unfolding enabled_from
lt_of_enabled_from all leagues i [] e h = cc
lt_of_enabled_from all leagues i (c ∷ clubs) e h =
    ground (arith, lt_of_enabled_from all leagues (suc i) clubs e)

pub lt_of_enabled :
    (ix : GameIndex) (leagues : List String) (e : ℕ)
    → contains e (enabled_clubs ix leagues) ≡ true
    → e < length ix.clubs
unfolding enabled_clubs
lt_of_enabled ix leagues e h = omega (arith, lt_of_enabled_from ix.leagues leagues 0 ix.clubs e h)

-- `.map((i) => ix.players[i])`; the indexes of the rows are in range
players_at : List Player → List ℕ → List Player
players_at players [] = []
players_at players (i ∷ is) =
    let rest = players_at players is in
    elim (get_elem? players i) [ none ↦ rest | some p ↦ p ∷ rest ]

abbrev pub Member : Player → List Player → Type 0
Member p [] = ⊥
Member p (x ∷ xs) = (x ≡ p) ⊎ Member p xs

-- No player who is not famous stands before one who is.
abbrev pub IsFamousFirst : List Player → Type 0
IsFamousFirst [] = Unit
IsFamousFirst (x ∷ xs) =
    (x.famous ≡ false → All (λ (y : Player). y.famous ≡ false) xs) × IsFamousFirst xs

-- the places of the players that are indexed under both entities
abbrev linked : GameIndex → ℕ → ℕ → List ℕ
linked ix a b = filter (λ i. contains i (row ix.by_entity b)) (row ix.by_entity a)

module _ (name_le : String → String → Bool) where
  -- the comparison of `matches` is not positive
  abbrev pub in_order : Player → Player → Bool
  in_order x y =
      if x.famous
      then if y.famous then name_le x.name y.name else true
      else if y.famous
      then false
      else name_le x.name y.name

  -- `sort`, which is stable: an element goes in front of the first one that may follow it
  insert_sorted : Player → List Player → List Player
  insert_sorted x [] = x ∷ []
  insert_sorted x (y ∷ ys) = if in_order x y then x ∷ y ∷ ys else y ∷ insert_sorted x ys

  sorted : List Player → List Player
  sorted [] = []
  sorted (x ∷ xs) = insert_sorted x (sorted xs)

  unfoldable pub matches : GameIndex → ℕ → ℕ → List Player
  unfolding sorted insert_sorted players_at
  matches ix a b = sorted (players_at ix.players (linked ix a b))
