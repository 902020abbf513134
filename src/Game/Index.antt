-- ===== src/Game/Index.antt =====
-- The data of the game and its index: the types and `buildIndex` of
-- features/games/played-for-both/played-for-both.engine.ts, and `PlayedForBothWire` of
-- core/models/games.ts. `none` is a thrown error.
use scoutpulse.Base.{
  ℕ, zero, suc, ◌+◌, ◌<◌, ◌≡◌, refl, inl, inr, String, Bool, true, false, ◌&&◌, ◌||◌, Option, none,
  some, List, [], ◌∷◌, ◌++◌, map, arith, length, get_elem?, modify, length-modify, ltb, ◌==◌,
  if◌then◌else◌, ℤ, pos, negsuc, Bool-cases, ◌↔◌, sym, ◌∙◌,
}
use mathlib.Core.Path.{subst}
use mathlib.Core.Option.{some-injective}
use native.Mathlib.Nat.{zero-add}
pub mod Rows

pub record League : Type 0 where
  pub code : String
  pub country : String
  pub name : String

pub record Club : Type 0 where
  pub id : String
  pub name : String
  pub colour1 : String
  pub colour2 : String
  pub league : ℕ

pub record Nation : Type 0 where
  pub fifa : String
  pub name_en : String
  pub name_tr : String
  pub flag : String

pub record Player : Type 0 where
  pub name : String
  pub entities : List ℕ
  pub famous : Bool

pub record GameIndex : Type 0 where
  pub leagues : List League
  pub clubs : List Club
  pub nations : List Nation
  pub players : List Player
  pub club_count : ℕ
  pub by_entity : List (List ℕ)
  pub clubs_per_league : List ℕ

-- A player on the wire: the name, the nation's index or a negative number, clubs, and 0 or 1.
pub record PlayerWire : Type 0 where
  pub name : String
  pub nation : ℤ
  pub clubs : List ℕ
  pub famous : ℕ

-- The leagues, clubs and nations come in the order of the fields of their records.
pub record PlayedForBothWire : Type 0 where
  pub leagues : List League
  pub clubs : List Club
  pub nations : List Nation
  pub players : List PlayerWire

abbrev pub contains : ℕ → List ℕ → Bool
contains x [] = false
contains x (y ∷ ys) = if y == x then true else contains x ys

abbrev entities_of : ℕ → ℤ → List ℕ → List ℕ
entities_of club_count (pos nation) clubs = clubs ++ (club_count + nation) ∷ []
entities_of club_count (negsuc k) clubs = clubs

abbrev player_of : ℕ → PlayerWire → Player
player_of club_count w = record {
  name = w.name;
  entities = entities_of club_count w.nation w.clubs;
  famous = w.famous == 1;
}

-- `for (const e of p.entities) byEntity[e].push(i)`
push_entities : ℕ → List ℕ → List (List ℕ) → Option (List (List ℕ))
push_entities i [] rows = some rows
push_entities i (e ∷ es) rows =
    let rest = push_entities i es (modify (λ row. row ++ i ∷ []) e rows) in
    if ltb e (length rows) then rest else none

infixl 5 ◌>>=◌
abbrev pub ◌>>=◌ {ℓ κ} : {A : Type ℓ} {B : Type κ} → Option A → (A → Option B) → Option B
none >>= k = none
some a >>= k = k a

-- the loop over the players, from index `i` on
push_players : ℕ → List Player → List (List ℕ) → Option (List (List ℕ))
unfolding push_entities
push_players i [] rows = some rows
push_players i (p ∷ players) rows = push_entities i p.entities rows >>= push_players (suc i) players

abbrev empty_rows : ℕ → List (List ℕ)
empty_rows zero = []
empty_rows (suc n) = [] ∷ empty_rows n

-- `for (const c of clubs) clubsPerLeague[c.league]++`; a league out of range is not counted.
count_clubs : List Club → List ℕ → List ℕ
count_clubs [] counts = counts
count_clubs (c ∷ clubs) counts = count_clubs clubs (modify suc c.league counts)

abbrev index_with : PlayedForBothWire → List Player → List (List ℕ) → GameIndex
index_with wire players rows = record {
  leagues = wire.leagues;
  clubs = wire.clubs;
  nations = wire.nations;
  players = players;
  club_count = length wire.clubs;
  by_entity = rows;
  clubs_per_league = unfold count_clubs in count_clubs wire.clubs (map (λ l. 0) wire.leagues);
}

unfoldable pub build_index : PlayedForBothWire → Option GameIndex
unfolding push_players count_clubs
build_index wire =
    let players = map (player_of (length wire.clubs)) wire.players in
    let rows = empty_rows (length wire.clubs + length wire.nations) in
    do filled ← push_players 0 players rows; some (index_with wire players filled)

-- the players indexed under an entity, none for an entity out of range
abbrev pub row : List (List ℕ) → ℕ → List ℕ
row [] e = []
row (r ∷ rows) zero = r
row (r ∷ rows) (suc e) = row rows e
