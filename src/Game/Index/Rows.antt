-- ===== src/Game/Index/Rows.antt =====
-- What the index of features/games/played-for-both/played-for-both.engine.ts lists under an entity.
use scoutpulse.Base.{
  ℕ, zero, suc, ◌+◌, ◌<◌, ◌≡◌, refl, inl, inr, Bool, true, false, ◌&&◌, ◌||◌, Option, none, some,
  List, [], ◌∷◌, ◌++◌, map, arith, length, get_elem?, modify, length-modify, ◌==◌, Bool-cases, ◌↔◌,
  sym, ◌∙◌,
}
use mathlib.Core.Path.{subst}
use mathlib.Core.Option.{some-injective}
use native.Mathlib.Nat.{zero-add}
use scoutpulse.Game.Index.{
  Player, GameIndex, PlayedForBothWire, contains, player_of, push_entities, push_players,
  empty_rows, index_with, build_index, row, ◌>>=◌,
}

pub contains-append :
    (x y : ℕ) (ys : List ℕ) → contains x (ys ++ y ∷ []) ≡ (contains x ys || y == x)
contains-append x y [] = ground arith
contains-append x y (z ∷ ys) = ground (arith, contains-append x y ys)

contains-row_push :
    (e f i j : ℕ) (rows : List (List ℕ))
    → e < length rows
    → contains j (row (modify (λ r. r ++ i ∷ []) e rows) f)
      ≡ (contains j (row rows f) || (e == f && i == j))
contains-row_push e f i j [] h = absurd (omega arith)
contains-row_push zero zero i j (r ∷ rows) h = ground (arith, contains-append j i r)
contains-row_push zero (suc f) i j (r ∷ rows) h = ground arith
contains-row_push (suc e) zero i j (r ∷ rows) h = ground arith
contains-row_push (suc e) (suc f) i j (r ∷ rows) h =
    ground (arith, contains-row_push e f i j rows (omega arith))

-- Pushing a player's entities adds the player to just their rows.
push_entities-row :
    (i : ℕ) (es : List ℕ) (rows filled : List (List ℕ)) (f j : ℕ)
    → push_entities i es rows ≡ some filled
    → contains j (row filled f) ≡ (contains j (row rows f) || (contains f es && i == j))
unfolding push_entities
push_entities-row i [] rows filled f j h = ground arith
push_entities-row i (e ∷ es) rows filled f j h =
    let within : e < length rows = ground arith in
    ground (
      arith,
      contains-row_push e f i j rows within,
      push_entities-row i es (modify (λ r. r ++ i ∷ []) e rows) filled f j,
    )

-- whether the player at place `j`, counted from `i`, has the entity
abbrev has_entity : ℕ → List Player → ℕ → ℕ → Bool
has_entity i [] f j = false
has_entity i (p ∷ players) f j = (contains f p.entities && i == j) || has_entity (suc i) players f j

push_players-row :
    (i : ℕ) (players : List Player) (rows filled : List (List ℕ)) (f j : ℕ)
    → push_players i players rows ≡ some filled
    → contains j (row filled f) ≡ (contains j (row rows f) || has_entity i players f j)
unfolding push_players
push_players-row i [] rows filled f j h = ground arith
push_players-row i (p ∷ players) rows filled f j h =
    next (λ mid. push_players-row (suc i) players mid filled f j) (push_entities i p.entities rows)
      refl h
  where
    next :
        ((mid : List (List ℕ))
          → push_players (suc i) players mid ≡ some filled
          → contains j (row filled f) ≡ (contains j (row mid f) || has_entity (suc i) players f j))
        → (o : Option (List (List ℕ))) → push_entities i p.entities rows ≡ o
        → (o >>= push_players (suc i) players) ≡ some filled
        → contains j (row filled f) ≡ (contains j (row rows f) || has_entity i (p ∷ players) f j)
    next ih none e k = cc
    next ih (some mid) e k = ground (arith, push_entities-row i p.entities rows mid f j e, ih mid k)

row-empty_rows : (k f : ℕ) → row (empty_rows k) f ≡ []
row-empty_rows zero f = refl
row-empty_rows (suc k) zero = refl
row-empty_rows (suc k) (suc f) = row-empty_rows k f

pub has_entity_of_get :
    (i : ℕ) (players : List Player) (f j : ℕ) {p : Player}
    → get_elem? players j ≡ some p
    → contains f p.entities ≡ true
    → has_entity i players f (i + j) ≡ true
has_entity_of_get i [] f j h k = cc
has_entity_of_get i (q ∷ players) f zero {p} h k =
    let same : q ≡ p = cc in let here : contains f q.entities ≡ true = rw same k in ground arith
has_entity_of_get i (q ∷ players) f (suc j) h k =
    let e : i + suc j ≡ suc i + j = omega arith in
    rw e (ground (arith, has_entity_of_get (suc i) players f j h k))

has_entity_from :
    (players : List Player) (f j : ℕ) {p : Player}
    → get_elem? players j ≡ some p
    → contains f p.entities ≡ true
    → has_entity 0 players f j ≡ true
has_entity_from players f j g h = rw (← zero-add j) (has_entity_of_get 0 players f j g h)

pub get_of_has_entity :
    (i : ℕ) (players : List Player) (f j : ℕ)
    → has_entity i players f j ≡ true
    → (k : ℕ) × (p : Player) × (j ≡ i + k)
      × (get_elem? players k ≡ some p)
      × (contains f p.entities ≡ true)
get_of_has_entity i [] f j h = cc
get_of_has_entity i (q ∷ players) f j h = elim (Bool-cases (contains f q.entities && i == j)) [
  | inl here ↦ (0, q, ground arith, refl, ground arith)
  | inr later ↦
      let (k, p, e, g, c) = get_of_has_entity (suc i) players f j (ground arith) in
      (suc k, p, omega arith, g, c)
]

build_index_rows :
    (wire : PlayedForBothWire) (ix : GameIndex) (f j : ℕ)
    → build_index wire ≡ some ix
    → contains j (row ix.by_entity f) ≡ has_entity 0 ix.players f j
unfolding build_index
build_index_rows wire ix f j h = filled (push_players 0 players rows) refl h
  where
    players : List Player
    players = map (player_of (length wire.clubs)) wire.players

    rows : List (List ℕ)
    rows = empty_rows (length wire.clubs + length wire.nations)

    filled :
        (o : Option (List (List ℕ)))
        → push_players 0 players rows ≡ o
        → (o >>= λ filled. some (index_with wire players filled)) ≡ some ix
        → contains j (row ix.by_entity f) ≡ has_entity 0 ix.players f j
    filled none e k = cc
    filled (some l) e k =
        let same : index_with wire players l ≡ ix = some-injective _ _ k in
        rw (← same) (
          rw (row-empty_rows (length wire.clubs + length wire.nations) f) at
            (push_players-row 0 players rows l f j e))

-- The index of a dataset lists under each entity just the players that have it, by their places.
pub build_index-row :
    (wire : PlayedForBothWire) (ix : GameIndex) (f j : ℕ)
    → build_index wire ≡ some ix
    → (contains j (row ix.by_entity f) ≡ true)
      ↔ ((p : Player) × (get_elem? ix.players j ≡ some p) × (contains f p.entities ≡ true))
build_index-row wire ix f j h =
    let e = build_index_rows wire ix f j h in
    (
      λ c.
          let (k, p, same, g, has) = get_of_has_entity 0 ix.players f j (sym e ∙ c) in
          let same' : k ≡ j = omega arith in
          (p, subst (λ x. get_elem? ix.players x ≡ some p) same' g, has),
      λ (p, g, has). e ∙ has_entity_from ix.players f j g has,
    )

length-push_entities :
    (i : ℕ) (es : List ℕ) (rows filled : List (List ℕ))
    → push_entities i es rows ≡ some filled
    → length filled ≡ length rows
unfolding push_entities
length-push_entities i [] rows filled h = ground arith
length-push_entities i (e ∷ es) rows filled h = ground (
  arith,
  length-push_entities i es (modify (λ r. r ++ i ∷ []) e rows) filled,
  length-modify (λ r. r ++ i ∷ []) e rows,
)

length-push_players :
    (i : ℕ) (players : List Player) (rows filled : List (List ℕ))
    → push_players i players rows ≡ some filled
    → length filled ≡ length rows
unfolding push_players
length-push_players i [] rows filled h = ground arith
length-push_players i (p ∷ players) rows filled h =
    next (λ mid. length-push_players (suc i) players mid filled) (push_entities i p.entities rows)
      refl h
  where
    next :
        ((mid : List (List ℕ))
          → push_players (suc i) players mid ≡ some filled
          → length filled ≡ length mid)
        → (o : Option (List (List ℕ))) → push_entities i p.entities rows ≡ o
        → (o >>= push_players (suc i) players) ≡ some filled
        → length filled ≡ length rows
    next ih none e k = cc
    next ih (some mid) e k = ih mid k ∙ length-push_entities i p.entities rows mid e

length-empty_rows : (k : ℕ) → length (empty_rows k) ≡ k
length-empty_rows zero = refl
length-empty_rows (suc k) = omega (arith, length-empty_rows k)

pub club_count-build_index :
    (wire : PlayedForBothWire) (ix : GameIndex)
    → build_index wire ≡ some ix
    → (ix.club_count ≡ length ix.clubs)
      × (length ix.by_entity ≡ length ix.clubs + length ix.nations)
unfolding build_index
club_count-build_index wire ix h = filled (push_players 0 players rows) refl h
  where
    players : List Player
    players = map (player_of (length wire.clubs)) wire.players

    rows : List (List ℕ)
    rows = empty_rows (length wire.clubs + length wire.nations)

    filled :
        (o : Option (List (List ℕ)))
        → push_players 0 players rows ≡ o
        → (o >>= λ filled. some (index_with wire players filled)) ≡ some ix
        → (ix.club_count ≡ length ix.clubs)
          × (length ix.by_entity ≡ length ix.clubs + length ix.nations)
    filled none e k = cc
    filled (some l) e k =
        let same : index_with wire players l ≡ ix = some-injective _ _ k in
        rw (← same) (
          refl,
          length-push_players 0 players rows l e
              ∙ length-empty_rows (length wire.clubs + length wire.nations),
        )

-- Only entities in range have players.
pub lt_of_row : (rows : List (List ℕ)) (e j : ℕ) → contains j (row rows e) ≡ true → e < length rows
lt_of_row [] e j h = cc
lt_of_row (r ∷ rows) zero j h = omega arith
lt_of_row (r ∷ rows) (suc e) j h = omega (arith, lt_of_row rows e j h)
