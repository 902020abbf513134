-- ===== src/Game/Draw.antt =====
-- Drawing a pair: `drawPair`, `randomKey` and `pushRecent` of
-- features/games/played-for-both/played-for-both.engine.ts. The random source is a stream of
-- multiples of 2^-53 in [0, 1), by their numerators, read from a position on; products are exact.
-- The fuel bounds the loop that looks for another club; `none` is a loop that has not ended.
use scoutpulse.Base.{
  ℕ, zero, suc, ◌-◌, ◌*◌, ◌/◌, ◌%◌, ◌^◌, ◌≤◌, Bool, ◌&&◌, Option, none, some, List, [], ◌∷◌, ◌++◌,
  arith, length, length-append, length-drop, get_elem?, drop, ltb, leb, ◌==◌, if◌then◌else◌,
}
use scoutpulse.Game.Index.{GameIndex, contains, ◌>>=◌}
use scoutpulse.Game.Pairs.{pair_key, split_key, nation_entity}

abbrev pub recent_window : ℕ
recent_window = 60

abbrev pub max_tries : ℕ
max_tries = 50

abbrev pub resolution : ℕ
resolution = 2 ^ 53

-- `Math.floor(rng() * count)`
abbrev pub scaled : ℕ → ℕ → ℕ
scaled r count = r % resolution * count / resolution

-- `rng() < percent / 100`
abbrev pub chance : ℕ → ℕ → Bool
chance percent r = ltb (r % resolution * 100) (percent * resolution)

abbrev pub pick : List ℕ → ℕ → Option ℕ
pick list r = get_elem? list (scaled r (length list))

pub record DrawOptions : Type 0 where
  pub clubs : List ℕ
  pub pool : List ℕ
  pub known_only : Bool
  pub allow_nations : Bool
  pub recent : List ℕ

pub record Draw : Type 0 where
  pub key : ℕ
  pub left : ℕ
  pub right : ℕ

-- `while (b === a) b = pick(clubs, rng)`
unfoldable pub other_club : (ℕ → ℕ) → List ℕ → ℕ → ℕ → ℕ → Option (ℕ × ℕ)
other_club rng clubs a zero at = none
other_club rng clubs a (suc fuel) at =
    let rest = other_club rng clubs a fuel (suc at) in
    pick clubs (rng at) >>= λ b. if a == b then rest else some (b, suc at)

abbrev pub against_nation : (ℕ → ℕ) → GameIndex → ℕ → ℕ → Option (ℕ × ℕ)
against_nation rng ix a at =
    some (pair_key a (nation_entity ix (scaled (rng at) (length ix.nations))), suc at)

unfoldable pub against_club : (ℕ → ℕ) → ℕ → GameIndex → List ℕ → ℕ → ℕ → Option (ℕ × ℕ)
unfolding other_club
against_club rng fuel ix clubs a at =
    if ltb (length clubs) 2
    then against_nation rng ix a at
    else other_club rng clubs a fuel at >>= λ (b, later). some (pair_key a b, later)

unfoldable pub against : (ℕ → ℕ) → ℕ → GameIndex → DrawOptions → ℕ → ℕ → Option (ℕ × ℕ)
unfolding against_club
against rng fuel ix opts a at =
    if opts.allow_nations && ltb 0 (length ix.nations)
    then if chance 35 (rng at)
      then against_nation rng ix a (suc at)
      else against_club rng fuel ix opts.clubs a (suc at)
    else against_club rng fuel ix opts.clubs a at

unfoldable pub random_key : (ℕ → ℕ) → ℕ → GameIndex → DrawOptions → ℕ → Option (ℕ × ℕ)
unfolding against
random_key rng fuel ix opts at =
    pick opts.clubs (rng at) >>= λ a. against rng fuel ix opts a (suc at)

abbrev pub pool_key : (ℕ → ℕ) → DrawOptions → ℕ → Option (ℕ × ℕ)
pool_key rng opts at = pick opts.pool (rng at) >>= λ key. some (key, suc at)

-- the loop over the tries, with the key of the last one
unfoldable pub redraw : (ℕ → Option (ℕ × ℕ)) → List ℕ → ℕ → ℕ → ℕ → Option (ℕ × ℕ)
redraw draw recent zero key at = some (key, at)
redraw draw recent (suc tries) key at = draw at >>= λ (found, later).
    if contains found recent then redraw draw recent tries found later else some (found, later)

abbrev pub shown : ℕ → Bool → ℕ × ℕ → Draw
shown key swap (a, b) = record {
  key = key;
  left = if swap then b else a;
  right = if swap then a else b;
}

unfoldable pub next_key : (ℕ → ℕ) → ℕ → GameIndex → DrawOptions → ℕ → Option (ℕ × ℕ)
unfolding random_key
next_key rng fuel ix opts =
    if opts.known_only && ltb 0 (length opts.pool)
    then pool_key rng opts
    else random_key rng fuel ix opts

-- which entity is on which side is a coin toss
abbrev pub drawn : (ℕ → ℕ) → Option (ℕ × ℕ) → Option (Option Draw × ℕ)
drawn rng none = none
drawn rng (some (key, later)) =
    some (some (shown key (chance 50 (rng later)) (split_key key)), suc later)

-- The draw, `none` if there is no club, and the position behind it.
unfoldable pub draw_pair : (ℕ → ℕ) → ℕ → GameIndex → DrawOptions → ℕ → Option (Option Draw × ℕ)
draw_pair rng fuel ix opts at =
    if leb (length opts.clubs) 0
    then some (none, at)
    else drawn rng (redraw (next_key rng fuel ix opts) opts.recent max_tries 0 at)

unfoldable pub push_recent : List ℕ → ℕ → List ℕ
push_recent recent key =
    let next = recent ++ key ∷ [] in
    if ltb recent_window (length next) then drop (length next - recent_window) next else next

-- No more than sixty pairs are remembered.
pub length-push_recent :
    (recent : List ℕ) (key : ℕ) → length (push_recent recent key) ≤ recent_window
unfolding push_recent
length-push_recent recent key = ground (
  arith,
  length-append recent (key ∷ []),
  length-drop (length (recent ++ key ∷ []) - recent_window) (recent ++ key ∷ []),
)
