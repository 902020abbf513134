-- ===== src/Board/Look.antt =====
-- What features/tactics/board/model.ts reads off a document for one object: the colours of a
-- player, the next free number, whether it moved, and the area where it may stand.
use Prim.Native.String
use scoutpulse.Base.{
  ℕ, zero, suc, ◌+◌, ◌/◌, ◌%◌, ◌<◌, ◌≤◌, ◌≡◌, refl, ◌⊎◌, inl, inr, String, Bool, true, false, ◌&&◌,
  Option, none, some, List, map, arith, Number, neg, int, min_of, max_of, ltb, ◌==◌, if◌then◌else◌,
  or_else, filter, any, get_elem?, str_eq, pos, Bool-cases,
}
use scoutpulse.Board.Doc.{
  Vec2, BoardObject, TacticDoc, TeamId, KitPattern, is_player, same_team, kit_of,
}
use scoutpulse.Board.Defaults.{pitch_length, pitch_width, runoff}
use scoutpulse.Board.Position.{pos_in, position_at}

pub record Look : Type 0 where
  pub primary : String
  pub secondary : String
  pub pattern : KitPattern
  pub numbers : String

-- `String(n)` for n < 100
abbrev digit : ℕ → String
digit n =
    if n == 0
    then "0"
    else if n == 1
    then "1"
    else if n == 2
    then "2"
    else if n == 3
    then "3"
    else if n == 4
    then "4"
    else if n == 5
    then "5"
    else if n == 6
    then "6"
    else if n == 7
    then "7"
    else if n == 8
    then "8"
    else "9"

unfoldable pub show_number : ℕ → String
show_number n = if ltb n 10 then digit n else String.◌++◌ (digit (n / 10)) (digit (n % 10))

abbrev is_text : String → Option String → Bool
is_text s none = false
is_text s (some t) = str_eq t s

-- `used.has(String(n))`
unfoldable pub has_number : List (Option String) → ℕ → Bool
has_number used n = any (is_text (show_number n)) used

-- the loop of `nextNumber`: `left` numbers from `n` on
next_from : List (Option String) → ℕ → ℕ → String
next_from used zero n = ""
next_from used (suc left) n =
    let rest = next_from used left (n + 1) in if has_number used n then rest else show_number n

abbrev in_team : TeamId → Option TeamId → Bool
in_team team none = false
in_team team (some t) = same_team t team

module _ {F : Type 0} where
  unfoldable pub player_look : TacticDoc F → BoardObject F → Look
  player_look doc obj =
      let kit = kit_of doc.teams (or_else obj.team TeamId.home) in
      let keeper = or_else obj.keeper false in
      record {
        primary = or_else obj.color (if keeper then kit.keeper else kit.primary);
        secondary = or_else obj.color2 kit.secondary;
        pattern = or_else obj.pattern (if keeper then KitPattern.solid else kit.pattern);
        numbers = kit.numbers;
      }

  -- the players of one team
  abbrev pub plays_for : TeamId → BoardObject F → Bool
  plays_for team o = is_player o.kind && in_team team o.team

  -- the numbers that a team has taken
  unfoldable pub used_numbers : TacticDoc F → TeamId → List (Option String)
  used_numbers doc team = map (λ o. o.number) (filter (plays_for team) doc.objects)

  unfoldable pub next_number : TacticDoc F → TeamId → String
  unfolding next_from used_numbers
  next_number doc team = next_from (used_numbers doc team) 99 1

module _ {F : Type 0} ⦃n : Number F⦄ where
  abbrev moved_more : Option (Vec2 F) → Option (Vec2 F) → Option (Vec2 F)
  moved_more (some now) (some before) =
      if n.le (n.hypot (n.sub now.x before.x) (n.sub now.y before.y)) (n.ratio 5 100)
      then none
      else some before
  moved_more _ _ = none

  -- A step out of range is read as one that places nothing.
  unfoldable pub moved_into : TacticDoc F → ℕ → String → Option (Vec2 F)
  unfolding position_at
  moved_into doc zero id = none
  moved_into doc (suc i) id =
      moved_more (pos_in id (get_elem? doc.steps (suc i))) (position_at doc (pos i) id)

  unfoldable pub clamp_to_area : Vec2 F → Vec2 F
  clamp_to_area v =
      let max_x = n.add (n.ratio pitch_length 2) (int runoff) in
      let max_y = n.add (n.ratio pitch_width 2) (int runoff) in
      record {
        x = max_of (neg max_x) (min_of max_x v.x);
        y = max_of (neg max_y) (min_of max_y v.y);
      }

-- The number is the least free one, or the text is empty and 1 to 99 are all taken.
abbrev pub IsLeastFree : List (Option String) → ℕ → ℕ → String → Type 0
IsLeastFree used lo hi s =
    ((k : ℕ) × (lo ≤ k)
      × (k < hi)
      × (s ≡ show_number k)
      × (has_number used k ≡ false)
      × ((j : ℕ) → lo ≤ j → j < k → has_number used j ≡ true))
    ⊎ ((s ≡ "") × ((j : ℕ) → lo ≤ j → j < hi → has_number used j ≡ true))

at_or_above : (n j : ℕ) → n ≤ j → (n ≡ j) ⊎ (n + 1 ≤ j)
at_or_above n j h = grind arith

extend :
    (used : List (Option String)) (n left : ℕ) (s : String)
    → has_number used n ≡ true
    → IsLeastFree used (n + 1) (n + 1 + left) s
    → IsLeastFree used n (n + suc left) s
extend used n left s taken (inl (k, lo, hi, e, free, below)) = inl (
  k,
  omega arith,
  omega arith,
  e,
  free,
  λ j h l. elim (at_or_above n j h) [ inl same ↦ rw (← same) taken | inr above ↦ below j above l ],
)
extend used n left s taken (inr (e, all)) = inr (
  e,
  λ j h l. elim (at_or_above n j h) [
    | inl same ↦ rw (← same) taken
    | inr above ↦ all j above (omega arith)
  ],
)

next_from-IsLeastFree :
    (used : List (Option String)) (left n : ℕ)
    → IsLeastFree used n (n + left) (next_from used left n)
unfolding next_from
next_from-IsLeastFree used zero n = inr (refl, λ j h k. absurd (omega arith))
next_from-IsLeastFree used (suc left) n = elim (Bool-cases (has_number used n)) [
  | inr free ↦
      rw free (inl (n, omega arith, omega arith, refl, free, λ j h k. absurd (omega arith)))
  | inl taken ↦ rw taken (extend used n left _ taken (next_from-IsLeastFree used left (n + 1)))
]

-- The number offered for a new player of a team is the least of 1 to 99 that no player of the team
-- wears, and "" when all of them are worn.
pub next_number-IsLeastFree :
    {F : Type 0} (doc : TacticDoc F) (team : TeamId)
    → IsLeastFree (used_numbers doc team) 1 100 (next_number doc team)
unfolding next_number
next_number-IsLeastFree doc team = next_from-IsLeastFree (used_numbers doc team) 99 1
