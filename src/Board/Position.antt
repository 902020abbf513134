-- ===== src/Board/Position.antt =====
-- Where an object stands at a step: `positionAt` and `positionsAt` of
-- features/tactics/board/model.ts, against a reading of the steps from the first one on.
use scoutpulse.Base.{
  ℕ, zero, suc, ◌<◌, min, String, ◌≡◌, refl, true, Option, none, some, List, [], ◌∷◌, arith, Dict,
  lookup, insert, lookup-insert, length, get_elem?, ℤ, pos, negsuc, str_eq, eq_iff, if◌then◌else◌,
  any, HasUniqueKeys, insert-HasUniqueKeys, sym, dec_lt,
}
use scoutpulse.Board.Standing.{over, over-none, standing, standing-suc, standing_past}
use scoutpulse.Board.Doc.{Vec2, BoardObject, Step, TacticDoc}

module _ {F : Type 0} where
  -- `doc.steps[i].pos[id]`
  abbrev pub pos_in : String → Option (Step F) → Option (Vec2 F)
  pos_in id none = none
  pos_in id (some s) = lookup id s.pos

  -- The loop of `positionAt`, from step `i` down to 0.
  position_down : List (Step F) → String → ℕ → Option (Vec2 F)
  position_down steps id zero = pos_in id (get_elem? steps 0)
  position_down steps id (suc i) = elim (pos_in id (get_elem? steps (suc i))) [
    | some p ↦ some p
    | none ↦ position_down steps id i
  ]

  abbrev position_among : List (Step F) → ℕ → String → Option (Vec2 F)
  position_among [] i id = none
  position_among (s ∷ steps) i id = position_down (s ∷ steps) id (min i (length steps))

  unfoldable pub position_at : TacticDoc F → ℤ → String → Option (Vec2 F)
  unfolding position_down
  position_at doc (pos i) id = position_among doc.steps i id
  position_at doc (negsuc i) id = none

  abbrev pub set_position : Option (Vec2 F) → String → Dict (Vec2 F) → Dict (Vec2 F)
  set_position none id out = out
  set_position (some p) id out = insert id p out

  positions_loop : TacticDoc F → ℤ → List (BoardObject F) → Dict (Vec2 F) → Dict (Vec2 F)
  positions_loop doc i [] out = out
  positions_loop doc i (obj ∷ objects) out =
      positions_loop doc i objects (set_position (position_at doc i obj.id) obj.id out)

  unfoldable pub positions_at : TacticDoc F → ℤ → Dict (Vec2 F)
  unfolding positions_loop position_at
  positions_at doc i = positions_loop doc i doc.objects []

module _ {F : Type 0} where
  -- what the steps say of an object's position
  abbrev pub moves : String → List (Step F) → List (Option (Vec2 F))
  moves id [] = []
  moves id (s ∷ steps) = lookup id s.pos ∷ moves id steps

  pub length-moves : (id : String) (steps : List (Step F)) → length (moves id steps) ≡ length steps
  length-moves id [] = refl
  length-moves id (s ∷ steps) = omega (arith, length-moves id steps)

  pub get_elem?-moves :
      (id : String) (steps : List (Step F)) (k : ℕ)
      → k < length steps
      → get_elem? (moves id steps) k ≡ some (pos_in id (get_elem? steps k))
  get_elem?-moves id [] k h = absurd (omega arith)
  get_elem?-moves id (s ∷ steps) zero h = refl
  get_elem?-moves id (s ∷ steps) (suc k) h = get_elem?-moves id steps k (omega arith)

  position_down-standing :
      (steps : List (Step F)) (id : String) (i : ℕ)
      → i < length steps
      → position_down steps id i ≡ standing none (moves id steps) (suc i)
  unfolding position_down
  position_down-standing [] id i h = absurd (omega arith)
  position_down-standing (s ∷ steps) id zero h = ground arith
  position_down-standing (s ∷ steps) id (suc i) h =
      let ih = position_down-standing (s ∷ steps) id i (omega arith) in
      rw
        (
          standing-suc none (moves id (s ∷ steps)) (suc i)
              (get_elem?-moves id steps i (omega arith)),
          ← ih,
        )
        (ground arith)

  standing-min :
      (os : List (Option (Vec2 F))) (i : ℕ) {n : ℕ}
      → length os ≡ suc n
      → standing none os (suc (min i n)) ≡ standing none os (suc i)
  standing-min os i {n} h = elim (dec_lt i n) [
    | yes p ↦ let e : min i n ≡ i = omega arith in rw e
    | no p ↦
        let e : min i n ≡ n = omega arith in
        rw (e, ← h) (sym (standing_past none os (suc i) (omega arith)))
  ]

  position_among-standing :
      (steps : List (Step F)) (i : ℕ) (id : String)
      → position_among steps i id ≡ standing none (moves id steps) (suc i)
  position_among-standing [] i id = refl
  position_among-standing (s ∷ steps) i id =
      rw (position_down-standing (s ∷ steps) id (min i (length steps)) (omega arith))
        (standing-min (moves id (s ∷ steps)) i (omega (arith, length-moves id (s ∷ steps))))

  -- Walking back from step `i` finds what stands after the first `i + 1` steps.
  pub position_at-standing :
      (doc : TacticDoc F) (i : ℕ) (id : String)
      → position_at doc (pos i) id ≡ standing none (moves id doc.steps) (suc i)
  unfolding position_at
  position_at-standing doc i id = position_among-standing doc.steps i id

  -- one round of the loop of `positionsAt`
  lookup-set_position :
      (o : Option (Vec2 F)) (k id : String) (out : Dict (Vec2 F))
      → lookup id (set_position o k out)
        ≡ (if str_eq k id then over o (lookup id out) else lookup id out)
  lookup-set_position none k id out = ground arith
  lookup-set_position (some p) k id out = rw lookup-insert (ground arith)

  lookup-positions_loop :
      (doc : TacticDoc F) (i : ℤ) (id : String) (objects : List (BoardObject F))
      (out : Dict (Vec2 F))
      → lookup id (positions_loop doc i objects out) ≡ (
          if any (λ o. str_eq o.id id) objects
          then over (position_at doc i id) (lookup id out)
          else lookup id out)
  unfolding positions_loop any
  lookup-positions_loop doc i id [] out = refl
  lookup-positions_loop doc i id (obj ∷ objects) out = ground (
    arith,
    lookup-positions_loop doc i id objects (set_position (position_at doc i obj.id) obj.id out),
    lookup-set_position (position_at doc i obj.id) obj.id id out,
    eq_iff obj.id id,
  )

  -- The positions at a step are those of the objects of the board.
  pub lookup-positions_at :
      (doc : TacticDoc F) (i : ℤ) (id : String)
      → any (λ o. str_eq o.id id) doc.objects ≡ true
      → lookup id (positions_at doc i) ≡ position_at doc i id
  unfolding positions_at lookup
  lookup-positions_at doc i id h =
      rw (lookup-positions_loop doc i id doc.objects [], h) (over-none (position_at doc i id))

  set_position-HasUniqueKeys :
      (o : Option (Vec2 F)) (k : String) (out : Dict (Vec2 F))
      → HasUniqueKeys out
      → HasUniqueKeys (set_position o k out)
  set_position-HasUniqueKeys none k out h = h
  set_position-HasUniqueKeys (some p) k out h = insert-HasUniqueKeys k p out h

  positions_loop-HasUniqueKeys :
      (doc : TacticDoc F) (i : ℤ) (objects : List (BoardObject F)) (out : Dict (Vec2 F))
      → HasUniqueKeys out
      → HasUniqueKeys (positions_loop doc i objects out)
  unfolding positions_loop
  positions_loop-HasUniqueKeys doc i [] out h = h
  positions_loop-HasUniqueKeys doc i (obj ∷ objects) out h =
      positions_loop-HasUniqueKeys doc i objects _
        (set_position-HasUniqueKeys (position_at doc i obj.id) obj.id out h)

  pub positions_at-HasUniqueKeys : (doc : TacticDoc F) (i : ℤ) → HasUniqueKeys (positions_at doc i)
  unfolding positions_at
  positions_at-HasUniqueKeys doc i = positions_loop-HasUniqueKeys doc i doc.objects [] tt
