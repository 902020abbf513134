-- ===== src/Board/Player.antt =====
-- The playback clock: the class `BoardPlayer` of features/tactics/board/player.ts. The timeline of
-- the document is an argument. `endedAt` is `none` for -1; `onEnded` is counted.
use scoutpulse.Base.{
  ℕ, suc, ◌-◌, ◌≡◌, Bool, true, false, not, ◌&&◌, Option, none, some, arith, Number, IsOrdered,
  DecidesEq, int, length, get_elem?, if◌then◌else◌, or_else, ℤ, clamp_to,
}
use scoutpulse.Board.Doc.{TacticDoc}
use scoutpulse.Board.Playback.{Timeline, least, greatest, timeline}
use scoutpulse.Board.Playback.Contiguous.{le-greatest, timeline-IsTimeline}

pub record BoardPlayer (F : Type 0) : Type 0 where
  pub time : F
  pub playing : Bool
  pub speed : F
  pub loop : Bool
  pub ended_at : Option F
  pub ended_calls : ℕ

module _ {F : Type 0} ⦃n : Number F⦄ where
  abbrev pub new_player : BoardPlayer F
  new_player = record {
    time = int 0;
    playing = false;
    speed = int 1;
    loop = false;
    ended_at = none;
    ended_calls = 0;
  }

  -- x < y
  abbrev pub lt : F → F → Bool
  lt x y = not (n.le y x)

  unfoldable pub at_end : Timeline F → BoardPlayer F → Bool
  at_end line p = n.le (n.sub line.total (n.ratio 1 1000)) p.time

  abbrev ended_here : Option F → F → Bool
  ended_here none time = false
  ended_here (some e) time = n.le (int 0) e && n.eq time e

  unfoldable pub finished : BoardPlayer F → Bool
  finished p = not p.playing && ended_here p.ended_at p.time

  unfoldable pub tick : Timeline F → F → BoardPlayer F → BoardPlayer F
  tick line dt p =
      let next = n.add p.time (n.mul dt p.speed) in
      if not p.playing
      then p
      else if n.le line.total next
      then if p.loop && lt (int 0) line.total then record p { time = int 0 } else record p {
        time = line.total;
        ended_at = some line.total;
        playing = false;
        ended_calls = suc p.ended_calls;
      }
      else record p { time = next }

  unfoldable pub play : Timeline F → BoardPlayer F → BoardPlayer F
  unfolding at_end
  play line p = record p { time = if at_end line p then int 0 else p.time; playing = true }

  unfoldable pub pause : BoardPlayer F → BoardPlayer F
  pause p = record p { playing = false }

  unfoldable pub toggle : Timeline F → BoardPlayer F → BoardPlayer F
  unfolding pause play
  toggle line p = if p.playing then pause p else play line p

  unfoldable pub restart : BoardPlayer F → BoardPlayer F
  restart p = record p { time = int 0; playing = true }

  unfoldable pub dismiss_finished : BoardPlayer F → BoardPlayer F
  dismiss_finished p = record p { ended_at = none }

  unfoldable pub seek : Timeline F → F → BoardPlayer F → BoardPlayer F
  seek line time p = record p { time = greatest (int 0) (least line.total time) }

  unfoldable pub seek_step : Timeline F → ℤ → BoardPlayer F → BoardPlayer F
  unfolding seek
  seek_step line step p =
      seek line
        (or_else (get_elem? line.step_starts (clamp_to (length line.step_starts - 1) step)) (int 0))
        p

module _ {F : Type 0} ⦃n : Number F⦄ where
  -- the clock stands between 0 and the total
  abbrev pub InRange : Timeline F → BoardPlayer F → Type 0
  InRange line p = (n.le (int 0) p.time ≡ true) × (n.le p.time line.total ≡ true)

module _ {F : Type 0} ⦃n : Number F⦄ (o : IsOrdered n) (doc : TacticDoc F) where
  not_le : (x y : F) → n.le x y ≡ false → n.le y x ≡ true
  not_le x y h = ground (arith, o.le_total x y)

  greatest-le : (a b c : F) → n.le a c ≡ true → n.le b c ≡ true → n.le (greatest a b) c ≡ true
  greatest-le a b c h k = ground arith

  least-le : (a b : F) → n.le (least a b) a ≡ true
  least-le a b = ground (arith, o.le_refl a, not_le a b)

  le-total : n.le (int 0) (timeline doc).total ≡ true
  le-total = (timeline-IsTimeline o doc).total

  -- A tick with no negative time or speed keeps the clock between 0 and the end, for ordered
  -- numbers.
  pub tick-InRange :
      (dt : F) (p : BoardPlayer F)
      → n.le (int 0) (n.mul dt p.speed) ≡ true
      → InRange (timeline doc) p
      → InRange (timeline doc) (tick (timeline doc) dt p)
  unfolding tick
  tick-InRange dt p h (lo, hi) =
      let next = n.add p.time (n.mul dt p.speed) in
      let up = o.le_trans (int 0) p.time next lo (o.le-add p.time (n.mul dt p.speed) h) in
      ground (
        arith,
        up,
        le-total,
        o.le_refl (int 0),
        o.le_refl (timeline doc).total,
        not_le (timeline doc).total next,
      )

  -- Wherever the scrubber asks for, seek puts the clock between 0 and the end, for ordered numbers.
  pub seek-InRange :
      (time : F) (p : BoardPlayer F) → InRange (timeline doc) (seek (timeline doc) time p)
  unfolding seek
  seek-InRange time p = (
    le-greatest o (int 0) (least (timeline doc).total time) (int 0) (o.le_refl (int 0)),
    greatest-le (int 0) (least (timeline doc).total time) (timeline doc).total le-total
        (least-le (timeline doc).total time),
  )

  -- A tick of a running player that reaches the end without looping stops there, reports it once,
  -- and offers a replay; the offer is withdrawn by dismissFinished, and by playing again. It holds
  -- for ordered numbers whose equality is decided.
  pub tick-finished :
      (dt : F) (p : BoardPlayer F)
      → DecidesEq n
      → p.playing ≡ true
      → p.loop ≡ false
      → n.le (timeline doc).total (n.add p.time (n.mul dt p.speed)) ≡ true
      → (finished (tick (timeline doc) dt p) ≡ true)
        × ((tick (timeline doc) dt p).ended_calls ≡ suc p.ended_calls)
        × (finished (dismiss_finished (tick (timeline doc) dt p)) ≡ false)
        × (finished (play (timeline doc) (tick (timeline doc) dt p)) ≡ false)
  unfolding tick finished dismiss_finished play
  tick-finished dt p d a b c =
      ground (arith, le-total, d.eq_iff (timeline doc).total (timeline doc).total)
