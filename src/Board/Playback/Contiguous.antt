-- ===== src/Board/Playback/Contiguous.antt =====
-- The segments of a timeline follow one another without a gap, from 0 to the total.
use scoutpulse.Base.{
  ℕ, zero, suc, ◌+◌, ◌<◌, ◌≡◌, refl, ◌⊎◌, inl, inr, Bool, true, false, Option, none, some, List, [],
  ◌∷◌, map, ap, arith, Number, IsOrdered, int, length, All, if◌then◌else◌, Bool-cases,
}
use scoutpulse.Board.Doc.{Step, TacticDoc}
use scoutpulse.Board.Playback.{
  SegmentKind, Segment, Timeline, least, greatest, arrival, timeline_from, timeline, last_started,
  frame_in, frame_of_kind, frame_at, step_from, step_at_time,
}

abbrev pub is_hold : SegmentKind → Bool
is_hold SegmentKind.hold = true
is_hold SegmentKind.move = false

-- the numbers from one on, so many of them
abbrev pub numbers : ℕ → ℕ → List ℕ
numbers first zero = []
numbers first (suc count) = first ∷ numbers (suc first) count

module _ {F : Type 0} ⦃n : Number F⦄ where
  -- Each segment starts where the one before it ended, and none ends before it starts.
  abbrev pub IsContiguous : F → List (Segment F) → F → Type 0
  IsContiguous t [] total = t ≡ total
  IsContiguous t (s ∷ segments) total =
      (s.start ≡ t) × (n.le s.start s.end ≡ true) × IsContiguous s.end segments total

  -- the segments in which the board stands
  abbrev pub holds : List (Segment F) → List (Segment F)
  holds [] = []
  holds (s ∷ segments) = let rest = holds segments in if is_hold s.kind then s ∷ rest else rest

  -- A line from a time on, for `count` steps from `first` on, of a board of `bound` steps.
  pub record IsTimeline (t : F) (first bound count : ℕ) (line : Timeline F) : Type 0 where
    pub contiguous : IsContiguous t line.segments line.total
    pub steps : All (λ (s : Segment F). s.step < bound) line.segments
    pub in_order : map (λ (s : Segment F). s.step) (holds line.segments) ≡ numbers first count
    pub reached : line.step_starts ≡ map (λ (s : Segment F). s.start) (holds line.segments)
    pub starts : length line.step_starts ≡ count
    pub total : n.le t line.total ≡ true

module _ {F : Type 0} ⦃n : Number F⦄ (o : IsOrdered n) where
  pub le-greatest : (a b c : F) → n.le c a ≡ true → n.le c (greatest a b) ≡ true
  le-greatest a b c h = elim (Bool-cases (n.le a b)) [
    | inl e ↦ rw e (o.le_trans c a b h e)
    | inr e ↦ rw e h
  ]

  le-arrival : (i : ℕ) (t : F) (st : Step F) → n.le t (arrival i t st) ≡ true
  le-arrival zero t st = o.le_refl t
  le-arrival (suc i) t st =
      o.le-add t _ (le-greatest (n.ratio 1 10) st.duration (int 0) o.zero-le-tenth)

  le-hold : (t : F) (st : Step F) → n.le t (n.add t (greatest (int 0) st.hold)) ≡ true
  le-hold t st = o.le-add t _ (le-greatest (int 0) st.hold (int 0) (o.le_refl (int 0)))

  timeline_from-IsTimeline :
      (i bound : ℕ) (t : F) (steps : List (Step F))
      → i + length steps ≡ bound
      → IsTimeline t i bound (length steps) (timeline_from i t steps)
  unfolding timeline_from
  timeline_from-IsTimeline i bound t [] e = record {
    contiguous = refl;
    steps = tt;
    in_order = refl;
    reached = refl;
    starts = refl;
    total = o.le_refl t;
  }
  timeline_from-IsTimeline zero bound t (st ∷ steps) e =
      let ih =
        timeline_from-IsTimeline 1 bound (n.add t (greatest (int 0) st.hold)) steps (omega arith) in
      record {
        contiguous = (refl, le-hold t st, ih.contiguous);
        steps = (omega arith, ih.steps);
        in_order = ap (zero ∷◌) ih.in_order;
        reached = ap (t ∷◌) ih.reached;
        starts = omega (arith, ih.starts);
        total = o.le_trans _ _ _ (le-hold t st) ih.total;
      }
  timeline_from-IsTimeline (suc i) bound t (st ∷ steps) e =
      let here = arrival (suc i) t st in
      let ih =
        timeline_from-IsTimeline (suc (suc i)) bound (n.add here (greatest (int 0) st.hold)) steps
          (omega arith) in
      record {
        contiguous = (refl, le-arrival (suc i) t st, (refl, le-hold here st, ih.contiguous));
        steps = (omega arith, (omega arith, ih.steps));
        in_order = ap (suc i ∷◌) ih.in_order;
        reached = ap (here ∷◌) ih.reached;
        starts = omega (arith, ih.starts);
        total =
            o.le_trans _ _ _ (le-arrival (suc i) t st)
              (o.le_trans _ _ _ (le-hold here st) ih.total);
      }

  -- The timeline of a board is a chain of segments from 0 to the total, which is not negative; each
  -- segment belongs to a step of the board; the segments in which the board stands are one for each
  -- step, in the order of the steps, and the moments at which the steps are reached are their
  -- starts. It holds for ordered numbers.
  pub timeline-IsTimeline :
      (doc : TacticDoc F)
      → IsTimeline (int 0) 0 (length doc.steps) (length doc.steps) (timeline doc)
  unfolding timeline
  timeline-IsTimeline doc =
      timeline_from-IsTimeline 0 (length doc.steps) (int 0) doc.steps (omega arith)

  last_started-bound :
      (bound : ℕ) (segments : List (Segment F)) (t : F) (seg : Option (Segment F)) {s : Segment F}
      → All (λ (s : Segment F). s.step < bound) segments
      → ((s : Segment F) → seg ≡ some s → s.step < bound)
      → last_started segments t seg ≡ some s
      → s.step < bound
  unfolding last_started
  last_started-bound bound [] t seg h k e = k _ e
  last_started-bound bound (s ∷ segments) t seg h k e =
      last_started-bound bound segments t _ h.1
        (split (n.le s.start (n.add t (n.ratio 1 1_000_000_000)))) e
    where
      split : (b : Bool) (r : Segment F) → (if b then some s else seg) ≡ some r → r.step < bound
      split true r f = let same : s ≡ r = ground arith in rw (← same) h.0
      split false r f = k r f

  -- whatever the segment, its frame is of its step or the one before
  frame_of_kind-bound :
      (bound : ℕ) (kind : SegmentKind) (doc : TacticDoc F) (seg : Segment F) (t : F)
      → seg.step < bound
      → (frame_of_kind kind doc seg t).step < bound
  frame_of_kind-bound bound SegmentKind.hold doc seg t h = h
  frame_of_kind-bound bound SegmentKind.move doc seg t h = omega arith

  frame_in-bound :
      (bound : ℕ) (seg : Option (Segment F)) (doc : TacticDoc F) (t : F)
      → 0 < bound
      → ((s : Segment F) → seg ≡ some s → s.step < bound)
      → (frame_in seg doc t).step < bound
  frame_in-bound bound none doc t h k = h
  frame_in-bound bound (some s) doc t h k = frame_of_kind-bound bound s.kind doc s t (k s refl)

  -- At any time, before the start and after the end too, the frame of a board that has a step is of
  -- a step that it has. It holds for ordered numbers.
  pub step-frame_at :
      (doc : TacticDoc F) (time : F)
      → 0 < length doc.steps
      → (frame_at doc (timeline doc) time).step < length doc.steps
  unfolding frame_at
  step-frame_at doc time h =
      let t = greatest (int 0) (least (timeline doc).total time) in
      frame_in-bound (length doc.steps) (last_started (timeline doc).segments t none) doc t h
        (λ s e.
          last_started-bound (length doc.steps) (timeline doc).segments t none
            (timeline-IsTimeline doc).steps (λ r f. cc f) e)

  step_from-bound :
      (starts : List F) (time : F) (i current : ℕ)
      → (step_from starts time i current ≡ current)
        ⊎ (step_from starts time i current < i + length starts)
  unfolding step_from
  step_from-bound [] time i current = inl refl
  step_from-bound (start ∷ starts) time i current =
      ground
        (arith, step_from-bound starts time (suc i) i, step_from-bound starts time (suc i) current)

  -- The step that the scrubber shows at a time is one that the board has, if it has one. It holds
  -- for ordered numbers.
  pub step_at_time-bound :
      (doc : TacticDoc F) (time : F)
      → 0 < length doc.steps
      → step_at_time (timeline doc) time < length doc.steps
  unfolding step_at_time
  step_at_time-bound doc time h =
      omega (
        arith,
        (timeline-IsTimeline doc).starts,
        step_from-bound (timeline doc).step_starts time 0 0,
      )
