-- ===== src/Api/Batches.antt =====
-- What `PlayerNames` of core/api/player-names.ts asks the service for.
use scoutpulse.Base.{
  ℕ, zero, suc, ◌≤◌, ◌≡◌, refl, ap, ◌∙◌, inl, inr, String, Bool, true, false, not, ◌||◌, Option,
  none, some, List, [], ◌∷◌, ◌++◌, arith, length, take, drop, length-drop, filter, any, All,
  All-append, str_eq, eq_iff, leb, Bool-cases,
}
use scoutpulse.Api.Page.{max_page_size}
use scoutpulse.Api.Lookup.{take-append-drop}
use scoutpulse.Api.Names.{
  PlayerNames, NamesEvent, has, is_wanted, wanted, wanted_from, batches_of, resolve, answer_batch,
  run_names, joined,
}

-- no text twice
abbrev pub AreDistinct : List String → Type 0
AreDistinct [] = Unit
AreDistinct (x ∷ xs) = (has x xs ≡ false) × AreDistinct xs

has-append : (x y : String) (l : List String) → has x (l ++ y ∷ []) ≡ (has x l || str_eq x y)
unfolding any
has-append x y [] = ground arith
has-append x y (z ∷ l) = ground (arith, has-append x y l)

append-AreDistinct :
    (l : List String) (y : String) → AreDistinct l → has y l ≡ false → AreDistinct (l ++ y ∷ [])
unfolding any
append-AreDistinct [] y h k = (refl, tt)
append-AreDistinct (x ∷ l) y (p, h) k = (
  ground (arith, has-append x y l, eq_iff x y, eq_iff y x),
  append-AreDistinct l y h (ground arith),
)

has-joined_lists : (x : String) (l ys : List String) → has x (l ++ ys) ≡ (has x l || has x ys)
unfolding any
has-joined_lists x [] ys = refl
has-joined_lists x (z ∷ l) ys = ground (arith, has-joined_lists x l ys)

apart_head :
    (x : String) (l ys : List String) → All (λ y. has y (x ∷ l) ≡ false) ys → has x ys ≡ false
unfolding any
apart_head x l [] h = refl
apart_head x l (y ∷ ys) (h, k) = ground (arith, apart_head x l ys k, eq_iff x y, eq_iff y x)

apart_tail :
    (x : String) (l ys : List String)
    → All (λ y. has y (x ∷ l) ≡ false) ys
    → All (λ y. has y l ≡ false) ys
unfolding any
apart_tail x l [] h = tt
apart_tail x l (y ∷ ys) (h, k) = (ground arith, apart_tail x l ys k)

joined_lists-AreDistinct :
    (l ys : List String)
    → AreDistinct l
    → AreDistinct ys
    → All (λ y. has y l ≡ false) ys
    → AreDistinct (l ++ ys)
joined_lists-AreDistinct [] ys h k a = k
joined_lists-AreDistinct (x ∷ l) ys (p, h) k a = (
  ground (arith, has-joined_lists x l ys, apart_head x l ys a),
  joined_lists-AreDistinct l ys h k (apart_tail x l ys a),
)

has-filter :
    (x : String) (p : String → Bool) (l : List String)
    → has x l ≡ false
    → has x (filter p l) ≡ false
unfolding any filter
has-filter x p [] h = refl
has-filter x p (y ∷ l) h = ground (arith, has-filter x p l)

filter-AreDistinct :
    (p : String → Bool) (l : List String) → AreDistinct l → AreDistinct (filter p l)
unfolding filter
filter-AreDistinct p [] h = tt
filter-AreDistinct p (x ∷ l) (h, k) = elim (Bool-cases (p x)) [
  | inl e ↦ rw e (has-filter x p l h, filter-AreDistinct p l k)
  | inr e ↦ rw e (filter-AreDistinct p l k)
]

-- distinct ids that are all wanted
abbrev AreWanted : PlayerNames → List String → Type 0
AreWanted s l = AreDistinct l × All (λ id. is_wanted s id ≡ true) l

wanted_from-AreWanted :
    (s : PlayerNames) (ids : List (Option String)) (seen : List String)
    → AreWanted s seen
    → AreWanted s (wanted_from s ids seen)
unfolding wanted_from
wanted_from-AreWanted s [] seen h = h
wanted_from-AreWanted s (none ∷ ids) seen h = wanted_from-AreWanted s ids seen h
wanted_from-AreWanted s (some id ∷ ids) seen (h, k) = elim (Bool-cases (is_wanted s id)) [
  | inr e ↦ rw e (wanted_from-AreWanted s ids seen (h, k))
  | inl e ↦ elim (Bool-cases (has id seen)) [
    | inl f ↦ rw (e, f) (wanted_from-AreWanted s ids seen (h, k))
    | inr f ↦
        rw (e, f)
          (wanted_from-AreWanted s ids (seen ++ id ∷ [])
            (append-AreDistinct seen id h f, All-append _ seen (id ∷ []) k (e, tt)))
  ]
]

wanted-AreWanted : (s : PlayerNames) (ids : List (Option String)) → AreWanted s (wanted s ids)
unfolding wanted
wanted-AreWanted s ids = wanted_from-AreWanted s ids [] (tt, tt)

length-take_le : (k : ℕ) (l : List String) → length (take k l) ≤ k
length-take_le zero l = omega arith
length-take_le (suc k) [] = omega arith
length-take_le (suc k) (x ∷ l) = omega (arith, length-take_le k l)

joined-batches_of :
    (fuel : ℕ) (ids : List String)
    → length ids ≤ fuel
    → (joined (batches_of fuel ids) ≡ ids)
      × All (λ (b : List String). length b ≤ max_page_size) (batches_of fuel ids)
unfolding batches_of
joined-batches_of zero [] h = (refl, tt)
joined-batches_of zero (x ∷ ids) h = absurd (omega arith)
joined-batches_of (suc fuel) [] h = (refl, tt)
joined-batches_of (suc fuel) (x ∷ ids) h =
    let (e, small) =
      joined-batches_of fuel (drop max_page_size (x ∷ ids))
        (omega (arith, length-drop max_page_size (x ∷ ids))) in
    let some_left : leb (length (x ∷ ids)) 0 ≡ false = ground arith in
    rw some_left (
      ap (λ l. take max_page_size (x ∷ ids) ++ l) e ∙ take-append-drop max_page_size (x ∷ ids),
      (length-take_le max_page_size (x ∷ ids), small),
    )

-- What a call asks for: no id twice, none that is known or in flight, in batches of at most 100 ids,
-- and all of these become in flight.
pub record IsAsked (s : PlayerNames) (after : PlayerNames) (batches : List (List String))
    : Type 0 where
  pub distinct : AreDistinct (joined batches)
  pub needed : All (λ id. is_wanted s id ≡ true) (joined batches)
  pub small : All (λ (b : List String). length b ≤ max_page_size) batches
  pub flying : after.in_flight ≡ s.in_flight ++ joined batches

-- A call asks for no id twice and for none that is empty, known or in flight, in batches of at most
-- 100, and then all of these ids are in flight.
pub resolve-IsAsked :
    (ids : List (Option String)) (s : PlayerNames) → IsAsked s (resolve ids s).0 (resolve ids s).1
unfolding resolve
resolve-IsAsked ids s =
    let (e, small) = joined-batches_of (length (wanted s ids)) (wanted s ids) (omega arith) in
    let (d, w) = wanted-AreWanted s ids in
    record { distinct = rw e d; needed = rw e w; small = small; flying = rw e refl }

apart_of_wanted :
    (s : PlayerNames) (l : List String)
    → All (λ id. is_wanted s id ≡ true) l
    → All (λ y. has y s.in_flight ≡ false) l
apart_of_wanted s [] h = tt
apart_of_wanted s (x ∷ l) (h, k) = (ground arith, apart_of_wanted s l k)

-- However calls and answers follow one another, no id is in flight twice, if none is at the start.
pub run_names-AreDistinct :
    (events : List NamesEvent) (s : PlayerNames)
    → AreDistinct s.in_flight
    → AreDistinct (run_names events s).in_flight
unfolding run_names resolve answer_batch
run_names-AreDistinct [] s h = h
run_names-AreDistinct (NamesEvent.asked ids ∷ events) s h =
    let (d, w) = wanted-AreWanted s ids in
    run_names-AreDistinct events (resolve ids s).0
      (joined_lists-AreDistinct s.in_flight (wanted s ids) h d (apart_of_wanted s (wanted s ids) w))
run_names-AreDistinct (NamesEvent.answered batch reply ∷ events) s h =
    run_names-AreDistinct events (answer_batch batch reply s)
      (filter-AreDistinct (λ id. not (has id batch)) s.in_flight h)
