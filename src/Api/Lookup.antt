-- ===== src/Api/Lookup.antt =====
-- Reading every page of a list: `collect` of `LookupStore`, core/api/lookup-store.ts. The reader of a
-- page is an argument, with the page for each offset, or `none` for a failure. The fuel bounds the
-- pages that are read.
use scoutpulse.Base.{
  ℕ, zero, suc, ◌+◌, ◌*◌, ◌%◌, ◌≤◌, ◌<◌, ◌≡◌, ◌≢◌, refl, sym, ap, ◌∙◌, inl, inr, String, false, not,
  Option, none, some, List, [], ◌∷◌, ◌++◌, arith, length, take, drop, length-drop, Dict, insert,
  ltb, if◌then◌else◌, Bool-cases, Option-cases,
}
use scoutpulse.Api.Page.{Page, max_page_size}

-- How a collection stands: all read, a page failed, or not at an end within the fuel.
pub data Collected {ℓ} (T : Type ℓ) : Type ℓ where
  collected : Dict T → Collected T
  failed : Collected T
  running : Collected T

abbrev pub safety_stop : ℕ
safety_stop = 5_000

module _ {ℓ} {A : Type ℓ} where
  pub take-append-drop : (k : ℕ) (xs : List A) → take k xs ++ drop k xs ≡ xs
  take-append-drop zero xs = refl
  take-append-drop (suc k) [] = refl
  take-append-drop (suc k) (x ∷ xs) = ap (λ l. x ∷ l) (take-append-drop k xs)

  drop-drop : (k l j : ℕ) (xs : List A) → l + k ≡ j → drop k (drop l xs) ≡ drop j xs
  drop-drop k zero j xs e = let same : k ≡ j = omega arith in rw same refl
  drop-drop k (suc l) zero xs e = absurd (omega arith)
  drop-drop zero (suc l) (suc j) [] e = refl
  drop-drop (suc k) (suc l) (suc j) [] e = refl
  drop-drop k (suc l) (suc j) (x ∷ xs) e = drop-drop k l j xs (omega arith)

  drop-nil : (k : ℕ) (xs : List A) → length xs ≤ k → drop k xs ≡ []
  drop-nil zero [] h = refl
  drop-nil (suc k) [] h = refl
  drop-nil zero (x ∷ xs) h = absurd (omega arith)
  drop-nil (suc k) (x ∷ xs) h = drop-nil k xs (omega arith)

module _ {ℓ} {T : Type ℓ} (id_of : T → String) where
  -- `for (const item of page.items) collected.set(item.id, item)`
  unfoldable pub set_all : List T → Dict T → Dict T
  set_all [] m = m
  set_all (x ∷ items) m = set_all items (insert (id_of x) x m)

  -- after a page: `rest` reads on from an offset
  unfoldable pub after_page :
      (ℕ → Dict T → Collected T) → ℕ → Dict T → Option (Page T) → Collected T
  unfolding set_all
  after_page rest offset m none = Collected.failed
  after_page rest offset m (some page) =
      let m = set_all page.items m in
      if not page.has_more
      then Collected.collected m
      else if ltb safety_stop (offset + page.limit)
      then Collected.collected m
      else rest (offset + page.limit) m

  unfoldable pub collect_from : (ℕ → Option (Page T)) → ℕ → ℕ → Dict T → Collected T
  unfolding after_page
  collect_from fetch zero offset m = Collected.running
  collect_from fetch (suc fuel) offset m =
      after_page (collect_from fetch fuel) offset m (fetch offset)

  unfoldable pub collect : (ℕ → Option (Page T)) → ℕ → Collected T
  unfolding collect_from
  collect fetch fuel = collect_from fetch fuel 0 []

  collect_from_ends :
      (fetch : ℕ → Option (Page T)) (fuel offset : ℕ) (m : Dict T)
      → ((at : ℕ) (page : Page T) → fetch at ≡ some page → 0 < page.limit)
      → safety_stop < fuel + offset
      → 0 < fuel
      → collect_from fetch fuel offset m ≢ Collected.running
  unfolding collect_from after_page
  collect_from_ends fetch zero offset m h k l e = absurd (omega arith)
  collect_from_ends fetch (suc fuel) offset m h k l e = elim (Option-cases (fetch offset)) [
    | inl f ↦ no_failure (rw f at e)
    | inr (page, f) ↦ elim (Bool-cases page.has_more) [
      | inr last ↦ no_collection (rw (f, last) at e)
      | inl more ↦ elim (Bool-cases (ltb safety_stop (offset + page.limit))) [
        | inl stop ↦ no_collection (rw (f, more, stop) at e)
        | inr on ↦
            let positive = h offset page f in
            collect_from_ends fetch fuel (offset + page.limit) (set_all page.items m) h
              (ground arith) (ground arith) (rw (f, more, on) at e)
      ]
    ]
  ]
    where
      no_failure : ◌≢◌ {A = Collected T} Collected.failed Collected.running
      no_failure e = cc

      no_collection : {d : Dict T} → Collected.collected d ≢ Collected.running
      no_collection e = cc

  set_all-append : (xs ys : List T) (m : Dict T) → set_all (xs ++ ys) m ≡ set_all ys (set_all xs m)
  unfolding set_all
  set_all-append [] ys m = refl
  set_all-append (x ∷ xs) ys m = set_all-append xs ys (insert (id_of x) x m)

  set_all-take-drop :
      (xs : List T) (m : Dict T)
      → set_all xs m ≡ set_all (drop max_page_size xs) (set_all (take max_page_size xs) m)
  set_all-take-drop xs m =
      ap (λ l. set_all l m) (sym (take-append-drop max_page_size xs))
      ∙ set_all-append (take max_page_size xs) (drop max_page_size xs) m

  module _ (fetch : ℕ → Option (Page T)) (db : List T)
      (serves : (at : ℕ)
        → fetch at
          ≡ some (record {
            items = take max_page_size (drop at db);
            limit = max_page_size;
            offset = at;
            has_more = ltb (at + max_page_size) (length db);
          }))
      (small : length db ≤ safety_stop + max_page_size) where
    collect_from_all :
        (fuel offset : ℕ) (m : Dict T)
        → 0 < fuel
        → offset % max_page_size ≡ 0
        → length db ≤ offset + max_page_size * fuel
        → collect_from fetch fuel offset m ≡ Collected.collected (set_all (drop offset db) m)
    unfolding collect_from after_page
    collect_from_all zero offset m h z k = absurd (omega arith)
    collect_from_all (suc fuel) offset m h z k =
        elim (Bool-cases (ltb (offset + max_page_size) (length db))) [
          | inr last ↦
              let none_left : length (drop offset db) ≤ max_page_size =
                ground (arith, length-drop offset db) in
              rw (serves offset, last)
                (ap Collected.collected (
                  sym (
                    set_all-take-drop (drop offset db) m
                    ∙ ap (λ l. set_all l (set_all (take max_page_size (drop offset db)) m))
                        (drop-nil max_page_size (drop offset db) none_left))))
          | inl more ↦
              let on : ltb safety_stop (offset + max_page_size) ≡ false = ground arith in
              rw (serves offset, more, on)
                (collect_from_all fuel (offset + max_page_size)
                    (set_all (take max_page_size (drop offset db)) m) (ground arith) (omega arith)
                    (ground arith)
                  ∙ ap Collected.collected (
                      sym (
                        set_all-take-drop (drop offset db) m
                        ∙ ap (λ l. set_all l (set_all (take max_page_size (drop offset db)) m))
                            (drop-drop max_page_size offset (offset + max_page_size) db refl))))
        ]

-- Reading page by page, as the service serves a list of up to 5,100 items, gives the map of the
-- whole list: 51 pages are enough.
pub collect_all {ℓ} :
    {T : Type ℓ} (id_of : T → String) (fetch : ℕ → Option (Page T)) (db : List T)
    → ((at : ℕ)
        → fetch at
          ≡ some (record {
            items = take max_page_size (drop at db);
            limit = max_page_size;
            offset = at;
            has_more = ltb (at + max_page_size) (length db);
          }))
    → length db ≤ safety_stop + max_page_size
    → collect id_of fetch 51 ≡ Collected.collected (set_all id_of db [])
unfolding collect
collect_all id_of fetch db serves small =
    collect_from_all id_of fetch db serves small 51 0 [] (omega arith) refl (omega arith)

-- Whatever the service says about further pages, the reading ends after at most 5,001 of them, if
-- no page says that its limit is 0.
pub collect_ends {ℓ} :
    {T : Type ℓ} (id_of : T → String) (fetch : ℕ → Option (Page T))
    → ((at : ℕ) (page : Page T) → fetch at ≡ some page → 0 < page.limit)
    → collect id_of fetch 5_001 ≢ Collected.running
unfolding collect
collect_ends id_of fetch h = collect_from_ends id_of fetch 5_001 0 [] h (omega arith) (omega arith)
