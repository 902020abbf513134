-- ===== src/Api/Page.antt =====
-- Pages of a list: core/api/page.ts.
use scoutpulse.Base.{
  ℕ, ◌+◌, ◌-◌, ◌<◌, ◌≡◌, ◌≢◌, inl, inr, refl, ap, Bool-cases, Bool, false, Option, none, some, List,
  [], arith, leb, if◌then◌else◌,
}
use mathlib.Core.Option.{some-injective}

pub record Page {ℓ} (T : Type ℓ) : Type ℓ where
  pub items : List T
  pub limit : ℕ
  pub offset : ℕ
  pub has_more : Bool

abbrev pub default_page_size : ℕ
default_page_size = 25

abbrev pub max_page_size : ℕ
max_page_size = 100

pub record PageQuery : Type 0 where
  pub limit : Option ℕ
  pub offset : Option ℕ

none-ne-some : {q : PageQuery} → none ≢ some q
none-ne-some e = cc

module _ {ℓ} {T : Type ℓ} where
  unfoldable pub empty_page : ℕ → Page T
  empty_page limit = record { items = []; limit = limit; offset = 0; has_more = false }

  unfoldable pub next_page : Page T → Option PageQuery
  next_page page =
      if page.has_more
      then some (record { limit = some page.limit; offset = some (page.offset + page.limit) })
      else none

  unfoldable pub previous_page : Page T → Option PageQuery
  previous_page page =
      if leb page.offset 0
      then none
      else some (record { limit = some page.limit; offset = some (page.offset - page.limit) })

  -- The page before the next page is the page itself, if pages are not empty and the next one comes
  -- as it was asked for.
  pub previous_page-next_page :
      (page next : Page T)
      → 0 < page.limit
      → next_page page ≡ some (record { limit = some next.limit; offset = some next.offset })
      → previous_page next ≡ some (record { limit = some page.limit; offset = some page.offset })
  unfolding next_page previous_page
  previous_page-next_page page next h e = elim (Bool-cases page.has_more) [
    | inr last ↦ absurd (none-ne-some (rw last at e))
    | inl more ↦
        let same = some-injective _ _ (rw more at e) in
        let l : page.limit ≡ next.limit =
          some-injective _ _ (ap (λ (q : PageQuery). q.limit) same) in
        let o : page.offset + page.limit ≡ next.offset =
          some-injective _ _ (ap (λ (q : PageQuery). q.offset) same) in
        let later : leb next.offset 0 ≡ false = ground arith in
        let back : next.offset - next.limit ≡ page.offset = omega arith in rw (later, back, l) refl
  ]
