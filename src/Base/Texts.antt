-- ===== src/Base/Texts.antt =====
-- Text as the list of its UTF-16 code units, for code that walks it: spaces, trimming, splitting and
-- joining, as JavaScript has them.
use Prim.Native.Nat.{ℕ}
use mathlib.Core.Path.{◌≡◌, ◌∙◌, refl, ap}
use mathlib.Core.Logic.{inl, inr}
use mathlib.Core.Bool.{Bool, true, false, ◌&&◌, ◌||◌, not}
use mathlib.Core.List.{List, [], ◌∷◌, ◌++◌, map}
use scoutpulse.Base.Tests.{leb, ◌==◌, ==_iff, if◌then◌else◌, Bool-cases}
use scoutpulse.Base.Lists.{All, filter}

abbrev pub Text : Type 0
Text = List ℕ

-- what `\s` and `trim` take for a space
abbrev pub is_space : ℕ → Bool
is_space c =
    (leb 9 c && leb c 13)
    || c == 32
    || c == 160
    || c == 0x1680
    || (leb 0x2000 c && leb c 0x200a)
    || c == 0x2028
    || c == 0x2029
    || c == 0x202f
    || c == 0x205f
    || c == 0x3000
    || c == 0xfeff

abbrev pub is_empty : Text → Bool
is_empty [] = true
is_empty (c ∷ s) = false

unfoldable pub trim_start : Text → Text
trim_start [] = []
trim_start (c ∷ s) = let rest = trim_start s in if is_space c then rest else c ∷ s

unfoldable pub trim_end : Text → Text
trim_end [] = []
trim_end (c ∷ s) = let rest = trim_end s in if is_space c && is_empty rest then [] else c ∷ rest

unfoldable pub trim : Text → Text
unfolding trim_start trim_end
trim s = trim_end (trim_start s)

abbrev add_first : ℕ → List Text → List Text
add_first c [] = (c ∷ []) ∷ []
add_first c (s ∷ l) = (c ∷ s) ∷ l

-- `s.split(sep)` for one character
unfoldable pub split_on : ℕ → Text → List Text
split_on sep [] = [] ∷ []
split_on sep (c ∷ s) = let rest = split_on sep s in if c == sep then [] ∷ rest else add_first c rest

-- `l.join(between)`
unfoldable pub join : Text → List Text → Text
join between [] = []
join between (s ∷ []) = s
join between (s ∷ t ∷ l) = s ++ (between ++ join between (t ∷ l))

-- an item of a list in a text field: not empty, trimmed, and without the separator
pub record IsItem (sep : ℕ) (s : Text) : Type 0 where
  pub full : is_empty s ≡ false
  pub trimmed : trim s ≡ s
  pub plain : All (λ c. (c == sep) ≡ false) s

split_on-plain : (sep : ℕ) (s : Text) → All (λ c. (c == sep) ≡ false) s → split_on sep s ≡ s ∷ []
unfolding split_on
split_on-plain sep [] h = refl
split_on-plain sep (c ∷ s) (h, hs) = rw (h, split_on-plain sep s hs) refl

split_on-append :
    (sep : ℕ) (s rest : Text)
    → All (λ c. (c == sep) ≡ false) s
    → split_on sep (s ++ sep ∷ rest) ≡ s ∷ split_on sep rest
unfolding split_on
split_on-append sep [] rest h = rw ((==_iff sep sep).1 refl) refl
split_on-append sep (c ∷ s) rest (h, hs) = rw (h, split_on-append sep s rest hs) refl

-- the pieces of a split, trimmed, and those that are not empty
unfoldable pub items : ℕ → Text → List Text
unfolding split_on trim filter
items sep s = filter (λ t. not (is_empty t)) (map trim (split_on sep s))

split_on-cons : (sep : ℕ) (s : Text) → (t : Text) × (l : List Text) × (split_on sep s ≡ t ∷ l)
unfolding split_on
split_on-cons sep [] = ([], [], refl)
split_on-cons sep (c ∷ s) =
    let (t, l, e) = split_on-cons sep s in
    elim (Bool-cases (c == sep)) [
      | inl same ↦ ([], split_on sep s, rw same refl)
      | inr other ↦ (c ∷ t, l, rw (other, e) refl)
    ]

-- a space in front of the first piece is trimmed away
map-trim-space :
    (sep c : ℕ) (s : Text)
    → is_space c ≡ true
    → (c == sep) ≡ false
    → map trim (split_on sep (c ∷ s)) ≡ map trim (split_on sep s)
unfolding split_on trim trim_start
map-trim-space sep c s space other =
    let (t, l, e) = split_on-cons sep s in rw (other, e, space) refl

map-trim-join :
    (sep c : ℕ) (l : List Text) (s : Text)
    → is_space c ≡ true
    → (c == sep) ≡ false
    → All (IsItem sep) (s ∷ l)
    → map trim (split_on sep (join (sep ∷ c ∷ []) (s ∷ l))) ≡ s ∷ l
unfolding join
map-trim-join sep c [] s space other (h, _) =
    ap (map trim) (split_on-plain sep s h.plain) ∙ ap (λ t. t ∷ []) h.trimmed
map-trim-join sep c (t ∷ l) s space other (h, hs) =
    ap (map trim) (split_on-append sep s (c ∷ join (sep ∷ c ∷ []) (t ∷ l)) h.plain)
    ∙ rw
        (
          h.trimmed,
          map-trim-space sep c (join (sep ∷ c ∷ []) (t ∷ l)) space other,
          map-trim-join sep c l t space other hs,
        )
        refl

filter-items : (sep : ℕ) (l : List Text) → All (IsItem sep) l → filter (λ t. not (is_empty t)) l ≡ l
unfolding filter
filter-items sep [] h = refl
filter-items sep (s ∷ l) (h, hs) = rw (h.full, filter-items sep l hs) refl

-- A list of items that is joined by a separator and a space is read back.
pub items-join :
    (sep c : ℕ) (l : List Text)
    → is_space c ≡ true
    → (c == sep) ≡ false
    → All (IsItem sep) l
    → items sep (join (sep ∷ c ∷ []) l) ≡ l
unfolding items join split_on
items-join sep c [] space other h = refl
items-join sep c (s ∷ l) space other h =
    ap (filter (λ t. not (is_empty t))) (map-trim-join sep c l s space other h)
    ∙ filter-items sep (s ∷ l) h

map-trim-join_lines :
    (sep : ℕ) (l : List Text) (s : Text)
    → All (IsItem sep) (s ∷ l)
    → map trim (split_on sep (join (sep ∷ []) (s ∷ l))) ≡ s ∷ l
unfolding join
map-trim-join_lines sep [] s (h, _) =
    ap (map trim) (split_on-plain sep s h.plain) ∙ ap (λ t. t ∷ []) h.trimmed
map-trim-join_lines sep (t ∷ l) s (h, hs) =
    ap (map trim) (split_on-append sep s (join (sep ∷ []) (t ∷ l)) h.plain)
    ∙ rw (h.trimmed, map-trim-join_lines sep l t hs) refl

-- And a list that is joined by the separator alone.
pub items-join_lines :
    (sep : ℕ) (l : List Text) → All (IsItem sep) l → items sep (join (sep ∷ []) l) ≡ l
unfolding items join split_on
items-join_lines sep [] h = refl
items-join_lines sep (s ∷ l) h =
    ap (filter (λ t. not (is_empty t))) (map-trim-join_lines sep l s h) ∙ filter-items sep (s ∷ l) h
