-- ===== src/Base/Dicts.antt =====
-- Objects and maps with text keys, as association lists in order of insertion.
use Prim.Native.String.{String}
use mathlib.Core.Path.{◌≡◌, refl}
use mathlib.Core.Bool.{Bool, not}
use mathlib.Core.Option.{Option, none, some}
use mathlib.Core.List.{List, [], ◌∷◌, ◌++◌}
use mathlib.Core.Logic.{inl, inr}
use native.Mathlib.Omega.{arith}
use text.Mathlib.Text.{◌==◌ as str_eq}
use text.Mathlib.TextEquality.{eq_iff}
use scoutpulse.Base.Tests.{if◌then◌else◌, or_else, is_some, Bool-cases}

abbrev pub Dict {ℓ} : Type ℓ → Type ℓ
Dict V = List (String × V)

module _ {ℓ} {V : Type ℓ} where
  unfoldable pub lookup : String → Dict V → Option V
  lookup k [] = none
  lookup k ((j, v) ∷ m) = if str_eq j k then some v else lookup k m

  -- `{ ...m, [k]: v }`, `m.set(k, v)`: a known key keeps its place
  unfoldable pub insert : String → V → Dict V → Dict V
  insert k v [] = (k, v) ∷ []
  insert k v ((j, w) ∷ m) = if str_eq j k then (k, v) ∷ m else (j, w) ∷ insert k v m

  -- `Object.fromEntries(Object.entries(m).filter(([id]) => keep(id)))`
  unfoldable pub filter_keys : (String → Bool) → Dict V → Dict V
  filter_keys keep [] = []
  filter_keys keep ((j, v) ∷ m) =
      let rest = filter_keys keep m in if keep j then (j, v) ∷ rest else rest

  -- `delete m[k]`
  unfoldable pub erase : String → Dict V → Dict V
  unfolding filter_keys
  erase k = filter_keys (λ j. not (str_eq j k))

  override : Dict V → Dict V → Dict V
  override [] later = []
  override ((j, v) ∷ m) later = (j, or_else (lookup j later) v) ∷ override m later

  -- `{ ...m, ...later }`: known keys keep their places, new ones come behind
  unfoldable pub merge : Dict V → Dict V → Dict V
  unfolding override filter_keys
  merge m later = override m later ++ filter_keys (λ j. not (is_some (lookup j m))) later

  pub lookup-insert :
      (k j : String) (v : V) (m : Dict V)
      → lookup j (insert k v m) ≡ (if str_eq k j then some v else lookup j m)
  unfolding lookup insert
  lookup-insert k j new [] = refl
  lookup-insert k j new ((first, old) ∷ rest) =
      ground (arith, lookup-insert k j new rest, eq_iff k j, eq_iff first j, eq_iff first k)

  pub lookup-filter_keys :
      (keep : String → Bool) (j : String) (m : Dict V)
      → lookup j (filter_keys keep m) ≡ (if keep j then lookup j m else none)
  unfolding lookup filter_keys
  lookup-filter_keys keep j [] = ground arith
  lookup-filter_keys keep j ((i, w) ∷ m) = ground (arith, eq_iff i j, lookup-filter_keys keep j m)

  pub lookup-erase :
      (k j : String) (m : Dict V) → lookup j (erase k m) ≡ (if str_eq j k then none else lookup j m)
  unfolding erase
  lookup-erase k j m = ground (arith, lookup-filter_keys (λ i. not (str_eq i k)) j m)

  lookup-append :
      (k : String) (m l : Dict V)
      → lookup k (m ++ l) ≡ (elim (lookup k m) [ some v ↦ some v | none ↦ lookup k l ])
  unfolding lookup
  lookup-append k [] l = refl
  lookup-append k ((j, v) ∷ m) l = ground (arith, lookup-append k m l)

  lookup-override :
      (k : String) (m later : Dict V)
      → lookup k (override m later)
        ≡ (elim (lookup k m) [ some v ↦ some (or_else (lookup k later) v) | none ↦ none ])
  unfolding lookup override
  lookup-override k [] later = refl
  lookup-override k ((j, v) ∷ m) later = ground (arith, eq_iff j k, lookup-override k m later)

  -- The later value, and the earlier one where there is none.
  pub lookup-merge :
      (k : String) (m later : Dict V)
      → lookup k (merge m later) ≡ (elim (lookup k later) [ some v ↦ some v | none ↦ lookup k m ])
  unfolding merge
  lookup-merge k m later = ground (
    arith,
    lookup-append k (override m later) (filter_keys (λ j. not (is_some (lookup j m))) later),
    lookup-override k m later,
    lookup-filter_keys (λ j. not (is_some (lookup j m))) k later,
  )

  -- no key twice
  abbrev pub HasUniqueKeys : Dict V → Type ℓ
  HasUniqueKeys [] = Unit
  HasUniqueKeys ((k, v) ∷ m) = (lookup k m ≡ none) × HasUniqueKeys m

  pub insert-HasUniqueKeys :
      (k : String) (v : V) (m : Dict V) → HasUniqueKeys m → HasUniqueKeys (insert k v m)
  unfolding insert
  insert-HasUniqueKeys k v [] h = (unfold lookup in refl, tt)
  insert-HasUniqueKeys k v ((j, w) ∷ m) h = elim (Bool-cases (str_eq j k)) [
    | inl same ↦ let e : j ≡ k = (eq_iff j k).0 same in rw same (rw e at h)
    | inr other ↦ rw other (
      ground (arith, lookup-insert k j v m, h.0, eq_iff k j, eq_iff j k),
      insert-HasUniqueKeys k v m h.1,
    )
  ]
