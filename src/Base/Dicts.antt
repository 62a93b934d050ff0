-- ===== src/Base/Dicts.antt =====
-- A JavaScript object or `Map` with text keys, as an association list that holds a key once.
use mathlib.Core.Path.{◌≡◌, refl}
use mathlib.Core.List.{List, [], ◌∷◌}
use mathlib.Core.Option.{Option, none, some}
use native.Mathlib.Omega.{arith}
use docker_claudebox.Base.Tests.{◌==◌, eq_iff, if◌then◌else◌}
use docker_claudebox.Base.Texts.{Text, text_eq}

abbrev pub Dict {ℓ} : Type ℓ → Type ℓ
Dict V = List (Text × V)

module _ {ℓ} {V : Type ℓ} where
  -- `d[key]`, absent when no entry has the key.
  unfoldable pub lookup : Text → Dict V → Option V
  lookup key [] = none
  lookup key (entry ∷ d) = if entry.0 == key then some entry.1 else lookup key d

  -- `d[key] = v`: an existing key keeps its place; a new one goes last.
  unfoldable pub insert : Text → V → Dict V → Dict V
  insert key v [] = (key, v) ∷ []
  insert key v (entry ∷ d) =
      let later = insert key v d in if entry.0 == key then (key, v) ∷ d else entry ∷ later

  -- `delete d[key]`
  unfoldable pub remove : Text → Dict V → Dict V
  remove key [] = []
  remove key (entry ∷ d) =
      let later = remove key d in if entry.0 == key then later else entry ∷ later

  -- What another key holds does not change.
  pub lookup-insert :
      (key other : Text) (v : V) (d : Dict V)
      → lookup other (insert key v d) ≡ (if key == other then some v else lookup other d)
  unfolding lookup insert
  lookup-insert key other v [] = refl
  lookup-insert key other v (entry ∷ d) = ground (
    arith,
    lookup-insert key other v d,
    eq_iff entry.0 key,
    eq_iff entry.0 other,
    eq_iff key other,
  )

  pub lookup-remove :
      (key other : Text) (d : Dict V)
      → lookup other (remove key d) ≡ (if key == other then none else lookup other d)
  unfolding lookup remove
  lookup-remove key other [] = ground arith
  lookup-remove key other (entry ∷ d) =
      ground (
        arith,
        lookup-remove key other d,
        eq_iff entry.0 key,
        eq_iff entry.0 other,
        eq_iff key other,
      )
