-- ===== src/Prelude/Dict.antt =====
-- A Go map with text keys: an association list, in the order in which a `range` loop visits it.
-- The laws hold for every list, so for every order.
use mathlib.Core.Path.{◌≡◌, refl}
use mathlib.Core.Bool.{Bool, true, false}
use mathlib.Core.Option.{Option, none, some}
use mathlib.Core.List.{List, [], ◌∷◌}
use native.Mathlib.Omega.{arith}
use k8s_ext_connector.Prelude.Tests.{if◌then◌else◌}
use k8s_ext_connector.Prelude.Texts.{Text, ◌==◌, eq_iff, eq_refl}

abbrev pub Dict {ℓ} : Type ℓ → Type ℓ
Dict V = List (Text × V)

abbrev pub is_some {ℓ} : {V : Type ℓ} → Option V → Bool
is_some none = false
is_some (some _) = true

module _ {ℓ} {V : Type ℓ} where
  -- `m[key]`
  unfoldable pub lookup : Text → Dict V → Option V
  lookup key [] = none
  lookup key ((name, held) ∷ rest) =
      let later = lookup key rest in if name == key then some held else later

  -- `delete(m, key)`
  unfoldable pub remove : Text → Dict V → Dict V
  remove key [] = []
  remove key ((name, held) ∷ rest) =
      let kept = remove key rest in if name == key then kept else (name, held) ∷ kept

  -- `m[key] = new`, in the place of what the key held, or at the end
  unfoldable pub insert : Text → V → Dict V → Dict V
  insert key new [] = (key, new) ∷ []
  insert key new ((name, held) ∷ rest) =
      let later = insert key new rest in
      if name == key then (key, new) ∷ rest else (name, held) ∷ later

  -- `_, ok := m[key]`
  abbrev pub has : Text → Dict V → Bool
  has key m = is_some (lookup key m)

  pub lookup-empty : (key : Text) → lookup key [] ≡ none
  unfolding lookup
  lookup-empty key = refl

  pub lookup-remove :
      (gone key : Text) (m : Dict V)
      → lookup key (remove gone m) ≡ (if gone == key then none else lookup key m)
  unfolding lookup remove
  lookup-remove gone key [] = ground arith
  lookup-remove gone key ((name, held) ∷ rest) =
      ground
        (arith, lookup-remove gone key rest, eq_iff name gone, eq_iff name key, eq_iff gone key)

  pub lookup-insert :
      (set key : Text) (new : V) (m : Dict V)
      → lookup key (insert set new m) ≡ (if set == key then some new else lookup key m)
  unfolding lookup insert
  lookup-insert set key new [] = refl
  lookup-insert set key new ((name, held) ∷ rest) =
      ground
        (arith, lookup-insert set key new rest, eq_iff name set, eq_iff name key, eq_iff set key)

  pub lookup-insert_self :
      (key : Text) (new : V) (m : Dict V) → lookup key (insert key new m) ≡ some new
  lookup-insert_self key new m = rw lookup-insert (ground (arith, eq_refl key))
