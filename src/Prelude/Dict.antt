-- ===== src/Prelude/Dict.antt =====
-- A Python dict with text keys, in insertion order.
use mathlib.Core.Path.{◌≡◌, refl}
use mathlib.Core.Option.{Option, none, some}
use mathlib.Core.List.{List, [], ◌∷◌}
use Prim.Native.String.{String}
use native.Mathlib.Omega.{arith}
use text.Mathlib.Text.{◌==◌}
use text.Mathlib.TextEquality.{eq_iff}
use prd_api_wrapper.Prelude.Tests.{if◌then◌else◌}

abbrev pub Dict {ℓ} : Type ℓ → Type ℓ
Dict V = List (String × V)

module _ {ℓ} {V : Type ℓ} where
  -- `d.get(k)`
  unfoldable pub lookup : String → Dict V → Option V
  lookup k [] = none
  lookup k ((j, v) ∷ d) = if j == k then some v else lookup k d

  -- `d[k] = v`
  unfoldable pub insert : String → V → Dict V → Dict V
  insert k v [] = (k, v) ∷ []
  insert k v ((j, w) ∷ d) = if j == k then (j, v) ∷ d else (j, w) ∷ insert k v d

  -- `d | e`, where `e` wins
  unfoldable pub merge : Dict V → Dict V → Dict V
  merge d [] = d
  merge d ((k, v) ∷ e) = merge (insert k v d) e

  -- `d or None`
  abbrev pub non_empty_dict : Dict V → Option (Dict V)
  non_empty_dict [] = none
  non_empty_dict (e ∷ d) = some (e ∷ d)

  pub lookup-insert :
      (k j : String) (v : V) (d : Dict V)
      → lookup j (insert k v d) ≡ (if k == j then some v else lookup j d)
  unfolding lookup insert
  lookup-insert k j v [] = refl
  lookup-insert k j v ((i, w) ∷ d) =
      ground (arith, eq_iff k j, eq_iff i k, eq_iff i j, lookup-insert k j v d)

  -- No key is listed twice, which a Python dict guarantees.
  abbrev pub IsDict : Dict V → Type ℓ
  IsDict [] = Unit
  IsDict ((k, v) ∷ d) = (lookup k d ≡ none) × IsDict d

  pub insert-IsDict : (k : String) (v : V) (d : Dict V) → IsDict d → IsDict (insert k v d)
  unfolding lookup insert
  insert-IsDict k v [] h = (refl, tt)
  insert-IsDict k v ((j, w) ∷ d) h =
      ground (arith, eq_iff j k, eq_iff k j, lookup-insert k j v d, insert-IsDict k v d h.1)

  pub merge-IsDict : (d e : Dict V) → IsDict d → IsDict (merge d e)
  unfolding merge
  merge-IsDict d [] h = h
  merge-IsDict d ((k, v) ∷ e) h = merge-IsDict (insert k v d) e (insert-IsDict k v d h)

  abbrev pub or_else : Option V → Option V → Option V
  or_else none o = o
  or_else (some v) o = some v

  -- In a merged dict the right operand wins, and the left one answers for the other keys.
  pub lookup-merge :
      (j : String) (d e : Dict V)
      → IsDict e
      → lookup j (merge d e) ≡ or_else (lookup j e) (lookup j d)
  unfolding merge lookup
  lookup-merge j d [] h = refl
  lookup-merge j d ((k, v) ∷ e) h =
      ground (arith, eq_iff k j, lookup-insert k j v d, lookup-merge j (insert k v d) e h.1)
