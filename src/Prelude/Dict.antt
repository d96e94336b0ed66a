-- ===== src/Prelude/Dict.antt =====
-- Rust's `HashMap` with text keys, as an association list. The program reads no order of entries.
use Prim.Native.Nat.{ℕ, ◌+◌, ◌≤◌}
use mathlib.Core.Path.{◌≡◌, refl}
use mathlib.Core.Bool.{Bool, true, false}
use mathlib.Core.Option.{Option, none, some}
use mathlib.Core.List.{List, [], ◌∷◌}
use native.Mathlib.Omega.{arith}
use durable_streams_referenc.Prelude.Tests.{if◌then◌else◌}
use durable_streams_referenc.Prelude.Text.{Text, text_eq, text_eq_iff}

abbrev pub Dict {ℓ} : Type ℓ → Type ℓ
Dict V = List (Text × V)

module _ {ℓ} {V : Type ℓ} where
  -- `map.get(k)`
  unfoldable pub lookup : Text → Dict V → Option V
  lookup k [] = none
  lookup k ((j, v) ∷ d) = if text_eq j k then some v else lookup k d

  -- `map.insert(k, v)`
  unfoldable pub insert : Text → V → Dict V → Dict V
  insert k v [] = (k, v) ∷ []
  insert k v ((j, w) ∷ d) = if text_eq j k then (k, v) ∷ d else (j, w) ∷ insert k v d

  -- `map.remove(k)`
  unfoldable pub remove : Text → Dict V → Dict V
  remove k [] = []
  remove k ((j, w) ∷ d) = if text_eq j k then d else (j, w) ∷ remove k d

  -- `map.retain(|_, v| keep(v))`
  unfoldable pub retain : (V → Bool) → Dict V → Dict V
  retain keep [] = []
  retain keep ((j, w) ∷ d) = if keep w then (j, w) ∷ retain keep d else retain keep d

  -- No key is listed twice.
  abbrev pub IsDistinct : Dict V → Type ℓ
  IsDistinct [] = Unit {ℓ}
  IsDistinct ((k, v) ∷ d) = (lookup k d ≡ none) × IsDistinct d

  -- `P` holds of every value.
  abbrev pub AllValues {κ} : (V → Type κ) → Dict V → Type κ
  AllValues P [] = Unit {κ}
  AllValues P ((k, v) ∷ d) = P v × AllValues P d

  -- The sum of a measure over all values.
  unfoldable pub sum_by : (V → ℕ) → Dict V → ℕ
  sum_by f [] = 0
  sum_by f ((k, v) ∷ d) = f v + sum_by f d

module _ {ℓ} {V : Type ℓ} where
  pub lookup-insert :
      (j k : Text) (v : V) (d : Dict V)
      → lookup j (insert k v d) ≡ (if text_eq k j then some v else lookup j d)
  unfolding lookup insert
  lookup-insert j k v [] = refl
  lookup-insert j k v ((i, w) ∷ d) =
      ground (arith, lookup-insert j k v d, text_eq_iff i k, text_eq_iff i j, text_eq_iff k j)

  pub lookup-remove_ne :
      (j k : Text) (d : Dict V) → text_eq k j ≡ false → lookup j (remove k d) ≡ lookup j d
  unfolding lookup remove
  lookup-remove_ne j k [] h = refl
  lookup-remove_ne j k ((i, w) ∷ d) h =
      ground (arith, lookup-remove_ne j k d h, text_eq_iff i k, text_eq_iff i j, text_eq_iff k j)

  pub lookup-remove-none :
      (j k : Text) (d : Dict V) → lookup j d ≡ none → lookup j (remove k d) ≡ none
  unfolding lookup remove
  lookup-remove-none j k [] h = refl
  lookup-remove-none j k ((i, w) ∷ d) h = ground (arith, lookup-remove-none j k d)

  pub lookup-remove_self : (k : Text) (d : Dict V) → IsDistinct d → lookup k (remove k d) ≡ none
  unfolding lookup remove
  lookup-remove_self k [] h = refl
  lookup-remove_self k ((i, w) ∷ d) h = ground (arith, lookup-remove_self k d h.1, text_eq_iff i k)

  -- What `retain` keeps is still found.
  pub lookup-retain :
      (keep : V → Bool) (k : Text) (v : V) (d : Dict V)
      → lookup k d ≡ some v
      → keep v ≡ true
      → lookup k (retain keep d) ≡ some v
  unfolding lookup retain
  lookup-retain keep k v [] e h = cc
  lookup-retain keep k v ((i, w) ∷ d) e h = ground (arith, lookup-retain keep k v d)

  pub insert-IsDistinct : (k : Text) (v : V) (d : Dict V) → IsDistinct d → IsDistinct (insert k v d)
  unfolding lookup insert
  insert-IsDistinct k v [] h = (refl, tt)
  insert-IsDistinct k v ((i, w) ∷ d) h =
      ground (
        arith,
        insert-IsDistinct k v d h.1,
        lookup-insert i k v d,
        text_eq_iff i k,
        text_eq_iff k i,
      )

  pub remove-IsDistinct : (k : Text) (d : Dict V) → IsDistinct d → IsDistinct (remove k d)
  unfolding remove
  remove-IsDistinct k [] h = tt
  remove-IsDistinct k ((i, w) ∷ d) h =
      ground (arith, remove-IsDistinct k d h.1, lookup-remove-none i k d h.0)

module _ {ℓ κ} {V : Type ℓ} (P : V → Type κ) where
  pub insert-AllValues :
      (k : Text) (v : V) (d : Dict V) → P v → AllValues P d → AllValues P (insert k v d)
  unfolding insert
  insert-AllValues k v [] p h = (p, tt)
  insert-AllValues k v ((i, w) ∷ d) p h = ground (arith, insert-AllValues k v d p h.1)

  pub remove-AllValues : (k : Text) (d : Dict V) → AllValues P d → AllValues P (remove k d)
  unfolding remove
  remove-AllValues k [] h = tt
  remove-AllValues k ((i, w) ∷ d) h = ground (arith, remove-AllValues k d h.1)

  pub lookup-AllValues : (k : Text) {v : V} (d : Dict V) → AllValues P d → lookup k d ≡ some v → P v
  unfolding lookup
  lookup-AllValues k [] h e = cc
  lookup-AllValues k {v} ((i, w) ∷ d) h e = ground (arith, lookup-AllValues k {v = v} d h.1)

module _ {ℓ} {V : Type ℓ} (f : V → ℕ) where
  pub sum_by-insert :
      (k : Text) (v old : V) (d : Dict V)
      → lookup k d ≡ some old
      → sum_by f (insert k v d) + f old ≡ sum_by f d + f v
  unfolding lookup insert sum_by
  sum_by-insert k v old [] e = cc
  sum_by-insert k v old ((i, w) ∷ d) e = ground (arith, sum_by-insert k v old d)

  pub sum_by-insert_new :
      (k : Text) (v : V) (d : Dict V)
      → lookup k d ≡ none
      → sum_by f (insert k v d) ≡ sum_by f d + f v
  unfolding lookup insert sum_by
  sum_by-insert_new k v [] e = omega arith
  sum_by-insert_new k v ((i, w) ∷ d) e = ground (arith, sum_by-insert_new k v d)

  pub sum_by-remove :
      (k : Text) (old : V) (d : Dict V)
      → lookup k d ≡ some old
      → sum_by f (remove k d) + f old ≡ sum_by f d
  unfolding lookup remove sum_by
  sum_by-remove k old [] e = cc
  sum_by-remove k old ((i, w) ∷ d) e = ground (arith, sum_by-remove k old d)

  pub lookup-le-sum_by : (k : Text) (v : V) (d : Dict V) → lookup k d ≡ some v → f v ≤ sum_by f d
  unfolding lookup sum_by
  lookup-le-sum_by k v [] e = cc
  lookup-le-sum_by k v ((i, w) ∷ d) e = ground (arith, lookup-le-sum_by k v d)
