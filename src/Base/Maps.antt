-- ===== src/Base/Maps.antt =====
-- Go maps with text keys, as association lists.
use Prim.Native.Nat.{ℕ, suc, ◌≤◌}
use mathlib.Core.Path.{◌≡◌, refl}
use mathlib.Core.Bool.{Bool}
use mathlib.Core.List.{List, [], ◌∷◌}
use mathlib.Core.Option.{Option, none, some}
use native.Mathlib.Omega.{arith}
use streamcore_server.Base.Tests.{if◌then◌else◌, is_some}
use streamcore_server.Base.Texts.{Text, text_eq, text_eq_iff, text_eq_self}

abbrev pub Map {ℓ} : Type ℓ → Type ℓ
Map V = List (Text × V)

module _ {ℓ} {V : Type ℓ} where
  unfoldable pub lookup : Text → Map V → Option V
  lookup k [] = none
  lookup k ((j, v) ∷ m) = if text_eq j k then some v else lookup k m

  -- `m[k] = v`
  unfoldable pub insert : Text → V → Map V → Map V
  insert k v [] = (k, v) ∷ []
  insert k v ((j, w) ∷ m) = if text_eq j k then (k, v) ∷ m else (j, w) ∷ insert k v m

  -- `delete(m, k)`
  unfoldable pub delete : Text → Map V → Map V
  delete k [] = []
  delete k ((j, w) ∷ m) = if text_eq j k then delete k m else (j, w) ∷ delete k m

  -- `for k, v := range m { if drop v { delete(m, k) } }`
  unfoldable pub sweep : (V → Bool) → Map V → Map V
  sweep p [] = []
  sweep p ((j, w) ∷ m) = if p w then sweep p m else (j, w) ∷ sweep p m

  -- `len(m)`
  unfoldable pub size : Map V → ℕ
  size [] = 0
  size (_ ∷ m) = suc (size m)

  -- No key stands twice.
  abbrev pub Distinct : Map V → Type ℓ
  Distinct [] = Unit
  Distinct ((k, v) ∷ m) = (lookup k m ≡ none) × Distinct m

module _ {ℓ} {V : Type ℓ} where
  pub lookup-insert :
      (k j : Text) (v : V) (m : Map V)
      → lookup j (insert k v m) ≡ (if text_eq k j then some v else lookup j m)
  unfolding lookup insert
  lookup-insert k j v [] = refl
  lookup-insert k j v ((i, w) ∷ m) =
      ground (arith, text_eq_iff k j, text_eq_iff i k, text_eq_iff i j, lookup-insert k j v m)

  pub lookup-delete :
      (k j : Text) (m : Map V) → lookup j (delete k m) ≡ (if text_eq k j then none else lookup j m)
  unfolding lookup delete
  lookup-delete k j [] = ground arith
  lookup-delete k j ((i, w) ∷ m) =
      ground (arith, text_eq_iff k j, text_eq_iff i k, text_eq_iff i j, lookup-delete k j m)

  pub lookup-insert_self : (k : Text) (v : V) (m : Map V) → lookup k (insert k v m) ≡ some v
  lookup-insert_self k v m = rw lookup-insert (rw text_eq_self)

  pub lookup-delete_self : (k : Text) (m : Map V) → lookup k (delete k m) ≡ none
  lookup-delete_self k m = rw lookup-delete (rw text_eq_self)

  pub lookup-sweep-none :
      (p : V → Bool) (k : Text) (m : Map V) → lookup k m ≡ none → lookup k (sweep p m) ≡ none
  unfolding lookup sweep
  lookup-sweep-none p k [] h = refl
  lookup-sweep-none p k ((i, w) ∷ m) h = ground (arith, lookup-sweep-none p k m)

  -- What a sweep leaves under a key.
  abbrev pub kept : (V → Bool) → Option V → Option V
  kept p none = none
  kept p (some v) = if p v then none else some v

  pub lookup-sweep :
      (p : V → Bool) (k : Text) (m : Map V)
      → Distinct m
      → lookup k (sweep p m) ≡ kept p (lookup k m)
  unfolding lookup sweep
  lookup-sweep p k [] d = refl
  lookup-sweep p k ((i, w) ∷ m) (f, d) =
      ground (arith, lookup-sweep p k m d, lookup-sweep-none p k m, text_eq_iff i k)

  pub insert-Distinct : (k : Text) (v : V) (m : Map V) → Distinct m → Distinct (insert k v m)
  unfolding insert lookup
  insert-Distinct k v [] d = (refl, tt)
  insert-Distinct k v ((i, w) ∷ m) (f, d) =
      ground
        (arith, insert-Distinct k v m d, lookup-insert k i v m, text_eq_iff i k, text_eq_iff k i)

  pub delete-Distinct : (k : Text) (m : Map V) → Distinct m → Distinct (delete k m)
  unfolding delete lookup
  delete-Distinct k [] d = tt
  delete-Distinct k ((i, w) ∷ m) (f, d) = ground (arith, delete-Distinct k m d, lookup-delete k i m)

  pub sweep-Distinct : (p : V → Bool) (m : Map V) → Distinct m → Distinct (sweep p m)
  unfolding sweep lookup
  sweep-Distinct p [] d = tt
  sweep-Distinct p ((i, w) ∷ m) (f, d) =
      ground (arith, sweep-Distinct p m d, lookup-sweep-none p i m)

  pub size-insert :
      (k : Text) (v : V) (m : Map V)
      → size (insert k v m) ≡ (if is_some (lookup k m) then size m else suc (size m))
  unfolding insert lookup size
  size-insert k v [] = refl
  size-insert k v ((i, w) ∷ m) = ground (arith, size-insert k v m)

  pub size-delete-le : (k : Text) (m : Map V) → size (delete k m) ≤ size m
  unfolding delete size
  size-delete-le k [] = omega arith
  size-delete-le k ((i, w) ∷ m) = ground (arith, size-delete-le k m)

  pub size-sweep-le : (p : V → Bool) (m : Map V) → size (sweep p m) ≤ size m
  unfolding sweep size
  size-sweep-le p [] = omega arith
  size-sweep-le p ((i, w) ∷ m) = ground (arith, size-sweep-le p m)
