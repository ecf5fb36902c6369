-- ===== src/Prelude/Maps.antt =====
-- std::unordered_map with integer keys, as a list of entries. The list is in the order in which the
-- container would be iterated, which the standard leaves open: theorems are about every list.
use Prim.Native.Nat.{ℕ}
use mathlib.Core.Path.{◌≡◌, refl}
use mathlib.Core.Logic.{◌≢◌}
use mathlib.Core.List.{List, [], ◌∷◌}
use mathlib.Core.Option.{Option, none, some}
use native.Mathlib.Omega.{arith}
use dserver_framework.Prelude.Tests.{◌==◌, if◌then◌else◌}

module _ {ℓ} {V : Type ℓ} where
  -- find(k), with `none` for end()
  abbrev pub lookup : ℕ → List (ℕ × V) → Option V
  lookup k [] = none
  lookup k ((j, v) ∷ m) = if j == k then some v else lookup k m

  -- erase(k)
  unfoldable pub erase : ℕ → List (ℕ × V) → List (ℕ × V)
  erase k [] = []
  erase k ((j, v) ∷ m) = let rest = erase k m in if j == k then rest else (j, v) ∷ rest

  -- m[k] = v
  unfoldable pub insert : ℕ → V → List (ℕ × V) → List (ℕ × V)
  insert k v [] = (k, v) ∷ []
  insert k v ((j, w) ∷ m) = let rest = insert k v m in if j == k then (j, v) ∷ m else (j, w) ∷ rest

  pub lookup-erase :
      (k j : ℕ) (m : List (ℕ × V)) → lookup j (erase k m) ≡ (if k == j then none else lookup j m)
  unfolding erase
  lookup-erase k j [] = ground arith
  lookup-erase k j ((i, w) ∷ m) = ground (arith, lookup-erase k j m)

  pub lookup-insert :
      (k j : ℕ) (v : V) (m : List (ℕ × V))
      → lookup j (insert k v m) ≡ (if k == j then some v else lookup j m)
  unfolding insert
  lookup-insert k j v [] = ground arith
  lookup-insert k j v ((i, w) ∷ m) = ground (arith, lookup-insert k j v m)

  -- A map keeps one entry for a key.
  abbrev pub Absent : ℕ → List (ℕ × V) → Type ℓ
  Absent k m = lookup k m ≡ none

  abbrev pub IsMap : List (ℕ × V) → Type ℓ
  IsMap [] = Unit
  IsMap ((k, v) ∷ m) = Absent k m × IsMap m

module _ {ℓ} {V : Type ℓ} where
  -- m[k] read as a value, for pointers: a missing key is inserted with a null pointer.
  unfoldable pub subscript : ℕ → List (ℕ × Option V) → Option V × List (ℕ × Option V)
  subscript k m = elim (lookup k m) [ none ↦ (none, insert k none m) | some p ↦ (p, m) ]

module _ {ℓ} {V : Type ℓ} where
  pub erase-IsMap : (k : ℕ) (m : List (ℕ × V)) → IsMap m → IsMap (erase k m)
  unfolding erase
  erase-IsMap k [] h = h
  erase-IsMap k ((j, v) ∷ m) h = ground (arith, lookup-erase k j m, erase-IsMap k m h.1, h.0)

  pub insert-IsMap : (k : ℕ) (v : V) (m : List (ℕ × V)) → IsMap m → IsMap (insert k v m)
  unfolding insert
  insert-IsMap k v [] h = (refl, tt)
  insert-IsMap k v ((j, w) ∷ m) h =
      ground (arith, lookup-insert k j v m, insert-IsMap k v m h.1, h.0)

  -- Every entry of a map is found under its key.
  abbrev pub Found : List (ℕ × V) → List (ℕ × V) → Type ℓ
  Found m [] = Unit
  Found m ((k, v) ∷ rest) = (lookup k m ≡ some v) × Found m rest

  Found-cons :
      (j : ℕ) (w : V) (m rest : List (ℕ × V)) → Absent j m → Found m rest → Found ((j, w) ∷ m) rest
  Found-cons j w m [] h f = tt
  Found-cons j w m ((k, v) ∷ rest) h f = (ground arith, Found-cons j w m rest h f.1)

  pub IsMap-Found : (m : List (ℕ × V)) → IsMap m → Found m m
  IsMap-Found [] h = tt
  IsMap-Found ((k, v) ∷ m) h = (ground arith, Found-cons k v m m h.0 (IsMap-Found m h.1))

-- A store of objects by address; assigning to an object replaces it.
module _ {ℓ} {A : Type ℓ} where
  unfoldable pub update : (ℕ → A) → ℕ → A → ℕ → A
  update f k v j = if k == j then v else f j

  update_self : (f : ℕ → A) (k : ℕ) (v : A) → update f k v k ≡ v
  unfolding update
  update_self f k v = ground arith

  update_ne : (f : ℕ → A) (k j : ℕ) (v : A) → k ≢ j → update f k v j ≡ f j
  unfolding update
  update_ne f k j v h = ground arith
