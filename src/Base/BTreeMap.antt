-- ===== src/Base/BTreeMap.antt =====
-- std's BTreeMap with u64 keys: an association list in the order of its keys.
use Prim.Native.Nat.{ℕ}
use mathlib.Core.Path.{◌≡◌, refl}
use mathlib.Core.Bool.{false, true}
use mathlib.Core.List.{List, [], ◌∷◌}
use mathlib.Core.Option.{Option, none, some}
use native.Mathlib.Omega.{arith}
use rust_raft.Base.Lists.{contains}
use rust_raft.Base.Conditions.{if◌then◌else◌, ltb, ◌==◌}

abbrev pub BTreeMap {ℓ} : Type ℓ → Type ℓ
BTreeMap V = List (ℕ × V)

module _ {ℓ} {V : Type ℓ} where
  unfoldable pub get : ℕ → BTreeMap V → Option V
  get k [] = none
  get k ((j, v) ∷ m) = if j == k then some v else get k m

  unfoldable pub insert : ℕ → V → BTreeMap V → BTreeMap V
  insert k v [] = (k, v) ∷ []
  insert k v ((j, w) ∷ m) =
      if k == j then (k, v) ∷ m else if ltb k j then (k, v) ∷ (j, w) ∷ m else (j, w) ∷ insert k v m

  unfoldable pub remove : ℕ → BTreeMap V → BTreeMap V
  remove k [] = []
  remove k ((j, v) ∷ m) = if j == k then remove k m else (j, v) ∷ remove k m

  -- A write through `get_mut(k)`.
  unfoldable pub modify : ℕ → (V → V) → BTreeMap V → BTreeMap V
  modify k f [] = []
  modify k f ((j, v) ∷ m) = (j, if j == k then f v else v) ∷ modify k f m

  -- A loop over `values_mut()`.
  unfoldable pub map_values : (V → V) → BTreeMap V → BTreeMap V
  map_values f [] = []
  map_values f ((j, v) ∷ m) = (j, f v) ∷ map_values f m

  unfoldable pub keys : BTreeMap V → List ℕ
  keys [] = []
  keys ((j, v) ∷ m) = j ∷ keys m

  unfoldable pub values : BTreeMap V → List V
  values [] = []
  values ((j, v) ∷ m) = v ∷ values m

  pub get-insert :
      (k j : ℕ) (v : V) (m : BTreeMap V)
      → get j (insert k v m) ≡ (if k == j then some v else get j m)
  unfolding get insert
  get-insert k j v [] = refl
  get-insert k j v ((i, w) ∷ m) = ground (arith, get-insert k j v m)

  pub get-remove :
      (k j : ℕ) (m : BTreeMap V) → get j (remove k m) ≡ (if k == j then none else get j m)
  unfolding get remove
  get-remove k j [] = ground arith
  get-remove k j ((i, w) ∷ m) = ground (arith, get-remove k j m)

  pub get-modify_self :
      (k : ℕ) (f : V → V) (m : BTreeMap V) (v : V)
      → get k m ≡ some v
      → get k (modify k f m) ≡ some (f v)
  unfolding get modify
  get-modify_self k f [] v h = ground arith
  get-modify_self k f ((i, w) ∷ m) v h = ground (arith, get-modify_self k f m v)

  pub get-modify_ne :
      (k j : ℕ) (f : V → V) (m : BTreeMap V) → (k == j) ≡ false → get j (modify k f m) ≡ get j m
  unfolding get modify
  get-modify_ne k j f [] h = refl
  get-modify_ne k j f ((i, w) ∷ m) h = ground (arith, get-modify_ne k j f m)

  pub get-map_values :
      (k : ℕ) (f : V → V) (m : BTreeMap V) (v : V)
      → get k m ≡ some v
      → get k (map_values f m) ≡ some (f v)
  unfolding get map_values
  get-map_values k f [] v h = cc
  get-map_values k f ((j, w) ∷ m) v h = ground (arith, get-map_values k f m v)

  pub contains-keys :
      (k : ℕ) (m : BTreeMap V) (v : V) → get k m ≡ some v → contains k (keys m) ≡ true
  unfolding get keys
  contains-keys k [] v h = cc
  contains-keys k ((j, w) ∷ m) v h = ground (arith, contains-keys k m v)
